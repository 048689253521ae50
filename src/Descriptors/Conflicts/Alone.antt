-- ===== src/Descriptors/Conflicts/Alone.antt =====
-- gates/_descriptors.py, `descriptor_for`: nobody else claims the name or the tool of the descriptor that runs.
use vibe_verifier.Base.{
  ◌≤◌, ◌≡◌, refl, sym, ap, ◌∙◌, subst, inl, inr, Bool, true, false, ◌&&◌, ◌||◌, none, some, List,
  [], ◌∷◌, ◌++◌, Result, ok, err, returned, any, leb, length, first, In, arith, Bool-cases,
  Option-cases,
}
use vibe_verifier.Base.Text.{Text, same, same_iff}
use vibe_verifier.Base.Text.Order.{sorted_set, any-sorted_set}
use vibe_verifier.Descriptors.Conflicts.{
  File, Repository, repository_files, sorted_files, Named, gate_of, tool_of, Claim, Gates,
  name_claims, tool_claims, gate_claim, tool_claim, descriptor_claims, claims, is_for, holders,
  of_kind, values, is_named, is_gate, blames, blame, reason_of, conflicts_of, conflicts,
}
use vibe_verifier.Descriptors.Conflicts.Blame.{
  In-back, In-select_of, any-In, blames-blame, none-In, same_refl, some_same,
}
use vibe_verifier.Descriptors.Conflicts.Chosen.{
  Stop, Catalog, reason_for, choose, or_cannot, parse_all, descriptor_for,
}

reason_for-blames :
    (catalog : Catalog) (gate : Text) (why : List (Text × Text))
    → reason_for catalog gate why ≡ none
    → blames gate why ≡ false
reason_for-blames catalog gate [] h = refl
reason_for-blames catalog gate ((other, reason) ∷ more) h = elim (Bool-cases (same gate other)) [
  | inl e ↦ absurd (let k = rw e at h in cc)
  | inr e ↦ rw e (reason_for-blames catalog gate more (rw e at h))
]

-- The key is claimed twice, and the gate is one of its holders.
abbrev is_guilty : Text → List Claim → Bool → Text → Bool
is_guilty g all_claims kind value =
    leb 2 (length (holders kind value all_claims))
    && any (is_gate g) (holders kind value all_claims)

module _ (shown : Text → Text) (g : Text) (all_claims : List Claim) where
  blames-conflicts_of :
      (kind : Bool) (vs : List Text) (why : List (Text × Text))
      → blames g (conflicts_of shown kind vs all_claims why)
        ≡ (blames g why || any (is_guilty g all_claims kind) vs)
  blames-conflicts_of kind [] why = ground arith
  blames-conflicts_of kind (value ∷ vs) why =
      let held = holders kind value all_claims in
      let blamed = blames-blame g (reason_of shown kind value held) held why in
      elim (Bool-cases (leb 2 (length held))) [
        | inl e ↦
            rw (e, conflicts_of)
              (blames-conflicts_of kind vs (blame (reason_of shown kind value held) held why)
                ∙ ground arith)
        | inr e ↦ rw (e, conflicts_of) (blames-conflicts_of kind vs why)
      ]

  In-values :
      (kind : Bool) (c : Claim) (cs : List Claim)
      → In c cs
      → of_kind kind c ≡ true
      → In c.value (values kind cs)
  In-values kind c [] i h = elim i [ ]
  In-values kind c (d ∷ cs) (inl e) h =
      let here : of_kind kind d ≡ true = ap (of_kind kind) (sym e) ∙ h in
      rw here (inl (ap (λ (x : Claim). x.value) e))
  In-values kind c (d ∷ cs) (inr i) h = elim (Bool-cases (of_kind kind d)) [
    | inl e ↦ rw e (inr (In-values kind c cs i h))
    | inr e ↦ rw e (In-values kind c cs i h)
  ]

  is_for-own : (kind : Bool) (c : Claim) → of_kind kind c ≡ true → is_for kind c.value c ≡ true
  is_for-own true c h = ground (arith, same_refl c.value)
  is_for-own false c h = ground (arith, same_refl c.value)

  -- A claim of the gate that is not blamed is the one holder of its key.
  one_holder :
      (kind : Bool) (c : Claim)
      → In c all_claims
      → of_kind kind c ≡ true
      → c.gate ≡ some g
      → any (is_guilty g all_claims kind) (values kind all_claims) ≡ false
      → length (holders kind c.value all_claims) ≤ 1
  one_holder kind c i h e innocent =
      let guilty =
        none-In (is_guilty g all_claims kind) c.value (values kind all_claims) innocent
          (In-values kind c all_claims i h) in
      let held = In-select_of (is_for kind c.value) c all_claims i (is_for-own kind c h) in
      let own : is_gate g c ≡ true = ap (is_named g) e ∙ same_refl g in
      let found = any-In (is_gate g) c (holders kind c.value all_claims) held own in ground arith

In-descriptor_claims :
    (named : Named) (found : List Named)
    → In named found
    → In (gate_claim named) (descriptor_claims found)
      × In (tool_claim named) (descriptor_claims found)
In-descriptor_claims named [] i = elim i [ ]
In-descriptor_claims named (other ∷ found) (inl e) =
    (inl (ap gate_claim e), inr (inl (ap tool_claim e)))
In-descriptor_claims named (other ∷ found) (inr i) =
    let both = In-descriptor_claims named found i in (inr (inr both.0), inr (inr both.1))

In-claims :
    (gates : Gates) (named : Named) (found : List Named)
    → In named found
    → In (gate_claim named) (claims gates found) × In (tool_claim named) (claims gates found)
unfolding claims
In-claims gates named found i =
    let both = In-descriptor_claims named found i in
    (
      In-back (gate_claim named) (name_claims gates.names ++ tool_claims gates.tools)
          (descriptor_claims found) both.0,
      In-back (tool_claim named) (name_claims gates.names ++ tool_claims gates.tools)
          (descriptor_claims found) both.1,
    )

first-In :
    {A : Type 0}
    → (p : A → Bool) (xs : List A) (x : A) → first p xs ≡ some x
    → In x xs × (p x ≡ true)
first-In p [] x h = absurd (cc)
first-In p (y ∷ ys) x h = elim (Bool-cases (p y)) [
  | inl e ↦
      let equal : some y ≡ some x = rw e at h in
      let same_item = some_same equal in (inl (sym same_item), ap p (sym same_item) ∙ e)
  | inr e ↦ let both = first-In p ys x (rw e at h) in (inr both.0, both.1)
]

-- Nothing else claims the descriptor's name, and nothing else its tool.
abbrev pub IsAlone : Gates → List Named → Named → Type 0
IsAlone gates found named =
    (length (holders false (gate_of named) (claims gates found)) ≤ 1)
    × (length (holders true (tool_of named) (claims gates found)) ≤ 1)

or_cannot_ok :
    {A : Type 0}
    → (catalog : Catalog) (r : Result Text A) (a : A) → or_cannot catalog r ≡ ok a
    → r ≡ ok a
or_cannot_ok catalog (ok b) a h = ground arith
or_cannot_ok catalog (err why) a h = absurd (cc)

module _ (catalog : Catalog) where
  innocent-IsAlone :
      (found : List Named) (named : Named)
      → In named found
      → blames (gate_of named) (conflicts catalog.shown catalog.gates found) ≡ false
      → IsAlone catalog.gates found named
  unfolding conflicts
  innocent-IsAlone found named i h =
      let g = gate_of named in
      let all_claims = claims catalog.gates found in
      let names =
        conflicts_of catalog.shown false (sorted_set (values false all_claims)) all_claims [] in
      let tools =
        sym (
          blames-conflicts_of catalog.shown g all_claims true (sorted_set (values true all_claims))
            names)
        ∙ h in
      let named_so =
        blames-conflicts_of catalog.shown g all_claims false (sorted_set (values false all_claims))
          [] in
      let inside = In-claims catalog.gates named found i in
      let no_tool : any (is_guilty g all_claims true) (values true all_claims) ≡ false =
        sym (any-sorted_set (is_guilty g all_claims true) (values true all_claims))
        ∙ (ground arith) in
      let no_name : any (is_guilty g all_claims false) (values false all_claims) ≡ false =
        sym (any-sorted_set (is_guilty g all_claims false) (values false all_claims))
        ∙ (ground arith) in
      (
        one_holder catalog.shown g all_claims false (gate_claim named) inside.0 refl refl no_name,
        one_holder catalog.shown g all_claims true (tool_claim named) inside.1 refl refl no_tool,
      )

  choose-IsAlone :
      (gate : Text) (found : List Named) (named : Named)
      → choose catalog gate found ≡ ok named
      → In named found × (gate_of named ≡ gate) × IsAlone catalog.gates found named
  unfolding choose
  choose-IsAlone gate found named h =
      elim (Option-cases (reason_for catalog gate (conflicts catalog.shown catalog.gates found))) [
        | inr (why, e) ↦ absurd (let k = rw (e, choose) at h in cc)
        | inl e ↦ elim (Option-cases (first (λ (n : Named). same (gate_of n) gate) found)) [
          | inl f ↦ absurd (let k = rw (e, choose) at h in let l = rw f at k in cc)
          | inr (chosen, f) ↦
              let k = rw (e, choose) at h in
              let result : ◌≡◌ {A = Result Stop Named} (ok chosen) (ok named) = rw f at k in
              let equal : chosen ≡ named = cc in
              let both = first-In (λ (n : Named). same (gate_of n) gate) found chosen f in
              let own : gate_of chosen ≡ gate = (same_iff (gate_of chosen) gate).0 both.1 in
              let why = conflicts catalog.shown catalog.gates found in
              let innocent = ap (λ t. blames t why) own ∙ reason_for-blames catalog gate why e in
              subst (λ (n : Named). In n found × (gate_of n ≡ gate) × IsAlone catalog.gates found n)
                equal (both.0, own, innocent-IsAlone found chosen both.0 innocent)
        ]
      ]

  -- What `descriptor_for` has read where it gives a descriptor: every file of the repository's own
  -- descriptors and of the catalog's was a descriptor without problem, and the one that it gives is one of
  -- them, of the gate that was asked for; no other descriptor and no Python gate has its name, and none runs
  -- its tool.
  pub descriptor_for-IsAlone :
      (repository : Repository) (gate : Text) (named : Named)
      → descriptor_for catalog repository gate ≡ ok named
      → (files : List File) × (own : List Named) × (shared : List Named) × (repository_files
            repository
          ≡ ok files)
        × (parse_all catalog (sorted_files files) none ≡ ok own)
        × (parse_all catalog catalog.files (some catalog.is_pinned) ≡ ok shared)
        × In named (own ++ shared)
        × (gate_of named ≡ gate)
        × IsAlone catalog.gates (own ++ shared) named
  unfolding descriptor_for
  descriptor_for-IsAlone repository gate named h =
      let (files, listed, after_files) =
        returned (or_cannot catalog (repository_files repository)) _ named h in
      let (own, read_own, after_own) =
        returned (parse_all catalog (sorted_files files) none) _ named after_files in
      let (shared, read_shared, chosen) =
        returned (parse_all catalog catalog.files (some catalog.is_pinned)) _ named after_own in
      let (inside, own_gate, alone) = choose-IsAlone gate (own ++ shared) named chosen in
      (
        files,
        own,
        shared,
        or_cannot_ok catalog (repository_files repository) files listed,
        read_own,
        read_shared,
        inside,
        own_gate,
        alone,
      )
