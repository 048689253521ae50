-- ===== src/SuiteScope/Decide/Files.antt =====
-- The paths of the files that GitHub lists, and what it means that none of them is active.
use vibe_verifier.Base.{
  ◌≡◌, ◌⊎◌, inl, inr, refl, ap, sym, true, false, List, [], ◌∷◌, ◌++◌, Result, ok, err, ◌>>=◌,
  arith, if◌then◌else◌, All, subst, All-append_left, All-append_right, Bool-cases, returned,
}
use vibe_verifier.Base.Text.{Text}
use vibe_verifier.Base.Json.{Json, str, Misread, get, truthy}
use vibe_verifier.SuiteScope.InertList.{Patterns, is_inert}
use vibe_verifier.SuiteScope.Decide.{active}
use vibe_verifier.SuiteScope.Reads.{Fault, read_as, file_name, file_paths, collect}

pub read_as-ok : {A : Type 0} (r : Result Misread A) (a : A) → read_as r ≡ ok a → r ≡ ok a
read_as-ok (ok b) a h = cc
read_as-ok (err why) a h = cc

pub ok-injective : {A : Type 0} (a b : A) → ◌≡◌ {A = Result Fault A} (ok a) (ok b) → a ≡ b
ok-injective a b h = cc

-- Every changed path, and every path that a file had before, is a text that the list calls inert.
abbrev pub FileInert : Patterns → Json → Type 0
FileInert patterns file =
    (name : Text) × (get "filename" file ≡ ok (str name))
    × (is_inert name patterns ≡ true)
    × ((previous : Json) × (get "previous_filename" file ≡ ok previous)
        × ((truthy previous ≡ false)
            ⊎ ((old : Text) × (previous ≡ str old) × (is_inert old patterns ≡ true))))

module _ (patterns : Patterns) where
  abbrev pub PathInert : Json → Type 0
  PathInert path = (p : Text) × (path ≡ str p) × (is_inert p patterns ≡ true)

  active_step :
      (p : Text) (r : Result Misread (List Text))
      → (r >>= λ rest. ok (if is_inert p patterns then rest else p ∷ rest)) ≡ ok []
      → (is_inert p patterns ≡ true) × (r ≡ ok [])
  active_step p (err why) h = cc
  active_step p (ok rest) h = ground arith

  pub active-none : (paths : List Json) → active paths patterns ≡ ok [] → All PathInert paths
  unfolding active
  active-none [] h = tt
  active-none (str p ∷ paths) h =
      let step = active_step p (active paths patterns) h in
      ((p, refl, step.0), active-none paths step.1)
  active-none (_ ∷ paths) h = cc

abbrev paths_of : Text → Json → List Json
paths_of name previous = str name ∷ (if truthy previous then previous ∷ [] else [])

previous_step :
    (name : Text) (r : Result Misread Json) (out : Text × List Json)
    → (read_as r >>= λ previous. ok (name, paths_of name previous)) ≡ ok out
    → (previous : Json) × (r ≡ ok previous) × (out ≡ (name, paths_of name previous))
previous_step name (err why) out h = cc
previous_step name (ok previous) out h = (previous, refl, sym (ok-injective _ _ h))

name_step :
    (named : Json) (r : Result Misread Json) (out : Text × List Json)
    → (file_name named >>= λ name. read_as r >>= λ previous. ok (name, paths_of name previous))
      ≡ ok out
    → (named ≡ str out.0)
      × ((previous : Json) × (r ≡ ok previous) × (out.1 ≡ paths_of out.0 previous))
name_step (str (c ∷ s)) r out h =
    let (previous, e, o) = previous_step (c ∷ s) r out h in
    (ap (λ (t : Text × List Json). str t.0) (sym o), (previous, e, rw o))
name_step _ r out h = cc

-- What `file_paths` takes from a file
pub file_step :
    (file : Json) (out : Text × List Json)
    → file_paths file ≡ ok out
    → (get "filename" file ≡ ok (str out.0))
      × ((previous : Json) × (get "previous_filename" file ≡ ok previous)
          × (out.1 ≡ paths_of out.0 previous))
unfolding file_paths
file_step file out h = read_step (get "filename" file) h
  where
    read_step :
        (r : Result Misread Json)
        → (read_as r >>= λ named. file_name named >>= λ name.
            read_as (get "previous_filename" file) >>= λ previous.
            ok (name, paths_of name previous))
          ≡ ok out
        → (r ≡ ok (str out.0))
          × ((previous : Json) × (get "previous_filename" file ≡ ok previous)
              × (out.1 ≡ paths_of out.0 previous))
    read_step (err why) e = cc
    read_step (ok named) e =
        let step = name_step named (get "previous_filename" file) out e in (ap ok step.0, step.1)

pub str-injective : (a b : Text) → str a ≡ str b → a ≡ b
str-injective a b h = cc

module _ (patterns : Patterns) where
  inert_name : (name : Text) → PathInert patterns (str name) → is_inert name patterns ≡ true
  inert_name name (p, e, i) = subst (λ t. is_inert t patterns ≡ true) (sym (str-injective _ _ e)) i

  inert_previous :
      (name : Text) (previous : Json)
      → All (PathInert patterns) (paths_of name previous)
      → (truthy previous ≡ false)
        ⊎ ((old : Text) × (previous ≡ str old) × (is_inert old patterns ≡ true))
  inert_previous name previous h = elim (Bool-cases (truthy previous)) [
    | inl e ↦ inr (rw e at h.1).0
    | inr e ↦ inl e
  ]

  FileInert-of :
      (file : Json) (out : Text × List Json)
      → file_paths file ≡ ok out
      → All (PathInert patterns) out.1
      → FileInert patterns file
  FileInert-of file out h inert =
      let step = file_step file out h in
      let all : All (PathInert patterns) (paths_of out.0 step.1.0) =
        subst (All (PathInert patterns)) step.1.2 inert in
      (
        out.0,
        step.0,
        inert_name out.0 all.0,
        (step.1.0, step.1.1, inert_previous out.0 step.1.0 all),
      )

  abbrev Collected :
      Text → List Json → Result Fault (List Text × List Json) → Result Fault (List Text × List Json)
  Collected name paths r = r >>= λ (all_names, more). ok (all_names, paths ++ more)

  collected :
      (name : Text) (paths : List Json) (r : Result Fault (List Text × List Json))
      (out : List Text × List Json)
      → Collected name paths r ≡ ok out
      → (rest : List Text × List Json) × (r ≡ ok rest) × (out.1 ≡ paths ++ rest.1)
  collected name paths (err why) out h = cc
  collected name paths (ok rest) out h =
      (rest, refl, ap (λ (t : List Text × List Json). t.1) (sym (ok-injective _ _ h)))

  pub collect-FileInert :
      (files : List Json) (names : List Text) (out : List Text × List Json)
      → collect files names ≡ ok out
      → All (PathInert patterns) out.1
      → All (FileInert patterns) files
  unfolding collect
  collect-FileInert [] names out h inert = tt
  collect-FileInert (file ∷ files) names out h inert =
      let first_file = returned (file_paths file) _ out h in
      let found = first_file.0 in
      let (rest, r, o) = collected found.0 found.1 _ out first_file.2 in
      let all : All (PathInert patterns) (found.1 ++ rest.1) =
        subst (All (PathInert patterns)) o inert in
      (
        FileInert-of file found first_file.1
            (All-append_left (PathInert patterns) found.1 rest.1 all),
        collect-FileInert files _ rest r (All-append_right (PathInert patterns) found.1 rest.1 all),
      )
