-- ===== src/MergeGrant/Decide/Granted.antt =====
-- gates/_merge_grant.py, `decide`: what a grant that holds has been found to be.
use vibe_verifier.Base.{
  ◌≡◌, refl, ap, ◌∙◌, ◌⊎◌, inl, inr, Bool, true, false, not, ◌||◌, Option, none, some, List, [],
  ◌∷◌, Result, ok, err, returned, any, All, In, arith, Bool-cases,
}
use vibe_verifier.Base.Text.{Text}
use vibe_verifier.MergeGrant.Lines.{LinesRule, line_hit}
use vibe_verifier.MergeGrant.Decide.Steps.{
  nothing_selected, passed_if, unless, passed_unless, true_branch, named, none_of, or_raise, Passed,
  then_ok,
}
use vibe_verifier.MergeGrant.Decide.Paths.{BothPaths, any-paths}
use vibe_verifier.MergeGrant.Policy.{
  Row, Entry, Exclusion, Grant, base, head, Reads, Python, paths, is_control, flat, selected,
  path_hits, is_any,
}
use vibe_verifier.MergeGrant.Decide.{
  holds, row_holds, rows_hold, categorized, line_hits, exclusion_hits, excluded, judge_rows, judge,
  in_scope, grant_answer, decide_from, decide,
}

module _ (python : Python) (reads : Reads) where
  -- Every condition that one of the file's paths matches holds.
  abbrev pub EntriesHold : Row → List Entry → Type 0
  EntriesHold row = All (λ entry.
      entry.path row.old || entry.path row.new ≡ true → holds python reads entry row ≡ ok none)

  -- A file that an exclusion selects has none of the lines that its rule looks for.
  abbrev pub LinesFree : Exclusion → LinesRule → Row → Type 0
  LinesFree exclusion rule row =
      selected exclusion row.old || selected exclusion row.new ≡ true
      → (old : Option Text) × (new : Option Text) × (reads.read row.old base ≡ ok old)
        × (reads.read row.new head ≡ ok new)
        × (line_hit python.lower rule old new ≡ false)

  abbrev pub Excludes : List Row → Exclusion → Option LinesRule → Type 0
  Excludes rows exclusion none = All (BothPaths (selected exclusion)) rows
  Excludes rows exclusion (some rule) = All (LinesFree exclusion rule) rows

  abbrev pub Categorized : List Row → Option (List (List Entry)) → Type 0
  Categorized rows none = Unit
  Categorized rows (some categories) =
      All (BothPaths (λ path. not (any (λ entry. entry.path path) (flat categories)))) rows
      × All (λ row. EntriesHold row (flat categories)) rows

  row_holds-EntriesHold :
      (row : Row) (entries : List Entry)
      → row_holds python reads row entries ≡ ok none
      → EntriesHold row entries
  unfolding row_holds
  row_holds-EntriesHold row [] h = tt
  row_holds-EntriesHold row (entry ∷ entries) h =
      elim (Bool-cases (entry.path row.old || entry.path row.new)) [
        | inl e ↦
            let (why, held, rest) = returned (holds python reads entry row) _ none (rw e at h) in
            let both = none_of why _ rest in
            ((λ _. held ∙ ap ok both.0), row_holds-EntriesHold row entries both.1)
        | inr e ↦ ((λ matched. cc), row_holds-EntriesHold row entries (rw e at h))
      ]

  rows_hold-EntriesHold :
      (entries : List Entry) (rows : List Row) (b : Bool)
      → rows_hold python reads entries rows ≡ ok b
      → All (λ row. EntriesHold row entries) rows
  unfolding rows_hold
  rows_hold-EntriesHold entries [] b h = tt
  rows_hold-EntriesHold entries (row ∷ rows) b h =
      let (why, held, rest) = returned (row_holds python reads row entries) _ b h in
      let both = or_raise why _ _ rest in
      (
        row_holds-EntriesHold row entries (held ∙ ap ok both.0),
        rows_hold-EntriesHold entries rows b both.1,
      )

  line_hits-LinesFree :
      (exclusion : Exclusion) (rule : LinesRule) (rows : List Row) (b : Bool)
      → line_hits python reads exclusion rule rows ≡ ok b
      → All (LinesFree exclusion rule) rows
  unfolding line_hits
  line_hits-LinesFree exclusion rule [] b h = tt
  line_hits-LinesFree exclusion rule (row ∷ rows) b h =
      elim (Bool-cases (selected exclusion row.old || selected exclusion row.new)) [
        | inl e ↦
            let (old, read_old, later) = returned (reads.read row.old base) _ b (rw e at h) in
            let (new, read_new, tested) = returned (reads.read row.new head) _ b later in
            let free = passed_if _ _ _ _ tested in
            (
              (λ _. (old, new, read_old, read_new, free.0)),
              line_hits-LinesFree exclusion rule rows b free.1,
            )
        | inr e ↦ ((λ matched. cc), line_hits-LinesFree exclusion rule rows b (rw e at h))
      ]

  exclusion_hits-Excludes :
      (rows : List Row) (exclusion : Exclusion) (lines : Option LinesRule)
      → Passed (elim lines as (λ _. Result Text Bool) [
        | none ↦ path_hits exclusion rows
        | some rule ↦ line_hits python reads exclusion rule rows
      ])
      → Excludes rows exclusion lines
  unfolding path_hits
  exclusion_hits-Excludes rows exclusion none (b, h) =
      any-paths (selected exclusion) rows
        (nothing_selected (selected exclusion) (paths rows) (passed_unless _ true _ b h))
  exclusion_hits-Excludes rows exclusion (some rule) (b, h) =
      line_hits-LinesFree exclusion rule rows b h

  excluded-Excludes :
      (rows : List Row) (exclusions : List Exclusion)
      → excluded python reads rows exclusions ≡ ok true
      → All (λ exclusion. Excludes rows exclusion exclusion.lines) exclusions
  unfolding excluded
  excluded-Excludes rows [] h = tt
  excluded-Excludes rows (exclusion ∷ exclusions) h =
      let both =
        then_ok (exclusion_hits python reads rows exclusion) (excluded python reads rows exclusions)
          h in
      (
        exclusion_hits-Excludes rows exclusion exclusion.lines both.0,
        excluded-Excludes rows exclusions both.1,
      )

  categorized-Categorized :
      (names : List Text) (categories : Option (List (List Entry))) (rows : List Row)
      → Passed (elim categories as (λ _. Result Text Bool) [
        | none ↦ ok true
        | some entries ↦ categorized python reads names (flat entries) rows
      ])
      → Categorized rows categories
  unfolding categorized
  categorized-Categorized names none rows h = tt
  categorized-Categorized names (some categories) rows (b, h) =
      let inside = unless _ _ _ b h in
      (
        any-paths (λ path. not (any (λ entry. entry.path path) (flat categories))) rows
            (nothing_selected _ (paths rows) inside.0),
        rows_hold-EntriesHold (flat categories) rows b inside.1,
      )

  -- What `_judge` reads and tests of the changed files
  abbrev pub Judged : Grant → List Row → Type 0
  Judged grant rows =
      All (BothPaths (any is_control)) rows
      × Categorized rows grant.categories
      × All (λ exclusion. Excludes rows exclusion exclusion.lines) grant.exclusions

  judge_rows-Judged :
      (grant : Grant) (rows : List Row)
      → judge_rows python reads grant rows ≡ ok true
      → Judged grant rows
  unfolding judge_rows
  judge_rows-Judged grant rows h =
      let printable = passed_if (any (any is_control) (paths rows)) _ _ true h in
      let both = then_ok _ (excluded python reads rows grant.exclusions) printable.1 in
      (
        any-paths (any is_control) rows printable.0,
        categorized-Categorized grant.category_names grant.categories rows both.0,
        excluded-Excludes rows grant.exclusions both.1,
      )

  abbrev pub Holds : Text → Grant → Type 0
  Holds repo grant =
      (in_scope python reads repo grant ≡ ok true)
      × ((is_any grant ≡ true) ⊎ ((rows : List Row) × (reads.files ≡ ok rows) × Judged grant rows))

  judge-Judged :
      (grant : Grant)
      → judge python reads grant ≡ ok true
      → (is_any grant ≡ true) ⊎ ((rows : List Row) × (reads.files ≡ ok rows) × Judged grant rows)
  unfolding judge
  judge-Judged grant h = elim (Bool-cases (is_any grant)) [
    | inl e ↦ inl e
    | inr e ↦
        let (rows, listed, judged) = returned reads.files _ true (rw e at h) in
        inr (rows, listed, judge_rows-Judged grant rows judged)
  ]

  grant_answer-Holds :
      (repo : Text) (grant : Grant)
      → grant_answer python reads repo grant ≡ ok true
      → Holds repo grant
  unfolding grant_answer
  grant_answer-Holds repo grant h =
      let (scoped, scope, judged) = returned (in_scope python reads repo grant) _ true h in
      let both = true_branch scoped _ judged in (scope ∙ ap ok both.0, judge-Judged grant both.1)

  answered :
      (answer : Result Text Bool) (name found : Text) (on : Result (List Text) Text)
      (later : Text → Result (List Text) Text)
      → (elim answer as (λ _. Result (List Text) Text) [
        | ok true ↦ ok name
        | ok false ↦ on
        | err why ↦ later why
      ])
        ≡ ok found
      → ((answer ≡ ok true) × (name ≡ found))
        ⊎ ((on ≡ ok found) ⊎ ((why : Text) × (later why ≡ ok found)))
  answered (ok true) name found on later h = inl (refl, ground arith)
  answered (ok false) name found on later h = inr (inl h)
  answered (err why) name found on later h = inr (inr (why, h))

  abbrev Found : Text → List Grant → Text → Type 0
  Found repo grants name =
      (grant : Grant) × In grant grants × (grant.name ≡ name) × Holds repo grant

  Found-later :
      (repo : Text) (grant : Grant) (grants : List Grant) (name : Text)
      → Found repo grants name
      → Found repo (grant ∷ grants) name
  Found-later repo grant grants name (found, inside, named_so, rest) =
      (found, inr inside, named_so, rest)

  decide_from-Holds :
      (repo : Text) (grants : List Grant) (reasons : List Text) (name : Text)
      → decide_from python reads repo grants reasons ≡ ok name
      → Found repo grants name
  unfolding decide_from
  decide_from-Holds repo [] reasons name h = absurd (cc)
  decide_from-Holds repo (grant ∷ grants) reasons name h =
      elim (answered (grant_answer python reads repo grant) grant.name name _ _ h) [
        | inl (held, named) ↦ (grant, inl refl, named, grant_answer-Holds repo grant held)
        | inr (inl on) ↦
            Found-later repo grant grants name (decide_from-Holds repo grants reasons name on)
        | inr (inr (why, on)) ↦
            Found-later repo grant grants name (decide_from-Holds repo grants _ name on)
      ]

  -- Where `decide` names a grant, the policy has a grant of that name that the pull request is in the scope
  -- of. Either the grant asks nothing of the files, or the changed files were read, no path of one has a
  -- control character, every path matches an entry of the grant's categories if it has any, every condition
  -- of an entry that a file matches holds, no path is one that an exclusion without a rule for lines selects,
  -- and in a file that an exclusion with such a rule selects no line hits, its two texts having been read.
  pub decide-Granted :
      (repo : Text) (grants : List Grant) (name : Text)
      → decide python reads repo grants ≡ ok name
      → (grant : Grant) × In grant grants × (grant.name ≡ name) × Holds repo grant
  unfolding decide
  decide-Granted repo grants name h = decide_from-Holds repo grants [] name (named _ _ name h)
