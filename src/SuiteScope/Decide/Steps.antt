-- ===== src/SuiteScope/Decide/Steps.antt =====
-- actions/suite-scope/suite_scope.py, `judge`: what each step of a verdict that skips the suite found.
use mathlib.Core.Bool.{false≢true}
use vibe_verifier.Base.{
  ◌∙◌, ℕ, zero, suc, ◌+◌, ◌/◌, ◌≤◌, ◌<◌, ◌≡◌, inl, inr, refl, sym, ap, true, false, Option, none,
  some, List, [], ◌∷◌, ◌++◌, Result, ok, err, ◌>>=◌, arith, eqb, eqb_iff, ltb, is_empty, length,
  All, Bool-cases, returned,
}
use vibe_verifier.Base.Text.{Text, text, same, same_iff}
use vibe_verifier.Base.Json.{Json, int, bool, Misread, index}
use vibe_verifier.SuiteScope.InertList.{Patterns, parse_list}
use vibe_verifier.SuiteScope.Decide.{
  run, judge_base, judge_head, Verdict, active, count_of, scope_verdict, judge_paths, judge_count,
}
use vibe_verifier.SuiteScope.Reads.{
  counted, distinct, Fault, read_as, GitHub, Args, as_text, list_or_none, list_endpoint, base_list,
  pages, collect, changed_paths,
}
use vibe_verifier.SuiteScope.Decide.Files.{
  read_as-ok, ok-injective, FileInert, active-none, collect-FileInert,
}
use vibe_verifier.SuiteScope.Decide.Distinct.{NamedOnce, collect-NamedOnce}

distinct-ok :
    (count : ℕ) (found : List Text × List Json) (paths : List Json)
    → distinct count found ≡ ok paths
    → (length found.0 ≡ count) × (found.1 ≡ paths)
distinct-ok count found paths h = ground (arith, eqb_iff (length found.0) count)

counted-ok :
    (count : ℕ) (files paths : List Json)
    → counted count files ≡ ok paths
    → (length files ≡ count)
      × ((names : List Text) × (collect files [] ≡ ok (names, paths)) × (length names ≡ count))
counted-ok count files paths h = elim (Bool-cases (eqb (length files) count)) [
  | inl e ↦
      let step = returned (collect files []) (distinct count) paths (rw e at h) in
      let fits = distinct-ok count step.0 paths step.2 in
      (
        (eqb_iff (length files) count).0 e,
        (step.0.0, step.1 ∙ ap (λ (p : List Json). ok (step.0.0, p)) fits.1, fits.0),
      )
  | inr e ↦ absurd (ground arith)
]

module _ (gh : GitHub) (args : Args) (v : Verdict) (skips : v.not_applicable ≡ true) where
  -- `judge` from the list on
  abbrev Listed : Text → ℕ → Type 0
  Listed default count =
      (list : Text) × (patterns : Patterns) × (files : List Json) × (gh.raw
          (list_endpoint args.repo args.list default)
        ≡ ok list)
      × (parse_list list ≡ ok patterns)
      × (pages gh args.repo args.pr ((count + 99) / 100) 1 ≡ ok files)
      × (length files ≡ count)
      × All (FileInert patterns) files
      × NamedOnce files

  -- A verdict that runs the suite is not this one.
  refused :
      {A : Type 0} (reason : Text) → ◌≡◌ {A = Result Fault Verdict} (ok (run reason)) (ok v) → A
  refused reason h =
      absurd (false≢true (ap (λ (w : Verdict). w.not_applicable) (ok-injective _ _ h) ∙ skips))

  -- `judge_paths` once the paths were read
  moved_step :
      (name : Text) (count : ℕ) (r : Result Misread (List Text))
      → (read_as r >>= λ moved. ok (scope_verdict name count moved)) ≡ ok v
      → r ≡ ok []
  moved_step name count (err why) h = cc
  moved_step name count (ok []) h = refl
  moved_step name count (ok (p ∷ ps)) h =
      absurd (false≢true (ap (λ (w : Verdict). w.not_applicable) (ok-injective _ _ h) ∙ skips))

  paths_step :
      (name : Text) (count : ℕ) (patterns : Patterns)
      → judge_paths gh args name count (some patterns) ≡ ok v
      → (paths : List Json) × (changed_paths gh args.repo args.pr count ≡ ok paths)
        × (active paths patterns ≡ ok [])
  paths_step name count patterns h = elim (Bool-cases (is_empty patterns.inert)) [
    | inl e ↦ refused _ (rw e at h)
    | inr e ↦
        let step = returned (changed_paths gh args.repo args.pr count) _ v (rw e at h) in
        (step.0, step.1, moved_step name (length step.0) (active step.0 patterns) step.2)
  ]

  list_step :
      (r : Result Text Text) (patterns : Patterns)
      → list_or_none r ≡ ok (some patterns)
      → (list : Text) × (r ≡ ok list) × (parse_list list ≡ ok patterns)
  list_step (err why) patterns h = absurd (ground arith)
  list_step (ok list) patterns h = (list, refl, ground arith)

  option_step :
      (default : Text) (count : ℕ) (o : Option Patterns)
      → base_list gh args.repo args.list default ≡ ok o
      → judge_paths gh args (args.list ++ text " on " ++ default) count o ≡ ok v
      → Listed default count
  unfolding base_list changed_paths
  option_step default count none e h = refused _ h
  option_step default count (some patterns) e h =
      let list = list_step (gh.raw (list_endpoint args.repo args.list default)) patterns e in
      let found = paths_step (args.list ++ text " on " ++ default) count patterns h in
      let read =
        returned (pages gh args.repo args.pr ((count + 99) / 100) 1) (counted count) found.0
          found.1 in
      let whole = counted-ok count read.0 found.0 read.2 in
      (
        list.0,
        patterns,
        read.0,
        list.1,
        list.2,
        read.1,
        whole.0,
        collect-FileInert patterns read.0 [] (whole.1.0, found.0) whole.1.1
            (active-none patterns found.0 found.2),
        collect-NamedOnce read.0 (whole.1.0, found.0) whole.1.1 (whole.1.2 ∙ sym whole.0),
      )

  count_step :
      (default : Text) (c : Option ℕ)
      → judge_count gh args default c ≡ ok v
      → (count : ℕ) × (c ≡ some count) × (count ≤ 3000) × Listed default count
  count_step default none h = refused _ h
  count_step default (some count) h = elim (Bool-cases (ltb 3000 count)) [
    | inl e ↦ refused _ (rw e at h)
    | inr e ↦
        let step = returned (base_list gh args.repo args.list default) _ v (rw e at h) in
        (count, refl, ground arith, option_step default count step.0 step.1 step.2)
  ]

  pub positive : (reported : Json) (count : ℕ) → count_of reported ≡ some count → 0 < count
  positive (int zero) count h = absurd (ground arith)
  positive (int (suc n)) count h = ground arith
  positive (bool true) count h = ground arith
  positive (bool false) count h = absurd (ground arith)
  positive _ count h = absurd (ground arith)

  -- `judge` from the base branch on
  abbrev Based : Json → Text → Text → Type 0
  Based pull default ref =
      (ref ≡ default)
      × ((reported : Json) × (count : ℕ) × (index "changed_files" pull ≡ ok reported)
          × (count_of reported ≡ some count)
          × (count ≤ 3000)
          × Listed default count)

  base_step :
      (pull : Json) (default ref : Text)
      → judge_base gh args pull default ref ≡ ok v
      → Based pull default ref
  base_step pull default ref h = elim (Bool-cases (same ref default)) [
    | inl e ↦
        let step = returned (read_as (index "changed_files" pull)) _ v (rw e at h) in
        let counts = count_step default (count_of step.0) step.2 in
        (
          (same_iff ref default).0 e,
          (step.0, counts.0, read_as-ok _ _ step.1, counts.1, counts.2, counts.3),
        )
    | inr e ↦ refused _ (rw e at h)
  ]

  -- `judge` from the head on
  abbrev Headed : Json → Json → Text → Type 0
  Headed pull base head =
      (head ≡ args.sha)
      × ((default : Text) × (ref : Text) × ((index "repo" base
              >>= index "default_branch"
              >>= as_text)
            ≡ ok default)
          × ((index "ref" base >>= as_text) ≡ ok ref)
          × Based pull default ref)

  pub head_step :
      (pull base : Json) (head : Text)
      → judge_head gh args pull base head ≡ ok v
      → Headed pull base head
  head_step pull base head h = elim (Bool-cases (same head args.sha)) [
    | inl e ↦
        let branch =
          returned (read_as (index "repo" base >>= index "default_branch" >>= as_text)) _ v
            (rw e at h) in
        let ref = returned (read_as (index "ref" base >>= as_text)) _ v branch.2 in
        (
          (same_iff head args.sha).0 e,
          (
            branch.0,
            ref.0,
            read_as-ok _ _ branch.1,
            read_as-ok _ _ ref.1,
            base_step pull branch.0 ref.0 ref.2,
          ),
        )
    | inr e ↦ refused _ (rw e at h)
  ]
