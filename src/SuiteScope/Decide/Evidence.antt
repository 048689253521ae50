-- ===== src/SuiteScope/Decide/Evidence.antt =====
-- What a verdict that skips the suite rests on.
use vibe_verifier.Base.{
  ◌∙◌, ℕ, ◌+◌, ◌/◌, ◌≤◌, ◌<◌, ◌≡◌, inl, inr, refl, ap, true, some, List, [], ◌∷◌, ◌++◌, Result, ok,
  err, ◌>>=◌, arith, is_empty, length, All, Bool-cases, returned,
}
use vibe_verifier.Base.Text.{Text, text, strip}
use vibe_verifier.Base.Json.{Json, index}
use vibe_verifier.SuiteScope.InertList.{Patterns, parse_list}
use vibe_verifier.SuiteScope.Decide.{Verdict, count_of, judge, handled, decide}
use vibe_verifier.SuiteScope.Reads.{
  Fault, malformed, unread, misread, read_as, GitHub, Args, as_text, list_endpoint, pages,
}
use vibe_verifier.SuiteScope.Decide.Files.{read_as-ok, FileInert}
use vibe_verifier.SuiteScope.Decide.Distinct.{NamedOnce}
use vibe_verifier.SuiteScope.Decide.Steps.{positive, head_step}

-- What GitHub answered for a pull request whose diff the suite cannot see.
pub record Evidence (gh : GitHub) (args : Args) : Type 0 where
  pub pull : Json
  pub base : Json
  pub default : Text
  pub reported : Json
  pub count : ℕ
  pub list : Text
  pub patterns : Patterns
  pub files : List Json
  pub unforced : strip args.also_run ≡ []
  pub answered : gh.json (text "repos/" ++ args.repo ++ text "/pulls/" ++ args.pr) ≡ ok pull
  pub at_head : (index "head" pull >>= index "sha" >>= as_text) ≡ ok args.sha
  pub based : index "base" pull ≡ ok base
  pub branch : (index "repo" base >>= index "default_branch" >>= as_text) ≡ ok default
  pub into_default : (index "ref" base >>= as_text) ≡ ok default
  pub listed : gh.raw (list_endpoint args.repo args.list default) ≡ ok list
  pub parsed : parse_list list ≡ ok patterns
  pub changed : index "changed_files" pull ≡ ok reported
  pub reports : count_of reported ≡ some count
  pub some_file : 0 < count
  pub within_limit : count ≤ 3000
  pub read : pages gh args.repo args.pr ((count + 99) / 100) 1 ≡ ok files
  pub complete : length files ≡ count
  pub once : NamedOnce files
  pub inert : All (FileInert patterns) files

handled-ok :
    (gh : GitHub) (args : Args) (r : Result Fault Verdict)
    → (handled gh args r).not_applicable ≡ true
    → (v : Verdict) × (r ≡ ok v) × (v.not_applicable ≡ true)
handled-ok gh args (ok v) h = (v, refl, h)
handled-ok gh args (err (malformed why)) h = cc
handled-ok gh args (err (unread why)) h = cc
handled-ok gh args (err (misread why)) h = cc

empty-eq : (t : Text) → is_empty t ≡ true → t ≡ []
empty-eq [] h = refl
empty-eq (c ∷ t) h = cc

module _ (gh : GitHub) (args : Args) (unforced : strip args.also_run ≡ []) where
  pull-Evidence :
      (pull : Json) (v : Verdict)
      → gh.json (text "repos/" ++ args.repo ++ text "/pulls/" ++ args.pr) ≡ ok pull
      → judge gh args pull ≡ ok v
      → v.not_applicable ≡ true
      → Evidence gh args
  unfolding judge
  pull-Evidence pull v answered h skips =
      let head = returned (read_as (index "head" pull >>= index "sha" >>= as_text)) _ v h in
      let base = returned (read_as (index "base" pull)) _ v head.2 in
      let found = head_step gh args v skips pull base.0 head.0 base.2 in
      let branch = found.1 in
      let counts = branch.4.1 in
      let listed = counts.5 in
      record {
        pull = pull;
        base = base.0;
        default = branch.0;
        reported = counts.0;
        count = counts.1;
        list = listed.0;
        patterns = listed.1;
        files = listed.2;
        unforced = unforced;
        answered = answered;
        at_head = read_as-ok _ _ head.1 ∙ ap ok found.0;
        based = read_as-ok _ _ base.1;
        branch = branch.2;
        into_default = branch.3 ∙ ap ok branch.4.0;
        listed = listed.3;
        parsed = listed.4;
        changed = counts.2;
        reports = counts.3;
        some_file = positive gh args v skips counts.0 counts.1 counts.3;
        within_limit = counts.4;
        read = listed.5;
        complete = listed.6;
        inert = listed.7;
        once = listed.8;
      }

-- A verdict that skips the suite rests on evidence: no reason to run it was given, GitHub answered
-- for a pull request at the head of this run into the default branch, its list as that branch has it
-- parsed, and GitHub listed as many changed files as the pull request reports, 1 to 3000, none of them
-- twice, each inert under its name and under the name that it had.
pub decide-Evidence :
    (gh : GitHub) (args : Args) → (decide gh args).not_applicable ≡ true → Evidence gh args
unfolding decide
decide-Evidence gh args h = elim (Bool-cases (is_empty (strip args.also_run))) [
  | inr forced ↦ absurd (ground arith)
  | inl free ↦ elim (Bool-cases (is_empty args.pr)) [
    | inl unnamed ↦ absurd (ground arith)
    | inr named ↦
        let judged =
          handled-ok gh args
            (gh.json (text "repos/" ++ args.repo ++ text "/pulls/" ++ args.pr) >>= judge gh args)
            (ground arith) in
        let answer =
          returned (gh.json (text "repos/" ++ args.repo ++ text "/pulls/" ++ args.pr))
            (judge gh args) judged.0 judged.1 in
        pull-Evidence gh args (empty-eq _ free) answer.0 judged.0 answer.1 answer.2 judged.2
  ]
]
