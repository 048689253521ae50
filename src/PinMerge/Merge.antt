-- ===== src/PinMerge/Merge.antt =====
-- gates/_pin_merge.py, `judge`, `close`, `is_bump` and `merge_pass`: what a run does with each open bump.
pub mod Ready
use vibe_verifier.Base.{
  ℕ, zero, suc, Bool, true, false, not, ◌&&◌, ◌||◌, Option, none, some, List, [], ◌∷◌, ◌++◌, map,
  Result, ok, err, ◌>>=◌, if◌then◌else◌, any, select, is_empty, ltb, leb, eqb, length, take,
}
use Prim.Native.Nat.{max}
use vibe_verifier.Base.Text.{Text, text, same, starts_with, join, decimal}
use vibe_verifier.PinMerge.Changes.{
  Stop, cannot_read, crashed, Compare, Contents, catalog_prefix, wrapper_prefix, not_pins,
}
use vibe_verifier.PinMerge.Checks.{
  Run, Status, Review, Check, check_results, checks, reviews, Verdict, one_of, is_text,
}

-- What `judge` reads of a pull request
pub record Pull : Type 0 where
  pub head_sha : Text
  pub head_ref : Text
  pub base_ref : Text
  pub title : Text
  pub changed_files : Option ℕ
  pub mergeable : Option Bool
  pub mergeable_state : Option Text

-- An entry of the listing of open pull requests; the repository of a head may be gone.
pub record Listed : Type 0 where
  pub number : ℕ
  pub head_ref : Text
  pub head_repo : Option Text

-- The reads of one repository
pub record GitHub : Type 0 where
  pub pull : ℕ → Result Stop Pull
  pub default_branch : Result Stop (Option Text)
  pub compare : Text → Text → Result Stop Compare
  pub contents : Contents
  pub check_runs : Text → List (Result Stop (List Run))
  pub statuses : Text → List (Result Stop (List Status))
  pub reviews : ℕ → List (Result Stop (List Review))

-- The writes
pub data Call : Type 0 where
  close_pull : ℕ → Text → Call
  update_branch : ℕ → Text → Call
  merge : ℕ → Text → Text → Call
  delete_branch : Text → Call

-- What `gh` answered a write: none, or the message of its CannotRead
abbrev pub Gh : Type 0
Gh = Call → Option Text

-- What `judge` has come to before it writes: an exit code and a line, or one write of its own.
pub data Step : Type 0 where
  hold : ℕ → Text → Step
  closing : Text → Step
  behind : ℕ → Text → Text → Step
  ready : Text → Text → Text → Step

-- `is_bump`
unfoldable pub is_bump : Text → Listed → Bool
is_bump repo pull =
    (starts_with pull.head_ref catalog_prefix || starts_with pull.head_ref wrapper_prefix)
    && is_text repo pull.head_repo

abbrev pub is_empty_change : Option ℕ → Bool
is_empty_change none = false
is_empty_change (some n) = eqb n 0

abbrev pub shown_state : Option Text → Text
shown_state none = text "None"
shown_state (some s) = s

-- The last tests of `judge`, on `mergeable_state`
unfoldable pub by_state : Pull → Step
by_state pull =
    let is_one_of : List Text → Bool =
      λ names. elim pull.mergeable_state [ none ↦ false | some s ↦ one_of names s ] in
    if is_one_of (text "unstable" ∷ text "unknown" ∷ [])
    then hold 0 (text "waiting: GitHub says it is " ++ shown_state pull.mergeable_state)
    else if not (is_one_of (text "clean" ∷ text "has_hooks" ∷ []))
    then hold 1 (text "held: GitHub says it is " ++ shown_state pull.mergeable_state)
    else ready pull.head_sha pull.title pull.head_ref

-- `checks(...) or reviews(...)`: the reviews are read where the checks say nothing.
unfoldable pub by_checks : GitHub → ℕ → Pull → Result Stop Step
unfolding check_results checks reviews by_state
by_checks github number pull =
    check_results (github.check_runs pull.head_sha) (github.statuses pull.head_sha) >>= λ results.
    elim (checks results (starts_with pull.head_ref catalog_prefix)) [
      | some (code, why) ↦ ok (hold code why)
      | none ↦ reviews (github.reviews number) >>= λ asked.
          ok (elim asked [ none ↦ by_state pull | some (code, why) ↦ hold code why ])
    ]

-- The tests of `judge` behind `not_pins`
unfoldable pub by_mergeable : GitHub → ℕ → Pull → Compare → Result Stop Step
unfolding by_checks
by_mergeable github number pull compare = elim pull.mergeable [
  | none ↦ ok (hold 0 (text "waiting: GitHub is still working out whether it merges"))
  | some false ↦ ok (
      closing (
        text "Conflicts with "
        ++ pull.base_ref
        ++ text "; the next pin bump opens a fresh one from "
        ++ pull.base_ref
        ++ text "."))
  | some true ↦
      if ltb 0 compare.behind_by
      then ok (behind compare.behind_by pull.head_sha pull.base_ref)
      else by_checks github number pull
]

module _ (is_word : ℕ → Bool) (repo : Text) (on_main : Text → Text → Bool) where
  -- `judge` up to its write
  unfoldable pub decide : GitHub → ℕ → Result Stop Step
  unfolding not_pins by_mergeable
  decide github number = github.pull number >>= λ pull. github.default_branch >>= λ default.
      if not (is_text pull.base_ref default)
      then ok
          (hold 1 (text "held: it is into " ++ pull.base_ref ++ text ", not the default branch"))
      else if is_empty_change pull.changed_files
      then ok (
          closing
            (text "Nothing left to change: " ++ pull.base_ref ++ text " already has these pins."))
      else github.compare pull.base_ref pull.head_sha >>= λ compare.
          not_pins is_word github.contents repo compare pull.head_sha pull.head_ref on_main
          >>= λ why. elim why [
            | some reason ↦ ok (hold 1 (text "held: " ++ reason))
            | none ↦ by_mergeable github number pull compare
          ]

-- What came of a judgement, and the writes made
pub record Done : Type 0 where
  pub answer : Result Stop Verdict
  pub made : List Call

-- A write whose failure is `CannotRead`
abbrev pub after_call : Option Text → Verdict → Result Stop Verdict
after_call none verdict = ok verdict
after_call (some message) verdict = err (cannot_read message)

abbrev pub merged : Option Text → Text → List Call
merged none branch = delete_branch branch ∷ []
merged (some message) branch = []

-- The writes of `judge`; the branch of a merged bump is deleted whatever comes of it.
unfoldable pub perform : Gh → ℕ → Step → Done
perform gh number (hold code why) = record { answer = ok (code, why); made = [] }
perform gh number (closing why) = record {
  answer = after_call (gh (close_pull number why)) (0, text "closed: " ++ why);
  made = close_pull number why ∷ [];
}
perform gh number (behind count head base) = record {
  answer = after_call (gh (update_branch number head)) (
    0,
    decimal count
        ++ text " commit(s) behind "
        ++ base
        ++ text ": merged "
        ++ base
        ++ text " in; it merges once its checks pass there",
  );
  made = update_branch number head ∷ [];
}
perform gh number (ready head title branch) =
    let call = merge number head (title ++ text " (#" ++ decimal number ++ text ")") in
    record {
      answer = after_call (gh call) (0, text "squash-merged at " ++ take 10 head);
      made = call ∷ merged (gh call) branch;
    }

abbrev pub perform_step : Gh → ℕ → Result Stop Step → Done
perform_step gh number (err stop) = record { answer = err stop; made = [] }
perform_step gh number (ok step) = perform gh number step

-- `judge`
unfoldable pub judge : (ℕ → Bool) → Text → (Text → Text → Bool) → GitHub → Gh → ℕ → Done
unfolding decide perform
judge is_word repo on_main github gh number =
    perform_step gh number (decide is_word repo on_main github number)

-- What `merge_pass` makes of a judgement: it catches `CannotRead` alone.
unfoldable pub caught : Result Stop Verdict → Result Text Verdict
caught (ok verdict) = ok verdict
caught (err (cannot_read message)) = ok (2, text "failed: " ++ message)
caught (err (crashed name)) = err name

-- A repository of `merge_pass`: its name, its reads, and the listing of its open pull requests
pub record Repository : Type 0 where
  pub name : Text
  pub github : GitHub
  pub open_pulls : Result Text (List Listed)

module _ (is_word : ℕ → Bool) (on_main : Text → Text → Bool) (gh : Text → Gh) where
  -- The inner loop of `merge_pass`: the highest code so far, and the writes
  unfoldable pub merge_bumps : Repository → ℕ → List ℕ → Result Text ℕ × List Call
  unfolding judge caught
  merge_bumps repository code [] = (ok code, [])
  merge_bumps repository code (number ∷ numbers) =
      let done =
        judge is_word repository.name on_main repository.github (gh repository.name) number in
      elim (caught done.answer) as (λ _. Result Text ℕ × List Call) [
        | err name ↦ (err name, done.made)
        | ok (held, what) ↦
            let (end, made) = merge_bumps repository (max code held) numbers in
            (end, done.made ++ made)
      ]

  -- `merge_pass` from a code; what it prints is not modelled.
  unfoldable pub merge_pass : ℕ → List Repository → Result Text ℕ × List Call
  unfolding merge_bumps is_bump
  merge_pass code [] = (ok code, [])
  merge_pass code (repository ∷ repos) =
      elim repository.open_pulls as (λ _. Result Text ℕ × List Call) [
        | err message ↦ merge_pass 2 repos
        | ok pulls ↦
            let (end, made) =
              merge_bumps repository code
                (map (λ pull. pull.number) (select (is_bump repository.name) pulls)) in
            elim end as (λ _. Result Text ℕ × List Call) [
              | err name ↦ (err name, made)
              | ok code' ↦ let (end', made') = merge_pass code' repos in (end', made ++ made')
            ]
      ]
