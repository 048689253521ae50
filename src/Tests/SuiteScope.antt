-- ===== src/Tests/SuiteScope.antt =====
-- The theorems on suite-scope at concrete inputs (actions/suite-scope/suite_scope.py).
use vibe_verifier.Base.{
  ℕ, ◌+◌, ◌≤◌, ◌<◌, ◌≡◌, ◌↔◌, refl, inr, true, false, none, some, [], ◌∷◌, ◌++◌, ok, if◌then◌else◌,
  All,
}
use vibe_verifier.Base.Text.{text, has, same, strip, splitlines, split}
use vibe_verifier.Base.Json.{Json, int, str, arr, obj, nil, cons, end, field, index, get, truthy}
use vibe_verifier.Base.Shlex.{shlex_split}
use vibe_verifier.Contract.Glob.{glob_to_regex, regex_fullmatch}
use vibe_verifier.SuiteScope.InertList.{Patterns, parse_list, is_inert, lexical_fault}
use vibe_verifier.SuiteScope.InertList.Never.{is_inert-e2e}
use vibe_verifier.SuiteScope.InertList.Lexing.{blank_words, shlex_split-literal}
use vibe_verifier.SuiteScope.Decide.{Verdict, judge, active, decide}
use vibe_verifier.SuiteScope.Reads.{GitHub, Args, base_list, changed_paths, pages, collect}
use vibe_verifier.SuiteScope.Decide.Evidence.{Evidence, decide-Evidence}
use vibe_verifier.SuiteScope.Publish.{report, send, Status, Posts}
use vibe_verifier.SuiteScope.Publish.Outputs.{report_one_line, send-attempts}

-- A list that holds every path inert
abbrev everything : Patterns
everything = record { inert = glob_to_regex (text "**") ∷ []; never = [] }

is_inert-e2e_example : is_inert (text "web/" ++ (text "e2e" ++ text "/login.ts")) everything ≡ false
unfolding text
is_inert-e2e_example =
    is_inert-e2e (text "web/") (text "/login.ts") everything (inr (text "web", refl))
      (inr (text "login.ts", refl))

shlex_split-literal_example :
    shlex_split (text "docs/** # prose") ≡ some (blank_words [] true (text "docs/** # prose"))
unfolding lexical_fault text
shlex_split-literal_example = shlex_split-literal (text "docs/** # prose") refl refl refl

abbrev pull : Json
pull = obj (
    field "head" (obj (field "sha" (str (text "abc")) end)) (
      field "base"
        (obj (
          field "ref" (str (text "main"))
            (field "repo" (obj (field "default_branch" (str (text "main")) end)) end)))
        (field "changed_files" (int 1) end)))

abbrev files : Json
files = arr (cons (obj (field "filename" (str (text "docs/a.md")) end)) nil)

abbrev answers : GitHub
answers = record {
  raw = λ endpoint. ok (text "docs/**\n");
  json = λ endpoint. ok (if same endpoint (text "repos/o/r/pulls/5") then pull else files);
  wording = λ why. [];
}

abbrev args : Args
args = record {
  repo = text "o/r";
  list = text ".inert";
  pr = text "5";
  sha = text "abc";
  also_run = [];
}

decide-Evidence_example : Evidence answers args
unfolding decide text strip judge index base_list parse_list splitlines changed_paths pages collect
    get active truthy is_inert split regex_fullmatch
decide-Evidence_example = decide-Evidence answers args refl

abbrev odd : Verdict
odd = record { not_applicable = false; reason = text "a\nb"; unread = true }

report_one_line_example :
    All
      (λ line. (has 10 line ≡ false) × (has 13 line ≡ false))
      ((report odd).printed ∷ (report odd).outputs)
report_one_line_example = report_one_line odd

abbrev pending : Status
pending = record { context = text "e2e"; description = []; target_url = [] }

-- GitHub takes the second attempt.
abbrev second_only : Posts
second_only status n = if same (n ∷ []) (2 ∷ []) then none else some (text "HTTP 502")

send-attempts_example :
    ((send second_only pending).1 ≤ 3)
    × (((send second_only pending).0 ≡ true)
        ↔ ((n : ℕ) × (1 ≤ n) × (n < 1 + 3) × (second_only pending n ≡ none)))
send-attempts_example = send-attempts second_only pending
