-- ===== src/SuiteScope/Publish.antt =====
-- actions/suite-scope/suite_scope.py, what a verdict writes: the annotation and the outputs, the
-- commit statuses, and the check of the list itself.
pub mod Outputs
use vibe_verifier.Base.{
  ℕ, zero, suc, ◌+◌, Bool, true, false, not, Option, none, some, List, [], ◌∷◌, ◌++◌, Result, ok,
  err, map, eqb, if◌then◌else◌, is_empty, length, take, select,
}
use vibe_verifier.Base.Text.{Text, text, join, words, replace, decimal, strip, file_lines}
use vibe_verifier.SuiteScope.InertList.{Patterns, parse_list, is_inert}
use vibe_verifier.SuiteScope.Decide.{Verdict}

-- `" ".join(message.split())`
unfoldable pub one_line : Text → Text
unfolding words join
one_line s = join (32 ∷ []) (words s)

-- `annotation`
unfoldable pub annotation : Text → Text → Text
unfolding one_line replace
annotation level message =
    text "::" ++ level ++ text " title=Suite scope::" ++ replace 37 (text "%25") (one_line message)

pub record Reported : Type 0 where
  pub printed : Text
  pub outputs : List Text

-- `report`; the outputs are the lines that are written where GITHUB_OUTPUT names a file.
unfoldable pub report : Verdict → Reported
unfolding annotation
report verdict =
    let reason = one_line verdict.reason in
    record {
      printed =
          annotation (if verdict.unread then text "warning" else text "notice")
            (if verdict.not_applicable then reason else text "The suite runs: " ++ reason);
      outputs =
          (text "not-applicable=" ++ (if verdict.not_applicable then text "true" else text "false"))
          ∷ (text "reason=" ++ reason)
          ∷ [];
    }

-- One commit status
pub record Status : Type 0 where
  pub context : Text
  pub description : Text
  pub target_url : Text

-- GitHub's answer to an attempt to post a status: the message of a refusal, or none.
abbrev pub Posts : Type 0
Posts = Status → ℕ → Option Text

abbrev pub attempts : ℕ
attempts = 3

-- The loop of `send`: whether GitHub took the status, and how many attempts were made.
unfoldable pub send_from : Posts → Status → ℕ → ℕ → Bool × ℕ
send_from posts status zero attempt = (false, zero)
send_from posts status (suc left) attempt =
    let (taken, more) = send_from posts status left (suc attempt) in
    elim (posts status attempt) [ none ↦ (true, 1) | some why ↦ (taken, suc more) ]

-- `send`
unfoldable pub send : Posts → Status → Bool × ℕ
unfolding send_from
send posts status = send_from posts status attempts 1

-- `reason.split()` joined, and cut to what a status takes
unfoldable pub status_of : Text → Text → Text → Status
unfolding one_line
status_of reason url context = record {
  context = context;
  description = take 140 (one_line reason);
  target_url = url;
}

-- The lines that `send` and `post` print are not modelled. The loop of `post` over the contexts: the exit code, and the statuses that GitHub took.
unfoldable pub post : Posts → Text → Text → List Text → ℕ × List Status
unfolding send status_of
post posts reason url [] = (0, [])
post posts reason url (context ∷ contexts) =
    let (code, taken) = post posts reason url contexts in
    let status = status_of reason url context in
    let sent = (send posts status).0 in if sent then (code, status ∷ taken) else (1, [])

-- `check`: the exit code, and the paths that are read and inert. A file is none where it cannot be
-- opened. The lines that it prints are not modelled.
abbrev pub check_paths : Patterns → List Text → ℕ × List Text
check_paths patterns [] = (2, [])
check_paths patterns (path ∷ paths) =
    let inert = select (λ p. is_inert p patterns) (path ∷ paths) in
    ((if is_empty inert then 0 else 1), inert)

abbrev pub check_reads : Result Text Patterns → Option Text → ℕ × List Text
check_reads (err why) reads = (2, [])
check_reads (ok patterns) none = (2, [])
check_reads (ok patterns) (some reads) =
    check_paths patterns (select (λ path. not (is_empty path)) (map strip (file_lines reads)))

unfoldable pub check : Option Text → Option Text → ℕ × List Text
check none reads = (2, [])
check (some list) reads = check_reads (parse_list list) reads
