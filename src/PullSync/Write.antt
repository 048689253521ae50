-- ===== src/PullSync/Write.antt =====
-- actions/pull-sync/pull_sync.py, `write` and `sync`: the calls that a plan makes, and the exit code.
pub mod Calls
use vibe_verifier.Base.{
  ℕ, Bool, true, false, Option, none, some, List, [], ◌∷◌, ◌++◌, Result, ok, err, map,
  if◌then◌else◌, is_empty, ltb, not, length,
}
use vibe_verifier.Base.Text.{Text, text, decimal, strip, split, join}
use vibe_verifier.PullSync.Pull.{Pull, conflict_label}
use vibe_verifier.PullSync.Judge.{
  Action, sync, conflict, wait, skip, Relabel, add, remove, keep, Line,
}
use vibe_verifier.PullSync.Plan.{Planned, plan}

-- One call of `gh api` that writes
pub data Call : Type 0 where
  update_branch : Text → ℕ → Text → Call
  add_label : Text → ℕ → Text → Call
  remove_label : Text → ℕ → Text → Call

-- `("update", ...)`: what a failure message names
abbrev pub call_name : Call → Text
call_name (update_branch repo number head) = text "update"
call_name (add_label repo number name) = text "label"
call_name (remove_label repo number name) = text "unlabel"

abbrev pub action_calls : Text → ℕ → Text → Action → List Call
action_calls repo number head sync = update_branch repo number head ∷ []
action_calls repo number head _ = []

abbrev pub label_calls : Text → ℕ → Relabel → List Call
label_calls repo number add = add_label repo number conflict_label ∷ []
label_calls repo number remove = remove_label repo number conflict_label ∷ []
label_calls repo number keep = []

-- `calls` of `write`
unfoldable pub calls : Text → Line → List Call
calls repo line =
    action_calls repo line.number line.head line.action ++ label_calls repo line.number line.label

-- What `gh` answered: none for a success, else the text it wrote (standard error, or output).
abbrev pub Gh : Type 0
Gh = Call → Option Text

abbrev pub first_line : List Text → Text
first_line [] = []
first_line (l ∷ ls) = l

-- The sentence for one call, if it failed
abbrev pub failure : ℕ → Call → Option Text → List Text
failure number call none = []
failure number call (some detail) =
    (text "#"
      ++ decimal number
      ++ text " "
      ++ call_name call
      ++ text " failed: "
      ++ first_line (split 10 (strip detail)))
    ∷ []

unfoldable pub send_all : Gh → ℕ → List Call → List Text
send_all gh number [] = []
send_all gh number (call ∷ rest) = failure number call (gh call) ++ send_all gh number rest

-- `write`: the calls it made, and the failures
pub record Written : Type 0 where
  pub made : List Call
  pub failures : List Text

unfoldable pub write : Gh → Text → Line → Written
unfolding calls send_all
write gh repo line = record {
  made = calls repo line;
  failures = send_all gh line.number (calls repo line);
}

abbrev pub action_name : Action → Text
action_name sync = text "sync"
action_name conflict = text "conflict"
action_name wait = text "wait"
action_name skip = text "skip"

abbrev pub change : Relabel → Text
change add = text "; adds label " ++ conflict_label
change remove = text "; removes label " ++ conflict_label
change keep = []

-- `describe`
unfoldable pub describe : Line → Text
describe line =
    text "#"
    ++ decimal line.number
    ++ text " "
    ++ action_name line.action
    ++ text ": "
    ++ line.reason
    ++ change line.label

-- The loop of `sync` over the rows
unfoldable pub write_lines : Gh → Text → Bool → List Line → Written
unfolding write
write_lines gh repo act [] = record { made = []; failures = [] }
write_lines gh repo act (line ∷ lines) =
    let rest = write_lines gh repo act lines in
    let written = write gh repo line in
    if act
    then record { made = written.made ++ rest.made; failures = written.failures ++ rest.failures }
    else rest

-- The arguments of a run, in seconds
pub record Args : Type 0 where
  pub act : Bool
  pub max_in_flight : ℕ
  pub quiet : ℕ
  pub stale_after : ℕ
  pub needs_update : List Text

pub record Synced : Type 0 where
  pub code : ℕ
  pub printed : List Text
  pub written : Written

abbrev pub is_strict : Option Bool → Bool
is_strict none = false
is_strict (some b) = b

abbrev pub rule : Option Bool → Text
rule (some true) = text "merges only up-to-date heads"
rule (some false) = text "merges heads that are behind"
rule none = text "could not read whether it merges heads that are behind"

-- The first line that `sync` prints
unfoldable pub heading : Text → Args → ℕ → Planned → Text → Option Bool → Text
heading repo args count planned base strict =
    repo
    ++ text ": "
    ++ decimal count
    ++ text " open, "
    ++ decimal planned.in_flight
    ++ text " holding a slot, "
    ++ decimal planned.free
    ++ text " free slot(s) ("
    ++ (if args.act then text "acting" else text "dry run, nothing written")
    ++ text "; "
    ++ base
    ++ text " "
    ++ rule strict
    ++ (if is_empty args.needs_update
        then []
        else text "; a failed "
          ++ join (text " or ") args.needs_update
          ++ text " asks for an update")
    ++ text ")"

-- `sync` after `read_settled` and `requires_up_to_date`, which read GitHub; the first is an error
-- where the repository could not be read.
unfoldable pub sync_repo :
    Gh → Text → Args → ℕ → Result Text (Text × List Pull) → Option Bool → Synced
unfolding write_lines describe heading
sync_repo gh repo args now (err why) strict = record {
  code = 2;
  printed = (text "pull-sync: cannot read " ++ repo ++ text ": " ++ why) ∷ [];
  written = record { made = []; failures = [] };
}
sync_repo gh repo args now (ok (base, pulls)) strict =
    let planned =
      plan pulls base now args.max_in_flight args.quiet args.stale_after (is_strict strict)
        (not (is_empty args.needs_update)) in
    let written = write_lines gh repo args.act planned.lines in
    record {
      code = if is_empty written.failures then 0 else 1;
      printed =
          heading repo args (length pulls) planned base strict ∷ map describe planned.lines
          ++ map (λ f. text "pull-sync: " ++ repo ++ text ": " ++ f) written.failures;
      written = written;
    }

-- `max` of the exit codes: every repository is planned, and the worst outcome counts.
unfoldable pub worst : List ℕ → ℕ
worst [] = 0
worst (code ∷ codes) = let later = worst codes in if ltb code later then later else code
