-- ===== src/FileSize.antt =====
-- gates/max_file_lines.py: a file that the pull request changed, over the size limit and bigger than it
-- was.
pub mod Ratchet
use vibe_verifier.Base.{
  ℕ, zero, suc, ◌+◌, ◌/◌, Bool, true, false, not, ◌&&◌, ◌||◌, Option, none, some, List, [], ◌∷◌,
  ◌++◌, map, Result, ok, err, ◌>>=◌, if◌then◌else◌, any, select, is_empty, leb, ltb, eqb,
}
use vibe_verifier.Base.Text.{Text, text, same, join, decimal}
use vibe_verifier.Base.Text.Order.{sorted_set}
use vibe_verifier.Contract.Glob.{matches}
use vibe_verifier.Contract.Report.{Finding, Failure, crashed}

-- The bytes of a file: the text that they decode to, and how many they are.
pub record Blob : Type 0 where
  pub decoded : Text
  pub bytes : ℕ

pub data Scope : Type 0 where
  all_files : Scope
  staged : Scope
  changed : Scope

pub record Args : Type 0 where
  pub max : ℕ
  pub max_tokens : ℕ
  pub source : List Text
  pub exclude : List Text
  pub scope : Scope

-- The reads of the repository: the tracked files, the changed files with the old name of each moved one
-- and the commit that they are compared with, git's file at a commit, the index's and the working
-- tree's.
pub record Repository : Type 0 where
  pub tracked : Result Failure (List Text)
  pub staged_changes : Result Failure (List Text × List (Text × Text))
  pub changes : Result Failure (List Text × List (Text × Text) × Text)
  pub at_commit : Text → Text → Option Blob
  pub in_index : Text → Option Blob
  pub on_disk : Text → Option Blob

abbrev pub count_feeds : Text → ℕ
count_feeds [] = 0
count_feeds (c ∷ s) = (if eqb c 10 then 1 else 0) + count_feeds s

abbrev pub ends_open : Text → Bool
ends_open [] = false
ends_open (c ∷ []) = not (eqb c 10)
ends_open (c ∷ d ∷ s) = ends_open (d ∷ s)

-- `line_count`
unfoldable pub line_count : Text → ℕ
line_count s = count_feeds s + (if ends_open s then 1 else 0)

-- `size`: the lines and the tokens
unfoldable pub size : Blob → ℕ × ℕ
unfolding line_count
size blob = (line_count blob.decoded, blob.bytes / 4)

-- `now_bytes`; a file that cannot be opened ends the gate.
unfoldable pub now_bytes : Repository → Scope → Text → Result Failure Blob
now_bytes repo staged path = elim (repo.in_index path) [
  | some blob ↦ ok blob
  | none ↦ ok (record { decoded = []; bytes = 0 })
]
now_bytes repo all_files path = elim (repo.on_disk path) [
  | some blob ↦ ok blob
  | none ↦ err crashed
]
now_bytes repo changed path = elim (repo.on_disk path) [ some blob ↦ ok blob | none ↦ err crashed ]

-- `limit is not None and value > limit`
abbrev pub is_over : Option ℕ → ℕ → Bool
is_over none value = false
is_over (some limit) value = ltb limit value

-- `args.max_tokens or None`
abbrev pub token_limit : ℕ → Option ℕ
token_limit zero = none
token_limit (suc n) = some (suc n)

-- `was is not None and value <= was`
abbrev pub has_not_grown : Option ℕ → ℕ → Bool
has_not_grown none value = false
has_not_grown (some was) value = leb value was

-- `origin`
abbrev pub origin : Scope → Option ℕ → Text
origin all_files was = []
origin staged none = text " (new file)"
origin staged (some was) = text " (" ++ decimal was ++ text " at HEAD)"
origin changed none = text " (new file)"
origin changed (some was) = text " (" ++ decimal was ++ text " at the base)"

-- What one measure adds to `parts`
unfoldable pub part : Scope → Text → ℕ → Option ℕ → Option ℕ → List Text
part scope unit value none was = []
part scope unit value (some limit) was =
    if leb value limit || has_not_grown was value
    then []
    else (decimal value
        ++ text " "
        ++ unit
        ++ text ", over the "
        ++ decimal limit
        ++ text " allowed"
        ++ origin scope was)
      ∷ []

abbrev pub old_size : Option Blob → Option ℕ × Option ℕ
old_size none = (none, none)
old_size (some blob) = (some (size blob).0, some (size blob).1)

-- `moved.get(path, path)`
abbrev pub old_path : List (Text × Text) → Text → Text
old_path [] path = path
old_path ((new, old) ∷ moved) path =
    let rest = old_path moved path in if same new path then old else rest

-- The sizes that a file is measured against
abbrev pub before : Repository → Option Text → List (Text × Text) → Text → Option ℕ × Option ℕ
before repo none moved path = (none, none)
before repo (some start) moved path = old_size (repo.at_commit start (old_path moved path))

-- `judge` from the two sizes; `split` is the sentence on how to split a file.
unfoldable pub judge_sizes : Text → Args → Text → ℕ × ℕ → Option ℕ × Option ℕ → Option Finding
unfolding part
judge_sizes split args path (lines, tokens) (old_lines, old_tokens) =
    let parts =
      part args.scope (text "lines") lines (some args.max) old_lines
      ++ part args.scope (text "tokens (bytes / 4)") tokens (token_limit args.max_tokens)
          old_tokens in
    if not (is_over (some args.max) lines || is_over (token_limit args.max_tokens) tokens)
    then none
    else if is_empty parts
    then none
    else some (record {
      message = join (text "; ") parts ++ text ". " ++ split;
      path = some path;
      line = none;
      advisory = false;
    })

-- `judge`
unfoldable pub judge :
    Text
    → Repository
    → Args
    → Option Text
    → List (Text × Text)
    → Text
    → Result Failure (Option Finding)
unfolding judge_sizes now_bytes size
judge split repo args start moved path = now_bytes repo args.scope path >>= λ blob.
    ok (judge_sizes split args path (size blob) (before repo start moved path))

-- `files` of `check`
unfoldable pub judged_files : Args → List Text → List Text → List Text
unfolding sorted_set matches
judged_files args tracked candidates =
    let excluded = text "**/*.d.ts" ∷ text "**/node_modules/**" ∷ args.exclude in
    sorted_set (
      select (λ p. any (same p) tracked && matches p args.source && not (matches p excluded))
        candidates)

-- The candidates, the old names and the commit
abbrev pub candidates :
    Repository → Scope → List Text → Result Failure (List Text × List (Text × Text) × Option Text)
candidates repo all_files tracked = ok (tracked, [], none)
candidates repo staged tracked =
    repo.staged_changes >>= λ (files, moved). ok (files, moved, some (text "HEAD"))
candidates repo changed tracked =
    repo.changes >>= λ (files, moved, start). ok (files, moved, some start)

abbrev pub keep : Option Finding → List Finding → List Finding
keep none findings = findings
keep (some finding) findings = finding ∷ findings

abbrev pub judge_all :
    (Text → Result Failure (Option Finding)) → List Text → Result Failure (List Finding)
judge_all judged [] = ok []
judge_all judged (path ∷ paths) =
    judged path >>= λ found. judge_all judged paths >>= λ findings. ok (keep found findings)

-- `check`; the source globs are the default's where none is given.
unfoldable pub check : Text → Repository → Args → Result Failure (List Finding)
unfolding judge judged_files
check split repo args = repo.tracked >>= λ tracked.
    candidates repo args.scope tracked >>= λ (found, moved, start).
    judge_all (judge split repo args start moved) (judged_files args tracked found)
