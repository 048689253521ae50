-- ===== src/PinMerge/Checks.antt =====
-- gates/_pin_merge.py, `paged`, `check_results`, `checks` and `reviews`: what the head's checks and the
-- reviews say of a bump.
pub mod Passed
use vibe_verifier.Base.{
  ℕ, zero, suc, Bool, true, false, not, ◌&&◌, ◌||◌, Option, none, some, List, [], ◌∷◌, ◌++◌, map,
  Result, ok, err, ◌>>=◌, if◌then◌else◌, any, select, is_empty, ltb, eqb, length,
}
use vibe_verifier.Base.Text.{Text, text, same, join, decimal}
use vibe_verifier.Base.Text.Order.{sorted_set}
use vibe_verifier.PinMerge.Changes.{Stop, crashed}

-- `paged`, from the answers to its requests in order; past the last of them a listing is empty.
unfoldable pub paged : {A : Type 0} → List (Result Stop (List A)) → Result Stop (List A)
paged [] = ok []
paged (answer ∷ answers) = answer >>= λ batch.
    let rest = paged answers in
    if ltb (length batch) 100 then ok batch else rest >>= λ items. ok (batch ++ items)

-- A check run, and a commit status, of a head
pub record Run : Type 0 where
  pub name : Text
  pub status : Option Text
  pub conclusion : Option Text

pub record Status : Type 0 where
  pub context : Text
  pub state : Option Text

-- A check and its conclusion, none while it runs
pub record Check : Type 0 where
  pub name : Text
  pub result : Option Text

abbrev pub is_text : Text → Option Text → Bool
is_text s none = false
is_text s (some t) = same t s

abbrev pub run_check : Run → Check
run_check run = record {
  name = run.name;
  result = if is_text (text "completed") run.status then run.conclusion else none;
}

abbrev pub status_check : Status → Check
status_check status = record {
  name = status.context;
  result = if is_text (text "pending") status.state then none else status.state;
}

-- `check_results`
unfoldable pub check_results :
    List (Result Stop (List Run)) → List (Result Stop (List Status)) → Result Stop (List Check)
unfolding paged
check_results run_pages status_pages = paged run_pages >>= λ runs.
    paged status_pages >>= λ statuses. ok (map run_check runs ++ map status_check statuses)

abbrev pub one_of : List Text → Text → Bool
one_of names name = any (same name) names

-- `PASSED` and `GATE_CHECKS`
abbrev pub passed : List Text
passed = text "success" ∷ text "skipped" ∷ text "neutral" ∷ []

abbrev pub gate_checks : List Text
gate_checks = text "Gates" ∷ text "vibe-verifier-ok" ∷ []

-- `result and result not in PASSED`
unfoldable pub has_failed : Check → Bool
has_failed check = elim check.result [
  | none ↦ false
  | some result ↦ not (is_empty result) && not (one_of passed result)
]

abbrev pub is_running : Check → Bool
is_running check = elim check.result [ none ↦ true | some result ↦ false ]

abbrev pub is_success : Check → Bool
is_success check = is_text (text "success") check.result

-- An exit code, and what is printed
abbrev pub Verdict : Type 0
Verdict = ℕ × Text

-- `checks`, from the results of the head
unfoldable pub checks : List Check → Bool → Option Verdict
unfolding has_failed sorted_set
checks results gated =
    let failed = select has_failed results in
    let running = select is_running results in
    if not (is_empty failed)
    then some (
      1,
      text "held: "
          ++ join (text ", ") (sorted_set (map (λ c. c.name) failed))
          ++ text " failed on its head",
    )
    else if not (is_empty running)
    then some (0, text "waiting: " ++ decimal (length running) ++ text " check(s) still running")
    else if gated && not (any (λ c. one_of gate_checks c.name && is_success c) results)
    then some (
      1,
      text "held: no gate job (" ++ join (text " or ") gate_checks ++ text ") passed on its head",
    )
    else if not (any is_success results)
    then some (1, text "held: no check passed on its head")
    else none

-- A review; the login is none where GitHub names no user.
pub record Review : Type 0 where
  pub state : Text
  pub login : Option Text

abbrev pub same_login : Option Text → Option Text → Bool
same_login none none = true
same_login none (some b) = false
same_login (some a) none = false
same_login (some a) (some b) = same a b

-- `latest[login] = state`
unfoldable pub set_latest : Review → List Review → List Review
set_latest review [] = review ∷ []
set_latest review (other ∷ latest) =
    let rest = set_latest review latest in
    if same_login other.login review.login then review ∷ latest else other ∷ rest

abbrev pub counted : List Text
counted = text "APPROVED" ∷ text "CHANGES_REQUESTED" ∷ text "DISMISSED" ∷ []

-- The loop over the reviews
unfoldable pub latest_reviews : List Review → List Review → List Review
unfolding set_latest
latest_reviews latest [] = latest
latest_reviews latest (review ∷ reviews) =
    if one_of counted review.state
    then latest_reviews (set_latest review latest) reviews
    else latest_reviews latest reviews

abbrev pub asks : Review → Bool
asks review = same review.state (text "CHANGES_REQUESTED")

-- The names that `", ".join` takes; it takes no None.
abbrev pub logins : List Review → Result Stop (List Text)
logins [] = ok []
logins (review ∷ reviews) = elim review.login [
  | none ↦ err (crashed (text "TypeError"))
  | some login ↦ logins reviews >>= λ rest. ok (login ∷ rest)
]

-- `reviews`, from the pages of the listing
unfoldable pub reviews : List (Result Stop (List Review)) → Result Stop (Option Verdict)
unfolding paged latest_reviews sorted_set
reviews pages = paged pages >>= λ all_reviews.
    let asking = select asks (latest_reviews [] all_reviews) in
    if is_empty asking
    then ok none
    else logins asking >>= λ names. ok (
        some (1, text "held: " ++ join (text ", ") (sorted_set names) ++ text " asked for changes"))
