-- ===== src/HeadState/Unseen.antt =====
-- dashboard/head_state.py, `unseen_pull`: a pull request that the search has found and no pass has detailed;
-- dashboard/util.py, `github_url` and `elapsed_seconds`.
use vibe_verifier.Base.{
  ℕ, ◌-◌, ◌/◌, String, Bool, true, false, not, ◌&&◌, ◌||◌, Option, none, some, List, [], ◌∷◌,
  if◌then◌else◌, is_empty, ltb, select, take, leb, length,
}
use vibe_verifier.Base.Text.{Text, text, same, split}
use vibe_verifier.Base.Json.{
  Json, null, bool, int, negsuc, str, arr, nil, Fields, end, field, truthy,
}
use vibe_verifier.Base.Json.Dict.{set}
use vibe_verifier.HeadState.Pull.{Calendar, Head, second, parse_time, stamp_behind}
use vibe_verifier.HeadState.Collect.{Number, from, below}

-- A URL in the parts that `github_url` reads, and how Python takes it apart
pub record Url : Type 0 where
  pub scheme : Text
  pub netloc : Text
  pub path : Text
  pub has_user : Bool

-- What Python gives: `casefold` and `lower` of a text, `str` of a value that is no text, `urlparse`
pub record Texts : Type 0 where
  pub casefold : Text → Text
  pub lower : Text → Text
  pub shown : Json → Text
  pub urlparse : Text → Url

abbrev pub is_rooted : (Text → Text) → List Text → Text → Bool
is_rooted lower [] owner = false
is_rooted lower (part ∷ parts) owner = same (lower part) (lower owner)

-- `util.github_url`
unfoldable pub github_url : Texts → Json → Text → Json
unfolding split
github_url texts (str s) owner =
    let url = texts.urlparse s in
    let parts = select (λ part. not (is_empty part)) (split 47 url.path) in
    if leb (length s) 2048
      && same url.scheme (text "https")
      && same (texts.lower url.netloc) (text "github.com")
      && is_rooted texts.lower parts owner
      && not url.has_user
    then str s
    else null
github_url texts v owner = null

-- `util.elapsed_seconds(created, None, now)`
abbrev pub age_of : Option ℕ → ℕ → Json
age_of none now = null
age_of (some began) now = if ltb now began then null else int ((now - began) / second)

-- `rollup_category`, of a head
unfoldable pub rollup_category : Option Text → Option Text
unfolding text
rollup_category none = none
rollup_category (some rollup) =
    if same rollup (text "SUCCESS")
    then some (text "success")
    else if same rollup (text "FAILURE") || same rollup (text "ERROR")
    then some (text "failed")
    else if same rollup (text "PENDING") || same rollup (text "EXPECTED")
    then some (text "pending")
    else none

abbrev pub number_json : Number → Json
number_json (from n) = int n
number_json (below n) = negsuc n

abbrev pub text_or_null : Json → Json
text_or_null (str s) = str s
text_or_null v = null

abbrev pub text_or : Text → Json → Json
text_or other (str s) = str s
text_or other v = str other

abbrev pub owner_of : Json → Text
owner_of (str s) = s
owner_of v = []

-- A dict of the keys and values
abbrev pub dict_of : List (String × Json) → Fields
dict_of [] = end
dict_of ((k, v) ∷ more) = field k v (dict_of more)

abbrev pub with_rollup : Option Text → Fields → Fields
with_rollup none fs = fs
with_rollup (some overall) fs = set "rollup_category" (str overall) fs

module _ (texts : Texts) (calendar : Calendar) where
  -- `str(v or other)[:n]`
  abbrev pub cut : ℕ → Json → Text → Json
  cut n (str s) other = if is_empty s then str (take n other) else str (take n s)
  cut n v other = if truthy v then str (take n (texts.shown v)) else str (take n other)

  abbrev pub unseen_fields : Text → Number → Head → ℕ → Json → Text → List (String × Json)
  unseen_fields repository number head now subscription owner =
      ("repository", str repository)
      ∷ ("number", number_json number)
      ∷ ("title", cut 300 head.title (text "Untitled pull request"))
      ∷ ("author", cut 100 head.author (text "unknown"))
      ∷ ("created_at", text_or_null head.created_at)
      ∷ ("age_seconds", age_of (parse_time calendar (text_or_null head.created_at)) now)
      ∷ ("head_sha", str head.sha)
      ∷ ("draft", bool head.draft)
      ∷ ("html_url", github_url texts head.url owner)
      ∷ ("subscription", text_or (text "unknown") subscription)
      ∷ ("merge_ready", bool false)
      ∷ ("evidence_available", bool false)
      ∷ ("attention", bool true)
      ∷ ("attention_reason", str (text "Checks are not loaded yet"))
      ∷ ("head_changed", bool false)
      ∷ ("checks", arr nil)
      ∷ ("statuses", arr nil)
      ∷ ("expected", arr nil)
      ∷ ("runs", arr nil)
      ∷ ("source_error", str (text "request_budget_exhausted"))
      ∷ []

  -- `unseen_pull`
  unfoldable pub unseen_pull : Text → Number → Head → ℕ → Json → Text → Fields
  unfolding github_url rollup_category parse_time set
  unseen_pull repository number head now subscription owner =
      stamp_behind
        (with_rollup (rollup_category head.rollup)
          (dict_of (unseen_fields repository number head now subscription owner)))
        head
