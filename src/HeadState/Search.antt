-- ===== src/HeadState/Search.antt =====
-- dashboard/head_state.py, the search for the heads of the open pull requests: `read_head_page` and
-- `load_heads`; dashboard/behind.py, `behind_default`.
pub mod Pages
use vibe_verifier.Base.{
  ℕ, zero, suc, ◌+◌, ◌*◌, ◌/◌, String, Bool, true, false, not, ◌&&◌, ◌||◌, Option, none, some, List,
  [], ◌∷◌, ◌++◌, Result, ok, err, if◌then◌else◌, any, is_empty, length, leb, ltb,
}
use vibe_verifier.Base.Text.{Text, text, same, is_space}
use vibe_verifier.Base.Json.{
  Json, null, bool, int, negsuc, float, str, arr, obj, Items, nil, cons, Fields, end, to_list,
  truthy,
}
use vibe_verifier.Base.Json.Dict.{at}
use vibe_verifier.HeadState.Pull.{
  Head, is_same, is_true, is_text, head_period_seconds, beat_seconds,
}
use vibe_verifier.HeadState.Collect.{Key, store, head_key}

-- `v.get(k) if isinstance(v, dict) else None`
abbrev pub member : String → Json → Json
member k (obj fs) = at k fs
member k v = null

abbrev pub text_of : Json → Option Text
text_of (str s) = some s
text_of v = none

-- An integer that is no bool and not below zero
abbrev pub natural_of : Json → Option ℕ
natural_of (int n) = some n
natural_of v = none

-- `v is False`
abbrev pub is_false : Json → Bool
is_false (bool b) = not b
is_false v = false

abbrev pub known_for : Option Text → Json → Json → Option ℕ
known_for none node count = none
known_for (some name) node count =
    if is_false (member "isCrossRepository" node) && is_same (member "baseRefName" node) (some name)
    then natural_of count
    else none

-- `behind_default`
unfoldable pub behind_default : Json → Option ℕ × Option Text
unfolding at
behind_default node =
    let name = text_of (member "name" (member "defaultBranchRef" (member "repository" node))) in
    let count = member "aheadBy" (member "compare" (member "headRef" node)) in
    (known_for name node count, name)

-- `_cost`
unfoldable pub cost : Json → ℕ
unfolding at
cost page = elim (natural_of (member "cost" (member "rateLimit" page))) [ none ↦ 0 | some n ↦ n ]

-- What a page says of the next: there is none, it cannot be used, or it starts there.
pub data Cursor : Type 0 where
  last : Cursor
  unusable : Cursor
  next : Text → Cursor

-- `_cursor`
unfoldable pub cursor_of : Json → Cursor
unfolding at is_space
cursor_of page =
    let found : Cursor = elim (member "endCursor" page) [
      | str s ↦ if is_empty s || ltb 512 (length s) || any is_space s then unusable else next s
      | _ ↦ unusable
    ] in
    if is_true (member "hasNextPage" page) then found else last

pub record Page : Type 0 where
  pub found : List (Key × Head)
  pub cursor : Cursor
  pub points : ℕ

abbrev pub head_of : Json → Text → Text → Option Text → Head
head_of node name sha state = record {
  sha = sha;
  behind_by = (behind_default node).0;
  default_branch = (behind_default node).1;
  rollup = state;
  merge_state = member "mergeStateStatus" node;
  mergeable = member "mergeable" node;
  review = member "reviewDecision" node;
  repository = name;
  title = member "title" node;
  author = member "login" (member "author" node);
  draft = is_true (member "isDraft" node);
  url = member "url" node;
  created_at = member "createdAt" node;
}

-- The rollup, none where it is neither a text nor None
abbrev pub state_of : Json → Option (Option Text)
state_of null = some none
state_of (str s) = some (some s)
state_of v = none

abbrev pub calls_per_hour : ℕ → ℕ
calls_per_hour calls = calls * (3600 / head_period_seconds)

-- `search_text`
unfoldable pub search_text : Text → Text → Text
unfolding text
search_text owner kind =
    text "is:pr is:open "
    ++ (if same kind (text "Organization") then text "org" else text "user")
    ++ text ":"
    ++ owner

-- The variables of a search; one past the first page says where to go on.
pub record Query : Type 0 where
  pub search : Text
  pub count : ℕ
  pub cursor : Option Text

abbrev pub query_of : Text → Text → ℕ → Option Text → Query
query_of owner kind size cursor = record {
  search = search_text owner kind;
  count = size;
  cursor = cursor;
}

abbrev pub page_limit : ℕ
page_limit = 100

-- `min(PAGE, max(count, 1))`
abbrev pub first_size : ℕ → ℕ
first_size count =
    let least = if ltb 1 count then count else 1 in
    if ltb least page_limit then least else page_limit

abbrev pub pages : ℕ
pages = 2

-- GitHub's answer to each question, counted from the first; an error is the code of an `ApiError`.
abbrev pub Answers : Type 0
Answers = ℕ → Query → Result Text Json

-- What was asked, the points that it cost, and the heads, with whether the search is complete
pub record Loaded : Type 0 where
  pub asked : List Query
  pub points : ℕ
  pub outcome : Result Text (List (Key × Head) × Bool)

abbrev pub merge : List (Key × Head) → List (Key × Head) → List (Key × Head)
merge found [] = found
merge found ((key, head) ∷ more) = merge (store key head found) more

abbrev pub read_on : Query → Page → Loaded → Loaded
read_on query page rest = record {
  asked = query ∷ rest.asked;
  points = page.points + rest.points;
  outcome = rest.outcome;
}

abbrev pub ends_with : Query → Page → List (Key × Head) → Loaded
ends_with query page found = record {
  asked = query ∷ [];
  points = page.points;
  outcome = ok (merge found page.found, true);
}

abbrev pub after_cursor :
    Query → Page → List (Key × Head) → (Text → List (Key × Head) → Loaded) → Cursor → Loaded
after_cursor query page found on (next c) = read_on query page (on c (merge found page.found))
after_cursor query page found on last = ends_with query page found
after_cursor query page found on unusable = ends_with query page found

module _ (casefold : Text → Text) where
  abbrev pub with_key : Option Key → Json → Json → Json → Option Text → Option (Key × Head)
  with_key (some key) node (str name) (str sha) state = some (key, head_of node name sha state)
  with_key _ node _ _ state = none

  -- `_one_head`
  unfoldable pub one_head : Json → Option (Key × Head)
  unfolding head_key behind_default at
  one_head node =
      let name = member "nameWithOwner" (member "repository" node) in
      let key = head_key casefold name (member "number" node) in
      elim (state_of (member "state" (member "statusCheckRollup" node))) [
        | none ↦ none
        | some state ↦ with_key key node name (member "headRefOid" node) state
      ]

  -- The heads of the nodes of a page; of one key the last stays.
  unfoldable pub page_heads : List (Key × Head) → List Json → List (Key × Head)
  unfolding one_head
  page_heads found [] = found
  page_heads found (node ∷ nodes) = elim (one_head node) as (λ _. List (Key × Head)) [
    | none ↦ page_heads found nodes
    | some (key, head) ↦ page_heads (store key head found) nodes
  ]

  abbrev pub page_of : Json → Json → Option Page
  page_of answer (arr nodes) =
      elim (cursor_of (member "pageInfo" (member "search" answer))) as (λ _. Option Page) [
        | unusable ↦ none
        | cursor ↦ some (record {
          found = page_heads [] (to_list nodes);
          cursor = cursor;
          points = cost answer;
        })
      ]
  page_of answer v = none

  -- `read_head_page`
  unfoldable pub read_head_page : Json → Option Page
  unfolding page_heads cursor_of cost at truthy
  read_head_page (obj payload) =
      let answer = at "data" payload in
      if truthy (at "errors" payload)
      then none
      else page_of answer (member "nodes" (member "search" answer))
  read_head_page v = none

  -- Behind a page: the search goes on where the page says so.
  abbrev pub after_page :
      Query → Option Page → List (Key × Head) → (Text → List (Key × Head) → Loaded) → Loaded
  after_page query none found on = record {
    asked = query ∷ [];
    points = 0;
    outcome = err (text "invalid_response");
  }
  after_page query (some page) found on = after_cursor query page found on page.cursor

  abbrev pub after_answer :
      Query → Result Text Json → List (Key × Head) → (Text → List (Key × Head) → Loaded) → Loaded
  after_answer query (err code) found on = record {
    asked = query ∷ [];
    points = 0;
    outcome = err code;
  }
  after_answer query (ok payload) found on = after_page query (read_head_page payload) found on

  module _ (answers : Answers) (owner kind : Text) where
    -- The loop of `load_heads`, by the pages that are left; `call` counts the pages that were read.
    unfoldable pub load_from : ℕ → ℕ → ℕ → Option Text → List (Key × Head) → Loaded
    unfolding read_head_page search_text
    load_from zero call size cursor found = record {
      asked = [];
      points = 0;
      outcome = ok (found, false);
    }
    load_from (suc left) call size cursor found =
        let query = query_of owner kind size cursor in
        after_answer query (answers call query) found
          (λ c more. load_from left (suc call) page_limit (some c) more)

    -- `load_heads`
    unfoldable pub load_heads : ℕ → Loaded
    unfolding load_from
    load_heads count = load_from pages 0 (first_size count) none []
