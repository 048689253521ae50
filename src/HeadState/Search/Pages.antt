-- ===== src/HeadState/Search/Pages.antt =====
-- dashboard/head_state.py, `load_heads`: the pages that a complete search has read.
use vibe_verifier.Base.{ℕ, ◌≡◌, ◌⊎◌, Bool, true, false, none, some, List, [], Result, ok}
use vibe_verifier.Base.Text.{Text}
use vibe_verifier.Base.Json.{Json}
use vibe_verifier.HeadState.Pull.{Head}
use vibe_verifier.HeadState.Collect.{Key}
use vibe_verifier.HeadState.Search.{
  Cursor, next, Page, page_limit, Answers, Loaded, merge, query_of, read_head_page, first_size,
}

abbrev pub is_end : Cursor → Bool
is_end (next c) = false
is_end _ = true

abbrev pub On : Type 0
On = Text → List (Key × Head) → Loaded

-- What a search that has its result found behind a page: the end, or another page.
abbrev pub Goes : Page → List (Key × Head) → On → List (Key × Head) × Bool → Type 0
Goes page found on result =
    ((is_end page.cursor ≡ true) × (result ≡ (merge found page.found, true)))
    ⊎ ((c : Text) × (page.cursor ≡ next c) × ((on c (merge found page.found)).outcome ≡ ok result))

module _ (casefold : Text → Text) where
  -- The answer to a question is a page.
  abbrev pub IsPage : Result Text Json → Page → Type 0
  IsPage answer page =
      (payload : Json) × (answer ≡ ok payload) × (read_head_page casefold payload ≡ some page)

  module _ (answers : Answers) (owner kind : Text) where
    -- A search on one page, or on two
    abbrev pub OnePage : ℕ → List (Key × Head) × Bool → Type 0
    OnePage count result =
        (page : Page) × IsPage (answers 0 (query_of owner kind (first_size count) none)) page
        × (is_end page.cursor ≡ true)
        × (result ≡ (merge [] page.found, true))

    abbrev pub TwoPages : ℕ → List (Key × Head) × Bool → Type 0
    TwoPages count result =
        (page : Page) × (c : Text) × (second : Page) × IsPage
          (answers 0 (query_of owner kind (first_size count) none)) page
        × (page.cursor ≡ next c)
        × IsPage (answers 1 (query_of owner kind page_limit (some c))) second
        × (result ≡ (merge (merge [] page.found) second.found, is_end second.cursor))
