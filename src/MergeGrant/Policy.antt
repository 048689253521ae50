-- ===== src/MergeGrant/Policy.antt =====
-- gates/_merge_grant.py: a policy as `load_policy` compiles it (a pattern is what its `search` finds), what
-- is read of a pull request, and the tests of its paths.
use vibe_verifier.Base.{
  ℕ, Bool, true, false, not, ◌&&◌, ◌||◌, Option, none, some, List, [], ◌∷◌, ◌++◌, Result, ok, err,
  if◌then◌else◌, select, is_empty, ltb, eqb, take,
}
use vibe_verifier.Base.Text.{Text, text, join}
use vibe_verifier.Base.Text.Order.{sorted_set}
use vibe_verifier.Base.Json.{Json, obj, Fields}
use vibe_verifier.MergeGrant.Content.{Key, No}
use vibe_verifier.MergeGrant.Lines.{Search, LinesRule}

-- A changed file: its path at the base and at the head, empty where it is not there
pub record Row : Type 0 where
  pub old : Text
  pub new : Text

pub record Entry : Type 0 where
  pub path : Search
  pub changes_only : List Key
  pub unchanged : List Key

pub record Exclusion : Type 0 where
  pub description : Text
  pub path : Search
  pub exempt : Option Search
  pub lines : Option LinesRule

-- A grant, its names replaced by what the policy has under them
pub record Grant : Type 0 where
  pub name : Text
  pub repos : Option (List Text)
  pub title : Option Search
  pub category_names : List Text
  pub categories : Option (List (List Entry))
  pub exclusions : List Exclusion

pub data Side : Type 0 where
  base : Side
  head : Side

-- What is read of the pull request; the error is the text of `Unreadable`. `decide` keeps each text that it
-- has read; the files and the title answer each grant alike.
pub record Reads : Type 0 where
  pub files : Result Text (List Row)
  pub title : Result Text Text
  pub read : Text → Side → Result Text (Option Text)

-- What Python gives: `json.loads` of a text, none where it is no JSON; equality of floats; and lower case
pub record Python : Type 0 where
  pub loads : Text → Option Json
  pub same_float : Json → Json → Bool
  pub lower : Text → Text

-- `_paths`
abbrev pub all_paths : List Row → List Text
all_paths [] = []
all_paths (row ∷ rows) = row.old ∷ row.new ∷ all_paths rows

unfoldable pub paths : List Row → List Text
unfolding sorted_set
paths rows = sorted_set (select (λ path. not (is_empty path)) (all_paths rows))

abbrev pub object_of : Text → Option Json → Result No Fields
object_of path (some (obj fs)) = ok fs
object_of path _ = err (path ++ text " is not a JSON object")

abbrev pub names_of : List Key → List Text
names_of [] = []
names_of (key ∷ keys) = key.written ∷ names_of keys

abbrev pub fails : Text → Result No (Option Text)
fails why = ok (some why)

abbrev pub flat : List (List Entry) → List Entry
flat [] = []
flat (entries ∷ more) = entries ++ flat more

-- `_selected`
unfoldable pub selected : Exclusion → Text → Bool
selected exclusion path =
    not (is_empty path)
    && exclusion.path path
    && not (elim exclusion.exempt [ none ↦ false | some exempt ↦ exempt path ])

-- `_path_hits`
unfoldable pub path_hits : Exclusion → List Row → Result No Bool
unfolding selected paths
path_hits exclusion rows =
    let hits = select (selected exclusion) (paths rows) in
    if is_empty hits
    then ok true
    else err (
        text "it touches "
        ++ exclusion.description
        ++ text " ("
        ++ join (text " ") (take 3 hits)
        ++ text ")")

abbrev pub is_control : ℕ → Bool
is_control c = ltb c 32 || eqb c 127

abbrev pub is_any : Grant → Bool
is_any grant = elim grant.categories [ none ↦ is_empty grant.exclusions | some categories ↦ false ]

abbrev pub why_not : Text → List Text → Text
why_not repo [] = text "no grant covers " ++ repo
why_not repo (reason ∷ reasons) = join (text "; ") (reason ∷ reasons)
