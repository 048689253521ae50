-- ===== src/MergeGrant/Decide.antt =====
-- gates/_merge_grant.py, `decide` and the tests of a grant.
pub mod Granted
pub mod Paths
pub mod Steps
use vibe_verifier.Base.{
  ℕ, Bool, true, false, not, ◌&&◌, ◌||◌, Option, none, some, List, [], ◌∷◌, ◌++◌, Result, ok, err,
  ◌>>=◌, ◌>>◌, if◌then◌else◌, any, select, is_empty, ltb, eqb, take,
}
use vibe_verifier.Base.Text.{Text, text, same, join}
use vibe_verifier.Base.Text.Order.{sorted_set}
use vibe_verifier.Base.Json.{Json, obj, Fields, end}
use vibe_verifier.Base.Fnmatch.{fnmatchcase}
use vibe_verifier.MergeGrant.Content.{Key, No, without, at_parts, equal}
use vibe_verifier.MergeGrant.Lines.{Search, LinesRule, line_hit}
use vibe_verifier.MergeGrant.Policy.{
  Row, Entry, Exclusion, Grant, Side, base, head, Reads, Python, all_paths, paths, object_of,
  names_of, fails, flat, selected, path_hits, is_control, is_any, why_not,
}

module _ (python : Python) where
  -- `_json`
  unfoldable pub json_of : Option Text → Text → Result No Fields
  json_of none path = ok end
  json_of (some s) path = object_of path (python.loads s)

  -- The first of the keys that must not change and did
  unfoldable pub first_changed : List Key → Fields → Fields → Option Key
  unfolding at_parts equal
  first_changed [] old new = none
  first_changed (key ∷ keys) old new =
      let rest = first_changed keys old new in
      if equal python.same_float (at_parts key.parts (obj old)) (at_parts key.parts (obj new))
      then rest
      else some key

  abbrev pub unchanged_holds : Entry → Fields → Fields → Text → Option Text
  unchanged_holds entry old new path = elim (first_changed entry.unchanged old new) [
    | none ↦ none
    | some key ↦ some (path ++ text " changes its " ++ key.written)
  ]

  -- `_compared`
  unfoldable pub compared : Entry → Fields → Fields → Text → Result No (Option Text)
  unfolding without equal first_changed
  compared entry old new path =
      if is_empty entry.changes_only
      then ok (unchanged_holds entry old new path)
      else without entry.changes_only old >>= λ old_rest.
          without entry.changes_only new >>= λ new_rest.
          if equal python.same_float (obj old_rest) (obj new_rest)
          then ok (unchanged_holds entry old new path)
          else fails
              (path ++ text " changes more than " ++ join (text ", ") (names_of entry.changes_only))

  -- `_holds`; none where the condition holds
  unfoldable pub holds : Reads → Entry → Row → Result No (Option Text)
  unfolding json_of compared
  holds reads entry row =
      if is_empty entry.changes_only && is_empty entry.unchanged
      then ok none
      else reads.read row.old base >>= λ old_text. json_of old_text row.old >>= λ old.
          reads.read row.new head >>= λ new_text.
          json_of new_text row.new >>= λ new. compared entry old new row.new

  -- The first reason of the entries whose path matches one of the file's
  unfoldable pub row_holds : Reads → Row → List Entry → Result No (Option Text)
  unfolding holds
  row_holds reads row [] = ok none
  row_holds reads row (entry ∷ entries) =
      if entry.path row.old || entry.path row.new
      then (holds reads entry row >>= λ why. elim why [
        | none ↦ row_holds reads row entries
        | some reason ↦ ok (some reason)
      ])
      else row_holds reads row entries

  unfoldable pub rows_hold : Reads → List Entry → List Row → Result No Bool
  unfolding row_holds
  rows_hold reads entries [] = ok true
  rows_hold reads entries (row ∷ rows) = row_holds reads row entries >>= λ why. elim why [
    | none ↦ rows_hold reads entries rows
    | some reason ↦ err reason
  ]

  -- `_categorized`
  unfoldable pub categorized : Reads → List Text → List Entry → List Row → Result No Bool
  unfolding paths rows_hold
  categorized reads names entries rows =
      let outside = select (λ path. not (any (λ entry. entry.path path) entries)) (paths rows) in
      if is_empty outside
      then rows_hold reads entries rows
      else err (
          text "it changes files outside "
          ++ join (text ", ") names
          ++ text " ("
          ++ join (text " ") (take 3 outside)
          ++ text ")")

  -- `_line_hits`
  unfoldable pub line_hits : Reads → Exclusion → LinesRule → List Row → Result No Bool
  unfolding selected line_hit
  line_hits reads exclusion rule [] = ok true
  line_hits reads exclusion rule (row ∷ rows) =
      if selected exclusion row.old || selected exclusion row.new
      then (reads.read row.old base >>= λ old. reads.read row.new head >>= λ new.
          if line_hit python.lower rule old new
          then err (row.new ++ text " changes " ++ exclusion.description)
          else line_hits reads exclusion rule rows)
      else line_hits reads exclusion rule rows

  abbrev pub exclusion_hits : Reads → List Row → Exclusion → Result No Bool
  exclusion_hits reads rows exclusion = elim exclusion.lines [
    | none ↦ path_hits exclusion rows
    | some rule ↦ line_hits reads exclusion rule rows
  ]

  -- `_excluded`
  unfoldable pub excluded : Reads → List Row → List Exclusion → Result No Bool
  unfolding path_hits line_hits
  excluded reads rows [] = ok true
  excluded reads rows (exclusion ∷ exclusions) =
      exclusion_hits reads rows exclusion >> excluded reads rows exclusions

  -- `_judge` of the changed files; the message shows the path as Python's `%r` would only where it needs
  -- no quoting.
  unfoldable pub judge_rows : Reads → Grant → List Row → Result No Bool
  unfolding paths categorized excluded
  judge_rows reads grant rows =
      if any (any is_control) (paths rows)
      then err (text "a changed path has a control character")
      else elim grant.categories [
        | none ↦ ok true
        | some categories ↦ categorized reads grant.category_names (flat categories) rows
      ]
        >> excluded reads rows grant.exclusions

  -- `_judge`
  unfoldable pub judge : Reads → Grant → Result No Bool
  unfolding judge_rows
  judge reads grant = if is_any grant then ok true else reads.files >>= judge_rows reads grant

  -- `_in_scope`
  unfoldable pub in_scope : Reads → Text → Grant → Result No Bool
  unfolding fnmatchcase
  in_scope reads repo grant =
      let elsewhere : Bool = elim grant.repos [
        | none ↦ false
        | some patterns ↦ not (any (fnmatchcase (python.lower repo)) patterns)
      ] in
      if elsewhere then ok false else elim grant.title [
        | none ↦ ok true
        | some finds ↦ reads.title >>= λ title. ok (finds title)
      ]

  -- What a grant decides: it holds, it is out of scope, or it does not hold, with the reason.
  unfoldable pub grant_answer : Reads → Text → Grant → Result No Bool
  unfolding in_scope judge
  grant_answer reads repo grant =
      in_scope reads repo grant >>= λ scoped. if scoped then judge reads grant else ok false

  -- The loop of `decide`: the name of the first grant that holds, or the reasons
  unfoldable pub decide_from : Reads → Text → List Grant → List Text → Result (List Text) Text
  unfolding grant_answer
  decide_from reads repo [] reasons = err reasons
  decide_from reads repo (grant ∷ grants) reasons =
      elim (grant_answer reads repo grant) as (λ _. Result (List Text) Text) [
        | ok true ↦ ok grant.name
        | ok false ↦ decide_from reads repo grants reasons
        | err why ↦ decide_from reads repo grants (reasons ++ (grant.name ++ text ": " ++ why) ∷ [])
      ]

  -- `decide`: the name of a grant, or why not
  unfoldable pub decide : Reads → Text → List Grant → Result Text Text
  unfolding decide_from
  decide reads repo grants = elim (decide_from reads repo grants []) as (λ _. Result Text Text) [
    | ok name ↦ ok name
    | err reasons ↦ err (why_not repo reasons)
  ]
