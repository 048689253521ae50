-- ===== src/Descriptors/Conflicts/Chosen.antt =====
-- gates/_descriptors.py, `parse`, `catalog` and `descriptor_for`.
use vibe_verifier.Base.{
  Bool, Option, none, some, List, [], ◌∷◌, ◌++◌, Result, ok, err, ◌>>=◌, if◌then◌else◌, first,
}
use vibe_verifier.Base.Text.{Text, text, same}
use vibe_verifier.Base.Json.{Json, Fields, end, obj}
use vibe_verifier.Descriptors.Problem.{Problem, fine, problem, type_error, descriptor_problem}
use vibe_verifier.Descriptors.Conflicts.{
  File, Repository, repository_files, sorted_files, Named, gate_of, Gates, conflicts,
}

-- What ends a run: it could not run, or a TypeError that nothing catches.
pub data Stop : Type 0 where
  cannot_run : Text → Stop
  raised : Stop

-- `json.loads`, with the text of its ValueError; `%r` of a text; and what the catalog has: the tools that
-- are pinned, its descriptors, and the gates that are Python
pub record Catalog : Type 0 where
  pub loads : Text → Result Text Json
  pub shown : Text → Text
  pub is_pinned : Text → Bool
  pub files : List File
  pub gates : Gates

-- `os.path.basename(path)[:-len(".json")]`, the name so far first
abbrev pub stem_from : Text → Text → Text
stem_from name [] = name
stem_from name (c ∷ s) =
    let inside = stem_from [] s in
    let on = stem_from (name ++ c ∷ []) s in
    if same (c ∷ s) (text ".json") then name else if same (c ∷ []) (text "/") then inside else on

abbrev pub fields_of : Json → Fields
fields_of (obj fs) = fs
fields_of v = end

module _ (catalog : Catalog) where
  abbrev pub judged : Text → Fields → Problem → Result Stop Named
  judged origin fs fine = ok (record { origin = origin; fields = fs })
  judged origin fs (problem why) = err (cannot_run (origin ++ text ": " ++ why))
  judged origin fs type_error = err raised

  abbrev pub parsed : Text → Option (Text → Bool) → Json → Result Stop Named
  parsed origin pinned v =
      judged origin (fields_of v) (descriptor_problem catalog.shown v (stem_from [] origin) pinned)

  -- `parse`
  unfoldable pub parse : File → Option (Text → Bool) → Result Stop Named
  unfolding descriptor_problem text
  parse file pinned = elim (catalog.loads file.text) as (λ _. Result Stop Named) [
    | err why ↦ err (cannot_run (file.origin ++ text " is not JSON: " ++ why))
    | ok v ↦ parsed file.origin pinned v
  ]

  abbrev pub parse_all : List File → Option (Text → Bool) → Result Stop (List Named)
  parse_all [] pinned = ok []
  parse_all (file ∷ files) pinned =
      parse file pinned >>= λ named. parse_all files pinned >>= λ more. ok (named ∷ more)

  abbrev pub or_cannot : {A : Type 0} → Result Text A → Result Stop A
  or_cannot (ok a) = ok a
  or_cannot (err why) = err (cannot_run why)

  abbrev pub reason_for : Text → List (Text × Text) → Option Text
  reason_for gate [] = none
  reason_for gate ((other, why) ∷ more) =
      let rest = reason_for gate more in if same gate other then some why else rest

  -- The descriptor of the gate, where nothing else claims its name or its tool
  unfoldable pub choose : Text → List Named → Result Stop Named
  unfolding conflicts text
  choose gate found =
      elim (reason_for gate (conflicts catalog.shown catalog.gates found))
        as (λ _. Result Stop Named) [
          | some why ↦ err (cannot_run why)
          | none ↦
              elim (first (λ named. same (gate_of named) gate) found) as (λ _. Result Stop Named) [
                | none ↦ err (
                    cannot_run (
                      text "no descriptor named "
                      ++ gate
                      ++ text " in gates/descriptors/ or .vibe-verifier-tools/"))
                | some named ↦ ok named
              ]
        ]

  -- `descriptor_for`
  unfoldable pub descriptor_for : Repository → Text → Result Stop Named
  unfolding repository_files parse choose
  descriptor_for repository gate = or_cannot (repository_files repository) >>= λ files.
      parse_all (sorted_files files) none >>= λ own.
      parse_all catalog.files (some catalog.is_pinned) >>= λ shared. choose gate (own ++ shared)
