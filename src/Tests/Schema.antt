-- ===== src/Tests/Schema.antt =====
-- The theorem on the schema of a report at a concrete input (gates/_schema_subset.py).
use vibe_verifier.Base.{◌≡◌, ◌↔◌, refl, true, none, some, [], ◌∷◌}
use vibe_verifier.Base.Text.{Text, text, join}
use vibe_verifier.Base.Json.{Json, str, int, obj, end, field}
use vibe_verifier.Schema.{
  Schema, schema, anything, no_more, property, object, string, schema_problem,
}
use vibe_verifier.Schema.Conforms.{Conforms, schema_problem-Conforms}

abbrev grade : Schema
grade =
    schema
      (record {
        kinds = string ∷ [];
        enum = some (text "pass" ∷ text "fail" ∷ []);
        required = [];
        closed = true;
      })
      anything no_more

abbrev grades : Schema
grades =
    schema (record { kinds = object ∷ []; enum = none; required = "grade" ∷ []; closed = true })
      anything (property "grade" grade no_more)

abbrev as_shown : Json → Text
as_shown v = []

schema_problem-Conforms_example :
    (schema_problem as_shown grades (obj (field "grade" (str (text "pass")) end)) (text "grades")
      ≡ none)
    ↔ Conforms grades (obj (field "grade" (str (text "pass")) end))
schema_problem-Conforms_example =
    schema_problem-Conforms as_shown grades (obj (field "grade" (str (text "pass")) end))
      (text "grades")

extra_key :
    schema_problem as_shown grades
      (obj (field "grade" (str (text "pass")) (field "note" (int 1) end)))
      (text "grades")
    ≡ some (text "grades has note")
unfolding schema_problem text join
extra_key = refl
