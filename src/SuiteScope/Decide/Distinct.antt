-- ===== src/SuiteScope/Decide/Distinct.antt =====
-- actions/suite-scope/suite_scope.py, `changed_paths`: as many names as files means that no file was
-- listed twice.
use vibe_verifier.Base.{
  ◌∙◌, suc, ◌+◌, ◌≤◌, ◌≡◌, ◌≢◌, refl, sym, ap, subst, inl, inr, true, List, [], ◌∷◌, ◌++◌, Result,
  ok, err, ◌>>=◌, if◌then◌else◌, any, length, All, arith, Bool-cases, returned,
}
use vibe_verifier.Base.Text.{Text, same, same_iff}
use vibe_verifier.Base.Json.{Json, str, Misread, get}
use vibe_verifier.SuiteScope.Reads.{Fault, file_paths, collect}
use vibe_verifier.SuiteScope.Decide.Files.{file_step, ok-injective, str-injective}

-- None of the files has the name.
abbrev pub NotListed : Text → List Json → Type 0
NotListed name = All (λ file. get "filename" file ≢ ok (str name))

-- Every file has a name, which no later file has.
abbrev pub NamedOnce : List Json → Type 0
NamedOnce [] = Unit
NamedOnce (file ∷ files) =
    ((name : Text) × (get "filename" file ≡ ok (str name)) × NotListed name files) × NamedOnce files

abbrev add_name : Text → List Text → List Text
add_name name names = if any (same name) names then names else name ∷ names

collected :
    (paths : List Json) (r : Result Fault (List Text × List Json)) (out : List Text × List Json)
    → (r >>= λ (all_names, more). ok (all_names, paths ++ more)) ≡ ok out
    → (rest : List Text × List Json) × (r ≡ ok rest) × (out.0 ≡ rest.0)
collected paths (err why) out h = cc
collected paths (ok rest) out h =
    (rest, refl, ap (λ (t : List Text × List Json). t.0) (sym (ok-injective _ _ h)))

-- One step of `collect`
collect_step :
    (file : Json) (files : List Json) (names : List Text) (out : List Text × List Json)
    → collect (file ∷ files) names ≡ ok out
    → (name : Text) × (rest : List Text × List Json) × (get "filename" file ≡ ok (str name))
      × (collect files (add_name name names) ≡ ok rest)
      × (out.0 ≡ rest.0)
unfolding collect
collect_step file files names out h =
    let (found, read, h') = returned (file_paths file) _ out h in
    let (rest, r, o) = collected found.1 _ out h' in
    (found.0, rest, (file_step file found read).0, r, o)

length-add_name :
    (name : Text) (names : List Text) → length (add_name name names) ≤ suc (length names)
length-add_name name names = ground arith

collect-length :
    (files : List Json) (names : List Text) (out : List Text × List Json)
    → collect files names ≡ ok out
    → length out.0 ≤ length names + length files
unfolding collect
collect-length [] names out h =
    let e = ap (λ (t : List Text × List Json). length t.0) (ok-injective _ _ h) in omega (arith, e)
collect-length (file ∷ files) names out h =
    let (name, rest, named, r, o) = collect_step file files names out h in
    omega (
      arith,
      collect-length files (add_name name names) rest r,
      length-add_name name names,
      ap length o,
    )

ok-json : (a b : Json) → ◌≡◌ {A = Result Misread Json} (ok a) (ok b) → a ≡ b
ok-json a b h = cc

-- The names known before are those of none of the files, and every file has its name alone.
abbrev Fresh : List Json → List Text → Type 0
Fresh files names =
    ((name : Text) → any (same name) names ≡ true → NotListed name files) × NamedOnce files

collect-Fresh :
    (files : List Json) (names : List Text) (out : List Text × List Json)
    → collect files names ≡ ok out
    → length names + length files ≤ length out.0
    → Fresh files names
collect-Fresh [] names out h full = (λ name known. tt, tt)
collect-Fresh (file ∷ files) names out h full =
    let (name, rest, named, r, o) = collect_step file files names out h in
    elim (Bool-cases (any (same name) names)) [
      | inl known ↦
          let r' : collect files names ≡ ok rest = rw known at r in
          absurd (omega (arith, collect-length files names rest r', ap length o, full))
      | inr unknown ↦
          let r' : collect files (name ∷ names) ≡ ok rest = rw unknown at r in
          let fresh =
            collect-Fresh files (name ∷ names) rest r' (omega (arith, full, ap length o)) in
          let itself = (same_iff name name).1 refl in
          (
            λ other known. (
              λ e.
                  let same_name = str-injective _ _ (ok-json _ _ (sym named ∙ e)) in
                  let among = subst (λ n. any (same n) names ≡ true) (sym same_name) known in
                  absurd (ground arith),
              fresh.0 other (ground arith),
            ),
            ((name, named, fresh.0 name (ground arith)), fresh.1),
          )
    ]

-- Where `collect` finds as many names as files, each file has its name alone.
pub collect-NamedOnce :
    (files : List Json) (out : List Text × List Json)
    → collect files [] ≡ ok out
    → length out.0 ≡ length files
    → NamedOnce files
collect-NamedOnce files out h e = (collect-Fresh files [] out h (omega arith)).1
