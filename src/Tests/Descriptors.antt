-- ===== src/Tests/Descriptors.antt =====
-- The theorems on the tool descriptors at concrete inputs (gates/_descriptors.py).
use vibe_verifier.Base.{
  All, false, Result, ◌≡◌, refl, inl, true, none, some, List, [], ◌∷◌, ◌++◌, ok, In,
}
use vibe_verifier.Base.Text.{Text, text}
use vibe_verifier.Base.Json.{Json, int, str, arr, obj, nil, cons, Fields, end, field}
use vibe_verifier.Contract.Report.{Finding}
use vibe_verifier.Descriptors.Run.{exited, Tools, Args, is_judged, judged_files, check}
use vibe_verifier.Descriptors.Run.Judged.{Judged, check-Judged}
use vibe_verifier.Descriptors.Problem.{type_error, options_problem}
use vibe_verifier.Descriptors.Conflicts.{
  File, Repository, Named, gate_of, repository_files, sorted_files, in_repository,
}
use vibe_verifier.Descriptors.Conflicts.Chosen.{Catalog, parse_all, descriptor_for}
use vibe_verifier.Descriptors.Conflicts.Alone.{IsAlone, descriptor_for-IsAlone}
use vibe_verifier.Descriptors.Conflicts.Base.{AtBase, repository_files-AtBase}

abbrev ruff : Fields
ruff = field "gate" (str (text "ruff")) (
    field "description" (str (text "lint")) (
      field "tool" (str (text "ruff")) (
        field "args" (arr nil) (
          field "files" (arr (cons (str (text "*.py")) nil))
            (field "output" (obj (field "parser" (str (text "sarif")) end)) end)))))

abbrev path : Text
path = text ".vibe-verifier-tools/ruff.json"

abbrev repository : Repository
repository = record {
  is_repository = true;
  base = some (text "main");
  at_base = λ base. ok (path ∷ []);
  show = λ base file. ok (text "as on the base");
  tracked = ok (path ∷ []);
  read = λ file. ok (text "edited");
}

abbrev catalog : Catalog
catalog = record {
  loads = λ s. ok (obj ruff);
  shown = λ s. s;
  is_pinned = λ tool. true;
  files = [];
  gates = record { names = text "prose" ∷ []; tools = (text "vale", text "gates/prose.py") ∷ [] };
}

abbrev named : Named
named = record { origin = text "main:.vibe-verifier-tools/ruff.json"; fields = ruff }

chosen : descriptor_for catalog repository (text "ruff") ≡ ok named
unfolding descriptor_for
chosen = refl

descriptor_for-IsAlone_example :
    (files : List File) × (own : List Named) × (shared : List Named) × (repository_files repository
      ≡ ok files)
    × (parse_all catalog (sorted_files files) none ≡ ok own)
    × (parse_all catalog catalog.files (some catalog.is_pinned) ≡ ok shared)
    × In named (own ++ shared)
    × (gate_of named ≡ text "ruff")
    × IsAlone catalog.gates (own ++ shared) named
descriptor_for-IsAlone_example =
    descriptor_for-IsAlone catalog repository (text "ruff") named chosen

as_on_base : File
as_on_base = record {
  path = path;
  origin = text "main:.vibe-verifier-tools/ruff.json";
  text = text "as on the base";
}

read_files : repository_files repository ≡ ok (as_on_base ∷ [])
unfolding repository_files as_on_base
read_files = refl

in_folder : in_repository path ≡ true
unfolding in_repository
in_folder = refl

repository_files-AtBase_example : AtBase repository (text "main") path (as_on_base ∷ [])
repository_files-AtBase_example =
    repository_files-AtBase repository (text "main") path (path ∷ []) (as_on_base ∷ []) refl refl
      refl (inl refl) in_folder read_files

-- An option whose `to` is a number
abbrev numbered : Json
numbered =
    obj (field "--level" (obj (field "help" (str (text "the level")) (field "to" (int 1) end))) end)

numbered_raises : options_problem numbered ≡ type_error
unfolding options_problem
numbered_raises = refl

-- A tool that reports one finding in `a.py`, and exits with 1
abbrev unused_import : Finding
unused_import = record {
  message = text "unused import";
  path = some (text "a.py");
  line = some 1;
  advisory = false;
}

abbrev tools : Tools
tools = record {
  is_binary = λ tool. true;
  ensure = λ tool. ok tool;
  is_pinned = λ tool. true;
  ensure_python = λ tool. ok tool;
  which = λ tool. none;
  run = λ command. record { exit = exited 1; stdout = text "{}"; stderr = [] };
  parser = λ name report output. ok (unused_import ∷ []);
  own_path = λ file. file;
}

abbrev args : Args
args = record { source = []; exclude = []; value = λ flag. none }

abbrev names : Result Text (List Text)
names = ok (text "b.md" ∷ text "a.py" ∷ [])

checked : check tools ruff args names none ≡ ok (unused_import ∷ [])
unfolding check
checked = refl

check-Judged_example :
    (listed : List Text) × (names ≡ ok listed)
    × All (λ file. is_judged args ruff file ≡ true) (judged_files args ruff listed)
    × Judged tools ruff args none (judged_files args ruff listed) (unused_import ∷ [])
check-Judged_example = check-Judged tools ruff args names none (unused_import ∷ []) checked
