-- ===== src/Descriptors/Run/Judged.antt =====
-- gates/_descriptors.py: what a descriptor gate that passes or fails has run, and on which files.
use vibe_verifier.Base.{
  ◌≡◌, refl, sym, ap, subst, ◌∙◌, ◌⊎◌, inl, inr, Bool, true, false, not, ◌&&◌, Option, none, some,
  List, [], ◌∷◌, ◌++◌, Result, ok, err, returned, if◌then◌else◌, is_empty, select, map, All, arith,
  Bool-cases,
}
use vibe_verifier.Base.Text.{Text}
use vibe_verifier.Base.Text.Order.{before}
use vibe_verifier.Base.Json.{Fields}
use vibe_verifier.Base.Json.Dict.{at, present}
use vibe_verifier.Contract.Report.{Finding}
use vibe_verifier.Descriptors.Run.{
  Ran, Tools, Args, strings_at, put_path, sort_paths, is_judged, judged_files, passed, options_of,
  reports, found_something, in_files, resolve, tool_of, read_report, report_findings, at_own_path,
  run_tool, check,
}

module _ {A : Type 0} where
  All-select : (p : A → Bool) (xs : List A) → All (λ x. p x ≡ true) (select p xs)
  All-select p [] = tt
  All-select p (x ∷ xs) = elim (Bool-cases (p x)) [
    | inl e ↦ rw e (e, All-select p xs)
    | inr e ↦ rw e (All-select p xs)
  ]

All-put_path :
    (P : Text → Type 0) (path : Text) (paths : List Text)
    → P path
    → All P paths
    → All P (put_path path paths)
All-put_path P path [] h k = (h, tt)
All-put_path P path (other ∷ paths) h k = elim (Bool-cases (before other path)) [
  | inl e ↦ rw e (k.0, All-put_path P path paths h k.1)
  | inr e ↦ rw e (h, k)
]

All-sort_paths : (P : Text → Type 0) (paths : List Text) → All P paths → All P (sort_paths paths)
All-sort_paths P [] h = tt
All-sort_paths P (path ∷ paths) h =
    All-put_path P path (sort_paths paths) h.0 (All-sort_paths P paths h.1)

module _ {A B : Type 0} where
  failed_or :
      (b : Bool) (why : B) (rest : Result B A) (a : A)
      → (if b then err why else rest) ≡ ok a
      → (b ≡ false) × (rest ≡ ok a)
  failed_or true why rest a h = absurd (cc)
  failed_or false why rest a h = (refl, h)

  ok_same : {a b : A} → ◌≡◌ {A = Result B A} (ok a) (ok b) → a ≡ b
  ok_same h = cc

  taken_if :
      {r : A} (b : Bool) (x y : Result B A) → b ≡ true → (if b then x else y) ≡ ok r → x ≡ ok r
  taken_if true x y e h = h
  taken_if false x y e h = absurd (cc)

  other_if :
      {r : A} (b : Bool) (x y : Result B A) → b ≡ false → (if b then x else y) ≡ ok r → y ≡ ok r
  other_if true x y e h = absurd (cc)
  other_if false x y e h = h

module _ (tools : Tools) (descriptor : Fields) (args : Args) where
  -- The process that the tool ran as on the files
  abbrev pub ran_on : List Text → List Text → Ran
  ran_on command files = tools.run (
      command
      ++ passed args (options_of (at "options" descriptor))
      ++ strings_at "args" descriptor
      ++ files)

  -- The tool was found and exited with 0 or 1, its report was read, an exit with 1 had a finding, and the
  -- findings are those of the report at the repository's own paths, without those of other files.
  abbrev pub Reported : List Text → List Finding → Type 0
  Reported files findings =
      (command : List Text) × (raw : List Finding) × (resolve tools (tool_of tools descriptor)
        ≡ ok command)
      × (reports (ran_on command files).exit ≡ true)
      × (read_report tools descriptor (ran_on command files) ≡ ok raw)
      × (found_something (ran_on command files).exit && is_empty raw ≡ false)
      × (findings
          ≡ select (λ (finding : Finding). in_files files finding.path)
              (map (at_own_path tools) raw))

  judged_files-All :
      (names : List Text)
      → All (λ path. is_judged args descriptor path ≡ true) (judged_files args descriptor names)
  unfolding judged_files
  judged_files-All names =
      All-sort_paths (λ path. is_judged args descriptor path ≡ true)
        (select (is_judged args descriptor) names) (All-select (is_judged args descriptor) names)

  report_findings-read :
      (ran : Ran) (raw : List Finding)
      → report_findings tools descriptor ran ≡ ok raw
      → (reports ran.exit ≡ true)
        × (read_report tools descriptor ran ≡ ok raw)
        × (found_something ran.exit && is_empty raw ≡ false)
  unfolding report_findings
  report_findings-read ran raw h =
      let (exits, after) = failed_or (not (reports ran.exit)) _ _ raw h in
      let (found, read, judged) = returned (read_report tools descriptor ran) _ raw after in
      let (full, same) = failed_or (found_something ran.exit && is_empty found) _ _ raw judged in
      let equal : found ≡ raw = cc in
      (
        ground arith,
        read ∙ ap ok equal,
        ap (λ (fs : List Finding). found_something ran.exit && is_empty fs) (sym equal) ∙ full,
      )

  run_tool-Reported :
      (files : List Text) (findings : List Finding)
      → run_tool tools descriptor args files ≡ ok findings
      → Reported files findings
  unfolding run_tool
  run_tool-Reported files findings h =
      let (command, found, after) =
        returned (resolve tools (tool_of tools descriptor)) _ findings h in
      let (raw, reported, kept) =
        returned (report_findings tools descriptor (ran_on command files)) _ findings after in
      let (exits, read, full) = report_findings-read (ran_on command files) raw reported in
      (command, raw, found, exits, read, full, sym (ok_same kept))

  -- What the run of a gate ends with, of the findings of its tool: those, or what the ratchet makes of them
  abbrev pub Ratcheted :
      Option (List Text → List Finding → Result Text (List Finding))
      → List Text
      → List Finding
      → List Finding
      → Type 0
  Ratcheted none files findings result = findings ≡ result
  Ratcheted (some count) files findings result =
      (if present "ratchet" descriptor then count files findings else ok findings) ≡ ok result

  ratcheted :
      (ratchet : Option (List Text → List Finding → Result Text (List Finding))) (files : List Text)
      (findings result : List Finding)
      → (elim ratchet as (λ _. Result Text (List Finding)) [
        | none ↦ ok findings
        | some count ↦ if present "ratchet" descriptor then count files findings else ok findings
      ])
        ≡ ok result
      → Ratcheted ratchet files findings result
  ratcheted none files findings result h = ok_same h
  ratcheted (some count) files findings result h = h

  -- The gate had no file to judge, or its tool ran.
  abbrev pub Judged :
      Option (List Text → List Finding → Result Text (List Finding))
      → List Text
      → List Finding
      → Type 0
  Judged ratchet files result =
      ((is_empty files ≡ true) × (result ≡ []))
      ⊎ ((findings : List Finding) × Reported files findings
          × All (λ (finding : Finding). in_files files finding.path ≡ true) findings
          × Ratcheted ratchet files findings result)

  run_tool-In :
      (files : List Text) (findings : List Finding)
      → Reported files findings
      → All (λ (finding : Finding). in_files files finding.path ≡ true) findings
  run_tool-In files findings (command, raw, found, exits, read, full, kept) =
      subst (All (λ (finding : Finding). in_files files finding.path ≡ true)) (sym kept) (
        All-select (λ (finding : Finding). in_files files finding.path)
          (map (at_own_path tools) raw))

  -- A gate whose check has a result, and so passes or fails, has judged: git listed the names, and the files
  -- judged are of those, each matched by the globs and by none that excludes. Either there is none of them
  -- and no finding, or the tool was found, ran on them and exited with 0 or 1, its report was read, an exit
  -- with 1 came with a finding, and the findings are those of the report in the files judged, or in no file,
  -- as the ratchet counts them where the descriptor has one and the run a base.
  pub check-Judged :
      (names : Result Text (List Text))
      (ratchet : Option (List Text → List Finding → Result Text (List Finding)))
      (result : List Finding)
      → check tools descriptor args names ratchet ≡ ok result
      → (listed : List Text) × (names ≡ ok listed)
        × All (λ path. is_judged args descriptor path ≡ true) (judged_files args descriptor listed)
        × Judged ratchet (judged_files args descriptor listed) result
  unfolding check
  check-Judged names ratchet result h =
      let (listed, lists, after) = returned names _ result h in
      let files = judged_files args descriptor listed in
      (
        listed,
        lists,
        judged_files-All listed,
        elim (Bool-cases (is_empty files)) [
          | inl e ↦ inl (e, sym (ok_same (taken_if _ _ _ e after)))
          | inr e ↦
              let (findings, ran, ends) =
                returned (run_tool tools descriptor args files) _ result (other_if _ _ _ e after) in
              let reported = run_tool-Reported files findings ran in
              inr (
                findings,
                reported,
                run_tool-In files findings reported,
                ratcheted ratchet files findings result ends,
              )
        ],
      )
