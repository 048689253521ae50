-- ===== src/Descriptors/Conflicts/Base.antt =====
-- gates/_descriptors.py, `repository_files`: a descriptor that the base has is judged as the base has it.
use vibe_verifier.Base.{
  ◌≡◌, refl, sym, ap, ◌∙◌, subst, inl, inr, Bool, true, false, Option, none, some, List, [], ◌∷◌,
  ◌++◌, Result, ok, ◌>>=◌, returned, if◌then◌else◌, first, In, arith, Bool-cases,
}
use vibe_verifier.Base.Text.{Text, text, same, same_iff}
use vibe_verifier.Descriptors.Conflicts.{
  File, Repository, in_repository, has_path, read_base, add_head, base_files, repository_files,
}

-- The file of a path in a dict of files
abbrev pub file_at : Text → List File → Option File
file_at path = first (λ (file : File). same path file.path)

-- The file as the base has it
abbrev pub base_file : Text → Text → Text → File
base_file base path shown = record { path = path; origin = base ++ text ":" ++ path; text = shown }

ok_same : {E A : Type 0} {a b : A} → ◌≡◌ {A = Result E A} (ok a) (ok b) → a ≡ b
ok_same h = cc

not_first :
    (path other : Text) (paths : List Text)
    → In path (other ∷ paths)
    → same path other ≡ false
    → In path paths
not_first path other paths (inl e) h = let yes = (same_iff path other).1 e in absurd (cc)
not_first path other paths (inr i) h = i

either : {A : Type 0} → (b : Bool) (P : A → Type 0) (x y : A) → P x → P y → P (if b then x else y)
either true P x y h k = h
either false P x y h k = k

taken_if : {A : Type 0} → (b : Bool) (x y r : A) → b ≡ true → (if b then x else y) ≡ r → x ≡ r
taken_if true x y r h k = k
taken_if false x y r h k = absurd (cc)

same_own : (s : Text) → same s s ≡ true
same_own s = (same_iff s s).1 refl

module _ (repository : Repository) (base path : Text) where
  abbrev pub AtBase : List File → Type 0
  AtBase files =
      (shown : Text) × (repository.show base path ≡ ok shown)
      × (file_at path files ≡ some (base_file base path shown))

  read_base-AtBase :
      (paths : List Text) (files : List File)
      → read_base repository base paths ≡ ok files
      → In path paths
      → in_repository path ≡ true
      → AtBase files
  read_base-AtBase [] files h i k = elim i [ ]
  read_base-AtBase (other ∷ paths) files h i k = elim (Bool-cases (in_repository other)) [
    | inr e ↦ elim i [
      | inl same_path ↦ absurd (let no = ap in_repository same_path in cc)
      | inr later ↦ read_base-AtBase paths files (rw e at h) later k
    ]
    | inl e ↦
        let (shown, read, more) = returned (repository.show base other) _ files (rw e at h) in
        let (rest, read_rest, result) = returned (read_base repository base paths) _ files more in
        let listed : base_file base other shown ∷ rest ≡ files = ok_same result in
        elim (Bool-cases (same path other)) [
          | inl s ↦
              let equal : other ≡ path = sym ((same_iff path other).0 s) in
              subst AtBase listed (
                shown,
                sym (ap (repository.show base) equal) ∙ read,
                rw s (ap (λ p. some (base_file base p shown)) equal),
              )
          | inr s ↦
              let later : In path paths = not_first path other paths i s in
              let (shown_so, read_so, found) = read_base-AtBase paths rest read_rest later k in
              subst AtBase listed (shown_so, read_so, rw s found)
        ]
  ]

  first_kept :
      (files more : List File) (file : File)
      → file_at path files ≡ some file
      → file_at path (files ++ more) ≡ some file
  first_kept [] more file h = absurd (cc)
  first_kept (other ∷ files) more file h = ground (arith, first_kept files more file)

  add_head-kept :
      (paths : List Text) (files result : List File) (file : File)
      → add_head repository files paths ≡ ok result
      → file_at path files ≡ some file
      → file_at path result ≡ some file
  add_head-kept [] files result file h k =
      subst (λ (fs : List File). file_at path fs ≡ some file) (ok_same h) k
  add_head-kept (other ∷ paths) files result file h k = elim (Bool-cases (in_repository other)) [
    | inr e ↦ add_head-kept paths files result file (rw e at h) k
    | inl e ↦
        let (shown, read, more) = returned (repository.read other) _ result (rw e at h) in
        let added = files ++ record { path = other; origin = other; text = shown } ∷ [] in
        add_head-kept paths (if has_path other files then files else added) result file more (
          either (has_path other files) (λ (fs : List File). file_at path fs ≡ some file) files
            added k
            (first_kept files (record { path = other; origin = other; text = shown } ∷ []) file k))
  ]

  base_read :
      (o : Option Text) (own : List File)
      → o ≡ some base
      → (elim o as (λ _. Result Text (List File)) [
        | none ↦ ok []
        | some b ↦ repository.at_base b >>= read_base repository b
      ])
        ≡ ok own
      → (repository.at_base base >>= read_base repository base) ≡ ok own
  base_read none own e h = absurd (cc)
  base_read (some b) own e h =
      let equal : b ≡ base = cc in
      subst (λ (t : Text). (repository.at_base t >>= read_base repository t) ≡ ok own) equal h

  -- A file of descriptors that the base has is judged as the base has it: where `repository_files` has a
  -- result, the file that it gives for the path has the text that git shows at the base and names the base
  -- as its origin, whatever the head has in its place, and if the head has deleted it too.
  pub repository_files-AtBase :
      (paths : List Text) (files : List File)
      → repository.is_repository ≡ true
      → repository.base ≡ some base
      → repository.at_base base ≡ ok paths
      → In path paths
      → in_repository path ≡ true
      → repository_files repository ≡ ok files
      → AtBase files
  unfolding repository_files
  repository_files-AtBase paths files here resolved listed i k h =
      let (tracked, tracks, after) =
        returned repository.tracked _ files (taken_if repository.is_repository _ _ _ here h) in
      let (own, reads, adds) = returned (base_files repository) _ files after in
      let from_base : (repository.at_base base >>= read_base repository base) ≡ ok own =
        base_read repository.base own resolved reads in
      let from_list : read_base repository base paths ≡ ok own = rw listed at from_base in
      let (shown, shows, found) = read_base-AtBase paths own from_list i k in
      (shown, shows, add_head-kept tracked own files (base_file base path shown) adds found)
