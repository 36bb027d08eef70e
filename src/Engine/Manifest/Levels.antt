-- ===== src/Engine/Manifest/Levels.antt =====
-- What an edit does to the files of each level, whatever room the levels have.
use scoria_db.Base.{
  ℕ, zero, suc, ◌+◌, ◌-◌, ◌<◌, ◌≡◌, refl, sym, ap, ◌∙◌, inl, inr, some, List, [], ◌∷◌, ◌++◌,
  append-nil, append_assoc, arith, ◌==◌, if◌then◌else◌, ==_iff, Bool-cases, Option-cases, length,
  get_elem?, set, take, drop, replicate, length-append, length-replicate,
}
use scoria_db.Engine.Manifest.{
  SstableInfo, DeletedFile, VersionEdit, Manifest, apply_edit, add_file, add_files, delete_file,
  delete_files, remove_file, grow_levels, level_or_empty,
}

abbrev Levels : Type 0
Levels = List (List SstableInfo)

-- A level that is out of range has no files.
abbrev pub files_at : ℕ → List (List SstableInfo) → List SstableInfo
files_at i levels = level_or_empty (get_elem? levels i)

-- The place of the first file of a number, or the count of the files if there is none.
abbrev pub place_of : ℕ → List SstableInfo → ℕ
place_of num [] = 0
place_of num (info ∷ infos) = if info.file_num == num then 0 else suc (place_of num infos)

-- The files without the one at a place.
abbrev pub without_place : ℕ → List SstableInfo → List SstableInfo
without_place i infos = take i infos ++ drop (suc i) infos

remove_file-without_place :
    (num : ℕ) (infos : List SstableInfo)
    → remove_file num infos ≡ without_place (place_of num infos) infos
unfolding remove_file
remove_file-without_place num [] = refl
remove_file-without_place num (info ∷ infos) = elim (Bool-cases (info.file_num == num)) [
  | inl y ↦ rw y refl
  | inr n ↦ rw n (ap (λ l. info ∷ l) (remove_file-without_place num infos))
]

-- The files without those that the deletions of the level `i` name, one for each deletion.
abbrev pub without : ℕ → List DeletedFile → List SstableInfo → List SstableInfo
without i [] infos = infos
without i (del ∷ dels) infos =
    without i dels
      (if del.level == i then without_place (place_of del.file_num infos) infos else infos)

abbrev pub of_level : ℕ → List SstableInfo → List SstableInfo
of_level i [] = []
of_level i (info ∷ infos) =
    let rest = of_level i infos in if info.level == i then info ∷ rest else rest

files_at-set :
    (levels : Levels) (i j : ℕ) (infos : List SstableInfo)
    → i < length levels
    → files_at j (set levels i infos) ≡ (if i == j then infos else files_at j levels)
files_at-set [] i j infos h = absurd (omega (arith, h))
files_at-set (l ∷ levels) zero zero infos h = refl
files_at-set (l ∷ levels) zero (suc j) infos h = ground arith
files_at-set (l ∷ levels) (suc i) zero infos h = ground arith
files_at-set (l ∷ levels) (suc i) (suc j) infos h =
    ground (arith, files_at-set levels i j infos (omega (arith, h)))

files_at-replicate : (n i : ℕ) → files_at i (replicate n []) ≡ []
files_at-replicate zero i = refl
files_at-replicate (suc n) zero = refl
files_at-replicate (suc n) (suc i) = files_at-replicate n i

files_at-append :
    (levels : Levels) (n i : ℕ) → files_at i (levels ++ replicate n []) ≡ files_at i levels
files_at-append [] n i = files_at-replicate n i
files_at-append (l ∷ levels) n zero = refl
files_at-append (l ∷ levels) n (suc i) = files_at-append levels n i

files_at-grow_levels :
    (level : ℕ) (levels : Levels) (i : ℕ)
    → files_at i (grow_levels level levels) ≡ files_at i levels
unfolding grow_levels
files_at-grow_levels level levels i =
    ground (arith, files_at-append levels (level + 1 - length levels) i)

length-grow_levels : (level : ℕ) (levels : Levels) → level < length (grow_levels level levels)
unfolding grow_levels
length-grow_levels level levels =
    let n = level + 1 - length levels in
    ground (
      arith,
      length-append {0} levels (replicate n []),
      length-replicate {A = List SstableInfo} n [],
    )

files_at-add_file :
    (info : SstableInfo) (levels : Levels) (i : ℕ)
    → files_at i (add_file info levels)
      ≡ (if info.level == i then files_at i levels ++ info ∷ [] else files_at i levels)
unfolding add_file
files_at-add_file info levels i =
    let grown = grow_levels info.level levels in
    let infos = files_at info.level grown ++ info ∷ [] in
    files_at-set grown info.level i infos (length-grow_levels info.level levels)
    ∙ elim (Bool-cases (info.level == i)) [
      | inl y ↦ rw y (
          ap (λ xs. xs ++ info ∷ [])
            (files_at-grow_levels info.level levels info.level
              ∙ ap (λ k. files_at k levels) ((==_iff info.level i).0 y)))
      | inr n ↦ rw n (files_at-grow_levels info.level levels i)
    ]

in_range :
    (levels : Levels) (i : ℕ) (infos : List SstableInfo)
    → get_elem? levels i ≡ some infos
    → i < length levels
in_range [] i infos e = ground (arith, e)
in_range (l ∷ levels) zero infos e = omega arith
in_range (l ∷ levels) (suc i) infos e = omega (arith, in_range levels i infos e)

files_at-delete_file :
    (num level : ℕ) (levels : Levels) (i : ℕ)
    → files_at i (delete_file num level levels)
      ≡ (if level == i then remove_file num (files_at i levels) else files_at i levels)
unfolding delete_file remove_file
files_at-delete_file num level levels i = elim (Option-cases (get_elem? levels level)) [
  | inl e ↦
      rw (e, delete_file)
        (elim (Bool-cases (level == i)) [
          | inl y ↦
              let none_there : files_at i levels ≡ [] =
                ap (λ k. files_at k levels) (sym ((==_iff level i).0 y)) ∙ ap level_or_empty e in
              rw y (none_there ∙ sym (ap (remove_file num) none_there))
          | inr n ↦ rw n refl
        ])
  | inr (infos, e) ↦
      rw (e, delete_file)
        (files_at-set levels level i (remove_file num infos) (in_range levels level infos e)
          ∙ elim (Bool-cases (level == i)) [
            | inl y ↦
                let there : infos ≡ files_at i levels =
                  sym (ap level_or_empty e) ∙ ap (λ k. files_at k levels) ((==_iff level i).0 y) in
                rw y (ap (remove_file num) there)
            | inr n ↦ rw n refl
          ])
]

files_at-delete_files :
    (dels : List DeletedFile) (levels : Levels) (i : ℕ)
    → files_at i (delete_files dels levels) ≡ without i dels (files_at i levels)
unfolding delete_files
files_at-delete_files [] levels i = refl
files_at-delete_files (del ∷ dels) levels i =
    files_at-delete_files dels (delete_file del.file_num del.level levels) i
    ∙ ap (without i dels) (
        files_at-delete_file del.file_num del.level levels i
        ∙ ap (λ l. if del.level == i then l else files_at i levels)
            (remove_file-without_place del.file_num (files_at i levels)))

files_at-add_files :
    (infos : List SstableInfo) (levels : Levels) (i : ℕ)
    → files_at i (add_files infos levels) ≡ files_at i levels ++ of_level i infos
unfolding add_files
files_at-add_files [] levels i = sym (append-nil (files_at i levels))
files_at-add_files (info ∷ infos) levels i =
    files_at-add_files infos (add_file info levels) i
    ∙ rw (files_at-add_file info levels i) (elim (Bool-cases (info.level == i)) [
      | inl y ↦ rw y (append_assoc (files_at i levels) (info ∷ []) (of_level i infos))
      | inr n ↦ rw n refl
    ])

-- An edit takes from each level the files that it deletes there, the first of the number each time,
-- and adds behind them its new files of that level in their order.
pub files_at-apply_edit :
    (edit : VersionEdit) (m : Manifest) (i : ℕ)
    → files_at i (apply_edit edit m).levels
      ≡ without i edit.deleted_files (files_at i m.levels) ++ of_level i edit.new_files
unfolding apply_edit
files_at-apply_edit edit m i =
    files_at-add_files edit.new_files (delete_files edit.deleted_files m.levels) i
    ∙ ap (λ infos. infos ++ of_level i edit.new_files)
        (files_at-delete_files edit.deleted_files m.levels i)
