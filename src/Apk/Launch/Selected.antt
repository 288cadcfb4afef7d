-- ===== src/Apk/Launch/Selected.antt =====
-- The selected library is one of those that are extracted, so `prepare_apk_launch` has a path for it.
use muplar.Base.{ℕ, ◌≡◌, ◌≢◌, refl, ap, arith, List, [], ◌∷◌, Bool, true, false, ◌||◌}
use muplar.Base.{if◌then◌else◌, All, Bool-cases, Option-cases, inl, inr, ◌⊎◌, Option, none, some}
use muplar.Base.Text.{codes}
use muplar.Apk.{Result, ok, throws, outside, spins}
use muplar.Apk.Runs.{Leaves, leaves, thrown, went_outside, spun, Leaves-any}
use muplar.Apk.Launch.Inside.{arm64_libs_of-All}
use muplar.Apk.Find.{same}
use muplar.Apk.Paths.{filename_from_zip_path, lib_name_matches}
use muplar.Apk.Paths.Parts.{same_iff, filename_from_zip_path-ne_nil}
use muplar.Apk.Zip.{ZipEntry, Inflate, extract_entry_data}
use muplar.Apk.Classify.{ApkClassification, is_arm64_lib}
use muplar.Apk.Io.{Effect, Disk, Io, follow, append_path}
use muplar.Apk.Launch.{
  ApkLaunchConfig, matching_lib, select_lib, selected_of, selected_or, libs_loop, arm64_libs_of,
  write_extracted, is_java_only,
}

-- Whether a library has the name.
abbrev pub has_name : (name : List ℕ) → List ZipEntry → Bool
has_name name [] = false
has_name name (lib ∷ libs) = same lib.name name || has_name name libs

same_refl : (s : List ℕ) → same s s ≡ true
same_refl s = (same_iff s s).1 refl

matching_lib-has_name :
    (requested : List ℕ) (libs : List ZipEntry) (lib : ZipEntry)
    → matching_lib requested libs ≡ some lib
    → has_name lib.name libs ≡ true
unfolding matching_lib
matching_lib-has_name requested [] lib h = cc
matching_lib-has_name requested (l ∷ libs) lib h =
    elim (Bool-cases (lib_name_matches l.name requested)) [
      | inl e ↦ let at : l ≡ lib = ground arith in rw at (rw (same_refl lib.name) refl)
      | inr e ↦ ground (arith, matching_lib-has_name requested libs lib (ground arith))
    ]

selected_or-has_name :
    (requested : List ℕ) (libs : List ZipEntry) (other : Result ZipEntry) (lib : ZipEntry)
    → other ≢ ok lib
    → selected_or (matching_lib requested libs) other ≡ ok lib
    → has_name lib.name libs ≡ true
selected_or-has_name requested libs other lib n h =
    elim (Option-cases (matching_lib requested libs)) [
      | inl e ↦ absurd (n (ground arith))
      | inr (l, e) ↦ matching_lib-has_name requested libs lib (ground arith)
    ]

select_lib-has_name :
    (lib_name manifest_lib : Option (List ℕ)) (libs : List ZipEntry) (lib : ZipEntry)
    → select_lib lib_name manifest_lib libs ≡ ok lib
    → has_name lib.name libs ≡ true
unfolding select_lib
select_lib-has_name (some requested) manifest_lib libs lib h =
    selected_or-has_name requested libs _ lib (λ e. cc) h
select_lib-has_name none (some name) libs lib h = selected_or-has_name name libs _ lib (λ e. cc) h
select_lib-has_name none none [] lib h = cc
select_lib-has_name none none (l ∷ []) lib h =
    let at : l ≡ lib = ground arith in rw at (rw (same_refl lib.name) refl)
select_lib-has_name none none (l ∷ next ∷ libs) lib h =
    selected_or-has_name (codes "main") (l ∷ next ∷ libs) _ lib (λ e. cc) h

selected_of-has_name :
    (config : ApkLaunchConfig) (classification : ApkClassification) (libs : List ZipEntry)
    (lib : ZipEntry)
    → selected_of config classification libs ≡ ok lib
    → has_name lib.name libs ≡ true
unfolding selected_of
selected_of-has_name config classification [] lib h =
    elim (Bool-cases (is_java_only classification.runtime_kind)) [
      | inl e ↦ ground arith
      | inr e ↦ ground arith
    ]
selected_of-has_name config classification (l ∷ libs) lib h =
    select_lib-has_name config.lib_name classification.manifest_lib (l ∷ libs) lib h

Leaves-follow :
    {A B : Type 0} {P : A → Type 0} {Q : B → Type 0} (f : A → Io B) (r : Result A)
    (log : List Effect)
    → Leaves P r
    → ((a : A) → P a → Leaves Q (f a log).0)
    → Leaves Q (follow f r log).0
Leaves-follow f (ok a) log (leaves p) h = h a p
Leaves-follow f (throws e) log l h = thrown
Leaves-follow f outside log l h = went_outside
Leaves-follow f spins log l h = spun

append_path-ne_nil : (lhs rhs : List ℕ) → rhs ≢ [] → append_path lhs rhs ≢ []
unfolding append_path
append_path-ne_nil [] rhs n = n
append_path-ne_nil (c ∷ cs) rhs n = ground arith

-- Where the loop writes a library.
abbrev pub path_in : (lib_dir name : List ℕ) → List ℕ
path_in lib_dir name = append_path lib_dir (filename_from_zip_path name)

-- The round of the selected library sets `so_path`, and no other changes it.
set_by :
    (lib : ZipEntry) (libs : List ZipEntry) (lib_dir selected so_path : List ℕ)
    → (has_name selected (lib ∷ libs) ≡ true) ⊎ (so_path ≡ path_in lib_dir selected)
    → (has_name selected libs ≡ true)
      ⊎ ((if same lib.name selected then path_in lib_dir lib.name else so_path)
          ≡ path_in lib_dir selected)
set_by lib libs lib_dir selected so_path n = elim (Bool-cases (same lib.name selected)) [
  | inl e ↦ inr (rw e (ap (path_in lib_dir) ((same_iff lib.name selected).0 e)))
  | inr e ↦ elim n [ inl h ↦ inl (ground arith) | inr h ↦ inr (rw e h) ]
]

-- `so_path` is the path of the selected library, set by the loop or before it.
libs_loop-so_path :
    (disk : Disk) (inflate : Inflate) (apk lib_dir selected : List ℕ) (libs : List ZipEntry)
    (so_path : List ℕ) (log : List Effect)
    → (has_name selected libs ≡ true) ⊎ (so_path ≡ path_in lib_dir selected)
    → Leaves
        (λ r. r.1 ≡ path_in lib_dir selected)
        (libs_loop disk inflate apk lib_dir selected libs so_path log).0
unfolding libs_loop
libs_loop-so_path disk inflate apk lib_dir selected [] so_path log (inl n) = cc
libs_loop-so_path disk inflate apk lib_dir selected [] so_path log (inr n) = leaves n
libs_loop-so_path disk inflate apk lib_dir selected (lib ∷ libs) so_path log n =
    let out_path = path_in lib_dir lib.name in
    let so = if same lib.name selected then out_path else so_path in
    Leaves-follow _ (extract_entry_data inflate apk lib) log (Leaves-any _) λ bytes p.
      let log' = (write_extracted disk out_path bytes log).1 in
      Leaves-follow _ (write_extracted disk out_path bytes log).0 log' (Leaves-any _) λ u p'.
        let rest = libs_loop disk inflate apk lib_dir selected libs so log' in
        Leaves-follow _ rest.0 rest.1
          (libs_loop-so_path disk inflate apk lib_dir selected libs so log'
            (set_by lib libs lib_dir selected so_path n))
          λ r q. leaves q

-- An extracted library has a path.
path_in-ne_nil :
    (lib_dir selected : List ℕ) (libs : List ZipEntry)
    → All (λ lib. is_arm64_lib lib.name ≡ true) libs
    → has_name selected libs ≡ true
    → path_in lib_dir selected ≢ []
path_in-ne_nil lib_dir selected [] a h = cc
path_in-ne_nil lib_dir selected (lib ∷ libs) (is_lib, a) h =
    elim (Bool-cases (same lib.name selected)) [
      | inl e ↦
          let at = (same_iff lib.name selected).0 e in
          append_path-ne_nil lib_dir _
            (rw (← at) (filename_from_zip_path-ne_nil lib.name (ground arith)))
      | inr e ↦ path_in-ne_nil lib_dir selected libs a (ground arith)
    ]

-- The library that `prepare_apk_launch` selects is one of those that its loop extracts. If the loop
-- ends without an exception, it leaves the path at which this library was written: the directory of
-- the libraries with the last part of its name. That path is not empty, so the test behind the two
-- loops, for an internal error, never fires.
pub selected_of-so_path :
    (disk : Disk) (inflate : Inflate) (config : ApkLaunchConfig)
    (classification : ApkClassification) (apk lib_dir : List ℕ) (entries : List ZipEntry)
    (selected : ZipEntry) (log : List Effect)
    → selected_of config classification (arm64_libs_of entries) ≡ ok selected
    → (has_name selected.name (arm64_libs_of entries) ≡ true)
      × (path_in lib_dir selected.name ≢ [])
      × Leaves
          (λ r. r.1 ≡ path_in lib_dir selected.name)
          (libs_loop disk inflate apk lib_dir selected.name (arm64_libs_of entries) [] log).0
selected_of-so_path disk inflate config classification apk lib_dir entries selected log h =
    let named = selected_of-has_name config classification (arm64_libs_of entries) selected h in
    (
      named,
      path_in-ne_nil lib_dir selected.name (arm64_libs_of entries) (arm64_libs_of-All entries)
          named,
      libs_loop-so_path disk inflate apk lib_dir selected.name (arm64_libs_of entries) [] log
          (inl named),
    )
