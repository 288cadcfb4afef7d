-- ===== src/Apk/Launch/Inside.antt =====
-- Where the extraction of an APK writes: inside of its directory, whatever the names of the entries.
use muplar.Base.{ℕ, ◌≡◌, refl, arith, List, [], ◌∷◌, Bool, true, false, not, ◌&&◌, ◌==◌}
use muplar.Base.{if◌then◌else◌, length, All, Bool-cases, inl, inr}
use muplar.Base.Text.{codes}
use muplar.Apk.{Result, ok, throws, outside, spins, throw_if, lib_missing, path_empty}
use muplar.Apk.Find.{same}
use muplar.Apk.Paths.{filename_from_zip_path}
use muplar.Apk.Paths.Parts.{IsRelative, split, safe_zip_path_iff, filename_from_zip_path-IsRelative}
use muplar.Apk.Zip.{ZipEntry, Inflate, extract_entry_data, read_zip_entries}
use muplar.Apk.Classify.{ApkClassification, is_arm64_lib, is_asset, classify_entries, read_apk}
use muplar.Apk.Io.{
  Effect, make_dirs, make_parents, write, Touches, Disk, Io, ◌>>=◌, follow, append_path,
  create_directories, try_parents, create_parents, or_write_failed, write_file,
}
use muplar.Apk.Launch.Above.{Inside, here, under, Within, Inside-IsAbove}
use muplar.Apk.Launch.{
  ApkLaunchConfig, arm64_libs_of, asset_entries_of, write_extracted, libs_loop, assets_loop,
  make_assets_dir, extract_dir_of, lib_dir_of, extract_all, prepare_apk_launch, selected_of,
}

module _ (dir : List ℕ) where
  -- A file inside of the directory, and directories inside of it or above it.
  abbrev pub Allowed : Effect → Type 0
  Allowed (write path bytes) = Inside dir path
  Allowed (make_dirs path) = (q : List ℕ) → Touches (make_dirs path) q → Within dir q
  Allowed (make_parents path) = (q : List ℕ) → Touches (make_parents path) q → Within dir q

  abbrev pub AllInside : List Effect → Type 0
  AllInside = All Allowed

  dirs-Within :
      (path : List ℕ) → Inside dir path → (q : List ℕ) → Touches (make_dirs path) q → Within dir q
  dirs-Within path h q (inl at) = inl (rw at h)
  dirs-Within path h q (inr above) = Inside-IsAbove dir h q above

  -- Whatever was done before and however it ends, the steps are inside.
  abbrev pub Confined : {A : Type 0} → Io A → Type 0
  Confined m = (log : List Effect) → AllInside log → AllInside (m log).1

  Confined-follow :
      {A B : Type 0} (f : A → Io B)
      → ((a : A) → Confined (f a))
      → (r : Result A) → Confined (follow f r)
  Confined-follow f h (ok a) = h a
  Confined-follow f h (throws e) = λ log l. l
  Confined-follow f h outside = λ log l. l
  Confined-follow f h spins = λ log l. l

  Confined-bind :
      {A B : Type 0} (m : Io A) (f : A → Io B)
      → Confined m
      → ((a : A) → Confined (f a))
      → Confined (m >>= f)
  Confined-bind m f hm hf log l = Confined-follow f hf (m log).0 (m log).1 (hm log l)

  create_directories-Confined :
      (disk : Disk) (path : List ℕ) → Inside dir path → Confined (create_directories disk path)
  unfolding create_directories
  create_directories-Confined disk path h log l = elim (Bool-cases (disk.makes log path)) [
    | inl e ↦ rw e (dirs-Within path h, l)
    | inr e ↦ rw e l
  ]

  or_write_failed-Confined : (b : Bool) → Confined (or_write_failed b)
  or_write_failed-Confined true = λ log l. l
  or_write_failed-Confined false = λ log l. l

  create_parents-Confined :
      (disk : Disk) (path : List ℕ) → Inside dir path → Confined (create_parents disk path)
  unfolding create_parents try_parents
  create_parents-Confined disk path h =
      Confined-bind (try_parents disk path) or_write_failed
        (λ log l. elim (Bool-cases (disk.makes log path)) [
          | inl e ↦ rw e (Inside-IsAbove dir h, l)
          | inr e ↦ rw e l
        ])
        or_write_failed-Confined

  write_extracted-Confined :
      (disk : Disk) (path bytes : List ℕ)
      → Inside dir path
      → Confined (write_extracted disk path bytes)
  unfolding write_extracted write_file
  write_extracted-Confined disk path bytes h =
      Confined-bind (write_file disk path bytes) or_write_failed
        (λ log l. elim (Bool-cases (disk.opens log path)) [ inl e ↦ rw e (h, l) | inr e ↦ rw e l ])
        or_write_failed-Confined

  libs_loop-Confined :
      (disk : Disk) (inflate : Inflate) (apk lib_dir selected : List ℕ) (libs : List ZipEntry)
      (so_path : List ℕ)
      → Inside dir lib_dir
      → All (λ lib. is_arm64_lib lib.name ≡ true) libs
      → Confined (libs_loop disk inflate apk lib_dir selected libs so_path)
  unfolding libs_loop
  libs_loop-Confined disk inflate apk lib_dir selected [] so_path d h = λ log l. l
  libs_loop-Confined disk inflate apk lib_dir selected (lib ∷ libs) so_path d (is_lib, h) =
      let out_path = append_path lib_dir (filename_from_zip_path lib.name) in
      let name = filename_from_zip_path-IsRelative lib.name (ground arith) in
      let out = under (filename_from_zip_path lib.name) out_path d name refl in
      Confined-follow _
        (λ bytes.
          Confined-bind (write_extracted disk out_path bytes) _
            (write_extracted-Confined disk out_path bytes out)
            λ u.
              Confined-bind
                (libs_loop disk inflate apk lib_dir selected libs
                  (if same lib.name selected then out_path else so_path))
                _
                (libs_loop-Confined disk inflate apk lib_dir selected libs
                  (if same lib.name selected then out_path else so_path) d h)
                λ rest log l. l)
        (extract_entry_data inflate apk lib)

  assets_loop-Confined :
      (disk : Disk) (inflate : Inflate) (apk : List ℕ) (assets : List ZipEntry)
      → All (λ asset. IsRelative asset.name) assets
      → Confined (assets_loop disk inflate apk dir assets)
  unfolding assets_loop
  assets_loop-Confined disk inflate apk [] h = λ log l. l
  assets_loop-Confined disk inflate apk (asset ∷ assets) (name, h) =
      let out_path = append_path dir asset.name in
      let out = under asset.name out_path here name refl in
      Confined-follow _
        (λ bytes.
          Confined-bind (create_parents disk out_path) _ (create_parents-Confined disk out_path out)
            λ u.
              Confined-bind (write_extracted disk out_path bytes) _
                (write_extracted-Confined disk out_path bytes out)
                λ u'.
                  Confined-bind (assets_loop disk inflate apk dir assets) _
                    (assets_loop-Confined disk inflate apk assets h) λ rest log l. l)
        (extract_entry_data inflate apk asset)

  make_assets_dir-Confined :
      (disk : Disk) (path : List ℕ) (assets : List ZipEntry)
      → Inside dir path
      → Confined (make_assets_dir disk path assets)
  unfolding make_assets_dir
  make_assets_dir-Confined disk path [] h = λ log l. l
  make_assets_dir-Confined disk path (asset ∷ assets) h = create_directories-Confined disk path h

pub arm64_libs_of-All :
    (entries : List ZipEntry) → All (λ lib. is_arm64_lib lib.name ≡ true) (arm64_libs_of entries)
unfolding arm64_libs_of
arm64_libs_of-All [] = tt
arm64_libs_of-All (entry ∷ entries) = elim (Bool-cases (is_arm64_lib entry.name)) [
  | inl e ↦ rw e (e, arm64_libs_of-All entries)
  | inr e ↦ rw e (arm64_libs_of-All entries)
]

is_asset-IsRelative : (name : List ℕ) → is_asset name ≡ true → IsRelative name
is_asset-IsRelative name h = ((safe_zip_path_iff name).0 (ground arith)).relative

asset_entries_of-All :
    (entries : List ZipEntry) → All (λ asset. IsRelative asset.name) (asset_entries_of entries)
unfolding asset_entries_of
asset_entries_of-All [] = tt
asset_entries_of-All (entry ∷ entries) =
    elim (Bool-cases (not (is_arm64_lib entry.name) && is_asset entry.name)) [
      | inl e ↦ rw e (is_asset-IsRelative entry.name (ground arith), asset_entries_of-All entries)
      | inr e ↦ rw e (asset_entries_of-All entries)
    ]

child-IsRelative :
    IsRelative (codes "lib") × IsRelative (codes "arm64-v8a") × IsRelative (codes "assets")
unfolding split
child-IsRelative = (
  record { not_absolute = refl; no_parent = (cc, tt) },
  record { not_absolute = refl; no_parent = (cc, tt) },
  record { not_absolute = refl; no_parent = (cc, tt) },
)

extract_all-Confined :
    (disk : Disk) (inflate : Inflate) (config : ApkLaunchConfig)
    (classification : ApkClassification) (apk : List ℕ) (entries : List ZipEntry)
    (selected : ZipEntry)
    → Confined
        (extract_dir_of disk config)
        (extract_all disk inflate config classification apk entries selected)
unfolding extract_all
extract_all-Confined disk inflate config classification apk entries selected =
    let dir = extract_dir_of disk config in
    let (lib, arm64, assets) = child-IsRelative in
    let lib_dir =
      under (codes "arm64-v8a") (lib_dir_of dir) (under (codes "lib") _ here lib refl) arm64 refl in
    let assets_dir = under (codes "assets") (append_path dir (codes "assets")) here assets refl in
    Confined-bind dir (create_directories disk (lib_dir_of dir)) _
      (create_directories-Confined dir disk (lib_dir_of dir) lib_dir)
      λ u.
        Confined-bind dir
          (make_assets_dir disk (append_path dir (codes "assets")) (asset_entries_of entries)) _
          (make_assets_dir-Confined dir disk _ (asset_entries_of entries) assets_dir)
          λ u'.
            Confined-bind dir
              (libs_loop disk inflate apk (lib_dir_of dir) selected.name (arm64_libs_of entries) [])
              _
              (libs_loop-Confined dir disk inflate apk (lib_dir_of dir) selected.name
                (arm64_libs_of entries) [] lib_dir (arm64_libs_of-All entries))
              λ libs.
                Confined-bind dir (assets_loop disk inflate apk dir (asset_entries_of entries)) _
                  (assets_loop-Confined dir disk inflate apk (asset_entries_of entries)
                    (asset_entries_of-All entries))
                  λ written.
                    Confined-follow dir _ (λ u'' log l. l)
                      (throw_if (length libs.1 == 0) lib_missing)

-- Whatever the APK holds and whatever the system answers, also in a run that fails:
-- `prepare_apk_launch` writes files only inside of the directory of the extraction, which means what
-- names that are not absolute and have no part ".." lead to from there; and each directory that it
-- makes, the missing ones above a directory and above a file included, is inside of the directory of
-- the extraction, or this directory, or above it. Symbolic links are not followed here.
pub prepare_apk_launch-Inside :
    (disk : Disk) (inflate : Inflate) (config : ApkLaunchConfig)
    → AllInside (extract_dir_of disk config) (prepare_apk_launch disk inflate config []).1
unfolding prepare_apk_launch
prepare_apk_launch-Inside disk inflate config =
    let dir = extract_dir_of disk config in
    Confined-follow dir _
      (λ u.
        Confined-follow dir _
          (λ apk.
            Confined-follow dir _
              (λ entries.
                Confined-follow dir _
                  (λ classification.
                    Confined-follow dir _
                      (λ selected.
                        extract_all-Confined disk inflate config classification apk entries
                          selected)
                      (selected_of config classification (arm64_libs_of entries)))
                  (classify_entries inflate config.apk_path apk entries))
              (read_zip_entries apk))
          (read_apk disk.read_file config.apk_path))
      (throw_if (length config.apk_path == 0) path_empty) [] tt
