-- ===== src/Apk/Launch.antt =====
-- `extract_apk_entry` and `prepare_apk_launch` in platform/android-aarch64/apk/apk_envelope.cpp.
pub mod Above
pub mod Inside
pub mod Selected
use muplar.Base.{ℕ, List, [], ◌∷◌, ◌++◌, map, Option, none, some}
use muplar.Base.{Bool, true, false, not, ◌&&◌, ◌||◌, ◌==◌, if◌then◌else◌, length}
use muplar.Base.Text.{codes}
use muplar.Apk.{
  Result, ok, throws, throw_if, path_empty, not_implemented, no_libs, no_requested_lib, ambiguous,
  write_failed, lib_missing,
}
use muplar.Apk.Find.{same}
use muplar.Apk.Paths.{safe_zip_path, filename_from_zip_path, lib_base_name, lib_name_matches}
use muplar.Apk.Zip.{ZipEntry, read_zip_entries, Inflate, extract_entry_data}
use muplar.Apk.Classify.{
  ApkClassification, ApkRuntimeKind, classify_entries, read_apk, is_arm64_lib, is_asset,
}
use muplar.Apk.Io.{
  Disk, Io, ◌>>=◌, ◌>>◌, lift, pure, append_path, create_directories, create_parents, try_parents,
  write_file, or_write_failed,
}

unfoldable pub entry_named : (name : List ℕ) → List ZipEntry → Option ZipEntry
entry_named name [] = none
entry_named name (entry ∷ entries) =
    let rest = entry_named name entries in if same entry.name name then some entry else rest

-- The return value of a write: the stream is still good.
abbrev pub stream_good : Disk → (output_path : List ℕ) → Bool → Io Bool
stream_good disk output_path false = pure false
stream_good disk output_path true = λ log. (ok (disk.written log output_path), log)

abbrev pub write_if : Disk → (output_path bytes : List ℕ) → Bool → Io Bool
write_if disk output_path bytes false = pure false
write_if disk output_path bytes true =
    write_file disk output_path bytes >>= stream_good disk output_path

-- `create_directories(…, ec); if (ec) return false;` and the write.
unfoldable pub write_output : Disk → (output_path bytes : List ℕ) → Io Bool
write_output disk output_path bytes =
    try_parents disk output_path >>= write_if disk output_path bytes

unfoldable pub extract_found :
    Disk → Inflate → (apk output_path : List ℕ) → Option ZipEntry → Io Bool
extract_found disk inflate apk output_path none = pure false
extract_found disk inflate apk output_path (some entry) = do
  bytes ← lift (extract_entry_data inflate apk entry)
  write_output disk output_path bytes

unfoldable pub extract_apk_entry :
    Disk → Inflate → (apk_path entry_path output_path : List ℕ) → Io Bool
extract_apk_entry disk inflate apk_path entry_path output_path =
    if not (safe_zip_path entry_path) then pure false else (do
      apk ← lift (read_apk disk.read_file apk_path)
      entries ← lift (read_zip_entries apk)
      extract_found disk inflate apk output_path (entry_named entry_path entries))

pub record ApkLaunchConfig : Type 0 where
  pub apk_path : List ℕ
  pub lib_name : Option (List ℕ)
  pub output_base_dir : List ℕ
  pub output_dir : List ℕ

pub record ApkLaunchResult : Type 0 where
  pub apk_path : List ℕ
  pub extract_dir : List ℕ
  pub so_path : List ℕ
  pub assets_dir : List ℕ
  pub selected_lib : List ℕ
  pub manifest_lib : Option (List ℕ)
  pub manifest_package : Option (List ℕ)
  pub manifest_application_label : Option (List ℕ)
  pub manifest_application_icon : Option (List ℕ)
  pub manifest_application_class : Option (List ℕ)
  pub manifest_launch_activity : Option (List ℕ)
  pub manifest_widget_provider : Option (List ℕ)
  pub extracted_libs : List (List ℕ)
  pub extracted_assets : List (List ℕ)

-- `arm64_libs` and `asset_entries`
unfoldable pub arm64_libs_of : List ZipEntry → List ZipEntry
arm64_libs_of [] = []
arm64_libs_of (entry ∷ entries) =
    let rest = arm64_libs_of entries in if is_arm64_lib entry.name then entry ∷ rest else rest

unfoldable pub asset_entries_of : List ZipEntry → List ZipEntry
asset_entries_of [] = []
asset_entries_of (entry ∷ entries) =
    let rest = asset_entries_of entries in
    if not (is_arm64_lib entry.name) && is_asset entry.name then entry ∷ rest else rest

-- The first library of a name.
unfoldable pub matching_lib : (requested : List ℕ) → List ZipEntry → Option ZipEntry
matching_lib requested [] = none
matching_lib requested (lib ∷ libs) =
    let rest = matching_lib requested libs in
    if lib_name_matches lib.name requested then some lib else rest

abbrev pub selected_or : Option ZipEntry → (Result ZipEntry) → Result ZipEntry
selected_or none other = other
selected_or (some lib) other = ok lib

-- `selected`: the requested library, else that of the manifest, else the only one, else `main`.
unfoldable pub select_lib :
    (lib_name manifest_lib : Option (List ℕ)) (arm64_libs : List ZipEntry) → Result ZipEntry
select_lib (some requested) manifest_lib arm64_libs =
    selected_or (matching_lib requested arm64_libs) (throws no_requested_lib)
select_lib none (some lib_name) arm64_libs =
    selected_or (matching_lib lib_name arm64_libs) (throws ambiguous)
select_lib none none [] = throws ambiguous
select_lib none none (lib ∷ []) = ok lib
select_lib none none (lib ∷ next ∷ libs) =
    selected_or (matching_lib (codes "main") (lib ∷ next ∷ libs)) (throws ambiguous)

abbrev pub is_java_only : ApkRuntimeKind → Bool
is_java_only ApkRuntimeKind.java_only = true
is_java_only ApkRuntimeKind.empty = false
is_java_only ApkRuntimeKind.native_only = false
is_java_only ApkRuntimeKind.mixed = false

-- The tests before anything is written.
unfoldable pub selected_of :
    (config : ApkLaunchConfig) → ApkClassification → (arm64_libs : List ZipEntry) → Result ZipEntry
selected_of config classification [] =
    if is_java_only classification.runtime_kind then throws not_implemented else throws no_libs
selected_of config classification (lib ∷ libs) =
    select_lib config.lib_name classification.manifest_lib (lib ∷ libs)

-- One of the files: `std::ofstream`, the exception if it cannot be opened, and the write.
unfoldable pub write_extracted : Disk → (out_path bytes : List ℕ) → Io (Unit {0})
write_extracted disk out_path bytes = write_file disk out_path bytes >>= or_write_failed

-- The loop over the libraries: their paths, and `so_path`, which the last one of the selected name
-- sets.
unfoldable pub libs_loop :
    Disk
    → Inflate
    → (apk lib_dir selected : List ℕ) → List ZipEntry
    → (so_path : List ℕ) → Io (List (List ℕ) × List ℕ)
libs_loop disk inflate apk lib_dir selected [] so_path = pure ([], so_path)
libs_loop disk inflate apk lib_dir selected (lib ∷ libs) so_path =
    let out_path = append_path lib_dir (filename_from_zip_path lib.name) in
    do
      bytes ← lift (extract_entry_data inflate apk lib)
      write_extracted disk out_path bytes
      rest ←
          libs_loop disk inflate apk lib_dir selected libs
            (if same lib.name selected then out_path else so_path)
      pure (out_path ∷ rest.0, rest.1)

unfoldable pub assets_loop :
    Disk → Inflate → (apk extract_dir : List ℕ) → List ZipEntry → Io (List (List ℕ))
assets_loop disk inflate apk extract_dir [] = pure []
assets_loop disk inflate apk extract_dir (asset ∷ assets) =
    let out_path = append_path extract_dir asset.name in
    do
      bytes ← lift (extract_entry_data inflate apk asset)
      create_parents disk out_path
      write_extracted disk out_path bytes
      rest ← assets_loop disk inflate apk extract_dir assets
      pure (out_path ∷ rest)

unfoldable pub make_assets_dir : Disk → (assets_dir : List ℕ) → List ZipEntry → Io (Unit {0})
make_assets_dir disk assets_dir [] = pure tt
make_assets_dir disk assets_dir (asset ∷ assets) = create_directories disk assets_dir

unfoldable pub extract_dir_of : Disk → ApkLaunchConfig → List ℕ
extract_dir_of disk config =
    if length config.output_dir == 0
    then disk.default_extract_dir config.apk_path config.output_base_dir
    else config.output_dir

abbrev pub lib_dir_of : (extract_dir : List ℕ) → List ℕ
lib_dir_of extract_dir = append_path (append_path extract_dir (codes "lib")) (codes "arm64-v8a")

-- What follows the choice of the library.
unfoldable pub extract_all :
    Disk
    → Inflate
    → ApkLaunchConfig
    → ApkClassification
    → (apk : List ℕ) (entries : List ZipEntry) (selected : ZipEntry) → Io ApkLaunchResult
extract_all disk inflate config classification apk entries selected =
    let extract_dir = extract_dir_of disk config in
    let lib_dir = lib_dir_of extract_dir in
    let assets_dir = append_path extract_dir (codes "assets") in
    do
      create_directories disk lib_dir
      make_assets_dir disk assets_dir (asset_entries_of entries)
      libs ← libs_loop disk inflate apk lib_dir selected.name (arm64_libs_of entries) []
      assets ← assets_loop disk inflate apk extract_dir (asset_entries_of entries)
      lift (throw_if (length libs.1 == 0) lib_missing)
      pure (record {
        apk_path = config.apk_path;
        extract_dir = extract_dir;
        so_path = libs.1;
        assets_dir = assets_dir;
        selected_lib = lib_base_name selected.name;
        manifest_lib = classification.manifest_lib;
        manifest_package = classification.manifest_package;
        manifest_application_label = classification.manifest_application_label;
        manifest_application_icon = classification.manifest_application_icon;
        manifest_application_class = classification.manifest_application_class;
        manifest_launch_activity = classification.manifest_launch_activity;
        manifest_widget_provider = classification.manifest_widget_provider;
        extracted_libs = libs.0;
        extracted_assets = assets;
      })

unfoldable pub prepare_apk_launch : Disk → Inflate → ApkLaunchConfig → Io ApkLaunchResult
prepare_apk_launch disk inflate config = do
  lift (throw_if (length config.apk_path == 0) path_empty)
  apk ← lift (read_apk disk.read_file config.apk_path)
  entries ← lift (read_zip_entries apk)
  classification ← lift (classify_entries inflate config.apk_path apk entries)
  selected ← lift (selected_of config classification (arm64_libs_of entries))
  extract_all disk inflate config classification apk entries selected
