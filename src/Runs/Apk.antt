-- ===== src/Runs/Apk.antt =====
-- Examples of the theorems on zip files and on the launch of an APK, and runs of them.
use muplar.Base.{
  ℕ, ◌≡◌, ◌≢◌, ◌↔◌, refl, arith, List, [], ◌∷◌, ◌++◌, none, some, true, false, replicate,
}
use muplar.Base.Text.{codes}
use muplar.Apk.{ok}
use muplar.Apk.Runs.{Runs, Leaves}
use muplar.Apk.Find.{same, starts_with, ends_with, after_last}
use muplar.Apk.Paths.{safe_zip_path, filename_from_zip_path}
use muplar.Apk.Paths.Parts.{IsSafeName, safe_zip_path_iff}
use muplar.Apk.Zip.{find_eocd, read_directory, entries_loop, read_entry}
use muplar.Apk.{read_u16, read_u32, slice}
use muplar.Apk.Zip.{ZipEntry, read_zip_entries, Inflate, extract_entry_data}
use muplar.Apk.Zip.Bounds.{
  IsDirectory, read_zip_entries-Runs, IsExtracted, extract_entry_data-IsExtracted,
}
use muplar.Apk.Zip.Directory.{Central, Fits}
use muplar.Apk.Zip.RoundTrip.{zip_bytes, read_zip_entries-zip_bytes}
use muplar.Apk.Zip.Local.{LocalHeader, local_header, extract_entry_data-local_header}
use muplar.Apk.Classify.{
  ApkClassification, ApkRuntimeKind, classify_entries, with_manifest, sort_entries, sort_entry,
  bare_classification,
}
use muplar.Apk.Classify.Entries.{IsClassified, classify_entries-IsClassified}
use muplar.Apk.Io.{append_path, create_directories, write_file, Disk, make_dirs, write}
use muplar.Apk.Launch.{
  ApkLaunchConfig, prepare_apk_launch, extract_dir_of, arm64_libs_of, selected_of, libs_loop,
  select_lib, extract_all, make_assets_dir, asset_entries_of, write_extracted, assets_loop,
}
use muplar.Apk.Launch.Inside.{AllInside, prepare_apk_launch-Inside}
use muplar.Apk.Launch.Selected.{has_name, path_in, selected_of-so_path}

abbrev zeros : ℕ → List ℕ
zeros n = replicate n 0

-- A file of one stored entry, "lib/arm64-v8a/liba.so", whose data are the bytes 7 and 9.
abbrev lib_name : List ℕ
lib_name = codes "lib/arm64-v8a/liba.so"

abbrev lib_header : List ℕ
lib_header =
    (0x50 ∷ 0x4b ∷ 3 ∷ 4 ∷ []) ++ zeros 14 ++ (2 ∷ 0 ∷ 0 ∷ 0 ∷ 2 ∷ 0 ∷ 0 ∷ 0 ∷ 21 ∷ 0 ∷ 0 ∷ 0 ∷ [])

abbrev central_header : List ℕ
central_header =
    (0x50 ∷ 0x4b ∷ 1 ∷ 2 ∷ [])
    ++ zeros 16
    ++ (2 ∷ 0 ∷ 0 ∷ 0 ∷ 2 ∷ 0 ∷ 0 ∷ 0 ∷ 21 ∷ 0 ∷ [])
    ++ zeros 16

abbrev end_record : List ℕ
end_record =
    (0x50 ∷ 0x4b ∷ 5 ∷ 6 ∷ [])
    ++ zeros 4
    ++ (1 ∷ 0 ∷ 1 ∷ 0 ∷ 67 ∷ 0 ∷ 0 ∷ 0 ∷ 53 ∷ 0 ∷ 0 ∷ 0 ∷ 0 ∷ 0 ∷ [])

abbrev archive : List ℕ
archive = lib_header ++ lib_name ++ (7 ∷ 9 ∷ []) ++ central_header ++ lib_name ++ end_record

abbrev lib_entry : ZipEntry
lib_entry = record {
  name = lib_name;
  flags = 0;
  method = 0;
  compressed_size = 2;
  uncompressed_size = 2;
  local_header_offset = 0;
}

abbrev no_inflate : Inflate
no_inflate bytes size = none

-- The reader finds the entry.
archive_entries : read_zip_entries archive ≡ ok (lib_entry ∷ [])
unfolding read_zip_entries find_eocd read_u32 read_directory read_u16 entries_loop read_entry slice
archive_entries = refl

safe_zip_path_iff_example :
    (safe_zip_path (codes "assets/../a") ≡ true) ↔ IsSafeName (codes "assets/../a")
safe_zip_path_iff_example = safe_zip_path_iff (codes "assets/../a")

read_zip_entries-Runs_example : Runs ⊥ (IsDirectory archive) (read_zip_entries archive)
read_zip_entries-Runs_example = read_zip_entries-Runs archive

extract_entry_data-IsExtracted_example :
    Runs ⊥
      (IsExtracted no_inflate archive lib_entry)
      (extract_entry_data no_inflate archive lib_entry)
extract_entry_data-IsExtracted_example = extract_entry_data-IsExtracted no_inflate archive lib_entry

-- A system that does what it is asked, and has the archive under every path.
abbrev disk : Disk
disk = record {
  read_file = λ path. some archive;
  makes = λ log path. true;
  opens = λ log path. true;
  written = λ log path. true;
  default_extract_dir = λ path base. codes "out";
}

abbrev config : ApkLaunchConfig
config = record {
  apk_path = codes "a.apk";
  lib_name = none;
  output_base_dir = [];
  output_dir = codes "x";
}

prepare_apk_launch-Inside_example :
    AllInside (extract_dir_of disk config) (prepare_apk_launch disk no_inflate config []).1
prepare_apk_launch-Inside_example = prepare_apk_launch-Inside disk no_inflate config

-- What the launch of the archive does, the last step first.
launch_steps :
    (prepare_apk_launch disk no_inflate config []).1
    ≡ write (codes "x/lib/arm64-v8a/liba.so") (7 ∷ 9 ∷ [])
      ∷ make_dirs (codes "x/lib/arm64-v8a")
      ∷ []
unfolding prepare_apk_launch read_zip_entries find_eocd read_u32 read_directory read_u16
    entries_loop read_entry slice classify_entries with_manifest sort_entries sort_entry same
    starts_with ends_with selected_of arm64_libs_of select_lib extract_all extract_dir_of
    append_path create_directories make_assets_dir asset_entries_of libs_loop filename_from_zip_path
    after_last extract_entry_data write_extracted write_file assets_loop bare_classification
launch_steps = refl

abbrev classification : ApkClassification
classification = record {
  apk_path = codes "a.apk";
  runtime_kind = ApkRuntimeKind.native_only;
  has_manifest = false;
  manifest_lib = none;
  manifest_package = none;
  manifest_application_label = none;
  manifest_application_icon = none;
  manifest_application_icon_resource = none;
  manifest_application_class = none;
  manifest_launch_activity = none;
  manifest_widget_provider = none;
  arm64_libs = lib_name ∷ [];
  dex_files = [];
  asset_entries = [];
}

archive-selected : selected_of config classification (arm64_libs_of (lib_entry ∷ [])) ≡ ok lib_entry
unfolding selected_of arm64_libs_of starts_with ends_with same select_lib
archive-selected = refl

selected_of-so_path_example :
    (has_name lib_name (arm64_libs_of (lib_entry ∷ [])) ≡ true)
    × (path_in (codes "x") lib_name ≢ [])
    × Leaves
        (λ r. r.1 ≡ path_in (codes "x") lib_name)
        (libs_loop disk no_inflate archive
          (codes "x")
          lib_name
          (arm64_libs_of (lib_entry ∷ []))
          []
          []).0
selected_of-so_path_example =
    selected_of-so_path disk no_inflate config classification archive (codes "x") (lib_entry ∷ [])
      lib_entry [] archive-selected

abbrev lib_central : Central
lib_central = record {
  entry = lib_entry;
  extra = 1 ∷ 2 ∷ [];
  comment = codes "c";
  versions = 0x140314;
  modified = 0x5a6b7c8d;
  checksum = 0x12345678;
  disk = 0;
  attributes = 0x81a40000;
}

abbrev lib_local : LocalHeader
lib_local = record {
  version = 20;
  flags = 8;
  method = 0;
  modified = 0x5a6b7c8d;
  checksum = 0;
  compressed_size = 0;
  uncompressed_size = 0;
  name = lib_name;
  extra = [];
}

lib_central-Fits : Fits lib_central
lib_central-Fits = record {
  flags = omega arith;
  method = omega arith;
  compressed_size = omega arith;
  uncompressed_size = omega arith;
  local_header_offset = omega arith;
  name = omega arith;
  extra = omega arith;
  comment = omega arith;
}

read_zip_entries-zip_bytes_example :
    read_zip_entries (zip_bytes (7 ∷ 9 ∷ []) (lib_central ∷ lib_central ∷ []))
    ≡ ok (lib_entry ∷ lib_entry ∷ [])
read_zip_entries-zip_bytes_example =
    read_zip_entries-zip_bytes (7 ∷ 9 ∷ []) (lib_central ∷ lib_central ∷ [])
      (lib_central-Fits, (lib_central-Fits, tt)) (omega arith) (omega arith) (omega arith)

extract_entry_data-local_header_example :
    extract_entry_data no_inflate (local_header lib_local ((7 ∷ 9 ∷ []) ++ codes "rest")) lib_entry
    ≡ ok (7 ∷ 9 ∷ [])
extract_entry_data-local_header_example =
    extract_entry_data-local_header no_inflate [] lib_entry lib_local (7 ∷ 9 ∷ []) (codes "rest")
      refl refl (omega arith) (omega arith)

classify_entries-IsClassified_example :
    Leaves
      (IsClassified (lib_entry ∷ []))
      (classify_entries no_inflate (codes "a.apk") archive (lib_entry ∷ []))
classify_entries-IsClassified_example =
    classify_entries-IsClassified no_inflate (codes "a.apk") archive (lib_entry ∷ [])
