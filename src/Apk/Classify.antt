-- ===== src/Apk/Classify.antt =====
-- `classify_entries` and `classify_apk` in
-- platform/android-aarch64/apk/apk_envelope.cpp.
pub mod Entries
use muplar.Base.{ℕ, ◌+◌, List, [], ◌∷◌, ◌++◌, map, Option, none, some}
use muplar.Base.{Bool, true, false, not, ◌&&◌, ◌||◌, ◌==◌, ltb, if◌then◌else◌, length}
use muplar.Base.Text.{codes}
use muplar.Apk.{Result, ok, throws, outside, ◌>>=◌, ◌>>◌, throw_if, path_empty, open_failed}
use muplar.Apk.Find.{same, starts_with, ends_with, is_space, is_some}
use muplar.Apk.Paths.{is_root_dex, safe_zip_path, lib_base_name}
use muplar.Apk.Zip.{ZipEntry, read_zip_entries, Inflate, extract_entry_data}
use muplar.Apk.Attribute.{
  or_else, value_or_empty, plain_manifest_attribute, normalize_activity_name,
}
use muplar.Apk.Plain.{
  infer_plain_manifest_lib, infer_plain_manifest_package, infer_plain_manifest_launch_activity,
  infer_plain_manifest_widget_provider,
}
use muplar.Apk.Binary.{
  infer_binary_manifest_lib, infer_binary_manifest_package, infer_binary_manifest_string_attribute,
  infer_binary_manifest_resource_attribute,
}
use muplar.Apk.Activities.{
  infer_binary_manifest_launch_activity, infer_binary_manifest_widget_provider,
}
use muplar.Apk.Resources.{resolve_resource_string}
use muplar.Apk.Manifest.{ManifestInfo, infer_manifest_info}

pub data ApkRuntimeKind : Type 0 where
  empty native_only java_only mixed : ApkRuntimeKind

pub record ApkClassification : Type 0 where
  pub apk_path : List ℕ
  pub runtime_kind : ApkRuntimeKind
  pub has_manifest : Bool
  pub manifest_lib : Option (List ℕ)
  pub manifest_package : Option (List ℕ)
  pub manifest_application_label : Option (List ℕ)
  pub manifest_application_icon : Option (List ℕ)
  pub manifest_application_icon_resource : Option ℕ
  pub manifest_application_class : Option (List ℕ)
  pub manifest_launch_activity : Option (List ℕ)
  pub manifest_widget_provider : Option (List ℕ)
  pub arm64_libs : List (List ℕ)
  pub dex_files : List (List ℕ)
  pub asset_entries : List (List ℕ)

unfoldable pub runtime_kind_for : (arm64_libs dex_files : List (List ℕ)) → ApkRuntimeKind
runtime_kind_for (lib ∷ libs) (dex ∷ dexes) = mixed
runtime_kind_for (lib ∷ libs) [] = native_only
runtime_kind_for [] (dex ∷ dexes) = java_only
runtime_kind_for [] [] = empty

unfoldable pub to_string : ApkRuntimeKind → List ℕ
to_string empty = codes "empty"
to_string native_only = codes "native-only"
to_string java_only = codes "java-only"
to_string mixed = codes "mixed"

abbrev pub is_arm64_lib : (name : List ℕ) → Bool
is_arm64_lib name = starts_with name (codes "lib/arm64-v8a/") && ends_with name (codes ".so")

abbrev pub is_asset : (name : List ℕ) → Bool
is_asset name =
    starts_with name (codes "assets/") && not (ends_with name (codes "/")) && safe_zip_path name

-- The variables of the loop over the entries.
pub record Sorting : Type 0 where
  pub manifest_entry : Option ZipEntry
  pub resources_entry : Option ZipEntry
  pub arm64_libs : List (List ℕ)
  pub dex_files : List (List ℕ)
  pub asset_entries : List (List ℕ)

unfoldable pub sort_entry : ZipEntry → Sorting → Sorting
sort_entry entry s =
    if same entry.name (codes "AndroidManifest.xml")
    then record s { manifest_entry = some entry }
    else if same entry.name (codes "resources.arsc")
    then record s { resources_entry = some entry }
    else if is_arm64_lib entry.name
    then record s { arm64_libs = s.arm64_libs ++ entry.name ∷ [] }
    else if is_root_dex entry.name
    then record s { dex_files = s.dex_files ++ entry.name ∷ [] }
    else if is_asset entry.name
    then record s { asset_entries = s.asset_entries ++ entry.name ∷ [] }
    else s

unfoldable pub sort_entries : List ZipEntry → Sorting → Sorting
sort_entries [] s = s
sort_entries (entry ∷ entries) s = sort_entries entries (sort_entry entry s)

abbrev pub unsorted : Sorting
unsorted = record {
  manifest_entry = none;
  resources_entry = none;
  arm64_libs = [];
  dex_files = [];
  asset_entries = [];
}

-- The order of `std::string`, and `std::sort` by it.
unfoldable pub text_leb : List ℕ → List ℕ → Bool
text_leb [] t = true
text_leb (c ∷ cs) [] = false
text_leb (c ∷ cs) (d ∷ ds) =
    let rest = text_leb cs ds in if ltb c d then true else if c == d then rest else false

unfoldable pub insert_text : List ℕ → List (List ℕ) → List (List ℕ)
insert_text s [] = s ∷ []
insert_text s (t ∷ ts) =
    let rest = insert_text s ts in if text_leb s t then s ∷ t ∷ ts else t ∷ rest

unfoldable pub sort_texts : List (List ℕ) → List (List ℕ)
sort_texts [] = []
sort_texts (t ∷ ts) = insert_text t (sort_texts ts)

-- A text of the resource table, where both the number and the table are there.
unfoldable pub resource_text :
    Inflate
    → (apk : List ℕ) (resources_entry : Option ZipEntry) (resource_id : Option ℕ)
      (other : Option (List ℕ))
    → Result (Option (List ℕ))
resource_text inflate apk (some entry) (some id) other = do
  resources ← extract_entry_data inflate apk entry
  resolve_resource_string resources id
resource_text inflate apk none id other = ok other
resource_text inflate apk (some entry) none other = ok other

-- `icon->front() == '@'`: there is no first character in an empty string.
abbrev pub front_is_at : List ℕ → Result Bool
front_is_at [] = outside
front_is_at (c ∷ cs) = ok (c == b'@')

-- Whether the icon has to come from the resource table.
abbrev pub icon_is_missing : Option (List ℕ) → Result Bool
icon_is_missing none = ok true
icon_is_missing (some icon) = front_is_at icon

abbrev pub label_of :
    Inflate
    → (apk : List ℕ) (resources_entry : Option ZipEntry) (info : ManifestInfo)
      (label : Option (List ℕ))
    → Result (Option (List ℕ))
label_of inflate apk resources_entry info (some label) = ok (some label)
label_of inflate apk resources_entry info none =
    resource_text inflate apk resources_entry info.application_label_resource none

unfoldable pub icon_of :
    Inflate
    → (apk : List ℕ) (resources_entry : Option ZipEntry) (info : ManifestInfo)
    → Result (Option (List ℕ))
icon_of inflate apk resources_entry info = do
  missing ← icon_is_missing info.application_icon
  if missing
      then resource_text inflate apk resources_entry info.application_icon_resource
          info.application_icon
      else ok info.application_icon

-- The lists, sorted, and nothing of a manifest.
unfoldable pub bare_classification : (apk_path : List ℕ) → Sorting → ApkClassification
bare_classification apk_path s = record {
  apk_path = apk_path;
  runtime_kind = runtime_kind_for (sort_texts s.arm64_libs) (sort_texts s.dex_files);
  has_manifest = is_some s.manifest_entry;
  manifest_lib = none;
  manifest_package = none;
  manifest_application_label = none;
  manifest_application_icon = none;
  manifest_application_icon_resource = none;
  manifest_application_class = none;
  manifest_launch_activity = none;
  manifest_widget_provider = none;
  arm64_libs = sort_texts s.arm64_libs;
  dex_files = sort_texts s.dex_files;
  asset_entries = sort_texts s.asset_entries;
}

-- What the manifest adds.
unfoldable pub with_manifest :
    Inflate
    → (apk : List ℕ) (s : Sorting) (manifest_entry : Option ZipEntry) → ApkClassification
    → Result ApkClassification
with_manifest inflate apk s none classification = ok classification
with_manifest inflate apk s (some entry) classification = do
  manifest ← extract_entry_data inflate apk entry
  info ← infer_manifest_info manifest (map lib_base_name s.arm64_libs)
  label ← label_of inflate apk s.resources_entry info info.application_label
  icon ← icon_of inflate apk s.resources_entry info
  ok (record classification {
    manifest_lib = info.lib_name;
    manifest_package = info.package_name;
    manifest_application_label = label;
    manifest_application_icon = icon;
    manifest_application_icon_resource = info.application_icon_resource;
    manifest_application_class = info.application_class;
    manifest_launch_activity = info.launch_activity;
    manifest_widget_provider = info.widget_provider;
  })

unfoldable pub classify_entries :
    Inflate → (apk_path apk : List ℕ) → List ZipEntry → Result ApkClassification
classify_entries inflate apk_path apk entries =
    let s = sort_entries entries unsorted in
    with_manifest inflate apk s s.manifest_entry (bare_classification apk_path s)

-- `read_file`: the bytes of a file, if it can be opened and read.
abbrev pub read_apk : (read_file : List ℕ → Option (List ℕ)) (path : List ℕ) → Result (List ℕ)
read_apk read_file path = elim (read_file path) [ none ↦ throws open_failed | some apk ↦ ok apk ]

unfoldable pub classify_apk :
    (read_file : List ℕ → Option (List ℕ))
    → Inflate
    → (apk_path : List ℕ) → Result ApkClassification
classify_apk read_file inflate apk_path = do
  throw_if (length apk_path == 0) path_empty
  apk ← read_apk read_file apk_path
  entries ← read_zip_entries apk
  classify_entries inflate apk_path apk entries
