-- ===== src/Apk/Manifest.antt =====
-- `infer_manifest_info` in platform/android-aarch64/apk/apk_envelope.cpp.
pub mod Safe
use muplar.Base.{ℕ, ◌+◌, List, [], ◌∷◌, ◌++◌, map, Option, none, some}
use muplar.Base.{Bool, true, false, not, ◌&&◌, ◌||◌, ◌==◌, ltb, if◌then◌else◌, length}
use muplar.Base.Text.{codes}
use muplar.Apk.{Result, ok, throws, outside, ◌>>=◌, ◌>>◌, throw_if, path_empty, open_failed}
use muplar.Apk.Find.{same, starts_with, ends_with, is_space, is_some}
use muplar.Apk.Paths.{is_root_dex, safe_zip_path, lib_base_name}
use muplar.Apk.Zip.{ZipEntry, read_zip_entries, Inflate, extract_entry_data}
use muplar.Apk.Attribute.{
  or_else, value_or_empty, plain_manifest_attribute, normalize_activity_name,
}
use muplar.Apk.Plain.{
  infer_plain_manifest_lib, infer_plain_manifest_package, infer_plain_manifest_launch_activity,
  infer_plain_manifest_widget_provider,
}
use muplar.Apk.Binary.{
  infer_binary_manifest_lib, infer_binary_manifest_package, infer_binary_manifest_string_attribute,
  infer_binary_manifest_resource_attribute,
}
use muplar.Apk.Activities.{
  infer_binary_manifest_launch_activity, infer_binary_manifest_widget_provider,
}
use muplar.Apk.Resources.{resolve_resource_string}

pub record ManifestInfo : Type 0 where
  pub lib_name : Option (List ℕ)
  pub package_name : Option (List ℕ)
  pub application_label : Option (List ℕ)
  pub application_label_resource : Option ℕ
  pub application_icon : Option (List ℕ)
  pub application_icon_resource : Option ℕ
  pub application_class : Option (List ℕ)
  pub launch_activity : Option (List ℕ)
  pub widget_provider : Option (List ℕ)

-- Whether the first character that is no space is '<'.
unfoldable pub is_plain : (manifest : List ℕ) → Bool
is_plain [] = false
is_plain (c ∷ cs) = let rest = is_plain cs in if is_space c then rest else c == b'<'

abbrev pub class_name : (package_name name : Option (List ℕ)) → Option (List ℕ)
class_name package_name none = none
class_name package_name (some name) =
    some (normalize_activity_name (value_or_empty package_name) name)

-- An attribute of `application`, with the prefix of its XML namespace or without.
unfoldable pub application_attribute : (text prefixed plain : List ℕ) → Option (List ℕ)
application_attribute text prefixed plain =
    or_else (plain_manifest_attribute text (codes "application") prefixed)
      (plain_manifest_attribute text (codes "application") plain)

unfoldable pub plain_manifest_info : (text : List ℕ) → List (List ℕ) → Result ManifestInfo
plain_manifest_info text available_bases =
    let package_name = infer_plain_manifest_package text in
    do
      launch_activity ← infer_plain_manifest_launch_activity text package_name
      widget_provider ← infer_plain_manifest_widget_provider text package_name
      ok (record {
        lib_name = infer_plain_manifest_lib text available_bases;
        package_name = package_name;
        application_label = application_attribute text (codes "android:label") (codes "label");
        application_label_resource = none;
        application_icon = application_attribute text (codes "android:icon") (codes "icon");
        application_icon_resource = none;
        application_class =
            class_name package_name
              (application_attribute text (codes "android:name") (codes "name"));
        launch_activity = launch_activity;
        widget_provider = widget_provider;
      })

unfoldable pub binary_manifest_info : (manifest : List ℕ) → List (List ℕ) → Result ManifestInfo
binary_manifest_info manifest available_bases = do
  package_name ← infer_binary_manifest_package manifest
  lib_name ← infer_binary_manifest_lib manifest available_bases
  label ← infer_binary_manifest_string_attribute manifest (codes "application") (codes "label")
  label_resource ←
      infer_binary_manifest_resource_attribute manifest (codes "application") (codes "label")
  icon ← infer_binary_manifest_string_attribute manifest (codes "application") (codes "icon")
  icon_resource ←
      infer_binary_manifest_resource_attribute manifest (codes "application") (codes "icon")
  name ← infer_binary_manifest_string_attribute manifest (codes "application") (codes "name")
  launch_activity ← infer_binary_manifest_launch_activity manifest package_name
  widget_provider ← infer_binary_manifest_widget_provider manifest package_name
  ok (record {
    lib_name = lib_name;
    package_name = package_name;
    application_label = label;
    application_label_resource = label_resource;
    application_icon = icon;
    application_icon_resource = icon_resource;
    application_class = class_name package_name name;
    launch_activity = launch_activity;
    widget_provider = widget_provider;
  })

unfoldable pub infer_manifest_info : (manifest : List ℕ) → List (List ℕ) → Result ManifestInfo
infer_manifest_info manifest available_bases =
    if is_plain manifest
    then plain_manifest_info manifest available_bases
    else binary_manifest_info manifest available_bases
