-- ===== src/Apk/Activities.antt =====
-- The activity and the widget provider of a binary manifest, in
-- platform/android-aarch64/apk/apk_envelope.cpp.
pub mod Safe
use muplar.Base.{ℕ, zero, suc, ◌+◌, List, [], ◌∷◌, ◌++◌, Option, none, some}
use muplar.Base.{Bool, true, false, not, ◌&&◌, ◌||◌, ◌==◌, ltb, if◌then◌else◌, length, get_or}
use muplar.Base.Text.{codes}
use muplar.Apk.{Result, ok, ◌>>=◌, read_u32}
use muplar.Apk.Find.{same, is_some}
use muplar.Apk.Attribute.{or_else, value_or_empty, holds, normalize_activity_name, looks_main}
use muplar.Apk.Chunks.{Chunk, Next, continue, return_with, chunk_loop, enough, first_chunk}
use muplar.Apk.Axml.{axml_string_pool}
use muplar.Apk.Binary.{
  res_xml_start_element_type, res_xml_end_element_type, names, string_value, element_attribute,
}

-- The variables of the loop of `infer_binary_manifest_launch_activity`.
pub record Launching : Type 0 where
  pub first_activity : Option (List ℕ)
  pub current_activity : Option (List ℕ)
  pub launcher_activities : List (List ℕ)
  pub has_main_action : Bool
  pub has_launcher_category : Bool

abbrev attribute :
    (manifest : List ℕ) → List (List ℕ) → Chunk → (wanted : List ℕ) → Result (Option (List ℕ))
attribute manifest strings c wanted = element_attribute string_value manifest strings c wanted

abbrev pub full_name : (package_name : Option (List ℕ)) → List ℕ → List ℕ
full_name package_name name = normalize_activity_name (value_or_empty package_name) name

abbrev pub enter_activity : (package_name name : Option (List ℕ)) → Launching → Launching
enter_activity package_name none s = s
enter_activity package_name (some name) s = record s {
  first_activity = or_else s.first_activity (some (full_name package_name name));
  current_activity = some (full_name package_name name);
  has_main_action = false;
  has_launcher_category = false;
}

-- The start of an element, by its name.
unfoldable pub launch_start :
    (manifest : List ℕ) (strings : List (List ℕ)) (package_name : Option (List ℕ)) (c : Chunk)
    (element : List ℕ)
    → Launching
    → Result Launching
launch_start manifest strings package_name c element s =
    if same element (codes "activity")
    then (attribute manifest strings c (codes "name") >>= λ name.
        ok (enter_activity package_name name s))
    else if is_some s.current_activity && same element (codes "action")
    then (if s.has_main_action
        then ok s
        else (attribute manifest strings c (codes "name") >>= λ action.
            ok (record s { has_main_action = holds action (codes "android.intent.action.MAIN") })))
    else if is_some s.current_activity && same element (codes "category")
    then (attribute manifest strings c (codes "name") >>= λ category. ok (record s {
      has_launcher_category =
          s.has_launcher_category
          || holds category (codes "android.intent.category.LAUNCHER")
          || holds category (codes "android.intent.category.HOME")
          || holds category (codes "android.intent.category.SECONDARY_HOME");
    }))
    else ok s

-- The end of the element `activity`.
abbrev pub leave_activity : (current_activity : Option (List ℕ)) → Launching → Launching
leave_activity none s = s
leave_activity (some act) s = record s {
  launcher_activities =
      if s.has_main_action && s.has_launcher_category
      then s.launcher_activities ++ act ∷ []
      else s.launcher_activities;
  current_activity = none;
}

unfoldable pub launch_visit :
    (manifest : List ℕ) (strings : List (List ℕ)) (package_name : Option (List ℕ)) (c : Chunk)
    → Launching
    → Result (Next Launching (Option (List ℕ)))
launch_visit manifest strings package_name c s =
    if c.type == res_xml_start_element_type && not (ltb (length manifest) (c.off + 36))
    then (read_u32 manifest (c.off + 20) >>= λ name_idx.
        launch_start manifest strings package_name c (get_or strings name_idx []) s >>= λ s'.
        ok (continue s'))
    else if c.type == res_xml_end_element_type && not (ltb (length manifest) (c.off + 24))
    then (read_u32 manifest (c.off + 20) >>= λ name_idx. ok (
        continue (
          if names strings name_idx (codes "activity")
          then leave_activity s.current_activity s
          else s)))
    else ok (continue s)

unfoldable pub main_activity : List (List ℕ) → Option (List ℕ)
main_activity [] = none
main_activity (act ∷ acts) =
    let rest = main_activity acts in if looks_main act then some act else rest

abbrev pub front : List (List ℕ) → Option (List ℕ)
front [] = none
front (act ∷ acts) = some act

-- What follows the loop.
unfoldable pub chosen_activity : Next Launching (Option (List ℕ)) → Option (List ℕ)
chosen_activity (continue s) =
    or_else (main_activity s.launcher_activities)
      (or_else (front s.launcher_activities) s.first_activity)
chosen_activity (return_with name) = name

abbrev pub no_activity : Launching
no_activity = record {
  first_activity = none;
  current_activity = none;
  launcher_activities = [];
  has_main_action = false;
  has_launcher_category = false;
}

unfoldable pub infer_binary_manifest_launch_activity :
    (manifest : List ℕ) (package_name : Option (List ℕ)) → Result (Option (List ℕ))
infer_binary_manifest_launch_activity manifest package_name = do
  strings ← axml_string_pool manifest
  if length strings == 0 then ok none else (do
    off ← first_chunk manifest
    end ←
        chunk_loop (enough manifest) manifest 8 (length manifest)
          (launch_visit manifest strings package_name) off no_activity
    ok (chosen_activity end))

-- The state is `receiver`.
unfoldable pub widget_start :
    (manifest : List ℕ) (strings : List (List ℕ)) (package_name : Option (List ℕ)) (c : Chunk)
    (element : List ℕ) (receiver : Option (List ℕ))
    → Result (Next (Option (List ℕ)) (Option (List ℕ)))
widget_start manifest strings package_name c element receiver =
    if same element (codes "receiver")
    then (attribute manifest strings c (codes "name") >>= λ value.
        ok (continue (elim value [ none ↦ none | some name ↦ some (full_name package_name name) ])))
    else if is_some receiver && same element (codes "action")
    then (attribute manifest strings c (codes "name") >>= λ action. ok (
        if holds action (codes "android.appwidget.action.APPWIDGET_UPDATE")
        then return_with receiver
        else continue receiver))
    else ok (continue receiver)

unfoldable pub widget_visit :
    (manifest : List ℕ) (strings : List (List ℕ)) (package_name : Option (List ℕ)) (c : Chunk)
    (receiver : Option (List ℕ))
    → Result (Next (Option (List ℕ)) (Option (List ℕ)))
widget_visit manifest strings package_name c receiver =
    if c.type == res_xml_start_element_type && not (ltb (length manifest) (c.off + 36))
    then (read_u32 manifest (c.off + 20) >>= λ name.
        widget_start manifest strings package_name c (get_or strings name []) receiver)
    else if c.type == res_xml_end_element_type && not (ltb (length manifest) (c.off + 24))
    then (read_u32 manifest (c.off + 20) >>= λ name.
        ok (continue (if names strings name (codes "receiver") then none else receiver)))
    else ok (continue receiver)

abbrev pub returned_provider : Next (Option (List ℕ)) (Option (List ℕ)) → Option (List ℕ)
returned_provider (continue receiver) = none
returned_provider (return_with receiver) = receiver

unfoldable pub infer_binary_manifest_widget_provider :
    (manifest : List ℕ) (package_name : Option (List ℕ)) → Result (Option (List ℕ))
infer_binary_manifest_widget_provider manifest package_name = do
  strings ← axml_string_pool manifest
  if length strings == 0 then ok none else (do
    off ← first_chunk manifest
    end ←
        chunk_loop (enough manifest) manifest 8 (length manifest)
          (widget_visit manifest strings package_name) off none
    ok (returned_provider end))
