-- ===== src/Apk/Plain.antt =====
-- The manifest as a text, in platform/android-aarch64/apk/apk_envelope.cpp.
pub mod Ends
use muplar.Base.{ℕ, zero, suc, ◌+◌, ◌-◌, List, [], ◌∷◌, ◌++◌, Option, none, some}
use muplar.Base.{Bool, true, false, not, ◌&&◌, ◌||◌, ◌==◌, if◌then◌else◌, length}
use muplar.Base.Text.{codes}
use muplar.Apk.{Result, ok, spins, ◌>>=◌}
use muplar.Apk.Find.{find, find_char, contains, substr}
use muplar.Apk.Attribute.{
  or_else, value_or_empty, plain_manifest_attribute, tag_attribute, normalize_activity_name,
  looks_main,
}

unfoldable pub only_base : List (List ℕ) → Option (List ℕ)
only_base [] = none
only_base (base ∷ []) = some base
only_base (base ∷ next ∷ bases) = none

unfoldable pub quoted_base : (manifest : List ℕ) → List (List ℕ) → Option (List ℕ)
quoted_base manifest [] = none
quoted_base manifest (base ∷ bases) =
    let rest = quoted_base manifest bases in
    if contains manifest (34 ∷ base ++ 34 ∷ []) || contains manifest (39 ∷ base ++ 39 ∷ [])
    then some base
    else rest

unfoldable pub infer_plain_manifest_lib : (manifest : List ℕ) → List (List ℕ) → Option (List ℕ)
infer_plain_manifest_lib manifest available_bases =
    if not (contains manifest (codes "android.app.lib_name"))
    then none
    else or_else (quoted_base manifest available_bases) (only_base available_bases)

unfoldable pub infer_plain_manifest_package : (manifest : List ℕ) → Option (List ℕ)
infer_plain_manifest_package manifest =
    plain_manifest_attribute manifest (codes "manifest") (codes "package")

-- `name`, with the prefix of its XML namespace or without.
abbrev pub tag_name : (tag : List ℕ) → Option (List ℕ)
tag_name tag = or_else (tag_attribute tag (codes "android:name")) (tag_attribute tag (codes "name"))

pub record ActivityCandidate : Type 0 where
  pub name : List ℕ
  pub is_launcher : Bool

unfoldable pub launches : (block : List ℕ) → Bool
launches block =
    contains block (codes "android.intent.action.MAIN")
    && (contains block (codes "android.intent.category.LAUNCHER")
        || contains block (codes "android.intent.category.HOME")
        || contains block (codes "android.intent.category.SECONDARY_HOME"))

-- `candidates.push_back`, if the activity has a name.
abbrev pub push_candidate :
    (package_name : Option (List ℕ)) (block : List ℕ) (name : Option (List ℕ))
    → List ActivityCandidate
    → List ActivityCandidate
push_candidate package_name block none candidates = candidates
push_candidate package_name block (some name) candidates =
    record {
      name = normalize_activity_name (value_or_empty package_name) name;
      is_launcher = launches block;
    }
    ∷ candidates

-- Where an element's block ends: behind its closing tag, or at the end of its opening one.
abbrev pub block_end_of : (open_end : ℕ) (behind : ℕ) → Option ℕ → ℕ
block_end_of open_end behind none = open_end
block_end_of open_end behind (some end) = end + behind

-- `while (true)`: the activities from `pos` on.
unfoldable pub candidates_loop :
    (fuel : ℕ) (manifest : List ℕ) (package_name : Option (List ℕ)) (pos : ℕ)
    → Result (List ActivityCandidate)
candidates_loop zero manifest package_name pos = spins
candidates_loop (suc fuel) manifest package_name pos =
    elim (find manifest (codes "<activity") pos) [
      | none ↦ ok []
      | some start ↦ elim (find_char manifest b'>' start) [
        | none ↦ ok []
        | some open_end ↦
            let tag = substr manifest start (open_end - start + 1) in
            let close = codes "</activity>" in
            let block_end = block_end_of open_end (length close) (find manifest close open_end) in
            let block = substr manifest start (block_end - start) in
            candidates_loop fuel manifest package_name block_end >>= λ candidates.
            ok (push_candidate package_name block (tag_name tag) candidates)
      ]
    ]

unfoldable pub main_candidate : List ActivityCandidate → Option (List ℕ)
main_candidate [] = none
main_candidate (c ∷ cs) =
    let rest = main_candidate cs in if c.is_launcher && looks_main c.name then some c.name else rest

unfoldable pub launcher_candidate : List ActivityCandidate → Option (List ℕ)
launcher_candidate [] = none
launcher_candidate (c ∷ cs) =
    let rest = launcher_candidate cs in if c.is_launcher then some c.name else rest

abbrev pub first_candidate : List ActivityCandidate → Option (List ℕ)
first_candidate [] = none
first_candidate (c ∷ cs) = some c.name

unfoldable pub infer_plain_manifest_launch_activity :
    (manifest : List ℕ) (package_name : Option (List ℕ)) → Result (Option (List ℕ))
infer_plain_manifest_launch_activity manifest package_name = do
  candidates ← candidates_loop (suc (suc (length manifest))) manifest package_name 0
  ok (
      or_else (main_candidate candidates)
        (or_else (launcher_candidate candidates) (first_candidate candidates)))

-- The name that a round returns: the receiver's, if it is the provider of a widget.
abbrev pub provider_name : (package_name : Option (List ℕ)) (block tag : List ℕ) → Option (List ℕ)
provider_name package_name block tag =
    if contains block (codes "android.appwidget.action.APPWIDGET_UPDATE")
    then elim (tag_name tag) [
      | none ↦ none
      | some name ↦ some (normalize_activity_name (value_or_empty package_name) name)
    ]
    else none

-- `while (true)`: the receivers from `pos` on.
unfoldable pub receivers_loop :
    (fuel : ℕ) (manifest : List ℕ) (package_name : Option (List ℕ)) (pos : ℕ)
    → Result (Option (List ℕ))
receivers_loop zero manifest package_name pos = spins
receivers_loop (suc fuel) manifest package_name pos = elim (find manifest (codes "<receiver") pos) [
  | none ↦ ok none
  | some start ↦ elim (find_char manifest b'>' start) [
    | none ↦ ok none
    | some open_end ↦
        let end = block_end_of open_end 0 (find manifest (codes "</receiver>") open_end) in
        let tag = substr manifest start (open_end - start + 1) in
        let block = substr manifest start (end - start) in
        elim (provider_name package_name block tag) [
          | none ↦ receivers_loop fuel manifest package_name (end + 1)
          | some name ↦ ok (some name)
        ]
  ]
]

unfoldable pub infer_plain_manifest_widget_provider :
    (manifest : List ℕ) (package_name : Option (List ℕ)) → Result (Option (List ℕ))
infer_plain_manifest_widget_provider manifest package_name =
    receivers_loop (suc (suc (length manifest))) manifest package_name 0
