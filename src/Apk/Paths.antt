-- ===== src/Apk/Paths.antt =====
-- The names of zip entries in platform/android-aarch64/apk/apk_envelope.cpp.
pub mod Parts
use muplar.Base.{
  ℕ, zero, suc, ◌+◌, ◌-◌, List, [], ◌∷◌, ◌++◌, map, Bool, true, false, ◌||◌, ◌&&◌, not, ◌==◌, ltb,
  leb,
}
use muplar.Base.{if◌then◌else◌, length, take, drop, Option, none, some}
use muplar.Base.Text.{codes}
use muplar.Apk.Find.{
  same, starts_with, ends_with, find_char, has_char, is_some, substr, after_last, is_alnum,
}

unfoldable pub is_root_dex : List ℕ → Bool
is_root_dex path =
    if has_char path b'/'
    then false
    else same path (codes "classes.dex")
      || (starts_with path (codes "classes") && ends_with path (codes ".dex"))

abbrev pub starts_with_slash : List ℕ → Bool
starts_with_slash [] = false
starts_with_slash (c ∷ cs) = c == b'/'

abbrev pub dot_dot : List ℕ
dot_dot = b'.' ∷ b'.' ∷ []

-- `while (start <= path.size())`: the part from `start` to the next '/'. A round passes one '/'.
unfoldable pub parts_loop : (rounds : ℕ) → List ℕ → (start : ℕ) → Bool
parts_loop zero path start = true
parts_loop (suc rounds) path start = elim (find_char path b'/' start) [
  | none ↦ not (same (drop start path) dot_dot)
  | some end ↦
      if same (substr path start (end - start)) dot_dot
      then false
      else parts_loop rounds path (end + 1)
]

unfoldable pub safe_zip_path : List ℕ → Bool
safe_zip_path path =
    if length path == 0 || starts_with_slash path || has_char path 92 || has_char path b':'
    then false
    else parts_loop (suc (length path)) path 0

unfoldable pub filename_from_zip_path : List ℕ → List ℕ
filename_from_zip_path path = after_last b'/' path path

unfoldable pub lib_base_name : List ℕ → List ℕ
lib_base_name filename =
    let base = filename_from_zip_path filename in
    if starts_with base (codes "lib") && ends_with base (codes ".so")
    then substr base 3 (length base - 6)
    else if ends_with base (codes ".so")
    then take (length base - 3) base
    else base

unfoldable pub lib_name_matches : (entry_name requested : List ℕ) → Bool
lib_name_matches entry_name requested =
    let filename = filename_from_zip_path entry_name in
    same requested filename || same requested (lib_base_name filename)

abbrev pub sanitize_char : ℕ → ℕ
sanitize_char c = if is_alnum c || c == b'-' || c == b'_' || c == b'.' then c else b'_'

unfoldable pub sanitize_path_component : List ℕ → List ℕ
sanitize_path_component [] = codes "apk"
sanitize_path_component (c ∷ cs) = map sanitize_char (c ∷ cs)

-- `join_libs`
unfoldable pub join_libs : List (List ℕ) → List ℕ
join_libs [] = []
join_libs (lib ∷ []) = filename_from_zip_path lib
join_libs (lib ∷ next ∷ libs) = filename_from_zip_path lib ++ codes ", " ++ join_libs (next ∷ libs)
