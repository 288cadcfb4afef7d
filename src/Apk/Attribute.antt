-- ===== src/Apk/Attribute.antt =====
-- The attributes of a text manifest, and the names of activities, in
-- platform/android-aarch64/apk/apk_envelope.cpp.
pub mod Quoted
use muplar.Base.{ℕ, ◌+◌, ◌-◌, List, [], ◌∷◌, ◌++◌, map, Option, none, some}
use muplar.Base.{Bool, false, not, ◌&&◌, ◌||◌, ◌==◌, ltb, if◌then◌else◌, length, drop, get_or}
use muplar.Base.Text.{codes}
use muplar.Apk.Find.{same, find, find_char, find_if, has_char, contains, substr, to_lower}

infixl 5 ◌>>=◌
abbrev pub ◌>>=◌ : {A B : Type 0} → Option A → (A → Option B) → Option B
none >>= f = none
some a >>= f = f a

-- `a` if it is there, else `b`.
abbrev pub or_else : {A : Type 0} → Option A → Option A → Option A
or_else none b = b
or_else (some a) b = some a

-- `value_or(std::string())`
abbrev pub value_or_empty : Option (List ℕ) → List ℕ
value_or_empty none = []
value_or_empty (some s) = s

-- Whether the value is there and equals the text.
abbrev pub holds : Option (List ℕ) → List ℕ → Bool
holds none text = false
holds (some s) text = same s text

-- A position that is not behind `end`.
abbrev pub up_to : (end : ℕ) → Option ℕ → Option ℕ
up_to end none = none
up_to end (some pos) = if ltb end pos then none else some pos

-- `s.find_first_of("\"'", pos)`
abbrev pub find_quote : List ℕ → (pos : ℕ) → Option ℕ
find_quote s pos = find_if (λ c. c == 34 || c == 39) (drop pos s) pos

-- `find_first_of` and `find` answer places inside of the text, so the default of `get_or` is never
-- taken and `substr` never throws.
unfoldable pub plain_manifest_attribute : (manifest element attr : List ℕ) → Option (List ℕ)
plain_manifest_attribute manifest element attr = do
  tag ← find manifest (b'<' ∷ element) 0
  end ← find_char manifest b'>' tag
  attr_pos ← up_to end (find manifest attr tag)
  eq ← up_to end (find_char manifest b'=' (attr_pos + length attr))
  quote ← up_to end (find_quote manifest (eq + 1))
  close ← up_to end (find_char manifest (get_or manifest quote 0) (quote + 1))
  some (substr manifest (quote + 1) (close - quote - 1))

unfoldable pub tag_attribute : (tag attr : List ℕ) → Option (List ℕ)
tag_attribute tag attr = do
  attr_pos ← find tag attr 0
  eq ← find_char tag b'=' (attr_pos + length attr)
  quote ← find_quote tag (eq + 1)
  close ← find_char tag (get_or tag quote 0) (quote + 1)
  some (substr tag (quote + 1) (close - quote - 1))

unfoldable pub normalize_activity_name : (package_name activity_name : List ℕ) → List ℕ
normalize_activity_name package_name [] = []
normalize_activity_name [] (c ∷ cs) = c ∷ cs
normalize_activity_name (p ∷ ps) (c ∷ cs) =
    if c == b'.'
    then (p ∷ ps) ++ c ∷ cs
    else if has_char (c ∷ cs) b'.'
    then c ∷ cs
    else (p ∷ ps) ++ b'.' ∷ c ∷ cs

-- The test by which both kinds of manifest choose among the launcher activities.
unfoldable pub looks_main : (name : List ℕ) → Bool
looks_main name =
    let lower = map to_lower name in
    contains lower (codes "mainactivity")
    || (contains lower (codes "main")
        && not (contains lower (codes "panic"))
        && not (contains lower (codes "calc")))
