-- ===== src/Apk/Find.antt =====
-- The members of `std::string` that apk_envelope.cpp calls, on lists of characters.
pub mod Places
use muplar.Base.{
  ℕ, zero, suc, ◌+◌, ◌-◌, ◌≡◌, List, [], ◌∷◌, ◌++◌, Bool, true, false, ◌||◌, ◌&&◌, not, ◌==◌, ltb,
  leb,
}
use muplar.Base.{if◌then◌else◌, length, take, drop, Option, none, some}

abbrev pub npos : Option ℕ
npos = none

unfoldable pub same : List ℕ → List ℕ → Bool
same [] [] = true
same [] (d ∷ ds) = false
same (c ∷ cs) [] = false
same (c ∷ cs) (d ∷ ds) = if c == d then same cs ds else false

unfoldable pub member : List ℕ → List (List ℕ) → Bool
member s [] = false
member s (t ∷ ts) = if same t s then true else member s ts

unfoldable pub starts_with : (value prefix : List ℕ) → Bool
starts_with value [] = true
starts_with [] (d ∷ ds) = false
starts_with (c ∷ cs) (d ∷ ds) = if c == d then starts_with cs ds else false

unfoldable pub ends_with : (value suffix : List ℕ) → Bool
ends_with value suffix =
    leb (length suffix) (length value) && same (drop (length value - length suffix) value) suffix

-- The index of the first place from `i` on where the text begins.
unfoldable pub find_loop : (s text : List ℕ) → ℕ → Option ℕ
find_loop [] text i = if starts_with [] text then some i else none
find_loop (c ∷ cs) text i =
    let rest = find_loop cs text (i + 1) in if starts_with (c ∷ cs) text then some i else rest

unfoldable pub find : (s text : List ℕ) (pos : ℕ) → Option ℕ
find s text pos = if ltb (length s) pos then none else find_loop (drop pos s) text pos

-- The index of the first character from `i` on that passes the test.
unfoldable pub find_if : (ℕ → Bool) → List ℕ → ℕ → Option ℕ
find_if test [] i = none
find_if test (c ∷ cs) i = let rest = find_if test cs (i + 1) in if test c then some i else rest

abbrev pub find_char : List ℕ → (c pos : ℕ) → Option ℕ
find_char s c pos = find_if (λ d. d == c) (drop pos s) pos

abbrev pub is_some : {A : Type 0} → Option A → Bool
is_some none = false
is_some (some a) = true

abbrev pub contains : (s text : List ℕ) → Bool
contains s text = is_some (find s text 0)

abbrev pub has_char : List ℕ → ℕ → Bool
has_char s c = is_some (find_char s c 0)

abbrev pub substr : List ℕ → (pos n : ℕ) → List ℕ
substr s pos n = take n (drop pos s)

-- The characters behind the last one that equals `c`, and the whole text without one.
unfoldable pub after_last : (c : ℕ) (rest s : List ℕ) → List ℕ
after_last c rest [] = rest
after_last c rest (d ∷ ds) = after_last c (if d == c then ds else rest) ds

-- The tests of <cctype> and `std::tolower` in the "C" locale.
abbrev pub between : (lo hi c : ℕ) → Bool
between lo hi c = leb lo c && leb c hi

abbrev pub is_alnum : ℕ → Bool
is_alnum c = between b'0' b'9' c || between b'A' b'Z' c || between b'a' b'z' c

abbrev pub is_space : ℕ → Bool
is_space c = c == b' ' || between 9 13 c

abbrev pub to_lower : ℕ → ℕ
to_lower c = if between b'A' b'Z' c then c + 32 else c
