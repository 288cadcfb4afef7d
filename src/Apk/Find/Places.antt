-- ===== src/Apk/Find/Places.antt =====
-- Where the members of `std::string` find what they look for.
use Prim.Native.Nat.{◌≤◌}
use muplar.Base.{
  ℕ, zero, suc, ◌+◌, ◌-◌, ◌<◌, ◌≡◌, refl, ap, ◌∙◌, sym, arith, inl, inr, List, [], ◌∷◌,
}
use muplar.Base.{◌==◌, length, drop, get_or, length-drop, some, Bool-cases}
use muplar.Apk.Find.{starts_with, find, find_loop, find_if, find_char}

-- `k` is a place of the text from `pos` on, and the character there is `c`.
pub record IsPlace (s : List ℕ) (c pos k : ℕ) : Type 0 where
  pub from : pos ≤ k
  pub within : k < length s
  pub char : get_or s k 0 ≡ c

pub get_or-drop : (s : List ℕ) (pos j : ℕ) → get_or (drop pos s) j 0 ≡ get_or s (pos + j) 0
get_or-drop s zero j = rw (let e : 0 + j ≡ j = omega arith in e) refl
get_or-drop [] (suc pos) j = refl
get_or-drop (x ∷ s) (suc pos) j =
    rw (let e : suc pos + j ≡ suc (pos + j) = omega arith in e) (get_or-drop s pos j)

-- A place of what is left, as a place of the whole.
IsPlace-drop :
    (s : List ℕ) (c pos k : ℕ)
    → pos ≤ k
    → k - pos < length (drop pos s)
    → get_or (drop pos s) (k - pos) 0 ≡ c
    → IsPlace s c pos k
IsPlace-drop s c pos k lo hi e = record {
  from = lo;
  within = omega (arith, length-drop pos s);
  char =
      ap (λ (n : ℕ). get_or s n 0) (let a : k ≡ pos + (k - pos) = omega arith in a)
      ∙ sym (get_or-drop s pos (k - pos))
      ∙ e;
}

place_here :
    (c d : ℕ) (ds : List ℕ) (i k : ℕ)
    → i ≡ k
    → d ≡ c
    → (i ≤ k) × (k - i < suc (length ds)) × (get_or (d ∷ ds) (k - i) 0 ≡ c)
place_here c d ds i k at e = (omega arith, omega arith, rw (let z : k - i ≡ 0 = omega arith in z) e)

place_later :
    (c d : ℕ) (ds : List ℕ) (i k : ℕ)
    → (i + 1 ≤ k) × (k - (i + 1) < length ds) × (get_or ds (k - (i + 1)) 0 ≡ c)
    → (i ≤ k) × (k - i < suc (length ds)) × (get_or (d ∷ ds) (k - i) 0 ≡ c)
place_later c d ds i k (lo, hi, e) =
    (omega arith, omega arith, rw (let z : k - i ≡ suc (k - (i + 1)) = omega arith in z) e)

find_if_place :
    (c : ℕ) (s : List ℕ) (i k : ℕ)
    → find_if (λ d. d == c) s i ≡ some k
    → (i ≤ k) × (k - i < length s) × (get_or s (k - i) 0 ≡ c)
unfolding find_if
find_if_place c [] i k h = cc
find_if_place c (d ∷ ds) i k h = elim (Bool-cases (d == c)) [
  | inl e ↦ place_here c d ds i k (ground arith) (ground arith)
  | inr e ↦ place_later c d ds i k (find_if_place c ds (i + 1) k (ground arith))
]

find_loop_place :
    (s : List ℕ) (c : ℕ) (text : List ℕ) (i k : ℕ)
    → find_loop s (c ∷ text) i ≡ some k
    → (i ≤ k) × (k - i < length s) × (get_or s (k - i) 0 ≡ c)
unfolding find_loop starts_with
find_loop_place [] c text i k h = cc
find_loop_place (d ∷ ds) c text i k h = elim (Bool-cases (starts_with (d ∷ ds) (c ∷ text))) [
  | inl e ↦ place_here c d ds i k (ground arith) (ground arith)
  | inr e ↦ place_later c d ds i k (find_loop_place ds c text (i + 1) k (ground arith))
]

pub find_char-IsPlace : (s : List ℕ) (c pos k : ℕ) → find_char s c pos ≡ some k → IsPlace s c pos k
find_char-IsPlace s c pos k h =
    let (lo, hi, e) = find_if_place c (drop pos s) pos k h in IsPlace-drop s c pos k lo hi e

pub find-IsPlace :
    (s : List ℕ) (c : ℕ) (text : List ℕ) (pos k : ℕ)
    → find s (c ∷ text) pos ≡ some k
    → IsPlace s c pos k
unfolding find
find-IsPlace s c text pos k h =
    let (lo, hi, e) = find_loop_place (drop pos s) c text pos k (ground arith) in
    IsPlace-drop s c pos k lo hi e
