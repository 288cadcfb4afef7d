-- ===== src/Cstring/Laws.antt =====
-- What the string helpers compute: comparison and length against the list of bytes.
use Prim.Native.Nat.{◌≤◌}
use muplar.Base.{ℕ, zero, suc, ◌+◌, ◌<◌, ◌≡◌, ◌↔◌, refl, arith}
use mathlib.Core.Path.{subst}
use muplar.Base.{List, [], ◌∷◌, some, true, length}
use muplar.Memory.{Memory}
use muplar.Cstring.{IsCstring, NoNul, strlen_loop, strlen, read_string, strcmp_at, strcmp}
use muplar.Cstring.{is_zero, str_eq}

pub strcmp_at→IsCstring :
    (m : Memory) (a : ℕ) (b : List ℕ) → NoNul b → is_zero (strcmp_at m a b) ≡ true → IsCstring m a b
unfolding strcmp_at
strcmp_at→IsCstring m a [] h e = ground arith
strcmp_at→IsCstring m a (c ∷ cs) h e = ground (arith, strcmp_at→IsCstring m (a + 1) cs h.1)

pub IsCstring→strcmp_at :
    (m : Memory) (a : ℕ) (b : List ℕ) → IsCstring m a b → is_zero (strcmp_at m a b) ≡ true
unfolding strcmp_at
IsCstring→strcmp_at m a [] h = ground arith
IsCstring→strcmp_at m a (c ∷ cs) h = ground (arith, IsCstring→strcmp_at m (a + 1) cs h.2)

-- `lnk_strcmp` with a string `b` gives 0 exactly when the string at `a` is `b`.
pub strcmp_at_iff :
    (m : Memory) (a : ℕ) (b : List ℕ)
    → NoNul b
    → (is_zero (strcmp_at m a b) ≡ true) ↔ IsCstring m a b
strcmp_at_iff m a b h = (strcmp_at→IsCstring m a b h, IsCstring→strcmp_at m a b)

pub str_eq_sound : (a b : List ℕ) → NoNul a → NoNul b → str_eq a b ≡ true → a ≡ b
unfolding strcmp
str_eq_sound [] [] ha hb e = refl
str_eq_sound [] (d ∷ ds) ha hb e = absurd (ground arith)
str_eq_sound (c ∷ cs) [] ha hb e = absurd (ground arith)
str_eq_sound (c ∷ cs) (d ∷ ds) ha hb e = ground (arith, str_eq_sound cs ds ha.1 hb.1)

pub str_eq_refl : (a : List ℕ) → NoNul a → str_eq a a ≡ true
unfolding strcmp
str_eq_refl [] h = refl
str_eq_refl (c ∷ cs) h = ground (arith, str_eq_refl cs h.1)

strlen_loop-IsCstring :
    (fuel : ℕ) (m : Memory) (s n : ℕ) (cs : List ℕ)
    → IsCstring m (s + n) cs
    → length cs < fuel
    → strlen_loop fuel m s n ≡ some (n + length cs)
unfolding strlen_loop
strlen_loop-IsCstring zero m s n cs h f = absurd (omega arith)
strlen_loop-IsCstring (suc fuel) m s n [] h f = ground arith
strlen_loop-IsCstring (suc fuel) m s n (c ∷ cs) h f =
    ground (arith, next, strlen_loop-IsCstring fuel m s (n + 1) cs)
  where
    next : IsCstring m (s + (n + 1)) cs
    next = subst (λ (p : ℕ). IsCstring m p cs) (omega arith) h.2

-- `lnk_strlen` finds the length of the string, given more rounds than it has bytes.
pub strlen-length :
    (fuel : ℕ) (m : Memory) (s : ℕ) (cs : List ℕ)
    → IsCstring m s cs
    → length cs < fuel
    → strlen fuel m s ≡ some (length cs)
unfolding strlen
strlen-length fuel m s cs h f = ground (
  arith,
  strlen_loop-IsCstring fuel m s 0 cs (subst (λ (p : ℕ). IsCstring m p cs) (omega arith) h) f,
)

pub read_string-IsCstring :
    (limit : ℕ) (m : Memory) (p : ℕ) (cs : List ℕ)
    → IsCstring m p cs
    → length cs ≤ limit
    → read_string limit m p ≡ cs
unfolding read_string
read_string-IsCstring zero m p [] h f = refl
read_string-IsCstring zero m p (c ∷ cs) h f = absurd (omega arith)
read_string-IsCstring (suc limit) m p [] h f = ground arith
read_string-IsCstring (suc limit) m p (c ∷ cs) h f =
    ground (arith, read_string-IsCstring limit m (p + 1) cs h.2)
