-- ===== src/Cstring.antt =====
-- The freestanding string helpers of linker64/src/linker.c. A C string that is an argument is the
-- list of its bytes before the NUL; one in memory is an address.
pub mod Laws
pub mod Copy
pub mod Hex
use Prim.Native.Nat.{◌≤◌, ◌<◌}
use muplar.Base.{
  ℕ, zero, suc, ◌+◌, ◌-◌, ◌*◌, ◌/◌, ◌%◌, ◌^◌, ◌≡◌, ◌≢◌, List, [], ◌∷◌, ◌++◌, Option, none, some,
}
use muplar.Base.{Bool, true, false, ◌&&◌, ◌||◌, not, ◌==◌, ltb, if◌then◌else◌, drop}
use muplar.Base.Int.{ℤ, pos, negsuc, sub_ℕ}
use muplar.Memory.{Memory, store}

-- The string `cs` stands at `p`: its bytes, none of them NUL, and the NUL.
abbrev pub IsCstring : Memory → ℕ → List ℕ → Type 0
IsCstring m p [] = m p ≡ 0
IsCstring m p (c ∷ cs) = (m p ≡ c) × (c ≢ 0) × IsCstring m (p + 1) cs

-- No byte of a C string is NUL.
abbrev pub NoNul : List ℕ → Type 0
NoNul [] = Unit {0}
NoNul (c ∷ cs) = (c ≢ 0) × NoNul cs

-- `while (s[n]) n++`, on fuel: `none` when the fuel ran out.
unfoldable pub strlen_loop : ℕ → Memory → ℕ → ℕ → Option ℕ
strlen_loop zero m s n = none
strlen_loop (suc fuel) m s n =
    let rest = strlen_loop fuel m s (n + 1) in if m (s + n) == 0 then some n else rest

unfoldable pub strlen : ℕ → Memory → ℕ → Option ℕ
unfolding strlen_loop
strlen fuel m s = strlen_loop fuel m s 0

-- The bytes of the C string at `p`, of at most `limit` bytes.
unfoldable pub read_string : ℕ → Memory → ℕ → List ℕ
read_string zero m p = []
read_string (suc limit) m p =
    let rest = read_string limit m (p + 1) in if m p == 0 then [] else m p ∷ rest

-- `lnk_strcmp(a, b)` with the string in memory at `a` and `b` the second string. At the NUL of `b`
-- the loop stops whatever `*a` is.
unfoldable pub strcmp_at : Memory → ℕ → List ℕ → ℤ
strcmp_at m a [] = pos (m a)
strcmp_at m a (c ∷ cs) =
    let rest = strcmp_at m (a + 1) cs in
    if not (m a == 0) && (m a == c) then rest else sub_ℕ (m a) c

-- `lnk_strcmp` on two strings held as lists.
unfoldable pub strcmp : List ℕ → List ℕ → ℤ
strcmp [] [] = pos 0
strcmp [] (d ∷ ds) = sub_ℕ 0 d
strcmp (c ∷ cs) [] = pos c
strcmp (c ∷ cs) (d ∷ ds) =
    let rest = strcmp cs ds in if not (c == 0) && (c == d) then rest else sub_ℕ c d

-- `… == 0`
abbrev pub is_zero : ℤ → Bool
is_zero (pos n) = n == 0
is_zero (negsuc n) = false

abbrev pub str_eq : List ℕ → List ℕ → Bool
str_eq a b = is_zero (strcmp a b)

-- `while ((*d++ = *s++))`, with rounds left; `none` when they ran out. A byte is read after the ones
-- before it were written.
unfoldable pub strcpy : (limit : ℕ) → Memory → (d s : ℕ) → Option Memory
strcpy zero m d s = none
strcpy (suc limit) m d s =
    let m' = store m d (m s ∷ []) in
    let rest = strcpy limit m' (d + 1) (s + 1) in if m s == 0 then some m' else rest

-- Finds the NUL of the string at `d`, then copies the string at `s` there.
unfoldable pub strcat : (limit : ℕ) → Memory → (d s : ℕ) → Option Memory
unfolding strlen
strcat limit m d s = elim (strlen limit m d) [ none ↦ none | some n ↦ strcpy limit m (d + n) s ]

-- `n` copies of the byte `c`, from `s` on.
unfoldable pub memset : Memory → ℕ → ℕ → ℕ → Memory
memset m s c zero = m
memset m s c (suc n) = memset (store m s ((c % 256) ∷ [])) (s + 1) c n

-- The two loops that find what follows the last '/': `path` is what `p` has not passed, and `slash`
-- is what the result pointer stands at.
unfoldable pub basename_loop : (slash path : List ℕ) → List ℕ
basename_loop slash [] = slash
basename_loop slash (c ∷ path) = basename_loop (if c == b'/' then path else slash) path

-- `lnk_basename`, and `get_basename`, which is the same loop.
unfoldable pub basename : List ℕ → List ℕ
unfolding basename_loop
basename path = basename_loop path path
