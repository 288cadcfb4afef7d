-- ===== src/Base/Words.antt =====
-- Unsigned machine words as native numbers: every operation wraps as the C types do.
use Prim.Native.Nat.{ℕ, ◌+◌, ◌-◌, ◌*◌, ◌/◌, ◌%◌, ◌^◌, ◌<◌}
use mathlib.Core.Path.{◌≡◌, ap, ◌∙◌}
use native.Mathlib.Nat.{mul-add-mod_self_left, mod-eq_of_lt, mod-lt, div-add-mod}
use native.Mathlib.Omega.{arith}

-- `uint64_t` values and byte values.
abbrev pub IsU64 : ℕ → Type 0
IsU64 v = v < 2 ^ 64

abbrev pub IsU32 : ℕ → Type 0
IsU32 v = v < 2 ^ 32

abbrev pub IsByte : ℕ → Type 0
IsByte b = b < 256

-- `a + b`, `a - b` and the conversion to `uint64_t`.
abbrev pub u64 : ℕ → ℕ
u64 v = v % 2 ^ 64

abbrev pub u32 : ℕ → ℕ
u32 v = v % 2 ^ 32

unfoldable pub add64 : ℕ → ℕ → ℕ
add64 a b = (a + b) % 2 ^ 64

unfoldable pub sub64 : ℕ → ℕ → ℕ
sub64 a b = (a + 2 ^ 64 - b) % 2 ^ 64

pub add64-lt : (a b : ℕ) → add64 a b < 2 ^ 64
unfolding add64
add64-lt a b = omega arith

pub sub64-add64 : (a b : ℕ) → IsU64 a → IsU64 b → sub64 (add64 a b) b ≡ a
unfolding add64 sub64
sub64-add64 a b ha hb = omega arith

digit_bound : (q b P r : ℕ) → q < b → r < P → q * P + r < b * P
digit_bound q b P r hq hr = grind arith

-- The digit above the low part, in base `b`.
pub mod_split : (v b P : ℕ) → 0 < b → 0 < P → v % (b * P) ≡ v / P % b * P + v % P
mod_split v b P hb hP =
    ap (λ (t : ℕ). t % (b * P)) whole
    ∙ mul-add-mod_self_left (b * P) (v / P / b) (v / P % b * P + v % P)
    ∙ mod-eq_of_lt (digit_bound (v / P % b) b P (v % P) (mod-lt _ hb) (mod-lt _ hP))
  where
    whole : v ≡ b * P * (v / P / b) + (v / P % b * P + v % P)
    whole = omega (arith, div-add-mod v P, ap (λ (t : ℕ). t * P) (div-add-mod (v / P) b))
