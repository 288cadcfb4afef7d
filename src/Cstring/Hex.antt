-- ===== src/Cstring/Hex.antt =====
-- `lnk_print_hex` of linker64/src/linker.c.
use muplar.Base.Words.{IsU64, mod_split}
use native.Mathlib.Nat.{mod-lt, one-le-pow}
use muplar.Base.{
  ℕ, zero, suc, ◌+◌, ◌*◌, ◌-◌, ◌<◌, ◌≡◌, refl, ap, ◌∙◌, ◌/◌, ◌%◌, ◌^◌, arith, List, [], ◌∷◌,
}
use muplar.Base.{ltb, if◌then◌else◌, length}

-- The character of `nibble`.
unfoldable pub hex_digit : ℕ → ℕ
hex_digit nibble = if ltb nibble 10 then b'0' + nibble else b'a' + (nibble - 10)

-- `n` rounds of the loop are left, so `i` is 16 - n and the shift is (n - 1) * 4.
unfoldable pub hex_digits : ℕ → ℕ → List ℕ
unfolding hex_digit
hex_digits zero val = []
hex_digits (suc n) val = hex_digit (val / 2 ^ (n * 4) % 16) ∷ hex_digits n val

-- The text that is written: "0x" and sixteen digits.
unfoldable pub print_hex : ℕ → List ℕ
unfolding hex_digits
print_hex val = b'0' ∷ b'x' ∷ hex_digits 16 val

-- A reader of hexadecimal digits, highest first.
unfoldable pub read_digit : ℕ → ℕ
read_digit c = if ltb c b'a' then c - b'0' else c - b'a' + 10

unfoldable pub read_hex : ℕ → List ℕ → ℕ
unfolding read_digit
read_hex acc [] = acc
read_hex acc (c ∷ cs) = read_hex (acc * 16 + read_digit c) cs

read_digit-hex_digit : (d : ℕ) → d < 16 → read_digit (hex_digit d) ≡ d
unfolding read_digit hex_digit
read_digit-hex_digit d h = ground arith

pow_four_suc : (k : ℕ) → 2 ^ suc (suc (suc (suc k))) ≡ 16 * 2 ^ k
pow_four_suc k = omega arith

pow_four : (n : ℕ) → 2 ^ (suc n * 4) ≡ 16 * 2 ^ (n * 4)
pow_four n = ap (λ (k : ℕ). 2 ^ k) (omega arith) ∙ pow_four_suc (n * 4)

-- The digits of the low 4 * n bits.
read_hex-hex_digits :
    (n acc val : ℕ) → read_hex acc (hex_digits n val) ≡ acc * 2 ^ (n * 4) + val % 2 ^ (n * 4)
unfolding read_hex hex_digits
read_hex-hex_digits zero acc val = omega arith
read_hex-hex_digits (suc n) acc val = omega (
  arith,
  read_hex-hex_digits n (acc * 16 + read_digit (hex_digit (val / 2 ^ (n * 4) % 16))) val,
  ap (λ (d : ℕ). d * 2 ^ (n * 4))
      (read_digit-hex_digit (val / 2 ^ (n * 4) % 16) (mod-lt _ (omega arith))),
  mod_split val 16 (2 ^ (n * 4)) (omega arith) (one-le-pow (n * 4) 2 (omega arith)),
  ap (λ (t : ℕ). val % t) (pow_four n),
  ap (λ (t : ℕ). acc * t) (pow_four n),
)

-- What is printed starts with "0x", and its sixteen digits read back give the 64-bit value.
pub read_hex-print_hex :
    (val : ℕ)
    → IsU64 val
    → (ds : List ℕ) × (print_hex val ≡ b'0' ∷ b'x' ∷ ds) × (length ds ≡ 16) × (read_hex 0 ds ≡ val)
unfolding print_hex
read_hex-print_hex val h =
    (hex_digits 16 val, refl, refl, omega (arith, read_hex-hex_digits 16 0 val))
