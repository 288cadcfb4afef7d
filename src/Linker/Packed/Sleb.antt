-- ===== src/Linker/Packed/Sleb.antt =====
-- The SLEB128 decoder against an encoder of signed integers.
use Prim.Native.Nat.{◌≤◌, bit_or}
use native.Mathlib.Nat.{pow-le-pow_right, one-le-pow, mod-eq_of_lt, div-add-mod}
use native.Mathlib.Decide.{dec_le}
use mathlib.Core.Path.{subst}
use muplar.Base.{length}
use muplar.Base.{ℕ, zero, suc, ◌+◌, ◌-◌, ◌*◌, ◌/◌, ◌%◌, ◌^◌, ◌<◌, ◌≡◌, refl, sym, ap, ◌∙◌, arith}
use muplar.Base.{List, [], ◌∷◌, ◌++◌, true, false, ltb, if◌then◌else◌, Bool-cases, inl, inr, ltb→lt}
use muplar.Base.Int.{ℤ, pos, negsuc}
use muplar.Base.Words.{u64}
use muplar.Base.Bits.{bit_or_above}
use muplar.Linker.{ok}
use muplar.Linker.Packed.{payload, continues, sign_bit, extend_sign, sleb_loop, pop_front}

-- The last byte and an inner byte of a number that is not negative, and of one that is.
encode_pos : ℕ → ℕ → List ℕ
encode_pos zero n = n ∷ []
encode_pos (suc k) n =
    let rest = encode_pos k (n / 128) in if ltb n 64 then n ∷ [] else (n % 128 + 128) ∷ rest

encode_neg : ℕ → ℕ → List ℕ
encode_neg zero n = (127 - n) ∷ []
encode_neg (suc k) n =
    let rest = encode_neg k (n / 128) in if ltb n 64 then (127 - n) ∷ [] else (255 - n % 128) ∷ rest

-- The shortest SLEB128 form of a 64-bit signed integer: at most ten bytes.
unfoldable pub encode : ℤ → List ℕ
unfolding encode_pos encode_neg
encode (pos n) = encode_pos 9 n
encode (negsuc n) = encode_neg 9 n

-- The range of `int64_t`, and the bit pattern of a value.
abbrev pub IsI64 : ℤ → Type 0
IsI64 (pos n) = n < 2 ^ 63
IsI64 (negsuc n) = n < 2 ^ 63

abbrev pub pattern64 : ℤ → ℕ
pattern64 (pos n) = n
pattern64 (negsuc n) = 2 ^ 64 - 1 - n

pow_add : (a b : ℕ) → 2 ^ (a + b) ≡ 2 ^ a * 2 ^ b
pow_add zero b = let e : zero + b ≡ b = omega arith in ap (λ (k : ℕ). 2 ^ k) e ∙ omega arith
pow_add (suc a) b =
    let e : suc a + b ≡ suc (a + b) = omega arith in
    ap (λ (k : ℕ). 2 ^ k) e ∙ double (a + b) ∙ grind (arith, pow_add a b, double a)
  where
    double : (k : ℕ) → 2 ^ suc k ≡ 2 * 2 ^ k
    double k = omega arith

-- A shift of at most 63 leaves `2 ^ (63 - s)` values, one of at most 56 another seven bits.
pow_room : (s : ℕ) → s ≤ 63 → 2 ^ (63 - s) * 2 ^ s ≡ 2 ^ 63
pow_room s h =
    let e : 63 - s + s ≡ 63 = omega arith in sym (pow_add (63 - s) s) ∙ ap (λ (k : ℕ). 2 ^ k) e

pow_seven : (s : ℕ) → 2 ^ (s + 7) ≡ 128 * 2 ^ s
pow_seven s = pow_add s 7 ∙ omega arith

room_seven : (s : ℕ) → s ≤ 56 → 2 ^ (63 - s) ≡ 128 * 2 ^ (63 - (s + 7))
room_seven s h =
    let e : 63 - s ≡ 63 - (s + 7) + 7 = omega arith in
    ap (λ (k : ℕ). 2 ^ k) e ∙ pow_seven (63 - (s + 7))

-- Where 64 values or more fit above the shift, another group of seven bits does.
low_shift : (s n : ℕ) → s ≤ 63 → 64 ≤ n → n < 2 ^ (63 - s) → s ≤ 56
low_shift s n h big fits = elim (dec_le s 56) [
  | yes low ↦ low
  | no high ↦
      let two : 0 < 2 = omega arith in
      let few : 63 - s ≤ 6 = omega arith in
      let small : 2 ^ (63 - s) ≤ 2 ^ 6 = pow-le-pow_right two few in absurd (omega arith)
]

-- One payload joins the value.
join :
    (acc p s : ℕ)
    → acc < 2 ^ s
    → p * 2 ^ s < 2 ^ 64
    → bit_or acc (u64 (p * 2 ^ s)) ≡ acc + p * 2 ^ s
join acc p s h fits = ap (bit_or acc) (mod-eq_of_lt fits) ∙ bit_or_above s acc p h

sleb_inner :
    (byte acc s : ℕ) (rest : List ℕ)
    → continues byte ≡ true
    → s ≤ 63
    → sleb_loop (byte ∷ rest) acc s
      ≡ sleb_loop rest (bit_or acc (u64 (payload byte * 2 ^ s))) (s + 7)
unfolding sleb_loop
sleb_inner byte acc s rest c h =
    rw c
      (ap (sleb_loop rest (bit_or acc (u64 (payload byte * 2 ^ s)))) (mod-eq_of_lt (omega arith)))

sleb_last :
    (byte acc s : ℕ) (rest : List ℕ)
    → continues byte ≡ false
    → s ≤ 63
    → sleb_loop (byte ∷ rest) acc s
      ≡ ok (extend_sign byte (bit_or acc (u64 (payload byte * 2 ^ s))) (s + 7), rest)
unfolding sleb_loop
sleb_last byte acc s rest c h = rw c (
    ap (λ (t : ℕ). ok (extend_sign byte (bit_or acc (u64 (payload byte * 2 ^ s))) t, rest))
      (mod-eq_of_lt (omega arith)))

mul_below : (n q P t : ℕ) → q * P ≡ t → 0 < P → n < q → n * P < t
mul_below n q P t e p h = grind arith

positive : (s : ℕ) → 0 < 2 ^ s
positive s = one-le-pow s 2 (omega arith)

-- The last byte of a number that is not negative.
extend_plus : (byte v s : ℕ) → byte < 64 → extend_sign byte v s ≡ v
unfolding extend_sign
extend_plus byte v s h = ground arith

last_pos :
    (n acc s : ℕ) (rest : List ℕ)
    → n < 64
    → s ≤ 63
    → acc < 2 ^ s
    → n < 2 ^ (63 - s)
    → sleb_loop (n ∷ rest) acc s ≡ ok (acc + n * 2 ^ s, rest)
last_pos n acc s rest small h a fits =
    let below : n * 2 ^ s < 2 ^ 63 =
      mul_below n (2 ^ (63 - s)) (2 ^ s) (2 ^ 63) (pow_room s h) (positive s) fits in
    let low : n % 128 ≡ n = omega arith in
    sleb_last n acc s rest (ground arith) h
    ∙ rw (low, join acc n s a (omega arith), extend_plus n (acc + n * 2 ^ s) (s + 7) small) refl

group_bound : (p acc P : ℕ) → p < 128 → acc < P → acc + p * P < 128 * P
group_bound p acc P hp ha = grind arith

-- A group of seven bits below the last one, for either sign.
inner_group :
    (p acc s : ℕ) (rest : List ℕ)
    → p < 128
    → s ≤ 56
    → acc < 2 ^ s
    → (sleb_loop ((p + 128) ∷ rest) acc s ≡ sleb_loop rest (acc + p * 2 ^ s) (s + 7))
      × (acc + p * 2 ^ s < 2 ^ (s + 7))
inner_group p acc s rest small h a =
    let bound = group_bound p acc (2 ^ s) small a in
    let room : 2 ^ (63 - (s + 7)) * 2 ^ (s + 7) ≡ 2 ^ 63 = pow_room (s + 7) (omega arith) in
    let fits : p * 2 ^ s < 2 ^ 64 = grind (arith, pow_seven s, positive (63 - (s + 7))) in
    let low : (p + 128) % 128 ≡ p = omega arith in
    (
      sleb_inner (p + 128) acc s rest (ground arith) (omega arith)
          ∙ rw (low, join acc p s a fits) refl,
      rw (pow_seven s) bound,
    )

-- The two parts of a number, above a shift.
regroup : (n s : ℕ) → n % 128 * 2 ^ s + n / 128 * 2 ^ (s + 7) ≡ n * 2 ^ s
regroup n s = omega (
  arith,
  ap (λ (t : ℕ). t * 2 ^ s) (div-add-mod n 128),
  ap (λ (t : ℕ). n / 128 * t) (pow_seven s),
)

decode_pos :
    (k n acc s : ℕ) (rest : List ℕ)
    → s ≤ 63
    → 63 ≤ s + 7 * k
    → acc < 2 ^ s
    → n < 2 ^ (63 - s)
    → sleb_loop (encode_pos k n ++ rest) acc s ≡ ok (acc + n * 2 ^ s, rest)
unfolding encode_pos
decode_pos zero n acc s rest h f a fits =
    let top : s ≡ 63 = omega arith in
    let one : n < 2 ^ (63 - 63) = subst (λ (t : ℕ). n < 2 ^ (63 - t)) top fits in
    last_pos n acc s rest (omega arith) h a fits
decode_pos (suc k) n acc s rest h f a fits = elim (Bool-cases (ltb n 64)) [
  | inl small ↦ rw small (last_pos n acc s rest (ltb→lt n 64 small) h a fits)
  | inr big ↦
      let low : s ≤ 56 = low_shift s n h (ground arith) fits in
      let step = inner_group (n % 128) acc s (encode_pos k (n / 128) ++ rest) (omega arith) low a in
      rw (big, step.0)
        (decode_pos k (n / 128) (acc + n % 128 * 2 ^ s) (s + 7) rest (omega arith) (omega arith)
            step.1 (omega (arith, room_seven s low))
          ∙ ap (λ (t : ℕ). ok (t, rest)) (omega (arith, regroup n s)))
]

-- The bits from `s` on are the sum of the powers of two there.
ones_above : (s : ℕ) → s ≤ 63 → (2 * 2 ^ (63 - s) - 1) * 2 ^ s ≡ 2 ^ 64 - 2 ^ s
ones_above s h =
    let one_more : 2 * 2 ^ (63 - s) ≡ 2 * 2 ^ (63 - s) - 1 + 1 = omega (arith, positive (63 - s)) in
    omega (arith, pow_room s h, ap (λ (t : ℕ). t * 2 ^ s) one_more)

extend_minus :
    (byte v s : ℕ)
    → sign_bit byte ≡ true
    → s ≤ 63
    → v < 2 ^ s
    → extend_sign byte v s ≡ v + (2 ^ 64 - 2 ^ s)
unfolding extend_sign
extend_minus byte v s minus h fits =
    let inside : ltb s 64 ≡ true = ground arith in
    rw (inside, minus, ← ones_above s h) (bit_or_above s v (2 * 2 ^ (63 - s) - 1) fits)

-- The last byte of a negative number: the sign fills the bits above it.
last_neg :
    (n acc s : ℕ) (rest : List ℕ)
    → n < 64
    → s ≤ 56
    → acc < 2 ^ s
    → sleb_loop ((127 - n) ∷ rest) acc s ≡ ok (acc + 2 ^ 64 - (n + 1) * 2 ^ s, rest)
last_neg n acc s rest small h a =
    let low : (127 - n) % 128 ≡ 127 - n = omega arith in
    let few : 127 - n < 128 = omega arith in
    let bound = group_bound (127 - n) acc (2 ^ s) few a in
    let room : 2 ^ (63 - (s + 7)) * 2 ^ (s + 7) ≡ 2 ^ 63 = pow_room (s + 7) (omega arith) in
    let fits : 128 * 2 ^ s < 2 ^ 64 = grind (arith, pow_seven s, positive (63 - (s + 7))) in
    let below : acc + (127 - n) * 2 ^ s < 2 ^ (s + 7) = rw (pow_seven s) bound in
    let parts : 127 - n + (n + 1) ≡ 128 = omega arith in
    let whole : (127 - n) * 2 ^ s + (n + 1) * 2 ^ s ≡ 128 * 2 ^ s =
      omega (arith, ap (λ (t : ℕ). t * 2 ^ s) parts) in
    sleb_last (127 - n) acc s rest (ground arith) (omega arith)
    ∙ rw
        (
          low,
          join acc (127 - n) s a (omega arith),
          extend_minus (127 - n) (acc + (127 - n) * 2 ^ s) (s + 7) (ground arith) (omega arith)
              below,
        )
        (ap (λ (t : ℕ). ok (t, rest)) (omega (arith, pow_seven s)))

-- At a shift of 63 the one bit that is left is the sign.
last_neg_top :
    (acc : ℕ) (rest : List ℕ)
    → acc < 2 ^ 63
    → sleb_loop (127 ∷ rest) acc 63 ≡ ok (acc + 2 ^ 64 - 1 * 2 ^ 63, rest)
unfolding extend_sign
last_neg_top acc rest a =
    sleb_last 127 acc 63 rest refl (omega arith)
    ∙ ap (λ (t : ℕ). ok (t, rest)) (bit_or_above 63 acc 1 a ∙ omega arith)

-- The last byte at any shift that a decoder reaches.
last_neg_any :
    (n acc s j : ℕ) (rest : List ℕ)
    → s ≡ 7 * j
    → s ≤ 63
    → n < 64
    → acc < 2 ^ s
    → n < 2 ^ (63 - s)
    → sleb_loop ((127 - n) ∷ rest) acc s ≡ ok (acc + 2 ^ 64 - (n + 1) * 2 ^ s, rest)
last_neg_any n acc s j rest e h small a fits = elim (dec_le s 56) [
  | yes low ↦ last_neg n acc s rest small low a
  | no high ↦
      let top : s ≡ 63 = omega arith in
      let one : n < 2 ^ (63 - 63) = subst (λ (t : ℕ). n < 2 ^ (63 - t)) top fits in
      let none_left : n ≡ 0 = omega arith in
      rw (none_left, top) (last_neg_top acc rest (subst (λ (t : ℕ). acc < 2 ^ t) top a))
]

shift_bound : (s : ℕ) → s ≤ 63 → 2 ^ s ≤ 2 ^ 63
shift_bound s h = let two : 0 < 2 = omega arith in pow-le-pow_right two h

regroup_neg :
    (n acc s : ℕ)
    → (n + 1) * 2 ^ s ≤ 2 ^ 64
    → acc + (127 - n % 128) * 2 ^ s + 2 ^ 64 - (n / 128 + 1) * 2 ^ (s + 7)
      ≡ acc + 2 ^ 64 - (n + 1) * 2 ^ s
regroup_neg n acc s fits =
    let parts : 127 - n % 128 + (n % 128 + 1) ≡ 128 = omega arith in
    omega (arith, regroup n s, pow_seven s, ap (λ (t : ℕ). t * 2 ^ s) parts)

decode_neg :
    (k n acc s j : ℕ) (rest : List ℕ)
    → s ≡ 7 * j
    → s ≤ 63
    → 63 ≤ s + 7 * k
    → acc < 2 ^ s
    → n < 2 ^ (63 - s)
    → sleb_loop (encode_neg k n ++ rest) acc s ≡ ok (acc + 2 ^ 64 - (n + 1) * 2 ^ s, rest)
unfolding encode_neg
decode_neg zero n acc s j rest e h f a fits =
    let top : s ≡ 63 = omega arith in
    let one : n < 2 ^ (63 - 63) = subst (λ (t : ℕ). n < 2 ^ (63 - t)) top fits in
    last_neg_any n acc s j rest e h (omega arith) a fits
decode_neg (suc k) n acc s j rest e h f a fits = elim (Bool-cases (ltb n 64)) [
  | inl small ↦ rw small (last_neg_any n acc s j rest e h (ltb→lt n 64 small) a fits)
  | inr big ↦
      let low : s ≤ 56 = low_shift s n h (ground arith) fits in
      let byte : 255 - n % 128 ≡ 127 - n % 128 + 128 = omega arith in
      let step =
        inner_group (127 - n % 128) acc s (encode_neg k (n / 128) ++ rest) (omega arith) low a in
      let below : n * 2 ^ s < 2 ^ 63 =
        mul_below n (2 ^ (63 - s)) (2 ^ s) (2 ^ 63) (pow_room s h) (positive s) fits in
      let whole : (n + 1) * 2 ^ s ≤ 2 ^ 64 = omega (arith, shift_bound s h) in
      rw (big, byte, step.0)
        (decode_neg k (n / 128) (acc + (127 - n % 128) * 2 ^ s) (s + 7) (j + 1) rest (omega arith)
            (omega arith) (omega arith) step.1 (omega (arith, room_seven s low))
          ∙ ap (λ (t : ℕ). ok (t, rest)) (regroup_neg n acc s whole))
]

encode_pos-length : (k n : ℕ) → 0 < length (encode_pos k n)
unfolding encode_pos
encode_pos-length zero n = omega arith
encode_pos-length (suc k) n = ground arith

encode_neg-length : (k n : ℕ) → 0 < length (encode_neg k n)
unfolding encode_neg
encode_neg-length zero n = omega arith
encode_neg-length (suc k) n = ground arith

-- A number takes a byte or more.
pub length-encode : (v : ℤ) → 0 < length (encode v)
unfolding encode
length-encode (pos n) = encode_pos-length 9 n
length-encode (negsuc n) = encode_neg-length 9 n

-- The decoder reads back every 64-bit signed integer that was encoded, as its bit pattern, and
-- leaves the bytes that follow.
pub pop_front-encode :
    (z : ℤ) (rest : List ℕ) → IsI64 z → pop_front (encode z ++ rest) ≡ ok (pattern64 z, rest)
unfolding pop_front encode
pop_front-encode (pos n) rest h =
    decode_pos 9 n 0 0 rest (omega arith) (omega arith) (omega arith) h
    ∙ ap (λ (t : ℕ). ok (t, rest)) (omega arith)
pop_front-encode (negsuc n) rest h =
    decode_neg 9 n 0 0 0 rest (omega arith) (omega arith) (omega arith) (omega arith) h
    ∙ ap (λ (t : ℕ). ok (t, rest)) (omega arith)
