-- ===== src/Png/Blocks.antt =====
-- The stored blocks that the PNG writer makes give the data back.
use Prim.Native.Nat.{◌≤◌}
use mathlib.Core.List.{append_assoc, append-nil}
use muplar.Base.{
  ℕ, zero, suc, ◌+◌, ◌-◌, ◌*◌, ◌/◌, ◌%◌, ◌^◌, ◌<◌, ◌≡◌, refl, sym, ap, ◌∙◌, arith, List, [], ◌∷◌,
  ◌++◌,
}
use muplar.Base.{
  Bool, true, false, not, ◌==◌, ltb, leb, if◌then◌else◌, length, take, drop, length-append,
  length-take, length-drop, take-append-drop,
}
use muplar.Base.{Bool-cases, inl, inr, Option, none, some, ltb→lt}
use muplar.Png.{Buffer, reserve, append, buf_u8, put_block, put_blocks, next_size}

-- The bytes of one block.
abbrev pub block_bytes : (final block : ℕ) → List ℕ → List ℕ
block_bytes final block bs =
    final % 256
    ∷ block % 256
    ∷ block / 256 % 256
    ∷ (65535 - block) % 256
    ∷ (65535 - block) / 256 % 256
    ∷ bs

-- All the blocks of the data.
unfoldable pub blocks : (rounds : ℕ) → List ℕ → List ℕ
blocks zero raw = []
blocks (suc rounds) raw = elim raw [
  | [] ↦ []
  | b ∷ bs ↦
      if ltb 65535 (length (b ∷ bs))
      then block_bytes 0 65535 (take 65535 (b ∷ bs)) ++ blocks rounds (drop 65535 (b ∷ bs))
      else block_bytes 1 (length (b ∷ bs)) (b ∷ bs) ++ blocks rounds []
]

module _ (realloc : ℕ → Bool) (all : (size : ℕ) → realloc size ≡ true) where
  -- With an allocator that never refuses, an append puts the bytes behind the others.
  append_lem :
      (buf : Buffer) (bs : List ℕ)
      → buf.ok ≡ true
      → length buf.content + length bs < 2 ^ 64
      → ((append realloc buf bs).content ≡ buf.content ++ bs) × ((append realloc buf bs).ok ≡ true)
  unfolding append reserve
  append_lem buf bs e small =
      let room : ltb (2 ^ 64 - 1 - length buf.content) (length bs) ≡ false = ground arith in
      elim (Bool-cases (leb (length buf.content + length bs) buf.cap)) [
        | inl fits ↦ rw (e, room, fits, append) (refl, refl)
        | inr more ↦
            rw
              (
                e,
                room,
                more,
                all (
                    next_size 64 (if buf.cap == 0 then 4096 else buf.cap)
                      (length buf.content + length bs)),
                append,
              )
              (refl, refl)
      ]

  -- Behind a buffer that is fine, `k` steps have put `bs`.
  record Adds (buf buf' : Buffer) (bs : List ℕ) : Type 0 where
    same_ok : buf'.ok ≡ true
    content_lem : buf'.content ≡ buf.content ++ bs

  append-Adds :
      (buf : Buffer) (bs : List ℕ)
      → buf.ok ≡ true
      → length buf.content + length bs < 2 ^ 64
      → Adds buf (append realloc buf bs) bs
  append-Adds buf bs e small =
      let a = append_lem buf bs e small in record { same_ok = a.1; content_lem = a.0 }

  Adds-trans : (a b c : Buffer) (bs cs : List ℕ) → Adds a b bs → Adds b c cs → Adds a c (bs ++ cs)
  Adds-trans a b c bs cs h k = record {
    same_ok = k.same_ok;
    content_lem =
        k.content_lem ∙ ap (λ (l : List ℕ). l ++ cs) h.content_lem ∙ append_assoc a.content bs cs;
  }

  -- An append behind others.
  then_append :
      (a b : Buffer) (bs cs : List ℕ)
      → Adds a b bs
      → length a.content + length bs + length cs < 2 ^ 64
      → Adds a (append realloc b cs) (bs ++ cs)
  then_append a b bs cs h small =
      let count = length-append a.content bs in
      let same = ap (λ (l : List ℕ). length l) h.content_lem in
      Adds-trans a b (append realloc b cs) bs cs h
        (append-Adds b cs h.same_ok (omega (arith, same, count)))

  put_block-Adds :
      (idat : Buffer) (final block : ℕ) (bs : List ℕ)
      → idat.ok ≡ true
      → length idat.content + 5 + length bs < 2 ^ 64
      → Adds idat (put_block realloc idat final block bs) (block_bytes final block bs)
  unfolding put_block buf_u8
  put_block-Adds idat final block bs e small =
      let one = append-Adds idat (final % 256 ∷ []) e (omega arith) in
      let two = then_append idat _ _ (block % 256 ∷ []) one (omega arith) in
      let three = then_append idat _ _ (block / 256 % 256 ∷ []) two (omega arith) in
      let four = then_append idat _ _ ((65535 - block) % 256 ∷ []) three (omega arith) in
      let five = then_append idat _ _ ((65535 - block) / 256 % 256 ∷ []) four (omega arith) in
      then_append idat _ _ bs five (omega arith)

  put_blocks-Adds :
      (rounds : ℕ) (idat : Buffer) (raw : List ℕ)
      → idat.ok ≡ true
      → length idat.content + 6 * length raw < 2 ^ 64
      → Adds idat (put_blocks realloc rounds idat raw) (blocks rounds raw)
  unfolding put_blocks blocks
  put_blocks-Adds zero idat raw e small = record {
    same_ok = e;
    content_lem = sym (append-nil idat.content);
  }
  put_blocks-Adds (suc rounds) idat [] e small = record {
    same_ok = e;
    content_lem = sym (append-nil idat.content);
  }
  put_blocks-Adds (suc rounds) idat (b ∷ bs) e small =
      elim (Bool-cases (ltb 65535 (length (b ∷ bs)))) [
        | inl more ↦
            let raw = b ∷ bs in
            let taken = length-take 65535 raw in
            let left = length-drop 65535 raw in
            let here = put_block-Adds idat 0 65535 (take 65535 raw) e (omega (arith, taken)) in
            let next = put_block realloc idat 0 65535 (take 65535 raw) in
            let long : 65535 < length raw = ltb→lt 65535 (length raw) more in
            let size = ap (λ (l : List ℕ). length l) here.content_lem in
            let total = length-append idat.content (block_bytes 0 65535 (take 65535 raw)) in
            rw (more, put_blocks)
              (Adds-trans idat next _ _ _ here (
                put_blocks-Adds rounds next (drop 65535 raw) here.same_ok
                  (omega (arith, size, total, taken, left))))
        | inr last ↦
            let raw = b ∷ bs in
            let here = put_block-Adds idat 1 (length raw) raw e (omega arith) in
            let next = put_block realloc idat 1 (length raw) raw in
            let size = ap (λ (l : List ℕ). length l) here.content_lem in
            let total = length-append idat.content (block_bytes 1 (length raw) raw) in
            rw (last, put_blocks)
              (Adds-trans idat next _ _ _ here
                (put_blocks-Adds rounds next [] here.same_ok (omega (arith, size, total))))
      ]

-- The format of RFC 1951, as far as its stored blocks go. In the first byte the lowest bit tells the
-- last block and the next two the type of the block, which is 0; the rest of the byte is passed over.
-- The length follows, with its complement, and then the bytes. Another type, a wrong complement and a
-- block that is too short are refused.
abbrev pub join : List ℕ → Option (List ℕ) → Option (List ℕ)
join bs none = none
join bs (some cs) = some (bs ++ cs)

unfoldable pub inflate_stored : (rounds : ℕ) → List ℕ → Option (List ℕ)
inflate_stored (suc rounds) (header ∷ low ∷ high ∷ low_not ∷ high_not ∷ rest) =
    let len = low + 256 * high in
    let more = inflate_stored rounds (drop len rest) in
    if not (header / 2 % 4 == 0)
    then none
    else if not (len + (low_not + 256 * high_not) == 65535)
    then none
    else if ltb (length rest) len
    then none
    else if header % 2 == 1
    then some (take len rest)
    else join (take len rest) more
inflate_stored rounds bs = none

take_front : (xs ys : List ℕ) → take (length xs) (xs ++ ys) ≡ xs
take_front [] ys = refl
take_front (x ∷ xs) ys = ap (λ (l : List ℕ). x ∷ l) (take_front xs ys)

drop_front : (xs ys : List ℕ) → drop (length xs) (xs ++ ys) ≡ ys
drop_front [] ys = refl
drop_front (x ∷ xs) ys = drop_front xs ys

-- What a reader makes of a block and what follows it.
inflate_block :
    (rounds final len : ℕ) (bs rest : List ℕ)
    → final < 2
    → len ≡ length bs
    → len ≤ 65535
    → inflate_stored (suc rounds) (block_bytes final len bs ++ rest)
      ≡ (if final == 1 then some bs else join bs (inflate_stored rounds rest))
unfolding inflate_stored
inflate_block rounds final len bs rest flag e small =
    let stored : (final % 256 / 2 % 4 == 0) ≡ true = ground arith in
    let last : final % 256 % 2 ≡ final = omega arith in
    let size : len % 256 + 256 * (len / 256 % 256) ≡ length bs = omega (arith, e) in
    let complement : (length bs + ((65535 - len) % 256 + 256 * ((65535 - len) / 256 % 256))
          == 65535)
        ≡ true =
      ground (arith, e) in
    let total = length-append bs rest in
    let enough : ltb (length (bs ++ rest)) (length bs) ≡ false = ground (arith, total) in
    rw (stored, size, complement, enough, last, take_front bs rest, drop_front bs rest) refl

not_lt : (n : ℕ) → ltb 65535 n ≡ false → n ≤ 65535
not_lt n e = ground arith

inflate-blocks :
    (rounds : ℕ) (raw : List ℕ)
    → length raw ≤ rounds
    → 0 < length raw
    → inflate_stored rounds (blocks rounds raw) ≡ some raw
unfolding blocks
inflate-blocks rounds [] h some_bytes = absurd (omega (arith, some_bytes))
inflate-blocks zero (b ∷ bs) h some_bytes = absurd (omega (arith, h))
inflate-blocks (suc rounds) (b ∷ bs) h some_bytes =
    elim (Bool-cases (ltb 65535 (length (b ∷ bs)))) [
      | inl more ↦
          let raw = b ∷ bs in
          let long : 65535 < length raw = ltb→lt 65535 (length raw) more in
          let taken = length-take 65535 raw in
          let left = length-drop 65535 raw in
          rw (more, blocks)
            (inflate_block rounds 0 65535 (take 65535 raw) (blocks rounds (drop 65535 raw))
                (omega arith) (omega (arith, taken)) (omega arith)
              ∙ ap (join (take 65535 raw)) (
                  inflate-blocks rounds (drop 65535 raw) (omega (arith, left))
                    (omega (arith, left)))
              ∙ ap some (take-append-drop 65535 raw))
      | inr last ↦
          let raw = b ∷ bs in
          let short : length raw ≤ 65535 = not_lt (length raw) last in
          rw (last, blocks)
            (inflate_block rounds 1 (length raw) raw (blocks rounds []) (omega arith) refl short)
    ]

-- With an allocator that never refuses, and sizes that stay in 64 bits, the loop of
-- `muplar_bitmap_to_png` over data that is not empty puts behind a buffer that is fine stored blocks
-- from which a reader of the format takes the data.
pub put_blocks-inflate :
    (realloc : ℕ → Bool) (idat : Buffer) (raw : List ℕ)
    → ((size : ℕ) → realloc size ≡ true)
    → idat.ok ≡ true
    → length idat.content + 6 * length raw < 2 ^ 64
    → 0 < length raw
    → (bs : List ℕ) × ((put_blocks realloc (length raw) idat raw).content ≡ idat.content ++ bs)
      × (inflate_stored (length raw) bs ≡ some raw)
put_blocks-inflate realloc idat raw all e small some_bytes = (
  blocks (length raw) raw,
  (put_blocks-Adds realloc all (length raw) idat raw e small).content_lem,
  inflate-blocks (length raw) raw (omega arith) some_bytes,
)
