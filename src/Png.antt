-- ===== src/Png.antt =====
-- The PNG writer of platform/android-aarch64/art-shim/muplar_android_art_shim.c: `struct
-- muplar_byte_buffer`, the checksums, and `muplar_bitmap_to_png`.
pub mod Blocks
use Prim.Native.Nat.{bit_xor}
use muplar.Base.{
  ℕ, zero, suc, ◌+◌, ◌-◌, ◌*◌, ◌/◌, ◌%◌, ◌^◌, List, [], ◌∷◌, ◌++◌, Bool, true, false, ◌||◌, not,
}
use muplar.Base.{◌==◌, ltb, leb, if◌then◌else◌, length, take, drop, get_or, Option, none, some}
use muplar.Base.Text.{codes}

-- The bytes below `len`, the capacity and the flag `ok`.
pub record Buffer : Type 0 where
  pub content : List ℕ
  pub cap : ℕ
  pub ok : Bool

abbrev pub empty_buffer : Buffer
empty_buffer = record { content = []; cap = 0; ok = true }

-- The loop that doubles the capacity; 64 rounds are enough for a size below 2^64.
unfoldable pub next_size : (rounds next needed : ℕ) → ℕ
next_size zero next needed = next
next_size (suc rounds) next needed = elim (ltb next needed) [
  | true ↦ if ltb (2 ^ 63 - 1) next then needed else next_size rounds (next * 2) needed
  | false ↦ next
]

-- `realloc` is an argument: whether it gives a block of a size.
module _ (realloc : ℕ → Bool) where
  unfoldable pub reserve : Buffer → ℕ → Bool × Buffer
  reserve buf extra =
      let needed = length buf.content + extra in
      let next = next_size 64 (if buf.cap == 0 then 4096 else buf.cap) needed in
      if not buf.ok
      then (false, buf)
      else if ltb (2 ^ 64 - 1 - length buf.content) extra
      then (false, record buf { ok = false })
      else if leb needed buf.cap
      then (true, buf)
      else if realloc next
      then (true, record buf { cap = next })
      else (false, record buf { ok = false })

  unfoldable pub append : Buffer → List ℕ → Buffer
  append buf data_bytes =
      let (room, grown) = reserve buf (length data_bytes) in
      if room then record grown { content = grown.content ++ data_bytes } else grown

  unfoldable pub buf_u8 : Buffer → ℕ → Buffer
  buf_u8 buf value = append buf (value % 256 ∷ [])

-- Four bytes, the highest first.
unfoldable pub be32 : ℕ → List ℕ
be32 v = v / 2 ^ 24 % 256 ∷ v / 2 ^ 16 % 256 ∷ v / 2 ^ 8 % 256 ∷ v % 256 ∷ []

abbrev pub not32 : ℕ → ℕ
not32 v = 2 ^ 32 - 1 - v

-- The inner loop, on one byte.
unfoldable pub crc_bits : ℕ → ℕ → ℕ
crc_bits zero crc = crc
crc_bits (suc n) crc = crc_bits n (bit_xor (crc / 2) (if crc % 2 == 1 then 0xedb88320 else 0))

unfoldable pub crc_loop : ℕ → List ℕ → ℕ
crc_loop crc [] = crc
crc_loop crc (b ∷ bs) = crc_loop (crc_bits 8 (bit_xor crc b)) bs

unfoldable pub crc32_update : ℕ → List ℕ → ℕ
crc32_update crc bs = not32 (crc_loop (not32 crc) bs)

unfoldable pub adler_loop : (a b : ℕ) → List ℕ → ℕ × ℕ
adler_loop a b [] = (a, b)
adler_loop a b (c ∷ cs) = let a' = (a + c) % 65521 in adler_loop a' ((b + a') % 65521) cs

-- `(b << 16) | a`, where `a` has 16 bits.
unfoldable pub adler32 : List ℕ → ℕ
adler32 bs = let (a, b) = adler_loop 1 0 bs in b * 2 ^ 16 + a

-- The parts of a chunk, in the order in which they are appended.
abbrev pub chunk_crc : (type bs : List ℕ) → ℕ
chunk_crc type [] = crc32_update 0 type
chunk_crc type (b ∷ bs) = crc32_update (crc32_update 0 type) (b ∷ bs)

module _ (realloc : ℕ → Bool) where
  unfoldable pub png_chunk : Buffer → (type bs : List ℕ) → Buffer
  png_chunk png type bs =
      let typed = append realloc (append realloc png (be32 (length bs % 2 ^ 32))) type in
      let filled = if length bs == 0 then typed else append realloc typed bs in
      append realloc filled (be32 (chunk_crc type bs))

-- `struct muplar_bitmap_state`, as far as the writer reads it; `none` for `pixels` is NULL. A
-- negative width or height is 0: both are refused.
pub record Bitmap : Type 0 where
  pub width : ℕ
  pub height : ℕ
  pub pixels : Option (List ℕ)

unfoldable pub all_same : ℕ → List ℕ → Bool
all_same first [] = true
all_same first (p ∷ ps) = if p == first then all_same first ps else false

unfoldable pub is_uniform : Bitmap → Bool
is_uniform bitmap = elim bitmap.pixels [
  | none ↦ true
  | some pixels ↦ all_same (get_or pixels 0 0) (take (bitmap.width * bitmap.height) pixels)
]

-- A bitmap of one colour is drawn as a pattern.
unfoldable pub sample_pixel : Bitmap → (x y : ℕ) → Bool → ℕ
sample_pixel bitmap x y uniform = elim bitmap.pixels [
  | none ↦ 0xffffffff
  | some pixels ↦
      let color = get_or pixels (y * bitmap.width + x) 0 in
      let tile = (x / 96 + y / 96) % 3 in
      if not uniform
      then color
      else if ltb y 96
      then 0xff263238
      else if ltb bitmap.height (y + 120)
      then 0xff111111
      else if tile == 0
      then 0xff4c8bf5
      else if tile == 1
      then 0xff34a853
      else if color == 0
      then 0xffeeeeee
      else color
]

-- `while (remaining)`, with the bytes that remain: each stored block is whether it is the last one, its
-- length, the complement of that, and its bytes. A round takes one byte at least.
module _ (realloc : ℕ → Bool) where
  -- One block, with the flag and the length that stand before it.
  unfoldable pub put_block : Buffer → (final block : ℕ) → List ℕ → Buffer
  put_block idat final block bs =
      let flag = buf_u8 realloc idat final in
      let low = buf_u8 realloc flag block in
      let high = buf_u8 realloc low (block / 256) in
      let low_not = buf_u8 realloc high (65535 - block) in
      let high_not = buf_u8 realloc low_not ((65535 - block) / 256) in append realloc high_not bs

  unfoldable pub put_blocks : (rounds : ℕ) → Buffer → List ℕ → Buffer
  put_blocks zero idat raw = idat
  put_blocks (suc rounds) idat raw = elim raw [
    | [] ↦ idat
    | b ∷ bs ↦
        if ltb 65535 (length (b ∷ bs))
        then put_blocks rounds (put_block idat 0 65535 (take 65535 (b ∷ bs))) (drop 65535 (b ∷ bs))
        else put_blocks rounds (put_block idat 1 (length (b ∷ bs)) (b ∷ bs)) []
  ]

  -- One row of pixels from column `x` on, with `n` left, and the rows from `y` on.
  unfoldable pub put_row : (n : ℕ) → Bitmap → (x y : ℕ) → Bool → Buffer → Buffer
  put_row zero bitmap x y uniform raw = raw
  put_row (suc n) bitmap x y uniform raw =
      let color = sample_pixel bitmap x y uniform in
      put_row n bitmap (x + 1) y uniform (
        buf_u8 realloc (buf_u8 realloc (buf_u8 realloc raw (color / 2 ^ 16)) (color / 2 ^ 8)) color)

  unfoldable pub put_rows : (n : ℕ) → Bitmap → (y : ℕ) → Bool → Buffer → Buffer
  put_rows zero bitmap y uniform raw = raw
  put_rows (suc n) bitmap y uniform raw =
      put_rows n bitmap (y + 1) uniform
        (put_row bitmap.width bitmap 0 y uniform (buf_u8 realloc raw 0))

  abbrev pub signature : List ℕ
  signature = 0x89 ∷ b'P' ∷ b'N' ∷ b'G' ∷ 13 ∷ 10 ∷ 0x1a ∷ 10 ∷ []

  abbrev pub header : Bitmap → List ℕ
  header bitmap = be32 bitmap.width ++ be32 bitmap.height ++ 8 ∷ 2 ∷ 0 ∷ 0 ∷ 0 ∷ []

  -- The compressed data: the header of the format, the stored blocks, the checksum.
  unfoldable pub put_idat : Buffer → Buffer
  put_idat raw =
      let opened = buf_u8 realloc (buf_u8 realloc empty_buffer 0x78) 0x01 in
      let stored = put_blocks (length raw.content) opened raw.content in
      append realloc stored (be32 (adler32 raw.content))

  -- The answer, and `png`, whose flag is set at the start.
  unfoldable pub bitmap_to_png : Bitmap → Buffer → Bool × Buffer
  bitmap_to_png bitmap png =
      let png_ok : Buffer = record png { ok = true } in
      let row_bytes = bitmap.width * 3 + 1 in
      let (room, raw) = reserve realloc empty_buffer (row_bytes * bitmap.height) in
      let filled = put_rows bitmap.height bitmap 0 (is_uniform bitmap) raw in
      let idat = put_idat filled in
      let signed = append realloc png_ok signature in
      let chunks =
        png_chunk realloc
          (png_chunk realloc (png_chunk realloc signed (codes "IHDR") (header bitmap))
            (codes "IDAT") idat.content)
          (codes "IEND") [] in
      elim bitmap.pixels [
        | none ↦ (false, png)
        | some pixels ↦
            if bitmap.width == 0 || bitmap.height == 0
            then (false, png)
            else if not room
            then (false, png_ok)
            else (chunks.ok, chunks)
      ]
