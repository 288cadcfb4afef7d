-- ===== src/Apk/Axml.antt =====
-- The string pools of platform/android-aarch64/apk/apk_envelope.cpp. The memory that
-- `std::string::reserve` asks for is taken to be there.
pub mod Safe
use muplar.Base.{ℕ, zero, suc, ◌+◌, ◌*◌, ◌/◌, ◌%◌, ◌^◌, List, [], ◌∷◌, Option, none, some}
use muplar.Base.{Bool, true, false, not, ◌||◌, ◌==◌, ltb, leb, if◌then◌else◌, length}
use muplar.Apk.{
  Result, ok, throws, ◌>>=◌, ◌>>◌, throw_if, attempt, index, slice, read_u16, read_u32,
}
use muplar.Apk.{axml_length, axml_text}
use muplar.Apk.Chunks.{Chunk, Next, continue, return_with, chunk_loop, enough, first_chunk}

-- `read_len` of `utf8_length_string`: the number, and the position behind it.
unfoldable pub read_len8 : List ℕ → (pos : ℕ) → Result (ℕ × ℕ)
read_len8 bytes pos = do
  throw_if (leb (length bytes) pos) axml_length
  first ← index bytes pos
  if first / 128 % 2 == 0 then ok (first, pos + 1) else (do
    throw_if (leb (length bytes) (pos + 1)) axml_length
    second ← index bytes (pos + 1)
    ok (first % 128 * 256 + second, pos + 2))

unfoldable pub utf8_length_string : List ℕ → (off : ℕ) → Result (List ℕ)
utf8_length_string bytes off = do
  skipped ← read_len8 bytes off
  len ← read_len8 bytes skipped.1
  throw_if (ltb (length bytes) (len.1 + len.0)) axml_text
  slice bytes len.1 len.0

-- `read_len` of `utf16_length_string`
unfoldable pub read_len16 : List ℕ → (pos : ℕ) → Result (ℕ × ℕ)
read_len16 bytes pos = do
  first ← read_u16 bytes pos
  if first / 2 ^ 15 % 2 == 0
      then ok (first, pos + 2)
      else (read_u16 bytes (pos + 2) >>= λ second. ok (first % 2 ^ 15 * 2 ^ 16 + second, pos + 4))

unfoldable pub utf16_loop : (len : ℕ) → List ℕ → (pos : ℕ) → Result (List ℕ)
utf16_loop zero bytes pos = ok []
utf16_loop (suc n) bytes pos = do
  ch ← read_u16 bytes pos
  out ← utf16_loop n bytes (pos + 2)
  ok ((if ltb ch 0x80 then ch else b'?') ∷ out)

unfoldable pub utf16_length_string : List ℕ → (off : ℕ) → Result (List ℕ)
utf16_length_string bytes off = do len ← read_len16 bytes off; utf16_loop len.0 bytes len.1

abbrev pub res_string_pool_type : ℕ
res_string_pool_type = 0x0001

-- The header of a string pool.
pub record Pool : Type 0 where
  pub off : ℕ
  pub header_size : ℕ
  pub chunk_size : ℕ
  pub string_count : ℕ
  pub strings_start : ℕ
  pub utf8 : Bool

unfoldable pub pool_at : List ℕ → (off header_size chunk_size : ℕ) → Result Pool
pool_at bytes off header_size chunk_size = do
  string_count ← read_u32 bytes (off + 8)
  flags ← read_u32 bytes (off + 16)
  strings_start ← read_u32 bytes (off + 20)
  ok (record {
    off = off;
    header_size = header_size;
    chunk_size = chunk_size;
    string_count = string_count;
    strings_start = strings_start;
    utf8 = not (flags / 256 % 2 == 0);
  })

-- The string of index `i`, and `none` if it begins behind the chunk.
unfoldable pub pool_string : List ℕ → Pool → (i : ℕ) → Result (Option (List ℕ))
pool_string bytes pool i = do
  string_off ← read_u32 bytes (pool.off + pool.header_size + i * 4 % 2 ^ 32)
  let string_pos = pool.off + pool.strings_start + string_off
  if leb (pool.off + pool.chunk_size) string_pos
      then ok none
      else (attempt [] (
            if pool.utf8
            then utf8_length_string bytes string_pos
            else utf16_length_string bytes string_pos)
          >>= λ s. ok (some s))

abbrev pub push_found : Option (List ℕ) → List (List ℕ) → List (List ℕ)
push_found none strings = strings
push_found (some s) strings = s ∷ strings

abbrev pub push_always : Option (List ℕ) → List (List ℕ) → List (List ℕ)
push_always none strings = [] ∷ strings
push_always (some s) strings = s ∷ strings

-- The strings from index `i` on, where `push` says what becomes of one that begins behind the chunk.
unfoldable pub pool_loop :
    (push : Option (List ℕ) → List (List ℕ) → List (List ℕ)) (count : ℕ) (bytes : List ℕ)
    (pool : Pool) (i : ℕ)
    → Result (List (List ℕ))
pool_loop push zero bytes pool i = ok []
pool_loop push (suc n) bytes pool i = do
  s ← pool_string bytes pool i
  strings ← pool_loop push n bytes pool (i + 1)
  ok (push s strings)

-- The test of `axml_string_pool` is on 32-bit numbers.
unfoldable pub axml_pool_visit :
    List ℕ → Chunk → Unit {0} → Result (Next (Unit {0}) (List (List ℕ)))
axml_pool_visit bytes c u = if not (c.type == res_string_pool_type) then ok (continue tt) else (do
  pool ← pool_at bytes c.off c.header_size c.size
  if ltb c.size ((c.header_size + pool.string_count * 4) % 2 ^ 32) || leb c.size pool.strings_start
      then ok (return_with [])
      else (pool_loop push_found pool.string_count bytes pool 0 >>= λ strings.
          ok (return_with strings)))

abbrev pub returned_strings : Next (Unit {0}) (List (List ℕ)) → List (List ℕ)
returned_strings (continue u) = []
returned_strings (return_with strings) = strings

unfoldable pub axml_string_pool : (manifest : List ℕ) → Result (List (List ℕ))
axml_string_pool manifest = do
  off ← first_chunk manifest
  end ← chunk_loop (enough manifest) manifest 28 (length manifest) (axml_pool_visit manifest) off tt
  ok (returned_strings end)

-- `string_pool_at`, the test of which is on 64-bit numbers.
unfoldable pub string_pool_at : List ℕ → (off : ℕ) → Result (List (List ℕ))
string_pool_at bytes off = if ltb (length bytes) (off + 28) then ok [] else (do
  type ← read_u16 bytes off
  header_size ← read_u16 bytes (off + 2)
  chunk_size ← read_u32 bytes (off + 4)
  pool ← pool_at bytes off header_size chunk_size
  if not (type == res_string_pool_type)
        || ltb chunk_size header_size
        || ltb (length bytes) (off + chunk_size)
        || ltb chunk_size (header_size + pool.string_count * 4)
        || leb chunk_size pool.strings_start
      then ok []
      else pool_loop push_always pool.string_count bytes pool 0)
