-- ===== src/Apk/Axml/Safe.antt =====
-- The readers of string pools stay inside of the file, and end unless it has a chunk of size 0.
use muplar.Base.{ℕ, zero, suc, ◌+◌, ◌*◌, ◌/◌, ◌%◌, ◌^◌, arith, inr, List, [], Option}
use muplar.Base.{not, ◌||◌, ◌==◌, ltb, leb, length}
use muplar.Apk.Runs.{
  Runs, gives, Any, Runs-bind, Runs-mono, Runs-if, throw_if-Runs, attempt-Runs, index-Runs,
  slice-Runs, read_u16-Runs, read_u32-Runs,
}
use muplar.Apk.Chunks.{Chunk, enough}
use muplar.Apk.Chunks.Ends.{EmptyChunk, Each, chunk_loop-Runs, first_chunk-Runs}
use muplar.Apk.Axml.{
  read_len8, utf8_length_string, read_len16, utf16_loop, utf16_length_string, res_string_pool_type,
  Pool, pool_at, pool_string, pool_loop, push_found, push_always, axml_pool_visit, axml_string_pool,
  string_pool_at,
}

module _ {Spins : Type 0} where
  read_len8-Runs : (bytes : List ℕ) (pos : ℕ) → Runs Spins Any (read_len8 bytes pos)
  unfolding read_len8
  read_len8-Runs bytes pos = Runs-bind (throw_if-Runs (leb (length bytes) pos) _) λ u h.
      Runs-bind (index-Runs bytes pos (ground arith)) λ first h0.
        Runs-if (first / 128 % 2 == 0) (λ short. gives tt)
          λ long.
            Runs-bind (throw_if-Runs (leb (length bytes) (pos + 1)) _)
              λ u' h'. Runs-bind (index-Runs bytes (pos + 1) (ground arith)) λ second h1. gives tt

  pub utf8_length_string-Runs :
      (bytes : List ℕ) (off : ℕ) → Runs Spins Any (utf8_length_string bytes off)
  unfolding utf8_length_string
  utf8_length_string-Runs bytes off = Runs-bind (read_len8-Runs bytes off) λ skipped h.
      Runs-bind (read_len8-Runs bytes skipped.1) λ len h0.
        Runs-bind (throw_if-Runs (ltb (length bytes) (len.1 + len.0)) _)
          λ u h1. Runs-mono (slice-Runs bytes len.1 len.0 (ground arith)) λ s e. tt

  read_len16-Runs : (bytes : List ℕ) (pos : ℕ) → Runs Spins Any (read_len16 bytes pos)
  unfolding read_len16
  read_len16-Runs bytes pos = Runs-bind (read_u16-Runs bytes pos) λ first h.
      Runs-if (first / 2 ^ 15 % 2 == 0) (λ short. gives tt)
        λ long. Runs-bind (read_u16-Runs bytes (pos + 2)) λ second h0. gives tt

  utf16_loop-Runs : (len : ℕ) (bytes : List ℕ) (pos : ℕ) → Runs Spins Any (utf16_loop len bytes pos)
  unfolding utf16_loop
  utf16_loop-Runs zero bytes pos = gives tt
  utf16_loop-Runs (suc n) bytes pos =
      Runs-bind (read_u16-Runs bytes pos)
        λ ch h. Runs-bind (utf16_loop-Runs n bytes (pos + 2)) λ out h0. gives tt

  pub utf16_length_string-Runs :
      (bytes : List ℕ) (off : ℕ) → Runs Spins Any (utf16_length_string bytes off)
  unfolding utf16_length_string
  utf16_length_string-Runs bytes off =
      Runs-bind (read_len16-Runs bytes off) λ len h. utf16_loop-Runs len.0 bytes len.1

  pool_at-Runs :
      (bytes : List ℕ) (off header_size chunk_size : ℕ)
      → Runs Spins Any (pool_at bytes off header_size chunk_size)
  unfolding pool_at
  pool_at-Runs bytes off header_size chunk_size =
      Runs-bind (read_u32-Runs bytes (off + 8)) λ string_count h.
        Runs-bind (read_u32-Runs bytes (off + 16))
          λ flags h0. Runs-bind (read_u32-Runs bytes (off + 20)) λ strings_start h1. gives tt

  pool_string-Runs :
      (bytes : List ℕ) (pool : Pool) (i : ℕ) → Runs Spins Any (pool_string bytes pool i)
  unfolding pool_string
  pool_string-Runs bytes pool i =
      Runs-bind (read_u32-Runs bytes (pool.off + pool.header_size + i * 4 % 2 ^ 32)) λ string_off h.
        let string_pos = pool.off + pool.strings_start + string_off in
        Runs-if (leb (pool.off + pool.chunk_size) string_pos) (λ behind. gives tt)
          λ before.
            Runs-bind
              (attempt-Runs {P = Any} [] tt (
                Runs-if pool.utf8 (λ u. utf8_length_string-Runs bytes string_pos)
                  (λ u. utf16_length_string-Runs bytes string_pos)))
              λ s h0. gives tt

  pool_loop-Runs :
      (push : Option (List ℕ) → List (List ℕ) → List (List ℕ)) (n : ℕ) (bytes : List ℕ)
      (pool : Pool) (i : ℕ)
      → Runs Spins Any (pool_loop push n bytes pool i)
  unfolding pool_loop
  pool_loop-Runs push zero bytes pool i = gives tt
  pool_loop-Runs push (suc n) bytes pool i =
      Runs-bind (pool_string-Runs bytes pool i)
        λ s h. Runs-bind (pool_loop-Runs push n bytes pool (i + 1)) λ strings h0. gives tt

  pub string_pool_at-Runs : (bytes : List ℕ) (off : ℕ) → Runs Spins Any (string_pool_at bytes off)
  unfolding string_pool_at
  string_pool_at-Runs bytes off =
      Runs-if (ltb (length bytes) (off + 28)) (λ short. gives tt)
        λ long. Runs-bind (read_u16-Runs bytes off) λ type h.
          Runs-bind (read_u16-Runs bytes (off + 2)) λ header_size h0.
            Runs-bind (read_u32-Runs bytes (off + 4)) λ chunk_size h1.
              Runs-bind (pool_at-Runs bytes off header_size chunk_size) λ pool h2.
                Runs-if
                  (not (type == res_string_pool_type)
                    || ltb chunk_size header_size
                    || ltb (length bytes) (off + chunk_size)
                    || ltb chunk_size (header_size + pool.string_count * 4)
                    || leb chunk_size pool.strings_start)
                  (λ bad. gives tt)
                  λ good. pool_loop-Runs push_always pool.string_count bytes pool 0

  axml_pool_visit-Runs :
      (bytes : List ℕ) (c : Chunk) (u : Unit {0})
      → Runs Spins (Each Any Any) (axml_pool_visit bytes c u)
  unfolding axml_pool_visit
  axml_pool_visit-Runs bytes c u =
      Runs-if (not (c.type == res_string_pool_type)) (λ other. gives tt)
        λ found. Runs-bind (pool_at-Runs bytes c.off c.header_size c.size) λ pool h.
          Runs-if
            (ltb c.size ((c.header_size + pool.string_count * 4) % 2 ^ 32)
              || leb c.size pool.strings_start)
            (λ bad. gives tt)
            λ good.
              Runs-bind (pool_loop-Runs push_found pool.string_count bytes pool 0)
                λ strings h0. gives tt

-- `axml_string_pool` reads nothing outside of the manifest, whatever its bytes are, although its
-- test of the number of strings wraps around; and it ends unless there is a chunk of size 0.
pub axml_string_pool-Runs :
    (manifest : List ℕ) → Runs (EmptyChunk manifest) Any (axml_string_pool manifest)
unfolding axml_string_pool
axml_string_pool-Runs manifest = Runs-bind (first_chunk-Runs manifest) λ off h.
    Runs-bind
      (chunk_loop-Runs manifest 28 (length manifest) (axml_pool_visit manifest) Any Any
        (enough manifest) off tt
        (λ c s reached reads lo hi head i. axml_pool_visit-Runs manifest c s) (omega arith) h.fits
        h.reached (inr (omega arith)) tt)
      λ next h0. gives tt
