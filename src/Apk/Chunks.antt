-- ===== src/Apk/Chunks.antt =====
-- The loops of platform/android-aarch64/apk/apk_envelope.cpp over the chunks of a binary resource
-- file: a chunk begins with its type, the size of its header and its whole size.
pub mod Ends
use muplar.Base.{ℕ, zero, suc, ◌+◌, ◌%◌, ◌^◌, ◌*◌, List, [], ◌∷◌}
use muplar.Base.{Bool, true, false, ◌||◌, ◌==◌, ltb, if◌then◌else◌, length}
use muplar.Apk.{Result, ok, spins, ◌>>=◌, read_u16, read_u32}

pub record Chunk : Type 0 where
  pub off : ℕ
  pub type : ℕ
  pub header_size : ℕ
  pub size : ℕ

unfoldable pub chunk_at : List ℕ → (off : ℕ) → Result Chunk
chunk_at bytes off = do
  type ← read_u16 bytes off
  header_size ← read_u16 bytes (off + 2)
  size ← read_u32 bytes (off + 4)
  ok (record { off = off; type = type; header_size = header_size; size = size })

-- What a round of a loop does: it goes on to the next one, or returns from the function.
pub data Next (S B : Type 0) : Type 0 where
  continue : S → Next S B
  return_with : B → Next S B

abbrev pub advance : {S B : Type 0} → (S → Result (Next S B)) → Next S B → Result (Next S B)
advance loop (continue s) = loop s
advance loop (return_with b) = ok (return_with b)

-- `while (off + need <= limit)` with `visit` for the body, the variables of which are the state.
unfoldable pub chunk_loop :
    {S B : Type 0} (fuel : ℕ) (bytes : List ℕ) (need limit : ℕ)
    (visit : Chunk → S → Result (Next S B)) (off : ℕ)
    → S
    → Result (Next S B)
chunk_loop zero bytes need limit visit off s = spins
chunk_loop (suc fuel) bytes need limit visit off s =
    if ltb limit (off + need)
    then ok (continue s)
    else (chunk_at bytes off >>= λ c.
        if ltb c.size c.header_size || ltb limit (off + c.size)
        then ok (continue s)
        else (visit c s >>= advance (chunk_loop fuel bytes need limit visit (off + c.size))))

-- Each chunk of the loop takes a byte or more, so one round for each byte and one more are enough.
abbrev pub enough : List ℕ → ℕ
enough bytes = suc (length bytes)

-- The offset of the first chunk, behind the header of an XML file.
unfoldable pub first_chunk : List ℕ → Result ℕ
first_chunk bytes =
    if ltb (length bytes) 8
    then ok 0
    else (read_u16 bytes 0 >>= λ type. ok (if type == 0x0003 then 8 else 0))
