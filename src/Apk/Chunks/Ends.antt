-- ===== src/Apk/Chunks/Ends.antt =====
-- When a loop over chunks ends: unless the file has a chunk of size 0, at which it stays for ever.
use Prim.Native.Nat.{◌≤◌}
use muplar.Base.{ℕ, zero, suc, ◌+◌, ◌<◌, ◌≡◌, refl, ap, ◌∙◌, arith, ◌⊎◌, inl, inr, List}
use muplar.Base.{false, ◌||◌, ◌==◌, ltb, length, Bool-cases}
use muplar.Apk.{Result, ok, spins, read_u16}
use muplar.Apk.Runs.{
  Runs, gives, hangs, Runs-bind, Runs-mono, Runs-self, Runs-if, Runs-eq, read_u16-Runs,
  read_u32-Runs,
}
use muplar.Apk.Chunks.{
  Chunk, chunk_at, Next, continue, return_with, advance, chunk_loop, first_chunk,
}

-- The places at which a loop over the file's chunks looks for one. The first stands where an XML file
-- or a resource table has it, another one behind a chunk, and the first child of a package behind the
-- header of the package.
pub data Reached (bytes : List ℕ) : ℕ → Type 0 where
  first_of_xml : {off : ℕ} → first_chunk bytes ≡ ok off → Reached bytes off
  first_of_table :
      {off : ℕ} → read_u16 bytes 0 ≡ ok 0x0002 → read_u16 bytes 2 ≡ ok off → Reached bytes off
  behind :
      {off : ℕ} {c : Chunk}
      → Reached bytes off
      → chunk_at bytes off ≡ ok c
      → Reached bytes (off + c.size)
  child_of :
      {off : ℕ} {c : Chunk}
      → Reached bytes off
      → chunk_at bytes off ≡ ok c
      → c.type ≡ 0x0200
      → Reached bytes (off + c.header_size)

-- A chunk of the file with a size of 0 and a header of 0 bytes.
pub record EmptyChunk (bytes : List ℕ) : Type 0 where
  pub off : ℕ
  pub chunk : Chunk
  pub reached : Reached bytes off
  pub reads : chunk_at bytes off ≡ ok chunk
  pub empty : chunk.size ≡ 0
  pub headless : chunk.header_size ≡ 0

-- What a loop keeps of its state, and what it returns.
abbrev pub Each : {S B : Type 0} → (S → Type 0) → (B → Type 0) → Next S B → Type 0
Each I P (continue s) = I s
Each I P (return_with b) = P b

pub chunk_at-Runs :
    {Spins : Type 0} (bytes : List ℕ) (off : ℕ) → Runs Spins (λ c. c.off ≡ off) (chunk_at bytes off)
unfolding chunk_at
chunk_at-Runs bytes off = Runs-bind (read_u16-Runs bytes off) λ type h0.
    Runs-bind (read_u16-Runs bytes (off + 2))
      λ header_size h1. Runs-bind (read_u32-Runs bytes (off + 4)) λ size h2. gives refl

module _ {S B : Type 0} (bytes : List ℕ) (need limit : ℕ) (visit : Chunk → S → Result (Next S B))
    (I : S → Type 0) (P : B → Type 0) where
  -- A body keeps what holds at each chunk that lies below the limit.
  abbrev pub Visits : Type 0
  Visits =
      (c : Chunk) (s : S)
      → Reached bytes c.off
      → chunk_at bytes c.off ≡ ok c
      → c.off + need ≤ limit
      → c.off + c.size ≤ limit
      → c.header_size ≤ c.size
      → I s
      → Runs (EmptyChunk bytes) (Each I P) (visit c s)

  advance-Runs :
      (loop : S → Result (Next S B)) (next : Next S B)
      → ((s : S) → I s → Runs (EmptyChunk bytes) (Each I P) (loop s))
      → Each I P next
      → Runs (EmptyChunk bytes) (Each I P) (advance loop next)
  advance-Runs loop (continue s) h p = h s p
  advance-Runs loop (return_with b) h p = gives p

  fuel_left :
      (fuel off : ℕ) (c : Chunk)
      → chunk_at bytes off ≡ ok c
      → Reached bytes off
      → c.header_size ≤ c.size
      → EmptyChunk bytes ⊎ (length bytes < suc fuel + off)
      → EmptyChunk bytes ⊎ (length bytes < fuel + (off + c.size))
  fuel_left fuel off c reads reached head (inl e) = inl e
  fuel_left fuel off c reads reached head (inr h) = elim (Bool-cases (c.size == 0)) [
    | inl z ↦ inl (record {
      off = off;
      chunk = c;
      reached = reached;
      reads = reads;
      empty = ground arith;
      headless = ground arith;
    })
    | inr p ↦ inr (ground arith)
  ]

  pub chunk_loop-Runs :
      (fuel off : ℕ) (s : S)
      → Visits
      → limit ≤ length bytes
      → off ≤ limit
      → Reached bytes off
      → EmptyChunk bytes ⊎ (length bytes < fuel + off)
      → I s
      → Runs (EmptyChunk bytes) (Each I P) (chunk_loop fuel bytes need limit visit off s)
  unfolding chunk_loop
  chunk_loop-Runs zero off s h lim lo reached (inl e) i = hangs e
  chunk_loop-Runs zero off s h lim lo reached (inr e) i = absurd (omega arith)
  chunk_loop-Runs (suc fuel) off s h lim lo reached enough_fuel i =
      Runs-if (ltb limit (off + need)) (λ done. gives i)
        λ more. Runs-bind (Runs-eq (chunk_at-Runs bytes off)) λ c (reads, at).
          Runs-if (ltb c.size c.header_size || ltb limit (off + c.size)) (λ bad. gives i)
            λ good.
              let below : off + c.size ≤ limit = ground arith in
              let head : c.header_size ≤ c.size = ground arith in
              Runs-bind
                (h c s (rw at reached) (ap (λ (o : ℕ). chunk_at bytes o) at ∙ reads)
                  (rw at (ground arith)) (rw at below) head i)
                λ next p.
                  advance-Runs (chunk_loop fuel bytes need limit visit (off + c.size)) next
                    (λ s' i'.
                      chunk_loop-Runs fuel (off + c.size) s' h lim below (behind reached reads)
                        (fuel_left fuel off c reads reached head enough_fuel) i')
                    p

first_chunk-le :
    {Spins : Type 0} (bytes : List ℕ) → Runs Spins (λ off. off ≤ length bytes) (first_chunk bytes)
unfolding first_chunk
first_chunk-le bytes =
    Runs-if (ltb (length bytes) 8) (λ short. gives (omega arith))
      λ long. Runs-bind (read_u16-Runs bytes 0) λ type h. gives (ground arith)

-- The first chunk of an XML file stands inside of it.
pub record IsFirst (bytes : List ℕ) (off : ℕ) : Type 0 where
  pub fits : off ≤ length bytes
  pub reached : Reached bytes off

pub first_chunk-Runs :
    {Spins : Type 0} (bytes : List ℕ) → Runs Spins (IsFirst bytes) (first_chunk bytes)
first_chunk-Runs bytes =
    Runs-mono (Runs-self (first_chunk-le bytes))
      λ off (e, h). record { fits = h; reached = first_of_xml e }

-- From a chunk of size 0 at which the body does nothing but go on, the loop gets nowhere: however
-- many rounds it is given, it uses them up.
pub chunk_loop_stays :
    {S B : Type 0} (bytes : List ℕ) (need limit : ℕ) (visit : Chunk → S → Result (Next S B))
    (fuel off : ℕ) (s : S) (c : Chunk)
    → off + need ≤ limit
    → chunk_at bytes off ≡ ok c
    → c.size ≡ 0
    → c.header_size ≡ 0
    → visit c s ≡ ok (continue s)
    → chunk_loop fuel bytes need limit visit off s ≡ spins
unfolding chunk_loop
chunk_loop_stays bytes need limit visit zero off s c fits reads empty headless stays = refl
chunk_loop_stays bytes need limit visit (suc fuel) off s c fits reads empty headless stays =
    let more : ltb limit (off + need) ≡ false = ground arith in
    let good : (ltb c.size c.header_size || ltb limit (off + c.size)) ≡ false = ground arith in
    let same_off : off + c.size ≡ off = omega arith in
    rw (more, reads, good, stays, same_off, chunk_loop)
      (chunk_loop_stays bytes need limit visit fuel off s c fits reads empty headless stays)
