-- ===== src/Memory.antt =====
-- Byte-addressed memory, and the little-endian loads and stores of the AArch64 code.
pub mod Laws
use muplar.Base.{ℕ, zero, suc, ◌+◌, ◌*◌, ◌/◌, ◌%◌, List, [], ◌∷◌}
use muplar.Base.{◌==◌, if◌then◌else◌, get_or}

-- The byte at each address. Every address can be read and written: faults are not modelled.
abbrev pub Memory : Type 0
Memory = ℕ → ℕ

-- A buffer of bytes as a memory of its own, read as zero past its end.
unfoldable pub of_bytes : List ℕ → Memory
of_bytes bs i = get_or bs i 0

-- `n` bytes from address `a` on.
unfoldable pub load : Memory → ℕ → ℕ → List ℕ
load m a zero = []
load m a (suc n) = m a ∷ load m (a + 1) n

-- Writes the bytes from address `a` on.
unfoldable pub store : Memory → ℕ → List ℕ → Memory
store m a [] x = m x
store m a (b ∷ bs) x = if x == a then b else store m (a + 1) bs x

-- Little-endian value of bytes, and the `n` low bytes of a value.
unfoldable pub word : List ℕ → ℕ
word [] = 0
word (b ∷ bs) = b + 256 * word bs

unfoldable pub bytes : ℕ → ℕ → List ℕ
bytes zero v = []
bytes (suc n) v = (v % 256) ∷ bytes n (v / 256)

unfoldable pub load16 : Memory → ℕ → ℕ
unfolding load word
load16 m a = word (load m a 2)

unfoldable pub load32 : Memory → ℕ → ℕ
unfolding load word
load32 m a = word (load m a 4)

unfoldable pub load64 : Memory → ℕ → ℕ
unfolding load word
load64 m a = word (load m a 8)

unfoldable pub store32 : Memory → ℕ → ℕ → Memory
unfolding store bytes
store32 m a v = store m a (bytes 4 v)

unfoldable pub store64 : Memory → ℕ → ℕ → Memory
unfolding store bytes
store64 m a v = store m a (bytes 8 v)
