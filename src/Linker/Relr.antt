-- ===== src/Linker/Relr.antt =====
-- `apply_relr` of linker64/src/linker.c: packed relative relocations.
pub mod Decode
use muplar.Base.{ℕ, zero, suc, ◌+◌, ◌*◌, ◌/◌, ◌%◌, ◌||◌, not, ◌==◌, if◌then◌else◌}
use muplar.Base.Words.{add64}
use muplar.Memory.{Memory, load64, store64}
use muplar.Linker.{Object, nonzero}

-- `*slot += base`
unfoldable pub patch : ℕ → ℕ → Memory → Memory
patch base slot m = store64 m slot (add64 (load64 m slot) base)

-- `while (bitmap)`: 64 rounds are more than a bitmap of 63 bits takes.
unfoldable pub bitmap_loop : ℕ → ℕ → ℕ → ℕ → Memory → Memory
bitmap_loop zero base bitmap s m = m
bitmap_loop (suc n) base bitmap s m =
    let rest =
      bitmap_loop n base (bitmap / 2) (s + 8) (if bitmap % 2 == 1 then patch base s m else m) in
    if bitmap == 0 then m else rest

-- The loop over the words at `relr`, from word `i` on with `n` left.
unfoldable pub relr_loop : ℕ → ℕ → ℕ → ℕ → ℕ → Memory → Memory
relr_loop zero base relr i slot m = m
relr_loop (suc n) base relr i slot m =
    let entry = load64 m (relr + 8 * i) in
    let target = add64 entry base in
    let single = relr_loop n base relr (i + 1) (target + 8) (patch base target m) in
    let window =
      relr_loop n base relr (i + 1) (slot + 8 * 63) (bitmap_loop 64 base (entry / 2) slot m) in
    if entry % 2 == 0 then single else window

unfoldable pub apply_relr : Object → Memory → Memory
apply_relr obj m =
    if not (nonzero obj.relr) || not (nonzero obj.relr_count)
    then m
    else relr_loop obj.relr_count obj.load_base obj.relr 0 0 m
