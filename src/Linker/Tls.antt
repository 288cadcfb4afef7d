-- ===== src/Linker/Tls.antt =====
-- The static TLS layout of `linker_main` in linker64/src/linker.c.
pub mod Layout
use muplar.Base.{ℕ, zero, suc, ◌+◌, ◌*◌, ◌/◌, List, [], ◌∷◌, ◌&&◌, ltb, if◌then◌else◌}
use muplar.Base.Words.{add64}
use muplar.Memory.{Memory, store, store32, store64}
use muplar.Cstring.{memset}
use muplar.Linker.{Object, Env}

-- `(x + 15) & ~15`
unfoldable pub align16 : ℕ → ℕ
unfolding add64
align16 x = add64 x 15 / 16 * 16

-- The loop that gives each object with a TLS segment its offset, from `current` on.
unfoldable pub assign_tls : ℕ → List Object → List Object
assign_tls current [] = []
assign_tls current (obj ∷ objs) =
    let offset = align16 current in
    let placed =
      record obj { tls_offset = offset } ∷ assign_tls (add64 offset obj.tls_memsz) objs in
    let skipped = obj ∷ assign_tls current objs in if ltb 0 obj.tls_memsz then placed else skipped

abbrev pub tls_start : ℕ
tls_start = 256

abbrev pub tls_block_size : ℕ
tls_block_size = 16384

-- `dst[k] = src[k]` for `n` bytes, one after the other.
unfoldable pub copy_bytes : ℕ → (src dst : ℕ) → Memory → Memory
copy_bytes zero src dst m = m
copy_bytes (suc n) src dst m = copy_bytes n (src + 1) (dst + 1) (store m dst (m src ∷ []))

-- The templates of the objects, each at its offset in `g_tls_block`.
unfoldable pub copy_templates : ℕ → List Object → Memory → Memory
copy_templates tls_block [] m = m
copy_templates tls_block (obj ∷ objs) m = copy_templates tls_block objs (
    if ltb 0 obj.tls_memsz && ltb 0 obj.tls_vaddr
    then copy_bytes obj.tls_filesz (add64 obj.load_base obj.tls_vaddr) (tls_block + obj.tls_offset)
        m
    else m)

-- The block is cleared and filled, then the thread control block and the main thread are set up.
unfoldable pub init_tls : Env → ℕ → List Object → Memory → Memory
init_tls env tid objs m =
    let block = copy_templates env.tls_block objs (memset m env.tls_block 0 tls_block_size) in
    let slots =
      store64 (store64 block env.tls_block env.tls_block) (env.tls_block + 8) env.main_thread in
    store32 (memset slots env.main_thread 0 1024) (env.main_thread + 0x10) tid
