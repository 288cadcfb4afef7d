-- ===== src/Linker.antt =====
-- The data of linker64/src/linker.c: the objects, what the linker takes from its surroundings, the
-- outcome of a run, and the page arithmetic.
pub mod Dynamic
pub mod Hash
pub mod Symbols
pub mod Libc
pub mod Reloc
pub mod Relr
pub mod Packed
pub mod Load
pub mod Libs
pub mod Tls
pub mod Main
use muplar.Base.{ℕ, ◌+◌, ◌-◌, ◌*◌, ◌/◌, ◌^◌, List, [], Bool, ◌==◌, not}
use muplar.Base.Words.{add64}

-- The messages of `FATAL`, which writes one and exits with status 127.
pub data Fatal : Type 0 where
  read_elf_header too_many_phdrs read_phdrs mmap_reserve mmap_segment : Fatal
  sleb_out_of_bounds invalid_signature too_many_objects : Fatal

-- `fault`: a table or a string in memory had no end within the bound, where the program would run out
-- of mapped memory, or a name is too long for its array, where the program would overrun it. `stuck` is no outcome of the program: a recursion of the model ran out of fuel.
pub data Result {ℓ} (A : Type ℓ) : Type ℓ where
  ok : A → Result A
  fatal : Fatal → Result A
  fault : Result A
  stuck : Result A

infixl 5 ◌>>=◌
abbrev pub ◌>>=◌ {ℓ κ} : {A : Type ℓ} {B : Type κ} → Result A → (A → Result B) → Result B
ok a >>= f = f a
fatal e >>= f = fatal e
fault >>= f = fault
stuck >>= f = stuck

abbrev pub max_objects : ℕ
max_objects = 1024

-- The bytes of `soname`, with the zero byte.
abbrev pub soname_size : ℕ
soname_size = 128

abbrev pub max_needed : ℕ
max_needed = 256

abbrev pub page_size : ℕ
page_size = 4096

-- `x & ~4095`, and `(x + 4095) & ~4095` with the sum in 64 bits.
unfoldable pub page_align_down : ℕ → ℕ
page_align_down x = x / 4096 * 4096

unfoldable pub page_align_up : ℕ → ℕ
unfolding add64 page_align_down
page_align_up x = page_align_down (add64 x 4095)

-- `Object`. The array `needed_off` holds `needed_count` offsets; `soname` and `path` are the strings
-- in the two arrays. A null pointer is 0.
pub record Object : Type 0 where
  pub load_base : ℕ
  pub strtab : ℕ
  pub strsz : ℕ
  pub symtab : ℕ
  pub rela : ℕ
  pub rela_count : ℕ
  pub jmprel : ℕ
  pub jmprel_count : ℕ
  pub relr : ℕ
  pub relr_count : ℕ
  pub android_rela : ℕ
  pub android_rela_size : ℕ
  pub gnu_hash : ℕ
  pub needed_off : List ℕ
  pub path : List ℕ
  pub soname : List ℕ
  pub tls_offset : ℕ
  pub tls_vaddr : ℕ
  pub tls_filesz : ℕ
  pub tls_memsz : ℕ

-- An object after `lnk_memset(obj, 0, sizeof(*obj))`.
abbrev pub empty_object : Object
empty_object = record {
  load_base = 0;
  strtab = 0;
  strsz = 0;
  symtab = 0;
  rela = 0;
  rela_count = 0;
  jmprel = 0;
  jmprel_count = 0;
  relr = 0;
  relr_count = 0;
  android_rela = 0;
  android_rela_size = 0;
  gnu_hash = 0;
  needed_off = [];
  path = [];
  soname = [];
  tls_offset = 0;
  tls_vaddr = 0;
  tls_filesz = 0;
  tls_memsz = 0;
}

-- What is not in the C text: the addresses that the linker's own functions and buffers are placed at, what the
-- IFUNC resolver at an address returns for a hardware capability word and an auxiliary vector, and
-- the values of `g_hwcap` and `g_auxv`. `limit` bounds the strings and the tables that are read from
-- memory.
pub record Env : Type 0 where
  pub resolver : ℕ → ℕ → ℕ → ℕ
  pub libc_init : ℕ
  pub loader_shared_globals : ℕ
  pub dlopen : ℕ
  pub dlsym : ℕ
  pub dlclose : ℕ
  pub dlerror : ℕ
  pub dl_iterate_phdr : ℕ
  pub tlsdesc_static_resolver : ℕ
  pub tls_block : ℕ
  pub main_thread : ℕ
  pub shared_globals : ℕ
  pub hwcap : ℕ
  pub auxv : ℕ
  pub limit : ℕ

-- A pointer that is not null, a number that is not 0.
abbrev pub nonzero : ℕ → Bool
nonzero p = not (p == 0)
