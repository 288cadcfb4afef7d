-- ===== src/Runs/Data.antt =====
-- The memory, the objects and the surroundings that the examples share.
use muplar.Base.{ℕ, List, [], ◌∷◌, ◌++◌, replicate, drop, take}
use muplar.Base.Int.{pos, negsuc}
use muplar.Memory.{Memory, of_bytes, bytes}
use muplar.Linker.{Object, empty_object, Env}
use muplar.Linker.Load.{Os, Space}
use muplar.Linker.Libs.{State}

abbrev pub zeros : Memory
zeros = of_bytes []

-- An environment without IFUNC resolvers.
abbrev pub env : Env
env = record {
  resolver = λ address hwcap auxv. address;
  libc_init = 0x1000;
  loader_shared_globals = 0x1010;
  dlopen = 0x1020;
  dlsym = 0x1030;
  dlclose = 0x1040;
  dlerror = 0x1050;
  dl_iterate_phdr = 0x1060;
  tlsdesc_static_resolver = 0x1070;
  tls_block = 0x10000;
  main_thread = 0x20000;
  shared_globals = 0x30000;
  hwcap = 0;
  auxv = 0;
  limit = 64;
}

-- A kernel that opens no file, gives each mapping the address it asks for, and reads from one file of
-- eight bytes.
abbrev pub content : List ℕ
content = 1 ∷ 2 ∷ 3 ∷ 4 ∷ 5 ∷ 6 ∷ 7 ∷ 8 ∷ []

abbrev pub os : Os
os = record {
  openat = λ path. negsuc 1;
  lseek = λ fd offset. pos offset;
  read = λ fd at len. take len (drop at content);
  mmap = λ call m. (0x7000000, m);
  gettid = 42;
}

abbrev pub space : Space
space = record { mem = zeros; calls = [] }

abbrev pub state : State
state = record { objects = empty_object ∷ []; space = space }

-- A symbol table with one defined symbol, `f` at 0x40, behind the empty one; its string table; and
-- one relative relocation.
abbrev pub library_bytes : List ℕ
library_bytes =
    replicate 24 0
    ++ (bytes 4 1 ++ (0x12 ∷ 0 ∷ []) ++ bytes 2 7 ++ bytes 8 0x40 ++ bytes 8 4)
    ++ (0 ∷ b'f' ∷ 0 ∷ 0 ∷ 0 ∷ 0 ∷ 0 ∷ 0 ∷ [])
    ++ (bytes 8 0x200 ++ bytes 8 1027 ++ bytes 8 0x30)

abbrev pub memory : Memory
memory = of_bytes (replicate 16 0 ++ library_bytes)

abbrev pub library : Object
library = record empty_object {
  symtab = 16;
  strtab = 64;
  strsz = 3;
  load_base = 0x1000;
  rela = 72;
  rela_count = 1;
}
