-- ===== src/Linker/Symbols.antt =====
-- `lookup_symbol`, `lnk_dlsym` and `lnk_dl_iterate_phdr` of linker64/src/linker.c.
pub mod Order
use muplar.Base.{
  ℕ, zero, suc, ◌+◌, ◌*◌, List, [], ◌∷◌, Bool, true, false, ◌||◌, ◌&&◌, not, ◌==◌, leb,
}
use muplar.Base.{if◌then◌else◌, Option, none, some}
use muplar.Base.Words.{add64}
use muplar.Base.Text.{codes}
use muplar.Memory.{Memory}
use muplar.Elf.{
  Sym, shn_undef, st_type, stt_gnu_ifunc, Ehdr, ehdr_at, elfmag0, elfmag1, elfmag2, elfmag3,
}
use muplar.Cstring.{str_eq, strcmp_at, is_zero}
use muplar.Linker.{Object, Env, nonzero}
use muplar.Linker.Hash.{symbol_at, lookup_gnu_hash}

-- The value of a symbol of `obj`: an IFUNC is called with `g_hwcap` and `g_auxv`.
unfoldable pub symbol_address : Env → Object → Sym → ℕ
symbol_address env obj sym =
    let sym_val = add64 sym.st_value obj.load_base in
    if st_type sym.st_info == stt_gnu_ifunc
    then env.resolver sym_val env.hwcap env.auxv
    else sym_val

-- `for (int j = 1; j < 4096; j++)` over the symbol table, from `j` on with `n` rounds left.
unfoldable pub linear_loop : ℕ → Memory → Object → List ℕ → ℕ → Option Sym
linear_loop zero m obj name j = none
linear_loop (suc n) m obj name j =
    let rest = linear_loop n m obj name (j + 1) in
    let sym = symbol_at m obj j in
    if sym.st_shndx == shn_undef
    then rest
    else if leb obj.strsz sym.st_name
    then none
    else if is_zero (strcmp_at m (obj.strtab + sym.st_name) name)
    then some sym
    else rest

unfoldable pub linear_lookup : Memory → Object → List ℕ → Option Sym
linear_lookup m obj name =
    if not (nonzero obj.symtab) || not (nonzero obj.strtab)
    then none
    else linear_loop 4095 m obj name 1

-- The symbol of one object: by its hash table if it has one.
unfoldable pub find_symbol : Memory → Object → List ℕ → Option Sym
find_symbol m obj name =
    if nonzero obj.gnu_hash then lookup_gnu_hash m obj name else linear_lookup m obj name

-- The names that the linker itself provides, tested in this order.
unfoldable pub builtin : Env → List ℕ → Option ℕ
builtin env name =
    if str_eq name (codes "__libc_init")
    then some env.libc_init
    else if str_eq name (codes "__loader_shared_globals")
    then some env.loader_shared_globals
    else if str_eq name (codes "dlopen")
    then some env.dlopen
    else if str_eq name (codes "dlsym")
    then some env.dlsym
    else if str_eq name (codes "dlclose")
    then some env.dlclose
    else if str_eq name (codes "dlerror")
    then some env.dlerror
    else if str_eq name (codes "dl_iterate_phdr")
    then some env.dl_iterate_phdr
    else none

-- The loop over the objects, in the order in which they were loaded.
unfoldable pub lookup_objects : Env → Memory → List Object → List ℕ → ℕ
lookup_objects env m [] name = 0
lookup_objects env m (obj ∷ objs) name =
    let rest = lookup_objects env m objs name in
    elim (find_symbol m obj name) [ some sym ↦ symbol_address env obj sym | none ↦ rest ]

unfoldable pub lookup_symbol : Env → Memory → List Object → List ℕ → ℕ
lookup_symbol env m objs name = elim (builtin env name) [
  | some address ↦ address
  | none ↦ lookup_objects env m objs name
]

-- `none` is the handle NULL or -1.
unfoldable pub dlsym : Env → Memory → List Object → Option Object → List ℕ → ℕ
dlsym env m objs none symbol = lookup_symbol env m objs symbol
dlsym env m objs (some obj) symbol = elim (find_symbol m obj symbol) [
  | some sym ↦ symbol_address env obj sym
  | none ↦ lookup_symbol env m objs symbol
]

-- `struct dl_phdr_info`; the name is the string itself.
pub record PhdrInfo : Type 0 where
  pub dlpi_addr : ℕ
  pub dlpi_name : List ℕ
  pub dlpi_phdr : ℕ
  pub dlpi_phnum : ℕ

-- Whether the bytes at the load base are an ELF magic number.
unfoldable pub has_magic : Memory → ℕ → Bool
has_magic m a =
    m a == elfmag0 && m (a + 1) == elfmag1 && m (a + 2) == elfmag2 && m (a + 3) == elfmag3

unfoldable pub phdr_info : Memory → Object → PhdrInfo
phdr_info m obj =
    let ehdr = ehdr_at m obj.load_base in
    record {
      dlpi_addr = obj.load_base;
      dlpi_name = obj.soname;
      dlpi_phdr = add64 obj.load_base ehdr.e_phoff;
      dlpi_phnum = ehdr.e_phnum;
    }

-- The callback is code of the caller: it answers an `int` and changes a state of its own.
module _ {S : Type 0} (callback : PhdrInfo → S → ℕ × S) (m : Memory) where
  unfoldable pub iterate_loop : List Object → ℕ → S → ℕ × S
  iterate_loop [] i s = (0, s)
  iterate_loop (obj ∷ objs) i s =
      let skipped = iterate_loop objs (i + 1) s in
      let called = callback (phdr_info m obj) s in
      let next = iterate_loop objs (i + 1) called.1 in
      if obj.load_base == 0 && nonzero i
      then skipped
      else if not (has_magic m obj.load_base)
      then skipped
      else if nonzero called.0
      then called
      else next

  unfoldable pub dl_iterate_phdr : List Object → S → ℕ × S
  dl_iterate_phdr objs s = iterate_loop objs 0 s
