-- ===== src/Linker/Reloc.antt =====
-- `apply_rela` of linker64/src/linker.c: relocations with an addend.
pub mod Frame
pub mod Relative
use muplar.Base.{ℕ, zero, suc, ◌+◌, ◌*◌, List, [], ◌∷◌, Bool, ◌||◌, ◌&&◌, not, ◌==◌}
use muplar.Base.{if◌then◌else◌, Option, none, some}
use muplar.Base.Words.{add64}
use muplar.Memory.{Memory, store64}
use muplar.Elf.{Sym, Rela, rela_at, r_sym, r_type, shn_undef}
use muplar.Elf.{r_aarch64_abs64, r_aarch64_glob_dat, r_aarch64_jump_slot, r_aarch64_relative}
use muplar.Elf.{r_aarch64_tls_tprel64, r_aarch64_tlsdesc, r_aarch64_irelative}
use muplar.Cstring.{read_string}
use muplar.Linker.{Object, Env, nonzero}
use muplar.Linker.Hash.{symbol_at}
use muplar.Linker.Symbols.{symbol_address, linear_lookup, lookup_symbol}

-- `sym_idx && obj->symtab && obj->strtab`
abbrev pub has_symbol : Object → ℕ → Bool
has_symbol obj sym_idx = nonzero sym_idx && nonzero obj.symtab && nonzero obj.strtab

abbrev pub symbol_name : Env → Memory → Object → Sym → List ℕ
symbol_name env m obj sym = read_string env.limit m (obj.strtab + sym.st_name)

-- The `sym_val` of GLOB_DAT, JUMP_SLOT and ABS64; `none` where an undefined symbol is found nowhere
-- and the slot is left alone.
unfoldable pub data_value : Env → List Object → Object → ℕ → Memory → Option ℕ
data_value env objs obj sym_idx m =
    let sym = symbol_at m obj sym_idx in
    let found = lookup_symbol env m objs (symbol_name env m obj sym) in
    if has_symbol obj sym_idx
    then if not (sym.st_shndx == shn_undef)
      then some (symbol_address env obj sym)
      else if found == 0
      then none
      else some found
    else some 0

-- The search for a TLS symbol of another object: a value of 0 does not end it.
unfoldable pub tls_lookup : Memory → List Object → List ℕ → ℕ
tls_lookup m [] name = 0
tls_lookup m (target ∷ objs) name =
    let rest = tls_lookup m objs name in
    elim (linear_lookup m target name) [
      | none ↦ rest
      | some s ↦
          let sym_val = add64 target.tls_offset s.st_value in if sym_val == 0 then rest else sym_val
    ]

-- The `sym_val` of TLS_TPREL64 and TLSDESC.
unfoldable pub tls_value : Env → List Object → Object → ℕ → Memory → ℕ
tls_value env objs obj sym_idx m =
    let sym = symbol_at m obj sym_idx in
    if has_symbol obj sym_idx
    then if not (sym.st_shndx == shn_undef)
      then add64 obj.tls_offset sym.st_value
      else tls_lookup m objs (symbol_name env m obj sym)
    else obj.tls_offset

-- One round of the loop: the `switch` on the type.
unfoldable pub apply_entry : Env → List Object → Object → ℕ → ℕ → Rela → Memory → Memory
apply_entry env objs obj hwcap auxv rela m =
    let sym_idx = r_sym rela.r_info in
    let rel_type = r_type rela.r_info in
    let slot = add64 rela.r_offset obj.load_base in
    let addend = rela.r_addend in
    if rel_type == r_aarch64_relative
    then store64 m slot (add64 obj.load_base addend)
    else if rel_type == r_aarch64_glob_dat
        || rel_type == r_aarch64_jump_slot
        || rel_type == r_aarch64_abs64
    then elim (data_value env objs obj sym_idx m) [
      | none ↦ m
      | some sym_val ↦ store64 m slot (add64 sym_val addend)
    ]
    else if rel_type == r_aarch64_tls_tprel64
    then store64 m slot (add64 (tls_value env objs obj sym_idx m) addend)
    else if rel_type == r_aarch64_tlsdesc
    then store64 (store64 m slot env.tlsdesc_static_resolver) (slot + 8)
        (add64 (tls_value env objs obj sym_idx m) addend)
    else if rel_type == r_aarch64_irelative
    then store64 m slot (env.resolver (add64 obj.load_base addend) hwcap auxv)
    else m

-- The loop over the table at `rela`, from entry `i` on with `n` left. Each entry is read when its
-- turn comes.
unfoldable pub rela_loop : ℕ → Env → List Object → Object → ℕ → ℕ → ℕ → ℕ → Memory → Memory
rela_loop zero env objs obj hwcap auxv rela i m = m
rela_loop (suc n) env objs obj hwcap auxv rela i m =
    rela_loop n env objs obj hwcap auxv rela (i + 1)
      (apply_entry env objs obj hwcap auxv (rela_at m (rela + 24 * i)) m)

unfoldable pub apply_rela : Env → List Object → Object → ℕ → ℕ → ℕ → ℕ → Memory → Memory
apply_rela env objs obj hwcap auxv rela count m = rela_loop count env objs obj hwcap auxv rela 0 m
