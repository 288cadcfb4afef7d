-- ===== src/Linker/Dynamic.antt =====
-- `auxv_get` and `parse_dynamic` of linker64/src/linker.c.
pub mod Laws
pub mod Needed
use muplar.Base.{
  ℕ, zero, suc, ◌+◌, ◌/◌, List, [], ◌∷◌, ◌++◌, Bool, ◌||◌, ◌==◌, ltb, if◌then◌else◌, length,
}
use muplar.Base.{Option, none, some}
use muplar.Base.Words.{add64, u32}
use muplar.Memory.{Memory}
use muplar.Elf.{Auxv, auxv_at, at_null, Dyn, dyn_at}
use muplar.Elf.{dt_null, dt_needed, dt_pltrelsz, dt_strtab, dt_symtab, dt_rela, dt_relasz, dt_strsz}
use muplar.Elf.{dt_jmprel, dt_android_rela, dt_android_relasz}
use muplar.Linker.{Object, max_needed, nonzero}

-- The value of the first entry of the type before AT_NULL, and 0 if there is none; `none` when the
-- fuel ran out.
unfoldable pub auxv_get : ℕ → Memory → ℕ → ℕ → Option ℕ
auxv_get zero m auxv type = none
auxv_get (suc fuel) m auxv type =
    let rest = auxv_get fuel m (auxv + 16) type in
    let entry = auxv_at m auxv in
    if entry.a_type == at_null
    then some 0
    else if entry.a_type == type
    then some entry.a_val
    else rest

-- The tags that the loader's own elf.h defines, or not at all.
abbrev pub dt_relr : ℕ
dt_relr = 0x6fffe000

abbrev pub dt_relrsz : ℕ
dt_relrsz = 0x6fffe001

abbrev pub dt_gnu_hash : ℕ
dt_gnu_hash = 0x6ffffef5

-- The object, and the local `strtab_va`.
pub record Parsed : Type 0 where
  pub obj : Object
  pub strtab_va : ℕ

-- One round of the loop: the `switch` on the tag.
unfoldable pub parse_entry : Dyn → Parsed → Parsed
parse_entry dyn s =
    let obj = s.obj in
    let va = add64 dyn.d_val obj.load_base in
    if dyn.d_tag == dt_strtab
    then record s { strtab_va = va }
    else if dyn.d_tag == dt_strsz
    then record s { obj = record obj { strsz = dyn.d_val } }
    else if dyn.d_tag == dt_symtab
    then record s { obj = record obj { symtab = va } }
    else if dyn.d_tag == dt_rela
    then record s { obj = record obj { rela = va } }
    else if dyn.d_tag == dt_relasz
    then record s { obj = record obj { rela_count = dyn.d_val / 24 } }
    else if dyn.d_tag == dt_jmprel
    then record s { obj = record obj { jmprel = va } }
    else if dyn.d_tag == dt_pltrelsz
    then record s { obj = record obj { jmprel_count = dyn.d_val / 24 } }
    else if dyn.d_tag == 36 || dyn.d_tag == dt_relr
    then record s { obj = record obj { relr = va } }
    else if dyn.d_tag == 35 || dyn.d_tag == dt_relrsz
    then record s { obj = record obj { relr_count = dyn.d_val / 8 } }
    else if dyn.d_tag == dt_android_rela
    then record s { obj = record obj { android_rela = va } }
    else if dyn.d_tag == dt_android_relasz
    then record s { obj = record obj { android_rela_size = dyn.d_val } }
    else if dyn.d_tag == dt_gnu_hash
    then record s { obj = record obj { gnu_hash = va } }
    else if dyn.d_tag == dt_needed
    then if ltb (length obj.needed_off) max_needed
      then record s { obj = record obj { needed_off = obj.needed_off ++ u32 dyn.d_val ∷ [] } }
      else s
    else s

-- The loop over the table at `dyn`; `none` when the fuel ran out.
unfoldable pub parse_loop : ℕ → Memory → ℕ → Parsed → Option Parsed
parse_loop zero m dyn s = none
parse_loop (suc fuel) m dyn s =
    let entry = dyn_at m dyn in
    let rest = parse_loop fuel m (dyn + 16) (parse_entry entry s) in
    if entry.d_tag == dt_null then some s else rest

unfoldable pub finish : Parsed → Object
finish s = if nonzero s.strtab_va then record s.obj { strtab = s.strtab_va } else s.obj

unfoldable pub parse_dynamic : ℕ → Memory → Object → ℕ → Option Object
parse_dynamic fuel m obj dyn_va =
    elim (parse_loop fuel m dyn_va (record { obj = obj; strtab_va = 0 })) [
      | none ↦ none
      | some s ↦ some (finish s)
    ]
