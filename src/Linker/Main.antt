-- ===== src/Linker/Main.antt =====
-- `linker_main` of linker64/src/linker.c, in the order of its blocks.
pub mod Ends
use Prim.Native.Nat.{bit_or}
use muplar.Base.{
  ℕ, zero, suc, ◌+◌, ◌-◌, ◌*◌, ◌%◌, ◌^◌, List, [], ◌∷◌, Bool, ◌&&◌, not, ◌==◌, ltb, leb,
}
use muplar.Base.{if◌then◌else◌, length, drop, Option, none, some}
use muplar.Base.Words.{add64, sub64, u32}
use muplar.Base.Text.{codes}
use muplar.Memory.{Memory, load64, store32, store64}
use muplar.Elf.{Phdr, phdr_at, pt_phdr, pt_load, at_hwcap, at_entry, at_phdr, at_phnum, at_phent}
use muplar.Cstring.{read_string}
use muplar.Linker.{Object, empty_object, Env, Result, ok, fatal, fault, stuck, ◌>>=◌, max_objects}
use muplar.Linker.{soname_size}
use muplar.Linker.{page_align_down, page_align_up, page_size, nonzero}
use muplar.Linker.Dynamic.{auxv_get}
use muplar.Linker.Symbols.{lookup_symbol}
use muplar.Linker.Packed.{relocate_object}
use muplar.Linker.Load.{
  Os, Space, sys_mprotect, pf_to_prot, scan_segments, prot_read, prot_write, prot_exec,
}
use muplar.Linker.Libs.{State, load_list, load_needed_so, relocate_all}
use muplar.Linker.Tls.{assign_tls, tls_start, init_tls}

-- `while (*ep) ep++`: the address of the null pointer that ends the environment.
unfoldable pub env_end : ℕ → Memory → ℕ → Option ℕ
env_end zero m ep = none
env_end (suc fuel) m ep =
    let rest = env_end fuel m (ep + 8) in if load64 m ep == 0 then some ep else rest

-- What the kernel left on the stack.
pub record Stack : Type 0 where
  pub argc : ℕ
  pub argv : ℕ
  pub auxv : ℕ

abbrev pub expect_some {ℓ} : {A : Type ℓ} → Option A → Result A
expect_some none = fault
expect_some (some a) = ok a

unfoldable pub parse_stack : ℕ → Memory → ℕ → Result Stack
parse_stack limit m sp =
    let argc = u32 (load64 m sp) in
    expect_some (env_end limit m (sp + 8 + 8 * (argc + 1))) >>= λ ep.
    ok (record { argc = argc; argv = sp + 8; auxv = ep + 8 })

-- The program headers of the executable, `phentsize` bytes apart.
unfoldable pub exe_phdrs : Memory → (phdr phentsize n : ℕ) → List Phdr
exe_phdrs m phdr phentsize zero = []
exe_phdrs m phdr phentsize (suc n) = phdr_at m phdr ∷ exe_phdrs m (phdr + phentsize) phentsize n

-- The first header that passes the test.
unfoldable pub first_phdr : (Phdr → Bool) → List Phdr → Option Phdr
first_phdr test [] = none
first_phdr test (ph ∷ phs) = let rest = first_phdr test phs in if test ph then some ph else rest

-- Strategy 1: PT_PHDR. Strategy 2: the first PT_LOAD at offset 0. Otherwise 0.
unfoldable pub exe_load_base : ℕ → List Phdr → ℕ
exe_load_base exe_phdr phs = elim (first_phdr (λ ph. ph.p_type == pt_phdr) phs) [
  | some ph ↦ sub64 exe_phdr ph.p_vaddr
  | none ↦ elim (first_phdr (λ ph. ph.p_type == pt_load && ph.p_offset == 0) phs) [
    | some ph ↦ sub64 exe_phdr ph.p_vaddr
    | none ↦ 0
  ]
]

-- What the blocks of the function share.
pub record Exe : Type 0 where
  pub stack : Stack
  pub exe_entry : ℕ
  pub exe_phdr : ℕ
  pub exe_phnum : ℕ
  pub exe_phentsize : ℕ
  pub hwcap : ℕ

unfoldable pub read_auxv : ℕ → Memory → Stack → Result Exe
read_auxv limit m stack = do
  hwcap ← expect_some (auxv_get limit m stack.auxv at_hwcap)
  entry ← expect_some (auxv_get limit m stack.auxv at_entry)
  phdr ← expect_some (auxv_get limit m stack.auxv at_phdr)
  phnum ← expect_some (auxv_get limit m stack.auxv at_phnum)
  phent ← expect_some (auxv_get limit m stack.auxv at_phent)
  ok (record {
    stack = stack;
    exe_entry = entry;
    exe_phdr = phdr;
    exe_phnum = phnum % 2 ^ 16;
    exe_phentsize = phent % 2 ^ 16;
    hwcap = hwcap;
  })

abbrev pub phdrs_of : Exe → Memory → List Phdr
phdrs_of exe m = exe_phdrs m exe.exe_phdr exe.exe_phentsize exe.exe_phnum

-- `g_objects[0]`, with its dynamic section and its TLS segment. A name that is too long for
-- `soname[128]` overruns the array: `fault`.
unfoldable pub exe_object : ℕ → Exe → Memory → Result Object
exe_object limit exe m =
    let argv0 = load64 m exe.stack.argv in
    let named =
      if ltb 0 exe.stack.argc && nonzero argv0 then read_string limit m argv0 else codes "main" in
    let scanned = scan_segments limit m (phdrs_of exe m) (record empty_object {
      soname = named;
      load_base = exe_load_base exe.exe_phdr (phdrs_of exe m);
    }) in
    if leb soname_size (length named) then fault else scanned

-- The executable is registered and its needed libraries are loaded.
unfoldable pub load_all : Env → Os → Exe → Space → Result State
load_all env os exe s = do
  obj ← exe_object env.limit exe s.mem
  let st : State = record { objects = obj ∷ []; space = s }
  if nonzero obj.strtab
      then load_list (load_needed_so (suc max_objects) env os) env.limit obj.strtab obj.needed_off
          st
      else ok st

-- The page range of one segment of the executable.
abbrev pub segment_start : ℕ → Phdr → ℕ
segment_start base ph = add64 (page_align_down ph.p_vaddr) base

abbrev pub segment_end : ℕ → Phdr → ℕ
segment_end base ph = add64 (page_align_up (add64 ph.p_vaddr ph.p_memsz)) base

unfoldable pub exe_range : ℕ → List Phdr → (load_min load_max : ℕ) → ℕ × ℕ
exe_range base [] load_min load_max = (load_min, load_max)
exe_range base (ph ∷ phs) load_min load_max =
    let start = segment_start base ph in
    let end = segment_end base ph in
    exe_range base phs
      (if ph.p_type == pt_load then if ltb start load_min then start else load_min else load_min)
      (if ph.p_type == pt_load then if ltb load_max end then end else load_max else load_max)

-- The permissions of each loadable segment are set again.
unfoldable pub restore_permissions : ℕ → List Phdr → Space → Space
restore_permissions base [] s = s
restore_permissions base (ph ∷ phs) s =
    let start = segment_start base ph in
    let restored =
      sys_mprotect start (sub64 (segment_end base ph) start) (pf_to_prot ph.p_flags) s in
    restore_permissions base phs (if ph.p_type == pt_load then restored else s)

-- The executable is relocated while its whole range can be written. `phs` are the program headers as
-- they were before the TLS block was filled, from which the range is taken.
unfoldable pub relocate_exe :
    Env → Exe → (phs : List Phdr) → Object → List Object → Space → Result Space
relocate_exe env exe phs exe_obj objs s =
    let base = exe_obj.load_base in
    let range = exe_range base phs (2 ^ 64 - 1) 0 in
    let has_segments = not (range.0 == 2 ^ 64 - 1) in
    let opened =
      if has_segments
      then sys_mprotect range.0 (sub64 range.1 range.0) (bit_or prot_read prot_write) s
      else s in
    relocate_object env objs exe_obj env.hwcap env.auxv opened.mem >>= λ m.
    let relocated : Space = record opened { mem = m } in
    ok (if has_segments then restore_permissions base (phdrs_of exe m) relocated else relocated)

-- The instruction after the entry of `rtld_db_dlactivity` becomes `ret`.
unfoldable pub patch_dlactivity : Env → List Object → Space → Space
patch_dlactivity env objs s =
    let address = lookup_symbol env s.mem objs (codes "rtld_db_dlactivity") in
    let page_start = page_align_down address in
    let opened = sys_mprotect page_start page_size (bit_or prot_read prot_write) s in
    let written : Space = record opened { mem = store32 opened.mem (address + 4) 0xd65f03c0 } in
    if address == 0
    then s
    else sys_mprotect page_start page_size (bit_or prot_read prot_exec) written

-- The jump to the program: where it goes, the stack pointer, and the state it finds.
pub record Jump : Type 0 where
  pub entry : ℕ
  pub sp : ℕ
  pub state : State

-- The static TLS offsets are given, and the templates copied.
unfoldable pub place_tls : Env → Os → State → State
place_tls env os st =
    let objs = assign_tls tls_start st.objects in
    record {
      objects = objs;
      space = record st.space { mem = init_tls env (u32 os.gettid) objs st.space.mem };
    }

-- Everything after the libraries are loaded and the TLS block is filled.
unfoldable pub relocate_program : Env → Exe → (phs : List Phdr) → State → Result State
relocate_program env exe phs st = elim st.objects [
  | [] ↦ stuck
  | exe_obj ∷ libs ↦ (do
    s1 ← relocate_exe env exe phs exe_obj st.objects st.space
    s2 ← relocate_all env st.objects libs s1
    ok (record st { space = patch_dlactivity env st.objects s2 }))
]

unfoldable pub linker_main : Env → Os → (sp : ℕ) → Space → Result Jump
linker_main env os sp s = do
  stack ← parse_stack env.limit s.mem sp
  let m = store64 s.mem (env.shared_globals + 0x418) stack.auxv
  exe ← read_auxv env.limit m stack
  let env' : Env = record env { hwcap = exe.hwcap; auxv = stack.auxv }
  st ← load_all env' os exe (record s { mem = m })
  st' ← relocate_program env' exe (phdrs_of exe st.space.mem) (place_tls env' os st)
  ok (record { entry = exe.exe_entry; sp = sp; state = st' })
