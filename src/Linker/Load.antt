-- ===== src/Linker/Load.antt =====
-- `read_at`, `pf_to_prot` and `load_so` of linker64/src/linker.c, with the system calls of
-- linker64/src/syscall.h.
pub mod Reading
pub mod Segments
use Prim.Native.Nat.{bit_or}
use muplar.Base.{
  ℕ, zero, suc, ◌+◌, ◌-◌, ◌*◌, ◌/◌, ◌%◌, ◌^◌, List, [], ◌∷◌, ◌++◌, Bool, not, ◌==◌, ltb, leb,
}
use muplar.Base.{true, false, if◌then◌else◌, length, Option, none, some}
use muplar.Base.Words.{add64, sub64}
use muplar.Base.Int.{ℤ, pos, negsuc, is_negative}
use muplar.Memory.{Memory, of_bytes}
use muplar.Elf.{Ehdr, ehdr_at, Phdr, phdr_at, pt_load, pt_dynamic, pt_tls}
use muplar.Cstring.{memset}
use muplar.Linker.{
  Object, Fatal, read_elf_header, too_many_phdrs, read_phdrs, mmap_reserve, mmap_segment,
}
use muplar.Linker.{Result, ok, fatal, fault, stuck, ◌>>=◌, page_align_down, page_align_up}
use muplar.Linker.Dynamic.{parse_dynamic}

abbrev pub prot_none : ℕ
prot_none = 0

abbrev pub prot_read : ℕ
prot_read = 1

abbrev pub prot_write : ℕ
prot_write = 2

abbrev pub prot_exec : ℕ
prot_exec = 4

abbrev pub map_private : ℕ
map_private = 2

abbrev pub map_fixed : ℕ
map_fixed = 0x10

abbrev pub map_anonymous : ℕ
map_anonymous = 0x20

-- The system calls whose effect on the address space matters, with their arguments.
pub data Call : Type 0 where
  mmap : (addr len prot flags : ℕ) (fd : ℤ) (off : ℕ) → Call
  mprotect : (addr len prot : ℕ) → Call
  close : ℕ → Call

-- What the kernel answers: the file descriptor or the error of `openat`, the new position or the
-- error of `lseek`, the bytes of a `read` at a position (none at the end and on an error), and the
-- address and the memory after an `mmap`.
pub record Os : Type 0 where
  pub openat : List ℕ → ℤ
  pub lseek : ℕ → ℕ → ℤ
  pub read : (fd at len : ℕ) → List ℕ
  pub mmap : Call → Memory → ℕ × Memory
  pub gettid : ℕ

-- The memory, and the calls so far, the last one first.
pub record Space : Type 0 where
  pub mem : Memory
  pub calls : List Call

-- Writes the call down.
unfoldable pub sys_mprotect : (addr len prot : ℕ) → Space → Space
sys_mprotect addr len prot s = record s { calls = mprotect addr len prot ∷ s.calls }

unfoldable pub sys_close : ℕ → Space → Space
sys_close fd s = record s { calls = close fd ∷ s.calls }

-- Makes the call; the address that it returns, and the space after it.
unfoldable pub sys_mmap : Os → Call → Space → ℕ × Space
sys_mmap os call s =
    let (r, m) = os.mmap call s.mem in (r, record { mem = m; calls = call ∷ s.calls })

pub data ReadResult : Type 0 where
  got : List ℕ → ReadResult
  failed : ReadResult
  out_of_fuel : ReadResult

abbrev pub then_got : List ℕ → ReadResult → ReadResult
then_got bs (got cs) = got (bs ++ cs)
then_got bs failed = failed
then_got bs out_of_fuel = out_of_fuel

-- `while (got < len)`: `len` is what is still to be read, `at` where. A round reads a byte at least.
unfoldable pub read_loop : Os → ℕ → (fd at len : ℕ) → ReadResult
read_loop os zero fd at len = if len == 0 then got [] else out_of_fuel
read_loop os (suc fuel) fd at len =
    let bs = os.read fd at len in
    let rest = read_loop os fuel fd (at + length bs) (len - length bs) in
    if len == 0 then got [] else if length bs == 0 then failed else then_got bs rest

unfoldable pub read_at : Os → (fd offset len : ℕ) → ReadResult
read_at os fd offset len =
    if is_negative (os.lseek fd offset) then failed else read_loop os len fd offset len

unfoldable pub pf_to_prot : ℕ → ℕ
pf_to_prot flags =
    let r = if flags / 4 % 2 == 1 then prot_read else 0 in
    let w = if flags / 2 % 2 == 1 then bit_or r prot_write else r in
    if flags % 2 == 1 then bit_or w prot_exec else w

-- A `long` that is negative, as an unsigned word.
abbrev pub long_negative : ℕ → Bool
long_negative v = leb (2 ^ 63) v

-- The local array `phdrs`.
unfoldable pub phdrs_from : Memory → ℕ → ℕ → List Phdr
phdrs_from m zero a = []
phdrs_from m (suc n) a = phdr_at m a ∷ phdrs_from m n (a + 56)

-- The lowest start and the highest end of the loadable segments, before they are aligned.
unfoldable pub load_range : List Phdr → (load_min load_max : ℕ) → ℕ × ℕ
load_range [] load_min load_max = (load_min, load_max)
load_range (ph ∷ phs) load_min load_max =
    let end = add64 ph.p_vaddr ph.p_memsz in
    load_range phs
      (if ph.p_type == pt_load
        then if ltb ph.p_vaddr load_min then ph.p_vaddr else load_min
        else load_min)
      (if ph.p_type == pt_load then if ltb load_max end then end else load_max else load_max)

-- The zeroing of what a segment has in memory and not in the file.
unfoldable pub zero_bss : ℕ → Phdr → Space → Space
zero_bss load_base ph s =
    if ltb ph.p_filesz ph.p_memsz
    then record s {
      mem =
          memset s.mem (add64 (add64 ph.p_vaddr ph.p_filesz) load_base) 0
            (ph.p_memsz - ph.p_filesz);
    }
    else s

-- One loadable segment: mapped for writing, its BSS zeroed, and then its own permissions.
unfoldable pub map_segment : Os → ℕ → ℕ → Phdr → Space → Result Space
map_segment os fd load_base ph s =
    let seg_start = add64 (page_align_down ph.p_vaddr) load_base in
    let seg_end = add64 (page_align_up (add64 ph.p_vaddr ph.p_memsz)) load_base in
    let file_off = page_align_down ph.p_offset in
    let final_prot = pf_to_prot ph.p_flags in
    let len = sub64 seg_end seg_start in
    let call =
      mmap seg_start len (bit_or prot_read prot_write) (bit_or map_private map_fixed) (pos fd)
        file_off in
    let mapped = sys_mmap os call s in
    let zeroed = zero_bss load_base ph mapped.1 in
    if long_negative mapped.0
    then fatal mmap_segment
    else if not (final_prot == bit_or prot_read prot_write)
    then ok (sys_mprotect seg_start len final_prot zeroed)
    else ok zeroed

unfoldable pub map_segments : Os → ℕ → ℕ → List Phdr → Space → Result Space
map_segments os fd load_base [] s = ok s
map_segments os fd load_base (ph ∷ phs) s =
    let rest = map_segments os fd load_base phs in
    if ph.p_type == pt_load then map_segment os fd load_base ph s >>= rest else rest s

-- The last loop: the dynamic section and the TLS segment.
unfoldable pub scan_segments : ℕ → Memory → List Phdr → Object → Result Object
scan_segments limit m [] obj = ok obj
scan_segments limit m (ph ∷ phs) obj =
    let dynamic : Result Object =
      elim (parse_dynamic limit m obj (add64 ph.p_vaddr obj.load_base)) [
        | none ↦ fault
        | some obj' ↦ scan_segments limit m phs obj'
      ] in
    let tls =
      scan_segments limit m phs
        (record obj { tls_vaddr = ph.p_vaddr; tls_filesz = ph.p_filesz; tls_memsz = ph.p_memsz }) in
    let other = scan_segments limit m phs obj in
    if ph.p_type == pt_dynamic then dynamic else if ph.p_type == pt_tls then tls else other

abbrev pub expect : ReadResult → Fatal → Result (List ℕ)
expect (got bs) e = ok bs
expect failed e = fatal e
expect out_of_fuel e = stuck

-- The part of `load_so` after the headers are read.
unfoldable pub load_segments : Os → ℕ → ℕ → List Phdr → Object → Space → Result (Object × Space)
load_segments os limit fd phdrs obj s =
    let range = load_range phdrs (2 ^ 64 - 1) 0 in
    let load_min = page_align_down range.0 in
    let load_max = page_align_up range.1 in
    let call =
      mmap 0 (sub64 load_max load_min) prot_none (bit_or map_private map_anonymous) (negsuc 0) 0 in
    let reserved = sys_mmap os call s in
    let load_base = sub64 reserved.0 load_min in
    if long_negative reserved.0 then fatal mmap_reserve else (do
      s' ← map_segments os fd load_base phdrs reserved.1
      obj' ← scan_segments limit s'.mem phdrs (record obj { load_base = load_base })
      ok (obj', s'))

unfoldable pub load_so : Os → ℕ → Object → ℕ → Space → Result (Object × Space)
load_so os limit obj fd s = do
  header ← expect (read_at os fd 0 64) read_elf_header
  let ehdr = ehdr_at (of_bytes header) 0
  phnum ← if ltb 16 ehdr.e_phnum then fatal too_many_phdrs else ok ehdr.e_phnum
  table ← expect (read_at os fd ehdr.e_phoff (phnum * 56)) read_phdrs
  load_segments os limit fd (phdrs_from (of_bytes table) phnum 0) obj s
