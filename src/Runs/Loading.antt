-- ===== src/Runs/Loading.antt =====
-- Examples of the theorems on loading: the dynamic section, the files, the segments, the libraries.
use Prim.Native.Nat.{◌≤◌, ◌<◌}
use muplar.Base.{
  ℕ, zero, suc, ◌+◌, ◌^◌, ◌≡◌, refl, arith, List, [], ◌∷◌, ◌++◌, some, length, length-take,
  length-drop, take, drop,
}
use muplar.Base.Text.{codes}
use muplar.Base.Words.{sub64}
use muplar.Memory.{Memory, of_bytes, bytes, load64}
use muplar.Elf.{Auxv, Dyn, Phdr}
use muplar.Linker.{Object, empty_object, max_objects, page_align_up}
use muplar.Linker.Dynamic.{auxv_get, parse_dynamic}
use muplar.Linker.Dynamic.Laws.{first_value, auxv_get-first_value}
use muplar.Linker.Dynamic.Needed.{IsParsed, parse_dynamic-IsParsed}
use muplar.Linker.Load.{read_at, got, failed, load_range, load_segments, Space}
use muplar.Linker.Load.Reading.{Reads, read_at-content}
use muplar.Linker.Load.Segments.{Made, Inside, range_size, reservation, load_segments-Inside}
use muplar.Linker.Libs.{load_needed_so, dlopen}
use muplar.Linker.Libs.Loads.{Yields}
use muplar.Linker.Libs.Growth.{Registers, load_needed_so_ends}
use muplar.Linker.Libs.Opening.{Opened, dlopen_ends}
use muplar.Linker.Main.{linker_main}
use muplar.Linker.Main.Ends.{Started, linker_main_ends}
use muplar.Runs.Data.{env, os, space, state, content}

-- An auxiliary vector with AT_HWCAP and AT_ENTRY.
abbrev vector : Memory
vector = of_bytes (bytes 8 16 ++ bytes 8 3 ++ bytes 8 9 ++ bytes 8 0x40)

abbrev entries : List Auxv
entries = record { a_type = 16; a_val = 3 } ∷ record { a_type = 9; a_val = 0x40 } ∷ []

auxv_get-first_value_example : auxv_get 8 vector 0 9 ≡ some (first_value 9 entries)
unfolding of_bytes load64 bytes
auxv_get-first_value_example =
    auxv_get-first_value 8 vector 0 9 entries
      (refl, (λ e. absurd (omega (arith, e))), (refl, (λ e. absurd (omega (arith, e))), refl))
      (omega arith)

-- A dynamic section with a string table and two needed libraries.
abbrev section_bytes : Memory
section_bytes =
    of_bytes (bytes 8 5 ++ bytes 8 0x100 ++ bytes 8 1 ++ bytes 8 7 ++ bytes 8 1 ++ bytes 8 9)

abbrev dyns : List Dyn
dyns =
    record { d_tag = 5; d_val = 0x100 }
    ∷ record { d_tag = 1; d_val = 7 }
    ∷ record { d_tag = 1; d_val = 9 }
    ∷ []

parse_dynamic-IsParsed_example :
    (r : Object) × (parse_dynamic 8 section_bytes empty_object 0 ≡ some r)
    × IsParsed empty_object dyns r
unfolding of_bytes load64 bytes
parse_dynamic-IsParsed_example =
    parse_dynamic-IsParsed 8 section_bytes empty_object 0 dyns
      (
        refl,
        (λ e. absurd (omega (arith, e))),
        (refl, (λ e. absurd (omega (arith, e))), (refl, (λ e. absurd (omega (arith, e))), refl)),
      )
      (omega arith) refl

-- The kernel of the examples reads the file as `read` promises.
os-Reads : Reads os 3 content
os-Reads = record {
  seeks = λ offset. refl;
  part = λ at len. (len, refl, omega arith);
  progress = λ at len some_bytes inside. progress at len some_bytes inside;
}
  where
    progress :
        (at len : ℕ) → 0 < len → at < length content → 0 < length (take len (drop at content))
    progress at zero h lt = absurd (omega (arith, h))
    progress at (suc len) h lt =
        omega (arith, length-take (suc len) (drop at content), length-drop at content)

read_at-content_example :
    (2 + 4 ≤ 8 → read_at os 3 2 4 ≡ got (take 4 (drop 2 content)))
    × (0 < 4 → 8 < 2 + 4 → read_at os 3 2 4 ≡ failed)
read_at-content_example = read_at-content os 3 content os-Reads 2 4

-- Two loadable segments with a gap between them.
abbrev text : Phdr
text = record {
  p_type = 1;
  p_flags = 5;
  p_offset = 0;
  p_vaddr = 0x1000;
  p_paddr = 0;
  p_filesz = 8;
  p_memsz = 8;
  p_align = 4096;
}

abbrev phdrs : List Phdr
phdrs = text ∷ record text { p_flags = 6; p_vaddr = 0x4010; p_memsz = 16 } ∷ []

range_fits : 0x7000000 + range_size phdrs ≤ 2 ^ 63
unfolding sub64 page_align_up load_range
range_fits = omega arith

load_segments-Inside_example :
    (let r = (os.mmap (reservation phdrs) space.mem).0 in
      Yields
        (λ (out : Object × Space). Made (Inside r (r + range_size phdrs)) space out.1)
        (load_segments os 64 3 phdrs empty_object space))
load_segments-Inside_example =
    load_segments-Inside os 64 3 phdrs empty_object space
      ((λ e. (omega arith, omega arith)), ((λ e. (omega arith, omega arith)), tt)) range_fits

load_needed_so_ends_example :
    Yields
      (Registers (codes "libm.so") state)
      (load_needed_so (suc max_objects) env os (codes "libm.so") state)
load_needed_so_ends_example = load_needed_so_ends env os (codes "libm.so") state (omega arith)

dlopen_ends_example :
    Yields (Opened (codes "/lib/libm.so") state) (dlopen env os (some (codes "/lib/libm.so")) state)
dlopen_ends_example = dlopen_ends env os (codes "/lib/libm.so") state (omega arith)

linker_main_ends_example : Yields (Started env 0x100 space) (linker_main env os 0x100 space)
linker_main_ends_example = linker_main_ends env os 0x100 space
