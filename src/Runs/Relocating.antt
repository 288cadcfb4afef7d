-- ===== src/Runs/Relocating.antt =====
-- Examples of the theorems on symbols, relocations and the TLS block, and on the parcel.
use Prim.Native.Nat.{◌<◌, ◌≤◌}
use muplar.Base.{
  ℕ, zero, suc, ◌+◌, ◌-◌, ◌%◌, ◌^◌, ◌≡◌, ◌⊎◌, inl, inr, refl, arith, List, [], ◌∷◌, ◌++◌, All, none,
  some, true, false, length,
}
use muplar.Base.Int.{negsuc}
use muplar.Base.Words.{add64}
use muplar.Base.Text.{codes}
use muplar.Memory.{Memory, of_bytes, bytes, load16, load32, load64}
use muplar.Elf.{Rela, Sym, sym_at}
use muplar.Linker.{Object, empty_object, Fatal, ok, fatal}
use muplar.Linker.Hash.Laws.{IsNamed, find_symbol-IsNamed}
use muplar.Linker.Symbols.{
  symbol_address, find_symbol, lookup_symbol, dl_iterate_phdr, PhdrInfo, linear_lookup, linear_loop,
  builtin,
}
use muplar.Linker.Symbols.Order.{lookup_symbol_order, dl_iterate_phdr-until, until, visible_infos}
use muplar.Linker.Reloc.{apply_entry, apply_rela}
use muplar.Linker.Reloc.Frame.{slot, entry, ApartBy, Apart, Outside, apply_rela_frame}
use muplar.Linker.Reloc.Relative.{IsRelative, apply_rela_relative}
use muplar.Linker.Packed.{apply_android_rela, pop_front}
use muplar.Linker.Packed.Sleb.{encode, pattern64, pop_front-encode}
use muplar.Linker.Packed.Table.{apply_android_rela-ends}
use muplar.Linker.Packed.Groups.{Group, IsEntry, IsGroup, pack, relas, relas_of, first_rela}
use muplar.Linker.Packed.RoundTrip.{Beside, visit_all, apply_android_rela-pack}
use muplar.Memory.{store}
use muplar.Memory.Laws.{load-store}
use muplar.Linker.Tls.{assign_tls, tls_start, copy_templates}
use muplar.Linker.Tls.Layout.{
  tls_need, tls_end, Laid, EndsBy, assign_tls_layout, copy_templates_block,
}
use muplar.Parcel.{Jni, align4, put, get}
use muplar.Parcel.Ops.{empty_parcel}
use muplar.Parcel.RoundTrip.{rewind, get-put}
use muplar.Cstring.{strcmp_at, strcmp}
use muplar.Png.{put_blocks, empty_buffer}
use muplar.Png.Blocks.{inflate_stored, put_blocks-inflate}
use muplar.Runs.Data.{zeros, env, memory, library}

-- Two relocations that share their info and a step of 8 and have no addends, and two with addends
-- that share nothing.
abbrev groups : List Group
groups =
    record {
      by_info = true;
      by_offset = true;
      by_addend = false;
      with_addend = false;
      step = 8;
      info = 1027;
      change = 0;
      entries =
          record { step = 0; info = 0; change = 0 }
          ∷ record { step = 0; info = 0; change = 0 }
          ∷ [];
    }
    ∷ record {
      by_info = false;
      by_offset = false;
      by_addend = false;
      with_addend = true;
      step = 0;
      info = 0;
      change = 0;
      entries =
          record { step = 16; info = 1027; change = 0x30 }
          ∷ record { step = 2 ^ 64 - 8; info = 1026; change = 2 ^ 64 - 1 }
          ∷ [];
    }
    ∷ []

groups-IsGroup : All IsGroup groups
groups-IsGroup = (
  record {
    step = omega arith;
    info = omega arith;
    change = omega arith;
    entries = (small_entry, (small_entry, tt));
    ne_nil = omega arith;
  },
  (
    record {
      step = omega arith;
      info = omega arith;
      change = omega arith;
      entries = (
        record { step = omega arith; info = omega arith; change = omega arith },
        (record { step = omega arith; info = omega arith; change = omega arith }, tt),
      );
      ne_nil = omega arith;
    },
    tt,
  ),
)
  where
    small_entry : IsEntry (record { step = 0; info = 0; change = 0 })
    small_entry = record { step = omega arith; info = omega arith; change = omega arith }

abbrev group_relas : List Rela
group_relas = relas (first_rela 0x200) groups

group_relas_lem :
    group_relas
    ≡ record { r_offset = 0x208; r_info = 1027; r_addend = 0 }
      ∷ record { r_offset = 0x210; r_info = 1027; r_addend = 0 }
      ∷ record { r_offset = 0x220; r_info = 1027; r_addend = 0x30 }
      ∷ record { r_offset = 0x218; r_info = 1026; r_addend = 0x2f }
      ∷ []
unfolding relas relas_of add64
group_relas_lem = refl

group_relas-Beside : All (Beside empty_object 0x1000 (length (pack 0x200 groups))) group_relas
unfolding relas relas_of add64
group_relas-Beside =
    (inl (omega arith), (inl (omega arith), (inl (omega arith), (inl (omega arith), tt))))

abbrev with_table : Memory
with_table = store zeros 0x1000 (pack 0x200 groups)

apply_android_rela-pack_example :
    apply_android_rela env [] empty_object 0 0 0x1000 (length (pack 0x200 groups)) with_table
    ≡ ok (visit_all (apply_entry env [] empty_object 0 0) group_relas with_table)
apply_android_rela-pack_example =
    apply_android_rela-pack env [] empty_object 0 0 0x1000 (length (pack 0x200 groups)) 0x200 groups
      with_table (load-store zeros 0x1000 (pack 0x200 groups)) (omega arith) (omega arith)
      groups-IsGroup group_relas-Beside

pop_front-encode_example :
    pop_front (encode (negsuc 299) ++ codes "x") ≡ ok (pattern64 (negsuc 299), codes "x")
pop_front-encode_example = pop_front-encode (negsuc 299) (codes "x") (omega arith)

abbrev table_start : Memory
table_start = store zeros 0x1000 (codes "APS2")

apply_android_rela-ends_example :
    ((m' : Memory) × (apply_android_rela env [] empty_object 0 0 0x1000 4 table_start ≡ ok m'))
    ⊎ ((e : Fatal) × (apply_android_rela env [] empty_object 0 0 0x1000 4 table_start ≡ fatal e))
apply_android_rela-ends_example =
    apply_android_rela-ends env [] empty_object 0 0 0x1000 4 table_start

slot_lem : slot library (entry memory 72 0) ≡ 0x1200
unfolding of_bytes load64 add64 bytes
slot_lem = refl

apart : Apart memory library 72 1
apart zero lt = inr (omega (arith, slot_lem))
apart (suc k) lt = absurd (omega arith)

outside : (k : ℕ) → k < 1 → Outside 0x11ff (slot library (entry memory 72 k)) 16
outside zero lt = inl (omega (arith, slot_lem))
outside (suc k) lt = absurd (omega arith)

apply_rela_frame_example : apply_rela env [] library 0 0 72 1 memory 0x11ff ≡ memory 0x11ff
apply_rela_frame_example = apply_rela_frame env [] library 0 0 72 1 memory 0x11ff apart outside

-- Two relative relocations of adjacent words.
abbrev adjacent : Memory
adjacent = of_bytes (
    bytes 8 0x200
    ++ bytes 8 1027
    ++ bytes 8 0x30
    ++ (bytes 8 0x208 ++ bytes 8 1027 ++ bytes 8 0x40))

adjacent_slots :
    (slot library (entry adjacent 0 0) ≡ 0x1200)
    × (slot library (entry adjacent 0 1) ≡ 0x1208)
    × ((entry adjacent 0 0).r_info % 2 ^ 32 ≡ 1027)
    × ((entry adjacent 0 1).r_info % 2 ^ 32 ≡ 1027)
unfolding of_bytes load64 add64 bytes
adjacent_slots = (refl, refl, refl, refl)

adjacent-ApartBy : ApartBy 8 adjacent library 0 2
adjacent-ApartBy zero lt = inr (omega (arith, adjacent_slots.0))
adjacent-ApartBy (suc zero) lt = inr (omega (arith, adjacent_slots.1))
adjacent-ApartBy (suc (suc k)) lt = absurd (omega arith)

adjacent-IsRelative : IsRelative adjacent library 0 2
adjacent-IsRelative = record {
  relative = λ k lt. type_of k lt;
  separate = λ j k lt lt'. apart_pair j k lt lt';
}
  where
    type_of : (k : ℕ) → k < 2 → (entry adjacent 0 k).r_info % 2 ^ 32 ≡ 1027
    type_of zero lt = adjacent_slots.2
    type_of (suc zero) lt = adjacent_slots.3
    type_of (suc (suc k)) lt = absurd (omega arith)

    apart_pair :
        (j k : ℕ)
        → j < k
        → k < 2
        → (slot library (entry adjacent 0 j) + 8 ≤ slot library (entry adjacent 0 k))
          ⊎ (slot library (entry adjacent 0 k) + 8 ≤ slot library (entry adjacent 0 j))
    apart_pair zero (suc zero) lt lt' = inl (omega (arith, adjacent_slots.0, adjacent_slots.1))
    apart_pair zero zero lt lt' = absurd (omega arith)
    apart_pair (suc j) zero lt lt' = absurd (omega arith)
    apart_pair (suc j) (suc zero) lt lt' = absurd (omega arith)
    apart_pair j (suc (suc k)) lt lt' = absurd (omega arith)

apply_rela_relative_example :
    load64 (apply_rela env [] library 0 0 0 2 adjacent) (slot library (entry adjacent 0 1))
    ≡ add64 0x1000 (entry adjacent 0 1).r_addend
apply_rela_relative_example =
    apply_rela_relative env [] library 0 0 0 2 adjacent 1 adjacent-ApartBy adjacent-IsRelative
      (omega arith)

-- The symbol `f` of the library.
abbrev f_symbol : Sym
f_symbol = sym_at memory 40

f_found : find_symbol memory library (codes "f") ≡ some f_symbol
unfolding find_symbol linear_lookup linear_loop strcmp_at of_bytes load64 load32 load16 bytes
f_found = refl

find_symbol-IsNamed_example : IsNamed memory library (codes "f") f_symbol
find_symbol-IsNamed_example =
    find_symbol-IsNamed memory library (codes "f") f_symbol ((λ e. absurd (omega (arith, e))), tt)
      f_found

no_symbols : find_symbol memory empty_object (codes "f") ≡ none
unfolding find_symbol linear_lookup
no_symbols = refl

not_builtin : builtin env (codes "f") ≡ none
unfolding builtin strcmp
not_builtin = refl

lookup_symbol_order_example :
    ((obj : Object) (s : Sym)
      → find_symbol memory obj (codes "f") ≡ some s
      → lookup_symbol env memory ((empty_object ∷ []) ++ obj ∷ []) (codes "f")
        ≡ symbol_address env obj s)
    × (lookup_symbol env memory (empty_object ∷ []) (codes "f") ≡ 0)
lookup_symbol_order_example =
    lookup_symbol_order env memory (empty_object ∷ []) [] (codes "f") not_builtin (no_symbols, tt)

-- A callback that counts, and stops at the second call.
abbrev count : PhdrInfo → ℕ → ℕ × ℕ
count phdrs n = (n, suc n)

dl_iterate_phdr-until_example :
    dl_iterate_phdr count memory (library ∷ empty_object ∷ []) 0
    ≡ until count (visible_infos memory 0 (library ∷ empty_object ∷ [])) 0
dl_iterate_phdr-until_example = dl_iterate_phdr-until count memory (library ∷ empty_object ∷ []) 0

-- Two objects with TLS segments, and one without.
abbrev threads : List Object
threads =
    record empty_object { tls_memsz = 24; tls_filesz = 8; tls_vaddr = 0x100 }
    ∷ empty_object
    ∷ record empty_object { tls_memsz = 40; tls_filesz = 40; tls_vaddr = 0x200 }
    ∷ []

assign_tls_layout_example :
    Laid tls_start (assign_tls tls_start threads)
    × EndsBy (tls_start + tls_need threads) (assign_tls tls_start threads)
assign_tls_layout_example = assign_tls_layout threads needed
  where
    needed : tls_start + tls_need threads < 2 ^ 64
    needed = unfold tls_need in omega arith

copy_templates_block_example :
    copy_templates 0x10000 (assign_tls tls_start threads) memory 0x10010 ≡ memory 0x10010
copy_templates_block_example =
    copy_templates_block 0x10000 threads memory 0x10010 (unfold tls_end in omega arith)
      (omega arith, (omega arith, (omega arith, tt))) (inl (omega arith))

-- An environment whose allocator never refuses.
abbrev jni : Jni
jni = record {
  realloc = λ size. true;
  new_global_ref = λ r. r;
  new_local_ref = λ r. r;
  get_string_utf_chars = some;
  get_string_chars = some;
  new_string_utf = some;
  new_string = some;
}

get-put_example :
    ((put jni 8 0x123456789 empty_parcel).0 ≡ true)
    × (align4 0 + 8 ≤ (put jni 8 0x123456789 empty_parcel).1.capacity)
    × (get 8 (rewind 0 (put jni 8 0x123456789 empty_parcel).1)
        ≡ (0x123456789, (put jni 8 0x123456789 empty_parcel).1))
get-put_example = get-put jni 8 0x123456789 empty_parcel (λ size. refl) (omega arith) (omega arith)

put_blocks-inflate_example :
    (bs : List ℕ) × ((put_blocks (λ size. true) 3 empty_buffer (codes "abc")).content ≡ [] ++ bs)
    × (inflate_stored 3 bs ≡ some (codes "abc"))
put_blocks-inflate_example =
    put_blocks-inflate (λ size. true) empty_buffer (codes "abc") (λ size. refl) refl (omega arith)
      (omega arith)
