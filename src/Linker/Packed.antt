-- ===== src/Linker/Packed.antt =====
-- The SLEB128 decoder, `apply_android_rela` and `relocate_object` of linker64/src/linker.c. A decoder
-- is the list of the bytes from `current` to `end`, which is read again from memory after each
-- relocation, since a relocation may write into the table.
pub mod Sleb
pub mod Table
pub mod Groups
pub mod RoundTrip
use Prim.Native.Nat.{bit_or}
use muplar.Base.{
  ℕ, zero, suc, ◌+◌, ◌-◌, ◌*◌, ◌/◌, ◌%◌, ◌^◌, List, [], ◌∷◌, Bool, ◌||◌, ◌&&◌, not, ◌==◌, ltb,
}
use muplar.Base.{true, false, if◌then◌else◌, length, drop, get_or}
use muplar.Base.Words.{add64, u64, u32}
use muplar.Memory.{Memory, load}
use muplar.Elf.{Rela}
use muplar.Linker.{
  Object, Env, Fatal, sleb_out_of_bounds, invalid_signature, Result, ok, fatal, stuck, ◌>>=◌,
  nonzero,
}
use muplar.Linker.Reloc.{apply_entry, apply_rela}
use muplar.Linker.Relr.{apply_relr}

-- `byte & 127`, `byte & 128` and `byte & 64`.
abbrev pub payload : ℕ → ℕ
payload byte = byte % 128

abbrev pub continues : ℕ → Bool
continues byte = byte / 128 % 2 == 1

abbrev pub sign_bit : ℕ → Bool
sign_bit byte = byte / 64 % 2 == 1

-- What follows the loop: the sign is extended if the value does not fill the word.
unfoldable pub extend_sign : ℕ → ℕ → ℕ → ℕ
extend_sign byte value shift =
    if ltb shift 64 && sign_bit byte then bit_or value (2 ^ 64 - 2 ^ shift) else value

-- The loop. From a shift of 64 on, C leaves `<<` open; here such bits are lost.
unfoldable pub sleb_loop : List ℕ → ℕ → ℕ → Result (ℕ × List ℕ)
sleb_loop [] value shift = fatal sleb_out_of_bounds
sleb_loop (byte ∷ rest) value shift =
    let value' = bit_or value (u64 (payload byte * 2 ^ shift)) in
    let shift' = u32 (shift + 7) in
    let more = sleb_loop rest value' shift' in
    if continues byte then more else ok (extend_sign byte value' shift', rest)

-- `sleb128_decoder_pop_front`
unfoldable pub pop_front : List ℕ → Result (ℕ × List ℕ)
pop_front bytes = sleb_loop bytes 0 0

-- The bits of `group_flags`: 1, 2, 4 and 8.
abbrev pub grouped_by_info : ℕ → Bool
grouped_by_info flags = flags % 2 == 1

abbrev pub grouped_by_offset_delta : ℕ → Bool
grouped_by_offset_delta flags = flags / 2 % 2 == 1

abbrev pub grouped_by_addend : ℕ → Bool
grouped_by_addend flags = flags / 4 % 2 == 1

abbrev pub has_addend : ℕ → Bool
has_addend flags = flags / 8 % 2 == 1

-- The decoder and the three running values; `acc` is what the relocations have made so far.
pub record Unpack (S : Type 0) : Type 0 where
  pub dec : List ℕ
  pub r_offset : ℕ
  pub r_info : ℕ
  pub r_addend : ℕ
  pub acc : S

-- A value that is read only if the test holds.
abbrev pub pop_if : Bool → ℕ → List ℕ → Result (ℕ × List ℕ)
pop_if test old dec = if test then pop_front dec else ok (old, dec)

-- What is done with each relocation is an argument: `apply_rela` on it, in the program. `reread` gives
-- the bytes that are left as they stand afterwards.
module _ {S : Type 0} (visit : Rela → S → S) (reread : S → List ℕ → List ℕ) where
  -- One round of the inner loop.
  unfoldable pub unpack_entry : (flags delta : ℕ) → Unpack S → Result (Unpack S)
  unpack_entry flags delta u = do
    (step, dec) ← pop_if (not (grouped_by_offset_delta flags)) delta u.dec
    (info, dec) ← pop_if (not (grouped_by_info flags)) u.r_info dec
    (change, dec) ← pop_if (has_addend flags && not (grouped_by_addend flags)) 0 dec
    let offset = add64 u.r_offset step
    let addend = add64 u.r_addend change
    let rela : Rela = record { r_offset = offset; r_info = info; r_addend = addend }
    let acc = visit rela u.acc
    ok (record {
      dec = reread acc dec;
      r_offset = offset;
      r_info = info;
      r_addend = addend;
      acc = acc;
    })

  -- The inner loop, with `n` rounds left.
  unfoldable pub group_loop : ℕ → (flags delta : ℕ) → Unpack S → Result (Unpack S)
  group_loop zero flags delta u = ok u
  group_loop (suc n) flags delta u = do u' ← unpack_entry flags delta u; group_loop n flags delta u'

  -- The head of a group: its size, its flags, and what all its relocations share.
  unfoldable pub unpack_group : Unpack S → Result (ℕ × Unpack S)
  unpack_group u = do
    (group_size, dec) ← pop_front u.dec
    (flags, dec) ← pop_front dec
    (delta, dec) ← pop_if (grouped_by_offset_delta flags) 0 dec
    (info, dec) ← pop_if (grouped_by_info flags) u.r_info dec
    (change, dec) ← pop_if (has_addend flags && grouped_by_addend flags) 0 dec
    let addend = if has_addend flags then add64 u.r_addend change else 0
    u' ←
        group_loop group_size flags delta (record {
          dec = dec;
          r_offset = u.r_offset;
          r_info = info;
          r_addend = addend;
          acc = u.acc;
        })
    ok (group_size, u')

  -- `for (idx = 0; idx < num_relocs; idx += group_size)`. A group takes two bytes at least.
  unfoldable pub groups_loop : ℕ → (num_relocs idx : ℕ) → Unpack S → Result S
  groups_loop zero num_relocs idx u = stuck
  groups_loop (suc fuel) num_relocs idx u = elim (ltb idx num_relocs) [
    | false ↦ ok u.acc
    | true ↦ unpack_group u >>= λ g. groups_loop fuel num_relocs (add64 idx g.0) g.1
  ]

  -- The table: the signature "APS2", the number of relocations, the first offset and the groups.
  unfoldable pub unpack : List ℕ → S → Result S
  unpack packed s =
      if ltb (length packed) 4
      then ok s
      else if not (get_or packed 0 0 == b'A')
          || not (get_or packed 1 0 == b'P')
          || not (get_or packed 2 0 == b'S')
          || not (get_or packed 3 0 == b'2')
      then fatal invalid_signature
      else (do
        (num_relocs, dec) ← pop_front (drop 4 packed)
        (r_offset, dec) ← pop_front dec
        groups_loop (suc (length packed)) num_relocs 0
            (record { dec = dec; r_offset = r_offset; r_info = 0; r_addend = 0; acc = s }))

-- The last bytes of the table, as memory holds them.
abbrev pub last_bytes : (table size : ℕ) → Memory → List ℕ → List ℕ
last_bytes table size m dec = load m (table + (size - length dec)) (length dec)

unfoldable pub apply_android_rela :
    Env → List Object → Object → (hwcap auxv table size : ℕ) → Memory → Result Memory
apply_android_rela env objs obj hwcap auxv table size m =
    unpack (apply_entry env objs obj hwcap auxv) (last_bytes table size) (load m table size) m

-- `if (table && count) apply_rela(obj, table, count, …)`
abbrev pub apply_table : Env → List Object → Object → ℕ → ℕ → ℕ → ℕ → Memory → Memory
apply_table env objs obj hwcap auxv table count m =
    if nonzero table && nonzero count then apply_rela env objs obj hwcap auxv table count m else m

unfoldable pub relocate_object : Env → List Object → Object → ℕ → ℕ → Memory → Result Memory
relocate_object env objs obj hwcap auxv m = do
  let m1 = apply_relr obj m
  m2 ←
      if nonzero obj.android_rela && nonzero obj.android_rela_size
      then apply_android_rela env objs obj hwcap auxv obj.android_rela obj.android_rela_size m1
      else ok m1
  let m3 = apply_table env objs obj hwcap auxv obj.rela obj.rela_count m2
  ok (apply_table env objs obj hwcap auxv obj.jmprel obj.jmprel_count m3)
