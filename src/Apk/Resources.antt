-- ===== src/Apk/Resources.antt =====
-- `resolve_resource_string` in platform/android-aarch64/apk/apk_envelope.cpp.
use muplar.Base.{ℕ, zero, suc, ◌+◌, ◌*◌, ◌/◌, ◌%◌, ◌^◌, List, [], ◌∷◌, Option, none, some}
pub mod Safe
use muplar.Base.{
  Bool, true, false, not, ◌&&◌, ◌||◌, ◌==◌, ltb, leb, if◌then◌else◌, length, get_elem?,
}
use muplar.Apk.{Result, ok, ◌>>=◌, index, read_u16, read_u32}
use muplar.Apk.Chunks.{Chunk, Next, continue, return_with, chunk_loop, enough}
use muplar.Apk.Axml.{string_pool_at}

abbrev pub no_entry : ℕ
no_entry = 0xffffffff

-- The loop over the pairs of a sparse type, from index `i` on: `at` is where they begin, and `end`
-- is the end of the chunk.
unfoldable pub sparse_loop : (count : ℕ) (resources : List ℕ) (at end wanted i : ℕ) → Result ℕ
sparse_loop zero resources at end wanted i = ok no_entry
sparse_loop (suc n) resources at end wanted i =
    let rest = sparse_loop n resources at end wanted (i + 1) in
    let sparse = at + i * 4 % 2 ^ 32 in
    if ltb end (sparse + 4)
    then ok no_entry
    else (read_u16 resources sparse >>= λ key.
        if key == wanted
        then (read_u16 resources (sparse + 2) >>= λ entry_offset. ok (entry_offset * 4))
        else rest)

-- `entry_offset` behind the two ways to find it.
unfoldable pub entry_offset_of :
    (resources : List ℕ) (child : Chunk) (type_flags entry_count wanted : ℕ) → Result ℕ
entry_offset_of resources child type_flags entry_count wanted =
    let at = child.off + child.header_size in
    let end = child.off + child.size in
    if not (type_flags % 2 == 0)
    then sparse_loop entry_count resources at end wanted 0
    else if ltb wanted entry_count && not (ltb end (at + wanted * 4 + 4))
    then read_u32 resources (at + wanted * 4)
    else ok no_entry

-- The string that the entry at an offset stands for.
unfoldable pub entry_string :
    (resources : List ℕ) (strings : List (List ℕ)) (entry end : ℕ) → Result (Option (List ℕ))
entry_string resources strings entry end = if ltb end (entry + 8) then ok none else (do
  entry_size ← read_u16 resources entry
  entry_flags ← read_u16 resources (entry + 2)
  let value = entry + entry_size
  if not (entry_flags % 2 == 0) || ltb end (value + 8) then ok none else (do
    value_type ← index resources (value + 3)
    if not (value_type == 0x03)
        then ok none
        else (read_u32 resources (value + 4) >>= λ string_index.
            ok (get_elem? strings string_index))))

-- A type of the wanted id: the string of the wanted entry.
unfoldable pub type_string_of :
    (resources : List ℕ) (resource_id : ℕ) (strings : List (List ℕ)) (child : Chunk)
    → Result (Option (List ℕ))
type_string_of resources resource_id strings child = do
  type_flags ← index resources (child.off + 9)
  entry_count ← read_u32 resources (child.off + 12)
  entries_start ← read_u32 resources (child.off + 16)
  entry_offset ← entry_offset_of resources child type_flags entry_count (resource_id % 2 ^ 16)
  if entry_offset == no_entry
      then ok none
      else entry_string resources strings (child.off + entries_start + entry_offset)
          (child.off + child.size)

unfoldable pub child_visit :
    (resources : List ℕ) (resource_id : ℕ) (strings : List (List ℕ)) (child : Chunk)
    → Unit {0}
    → Result (Next (Unit {0}) (List ℕ))
child_visit resources resource_id strings child u =
    if not (child.type == 0x0201)
    then ok (continue tt)
    else (index resources (child.off + 8) >>= λ id.
        if not (id == resource_id / 2 ^ 16 % 256)
        then ok (continue tt)
        else (type_string_of resources resource_id strings child >>= λ found. elim found [
          | none ↦ ok (continue tt)
          | some s ↦ ok (return_with s)
        ]))

abbrev pub after_package :
    (strings : List (List ℕ)) → Next (Unit {0}) (List ℕ) → Next (List (List ℕ)) (List ℕ)
after_package strings (continue u) = continue strings
after_package strings (return_with s) = return_with s

-- The state is `global_strings`.
unfoldable pub table_visit :
    (resources : List ℕ) (resource_id : ℕ) (c : Chunk) (global_strings : List (List ℕ))
    → Result (Next (List (List ℕ)) (List ℕ))
table_visit resources resource_id c global_strings =
    if c.type == 0x0001 && length global_strings == 0
    then (string_pool_at resources c.off >>= λ strings. ok (continue strings))
    else if not (c.type == 0x0200) || ltb c.header_size 284
    then ok (continue global_strings)
    else (read_u32 resources (c.off + 8) >>= λ id.
        if not (id == resource_id / 2 ^ 24)
        then ok (continue global_strings)
        else (chunk_loop (enough resources) resources 20 (c.off + c.size)
              (child_visit resources resource_id global_strings) (c.off + c.header_size) tt
            >>= λ end. ok (after_package global_strings end)))

abbrev pub returned_string : Next (List (List ℕ)) (List ℕ) → Option (List ℕ)
returned_string (continue strings) = none
returned_string (return_with s) = some s

unfoldable pub resolve_resource_string :
    (resources : List ℕ) (resource_id : ℕ) → Result (Option (List ℕ))
resolve_resource_string resources resource_id = if ltb (length resources) 12 then ok none else (do
  type ← read_u16 resources 0
  table_header_size ← read_u16 resources 2
  table_size ← read_u32 resources 4
  if not (type == 0x0002) || ltb table_size table_header_size || ltb (length resources) table_size
      then ok none
      else (chunk_loop (enough resources) resources 8 table_size (table_visit resources resource_id)
            table_header_size []
          >>= λ end. ok (returned_string end)))
