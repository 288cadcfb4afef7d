-- ===== src/Apk/Binary.antt =====
-- The binary manifest, in platform/android-aarch64/apk/apk_envelope.cpp.
use muplar.Base.{ℕ, zero, suc, ◌+◌, List, [], ◌∷◌, ◌++◌, Option, none, some}
pub mod Safe
use muplar.Base.{
  Bool, true, false, not, ◌&&◌, ◌||◌, ◌==◌, ltb, if◌then◌else◌, length, get_or, get_elem?,
}
use muplar.Base.Text.{codes}
use muplar.Apk.{Result, ok, ◌>>=◌, index, read_u16, read_u32}
use muplar.Apk.Find.{same, member, is_some}
use muplar.Apk.Attribute.{or_else, value_or_empty, holds, normalize_activity_name, looks_main}
use muplar.Apk.Plain.{only_base}
use muplar.Apk.Chunks.{Chunk, Next, continue, return_with, chunk_loop, enough, first_chunk}
use muplar.Apk.Axml.{axml_string_pool}

abbrev pub res_xml_start_element_type : ℕ
res_xml_start_element_type = 0x0102

abbrev pub res_xml_end_element_type : ℕ
res_xml_end_element_type = 0x0103

abbrev pub no_index : ℕ
no_index = 0xffffffff

abbrev pub type_string : ℕ
type_string = 0x03

-- The first name of a list that is one of the strings.
unfoldable pub listed_base : (strings : List (List ℕ)) → List (List ℕ) → Option (List ℕ)
listed_base strings [] = none
listed_base strings (base ∷ bases) =
    let rest = listed_base strings bases in if member base strings then some base else rest

unfoldable pub infer_binary_manifest_lib :
    (manifest : List ℕ) → List (List ℕ) → Result (Option (List ℕ))
infer_binary_manifest_lib manifest available_bases = do
  strings ← axml_string_pool manifest
  if not (member (codes "android.app.lib_name") strings)
      then ok none
      else ok (or_else (listed_base strings available_bases) (only_base available_bases))

-- Whether the string of an index is the wanted one.
abbrev pub names : List (List ℕ) → (i : ℕ) (wanted : List ℕ) → Bool
names strings i wanted = holds (get_elem? strings i) wanted

-- The value of the attribute at `a`, as a string.
unfoldable pub string_value : List ℕ → (strings : List (List ℕ)) (a : ℕ) → Result (Option (List ℕ))
string_value manifest strings a = do
  raw_idx ← read_u32 manifest (a + 8)
  if not (raw_idx == no_index) && ltb raw_idx (length strings)
      then ok (get_elem? strings raw_idx)
      else (do
        data_type ← index manifest (a + 15)
        value ← read_u32 manifest (a + 16)
        if data_type == type_string then ok (get_elem? strings value) else ok none)

-- `TYPE_REFERENCE` and `TYPE_DYNAMIC_REFERENCE`
unfoldable pub resource_value : List ℕ → (strings : List (List ℕ)) (a : ℕ) → Result (Option ℕ)
resource_value manifest strings a = do
  data_type ← index manifest (a + 15)
  if data_type == 0x01 || data_type == 0x07
      then (read_u32 manifest (a + 16) >>= λ id. ok (some id))
      else ok none

-- The attributes of an element, from `a` on: `value` reads one of the wanted name.
module _ {V : Type 0} (value : List ℕ → List (List ℕ) → ℕ → Result (Option V)) where
  unfoldable pub attribute_loop :
      (count : ℕ) (manifest : List ℕ) (strings : List (List ℕ)) (wanted : List ℕ)
      (end attr_size a : ℕ)
      → Result (Option V)
  attribute_loop zero manifest strings wanted end attr_size a = ok none
  attribute_loop (suc n) manifest strings wanted end attr_size a =
      let rest = attribute_loop n manifest strings wanted end attr_size (a + attr_size) in
      if ltb end (a + 20)
      then ok none
      else (read_u32 manifest (a + 4) >>= λ name_idx.
          if not (names strings name_idx wanted)
          then rest
          else (value manifest strings a >>= λ found. elim found [
            | none ↦ rest
            | some v ↦ ok (some v)
          ]))

  unfoldable pub element_attribute :
      (manifest : List ℕ) (strings : List (List ℕ)) (c : Chunk) (wanted : List ℕ)
      → Result (Option V)
  element_attribute manifest strings c wanted = do
    attr_start ← read_u16 manifest (c.off + 24)
    attr_size ← read_u16 manifest (c.off + 26)
    attr_count ← read_u16 manifest (c.off + 28)
    attribute_loop attr_count manifest strings wanted (c.off + c.size) attr_size
        (c.off + 16 + attr_start)

  -- A chunk of the search for an element's attribute.
  unfoldable pub element_visit :
      (manifest : List ℕ) (strings : List (List ℕ)) (element attribute : List ℕ) (c : Chunk)
      → Unit {0}
      → Result (Next (Unit {0}) V)
  element_visit manifest strings element attribute c u =
      if not (c.type == res_xml_start_element_type) || ltb (length manifest) (c.off + 36)
      then ok (continue tt)
      else (read_u32 manifest (c.off + 20) >>= λ element_idx.
          if not (names strings element_idx element)
          then ok (continue tt)
          else (element_attribute manifest strings c attribute >>= λ found. elim found [
            | none ↦ ok (continue tt)
            | some v ↦ ok (return_with v)
          ]))

  abbrev pub returned_value : Next (Unit {0}) V → Option V
  returned_value (continue u) = none
  returned_value (return_with v) = some v

  unfoldable pub find_attribute : (manifest element attribute : List ℕ) → Result (Option V)
  find_attribute manifest element attribute = do
    strings ← axml_string_pool manifest
    if length strings == 0 then ok none else (do
      off ← first_chunk manifest
      end ←
          chunk_loop (enough manifest) manifest 8 (length manifest)
            (element_visit manifest strings element attribute) off tt
      ok (returned_value end))

unfoldable pub infer_binary_manifest_string_attribute :
    (manifest element attribute : List ℕ) → Result (Option (List ℕ))
infer_binary_manifest_string_attribute = find_attribute string_value

unfoldable pub infer_binary_manifest_resource_attribute :
    (manifest element attribute : List ℕ) → Result (Option ℕ)
infer_binary_manifest_resource_attribute = find_attribute resource_value

-- The same search, for the attribute `package` of the element `manifest`.
unfoldable pub infer_binary_manifest_package : (manifest : List ℕ) → Result (Option (List ℕ))
infer_binary_manifest_package manifest =
    find_attribute string_value manifest (codes "manifest") (codes "package")
