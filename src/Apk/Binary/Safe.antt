-- ===== src/Apk/Binary/Safe.antt =====
-- The readers of a binary manifest stay inside of it, and end unless it has a chunk of size 0.
use Prim.Native.Nat.{◌≤◌}
use muplar.Base.{ℕ, zero, suc, ◌+◌, arith, inr, List, Option, none, some}
use muplar.Base.{not, ◌&&◌, ◌||◌, ◌==◌, ltb, length}
use muplar.Base.Text.{codes}
use muplar.Apk.{Result}
use muplar.Apk.Find.{member}
use muplar.Apk.Runs.{Runs, gives, Any, Runs-bind, Runs-if, index-Runs, read_u16-Runs, read_u32-Runs}
use muplar.Apk.Chunks.{Chunk, enough}
use muplar.Apk.Chunks.Ends.{EmptyChunk, Each, chunk_loop-Runs, first_chunk-Runs}
use muplar.Apk.Axml.Safe.{axml_string_pool-Runs}
use muplar.Apk.Binary.{
  names, string_value, resource_value, attribute_loop, element_attribute, element_visit,
  find_attribute, infer_binary_manifest_string_attribute, infer_binary_manifest_resource_attribute,
  infer_binary_manifest_package, infer_binary_manifest_lib, no_index, type_string,
  res_xml_start_element_type,
}

-- A reader of values stays inside if the 20 bytes of the attribute do.
abbrev pub Reads :
    (Spins : Type 0) {V : Type 0} → (List ℕ → List (List ℕ) → ℕ → Result (Option V)) → Type 0
Reads Spins value =
    (manifest : List ℕ) (strings : List (List ℕ)) (a : ℕ)
    → a + 20 ≤ length manifest
    → Runs Spins Any (value manifest strings a)

module _ {Spins : Type 0} where
  pub string_value-Reads : Reads Spins string_value
  unfolding string_value
  string_value-Reads manifest strings a h = Runs-bind (read_u32-Runs manifest (a + 8)) λ raw_idx h0.
      Runs-if (not (raw_idx == no_index) && ltb raw_idx (length strings)) (λ found. gives tt)
        λ other. Runs-bind (index-Runs manifest (a + 15) (omega arith)) λ data_type h1.
          Runs-bind (read_u32-Runs manifest (a + 16))
            λ value h2. Runs-if (data_type == type_string) (λ found. gives tt) (λ other'. gives tt)

  pub resource_value-Reads : Reads Spins resource_value
  unfolding resource_value
  resource_value-Reads manifest strings a h =
      Runs-bind (index-Runs manifest (a + 15) (omega arith)) λ data_type h1.
        Runs-if (data_type == 0x01 || data_type == 0x07)
          (λ found. Runs-bind (read_u32-Runs manifest (a + 16)) λ value h2. gives tt)
          (λ other. gives tt)

  module _ {V : Type 0} (value : List ℕ → List (List ℕ) → ℕ → Result (Option V))
      (reads : Reads Spins value) where
    found_or-Runs :
        {B : Type 0} {P : B → Type 0} {rest : Result B} {f : V → Result B} (found : Option V)
        → Runs Spins P rest
        → ((v : V) → Runs Spins P (f v))
        → Runs Spins P (elim found [ none ↦ rest | some v ↦ f v ])
    found_or-Runs none h k = h
    found_or-Runs (some v) h k = k v

    attribute_loop-Runs :
        (n : ℕ) (manifest : List ℕ) (strings : List (List ℕ)) (wanted : List ℕ)
        (end attr_size a : ℕ)
        → end ≤ length manifest
        → Runs Spins Any (attribute_loop value n manifest strings wanted end attr_size a)
    unfolding attribute_loop
    attribute_loop-Runs zero manifest strings wanted end attr_size a h = gives tt
    attribute_loop-Runs (suc n) manifest strings wanted end attr_size a h =
        let rest = attribute_loop-Runs n manifest strings wanted end attr_size (a + attr_size) h in
        Runs-if (ltb end (a + 20)) (λ done. gives tt)
          λ more. Runs-bind (read_u32-Runs manifest (a + 4)) λ name_idx h0.
            Runs-if (not (names strings name_idx wanted)) (λ other. rest)
              λ found.
                Runs-bind (reads manifest strings a (ground arith))
                  λ o h1. found_or-Runs o rest (λ v. gives tt)

    pub element_attribute-Runs :
        (manifest : List ℕ) (strings : List (List ℕ)) (c : Chunk) (wanted : List ℕ)
        → c.off + c.size ≤ length manifest
        → Runs Spins Any (element_attribute value manifest strings c wanted)
    unfolding element_attribute
    element_attribute-Runs manifest strings c wanted h =
        Runs-bind (read_u16-Runs manifest (c.off + 24)) λ attr_start h0.
          Runs-bind (read_u16-Runs manifest (c.off + 26)) λ attr_size h1.
            Runs-bind (read_u16-Runs manifest (c.off + 28)) λ attr_count h2.
              attribute_loop-Runs attr_count manifest strings wanted (c.off + c.size) attr_size
                (c.off + 16 + attr_start) h

    element_visit-Runs :
        (manifest : List ℕ) (strings : List (List ℕ)) (element attribute : List ℕ) (c : Chunk)
        (u : Unit {0})
        → c.off + c.size ≤ length manifest
        → Runs Spins (Each Any Any) (element_visit value manifest strings element attribute c u)
    unfolding element_visit
    element_visit-Runs manifest strings element attribute c u h =
        Runs-if (not (c.type == res_xml_start_element_type) || ltb (length manifest) (c.off + 36))
          (λ other. gives tt)
          λ start. Runs-bind (read_u32-Runs manifest (c.off + 20)) λ element_idx h0.
            Runs-if (not (names strings element_idx element)) (λ other. gives tt)
              λ here.
                Runs-bind (element_attribute-Runs manifest strings c attribute h)
                  λ o h1. found_or-Runs o (gives tt) (λ v. gives tt)

module _ {V : Type 0} (value : List ℕ → List (List ℕ) → ℕ → Result (Option V)) where
  find_attribute-Runs :
      ((Spins : Type 0) → Reads Spins value)
      → (manifest element attribute : List ℕ)
      → Runs (EmptyChunk manifest) Any (find_attribute value manifest element attribute)
  unfolding find_attribute
  find_attribute-Runs reads manifest element attribute =
      Runs-bind (axml_string_pool-Runs manifest) λ strings h.
        Runs-if (length strings == 0) (λ none_there. gives tt)
          λ some_there. Runs-bind (first_chunk-Runs manifest) λ off h0.
            Runs-bind
              (chunk_loop-Runs manifest 8 (length manifest)
                (element_visit value manifest strings element attribute) Any Any (enough manifest)
                off tt
                (λ c s reached at lo hi head i.
                  element_visit-Runs value (reads (EmptyChunk manifest)) manifest strings element
                    attribute c s hi)
                (omega arith) h0.fits h0.reached (inr (omega arith)) tt)
              λ next h1. gives tt

-- `infer_binary_manifest_string_attribute`, `infer_binary_manifest_resource_attribute`,
-- `infer_binary_manifest_package` and `infer_binary_manifest_lib` read nothing outside of the
-- manifest, whatever its bytes are: they throw or return, unless there is a chunk of size 0.
pub infer_binary_manifest-Runs :
    (manifest element attribute : List ℕ) (available_bases : List (List ℕ))
    → Runs
        (EmptyChunk manifest)
        Any
        (infer_binary_manifest_string_attribute manifest element attribute)
      × Runs
          (EmptyChunk manifest)
          Any
          (infer_binary_manifest_resource_attribute manifest element attribute)
      × Runs (EmptyChunk manifest) Any (infer_binary_manifest_package manifest)
      × Runs (EmptyChunk manifest) Any (infer_binary_manifest_lib manifest available_bases)
unfolding infer_binary_manifest_string_attribute infer_binary_manifest_resource_attribute
    infer_binary_manifest_package infer_binary_manifest_lib
infer_binary_manifest-Runs manifest element attribute available_bases = (
  find_attribute-Runs string_value (λ S. string_value-Reads) manifest element attribute,
  find_attribute-Runs resource_value (λ S. resource_value-Reads) manifest element attribute,
  find_attribute-Runs string_value (λ S. string_value-Reads) manifest (codes "manifest")
      (codes "package"),
  Runs-bind (axml_string_pool-Runs manifest) λ strings h.
      Runs-if (not (member (codes "android.app.lib_name") strings)) (λ absent. gives tt)
        (λ there. gives tt),
)
