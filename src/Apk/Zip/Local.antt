-- ===== src/Apk/Zip/Local.antt =====
-- The data of an entry as a writer of zip files lays them down behind a local header, and that
-- `extract_entry_data` takes them back.
use Prim.Native.Nat.{◌≤◌}
use mathlib.Core.List.{append_assoc, append-nil}
use muplar.Base.{ℕ, ◌+◌, ◌<◌, ◌≡◌, refl, ap, ◌∙◌, sym, arith, List, [], ◌++◌}
use muplar.Base.{false, ◌==◌, ltb, if◌then◌else◌, length, length-append}
use muplar.Apk.{Result, ok, throws, bad_method, read_u16, read_u32, slice}
use muplar.Apk.Zip.{ZipEntry, loc_sig, Inflate, inflated, extract_entry_data}
use muplar.Apk.Zip.Fields.{put16, put32, read_u16-put16, read_u32-put32, slice-append}

-- A local header. The reader takes only the lengths of its name and its extra field, and the rest of
-- it need not agree with the directory: a writer that does not know the sizes yet leaves them 0.
pub record LocalHeader : Type 0 where
  pub version : ℕ
  pub flags : ℕ
  pub method : ℕ
  pub modified : ℕ
  pub checksum : ℕ
  pub compressed_size : ℕ
  pub uncompressed_size : ℕ
  pub name : List ℕ
  pub extra : List ℕ

-- The 30 bytes before the name.
unfoldable pub fixed_bytes : LocalHeader → (rest : List ℕ) → List ℕ
fixed_bytes h rest = put32 loc_sig (
    put16 h.version (
      put16 h.flags (
        put16 h.method (
          put32 h.modified (
            put32 h.checksum (
              put32 h.compressed_size (
                put32 h.uncompressed_size
                  (put16 (length h.name) (put16 (length h.extra) rest)))))))))

-- The header, with its name and its extra field.
unfoldable pub local_header : LocalHeader → (rest : List ℕ) → List ℕ
local_header h rest = fixed_bytes h (h.name ++ (h.extra ++ rest))

record Reads (bytes : List ℕ) (entry : ZipEntry) (h : LocalHeader) (content : List ℕ) : Type 0 where
  sig : read_u32 bytes entry.local_header_offset ≡ ok loc_sig
  name_len : read_u16 bytes (entry.local_header_offset + 26) ≡ ok (length h.name)
  extra_len : read_u16 bytes (entry.local_header_offset + 28) ≡ ok (length h.extra)
  src :
      slice bytes
        (entry.local_header_offset + 30 + length h.name + length h.extra)
        entry.compressed_size
      ≡ ok content
  fits :
      entry.local_header_offset + 30 + length h.name + length h.extra + entry.compressed_size
      ≤ length bytes

-- What the method makes of the data.
abbrev pub unpacked : Inflate → ZipEntry → (content : List ℕ) → Result (List ℕ)
unpacked inflate entry content =
    if entry.method == 0
    then ok content
    else if entry.method == 8
    then inflated (inflate content entry.uncompressed_size)
    else throws bad_method

extract_entry_data-Reads :
    (inflate : Inflate) (bytes : List ℕ) (entry : ZipEntry) (h : LocalHeader) (content : List ℕ)
    → Reads bytes entry h content
    → extract_entry_data inflate bytes entry ≡ unpacked inflate entry content
unfolding extract_entry_data
extract_entry_data-Reads inflate bytes entry h content r =
    let off = entry.local_header_offset in
    let head : ltb (length bytes) (off + 30) ≡ false = ground (arith, r.fits) in
    let whole : ltb (length bytes)
          (off + 30 + length h.name + length h.extra + entry.compressed_size)
        ≡ false =
      ground (arith, r.fits) in
    rw (head, r.sig, r.name_len, r.extra_len, whole, r.src) (ground arith)

length-local :
    (h : LocalHeader) (rest : List ℕ)
    → length (local_header h rest) ≡ 30 + length h.name + length h.extra + length rest
unfolding local_header fixed_bytes
length-local h rest =
    omega (arith, length-append h.name (h.extra ++ rest), length-append h.extra rest)

local_header-append :
    (h : LocalHeader) (rest : List ℕ) → local_header h rest ≡ local_header h [] ++ rest
unfolding local_header fixed_bytes
local_header-append h rest = ap (fixed_bytes h) (
    ap (λ (l : List ℕ). h.name ++ l) (sym (ap (λ (l : List ℕ). l ++ rest) (append-nil h.extra)))
    ∙ sym (append_assoc h.name (h.extra ++ []) rest))

local_header-Reads :
    (before : List ℕ) (entry : ZipEntry) (h : LocalHeader) (content rest : List ℕ)
    → entry.local_header_offset ≡ length before
    → entry.compressed_size ≡ length content
    → length h.name < 65536
    → length h.extra < 65536
    → Reads (before ++ local_header h (content ++ rest)) entry h content
unfolding local_header fixed_bytes
local_header-Reads before entry h content rest at size hn he =
    let xs = local_header h (content ++ rest) in
    let pre = before ++ local_header h [] in
    let bytes : before ++ xs ≡ pre ++ (content ++ rest) =
      ap (λ (l : List ℕ). before ++ l) (local_header-append h (content ++ rest))
      ∙ sym (append_assoc before (local_header h []) (content ++ rest)) in
    let data_off : entry.local_header_offset + 30 + length h.name + length h.extra
        ≡ length pre + 0 =
      omega (arith, length-append before (local_header h []), length-local h []) in
    record {
      sig =
          ap (λ (n : ℕ). read_u32 (before ++ xs) n)
            (let z : entry.local_header_offset ≡ length before + 0 = omega arith in z)
          ∙ read_u32-put32 before xs 0 loc_sig _ (omega arith) refl;
      name_len =
          ap (λ (n : ℕ). read_u16 (before ++ xs) (n + 26)) at
          ∙ read_u16-put16 before xs 26 (length h.name) _ hn refl;
      extra_len =
          ap (λ (n : ℕ). read_u16 (before ++ xs) (n + 28)) at
          ∙ read_u16-put16 before xs 28 (length h.extra) _ he refl;
      src =
          ap (λ (n : ℕ). slice (before ++ xs) n entry.compressed_size) data_off
          ∙ ap (λ (n : ℕ). slice (before ++ xs) (length pre + 0) n) size
          ∙ ap (λ (l : List ℕ). slice l (length pre + 0) (length content)) bytes
          ∙ slice-append pre (content ++ rest) 0 content rest refl (omega arith);
      fits = omega (
        arith,
        length-append before xs,
        length-local h (content ++ rest),
        length-append content rest,
      );
    }

-- `extract_entry_data`, for an entry at whose offset any local header stands in a file, with a name
-- and an extra field of any lengths, and is followed by `compressed_size` bytes: it returns these
-- bytes if the entry says that they are stored, what they inflate to if it says that they are
-- deflated and they fill the uncompressed size, and throws for any other method.
pub extract_entry_data-local_header :
    (inflate : Inflate) (before : List ℕ) (entry : ZipEntry) (h : LocalHeader)
    (content rest : List ℕ)
    → entry.local_header_offset ≡ length before
    → entry.compressed_size ≡ length content
    → length h.name < 65536
    → length h.extra < 65536
    → extract_entry_data inflate (before ++ local_header h (content ++ rest)) entry
      ≡ unpacked inflate entry content
extract_entry_data-local_header inflate before entry h content rest at size hn he =
    extract_entry_data-Reads inflate _ entry h content
      (local_header-Reads before entry h content rest at size hn he)
