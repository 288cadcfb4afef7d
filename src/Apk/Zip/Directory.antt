-- ===== src/Apk/Zip/Directory.antt =====
-- A central directory as a writer of zip files lays it down, and that `read_zip_entries` takes it back.
use Prim.Native.Nat.{◌≤◌}
use mathlib.Core.List.{append_assoc, append-nil}
use muplar.Base.{ℕ, ◌+◌, ◌^◌, ◌<◌, ◌≡◌, refl, ap, ◌∙◌, sym, arith, List, [], ◌∷◌, ◌++◌, map}
use muplar.Base.{false, ltb, length, All, length-append}
use muplar.Apk.{ok, read_u16, read_u32, slice}
use muplar.Apk.Zip.{ZipEntry, read_entry, entries_loop, cen_sig}
use muplar.Apk.Zip.Fields.{put16, put32, read_u16-put16, read_u32-put32, slice-append}

-- A header of the directory: the entry, its extra field and its comment, and the fields that the
-- reader passes over: the two versions, the time and date, the checksum, the disk with the internal
-- attributes, and the external attributes.
pub record Central : Type 0 where
  pub entry : ZipEntry
  pub extra : List ℕ
  pub comment : List ℕ
  pub versions : ℕ
  pub modified : ℕ
  pub checksum : ℕ
  pub disk : ℕ
  pub attributes : ℕ

-- The fields have the widths of the format.
pub record Fits (c : Central) : Type 0 where
  pub flags : c.entry.flags < 65536
  pub method : c.entry.method < 65536
  pub compressed_size : c.entry.compressed_size < 2 ^ 32
  pub uncompressed_size : c.entry.uncompressed_size < 2 ^ 32
  pub local_header_offset : c.entry.local_header_offset < 2 ^ 32
  pub name : length c.entry.name < 65536
  pub extra : length c.extra < 65536
  pub comment : length c.comment < 65536

-- The 46 bytes before the name.
unfoldable pub header_bytes : Central → List ℕ → List ℕ
header_bytes c rest = put32 cen_sig (
    put32 c.versions (
      put16 c.entry.flags (
        put16 c.entry.method (
          put32 c.modified (
            put32 c.checksum (
              put32 c.entry.compressed_size (
                put32 c.entry.uncompressed_size (
                  put16 (length c.entry.name) (
                    put16 (length c.extra) (
                      put16 (length c.comment) (
                        put32 c.disk
                          (put32 c.attributes (put32 c.entry.local_header_offset rest)))))))))))))

unfoldable pub central_bytes : Central → List ℕ → List ℕ
central_bytes c rest = header_bytes c (c.entry.name ++ (c.extra ++ (c.comment ++ rest)))

abbrev pub central_length : Central → ℕ
central_length c = 46 + length c.entry.name + length c.extra + length c.comment

-- The fields of a header, as the reader sees them.
record Reads (bytes : List ℕ) (off : ℕ) (c : Central) : Type 0 where
  sig : read_u32 bytes off ≡ ok cen_sig
  name_len : read_u16 bytes (off + 28) ≡ ok (length c.entry.name)
  extra_len : read_u16 bytes (off + 30) ≡ ok (length c.extra)
  comment_len : read_u16 bytes (off + 32) ≡ ok (length c.comment)
  flags : read_u16 bytes (off + 8) ≡ ok c.entry.flags
  method : read_u16 bytes (off + 10) ≡ ok c.entry.method
  compressed_size : read_u32 bytes (off + 20) ≡ ok c.entry.compressed_size
  uncompressed_size : read_u32 bytes (off + 24) ≡ ok c.entry.uncompressed_size
  local_header_offset : read_u32 bytes (off + 42) ≡ ok c.entry.local_header_offset
  name : slice bytes (off + 46) (length c.entry.name) ≡ ok c.entry.name
  fits : off + central_length c ≤ length bytes

read_entry-Reads :
    (bytes : List ℕ) (off : ℕ) (c : Central)
    → Reads bytes off c
    → read_entry bytes off ≡ ok (c.entry, off + central_length c)
unfolding read_entry
read_entry-Reads bytes off c r =
    let head : ltb (length bytes) (off + 46) ≡ false = ground (arith, r.fits) in
    let whole : ltb (length bytes)
          (off + 46 + length c.entry.name + length c.extra + length c.comment)
        ≡ false =
      ground (arith, r.fits) in
    rw
      (
        head, r.sig, r.name_len, r.extra_len, r.comment_len, whole, r.flags, r.method,
        r.compressed_size, r.uncompressed_size, r.local_header_offset, r.name, read_entry,
      )
      refl

pub length-central :
    (c : Central) (rest : List ℕ) → length (central_bytes c rest) ≡ central_length c + length rest
unfolding central_bytes header_bytes
length-central c rest = omega (
  arith,
  length-append c.entry.name (c.extra ++ (c.comment ++ rest)),
  length-append c.extra (c.comment ++ rest),
  length-append c.comment rest,
)

central_bytes-Reads :
    (pre : List ℕ) (c : Central) (rest : List ℕ)
    → Fits c
    → Reads (pre ++ central_bytes c rest) (length pre) c
unfolding central_bytes header_bytes
central_bytes-Reads pre c rest f =
    let xs = central_bytes c rest in
    record {
      sig =
          ap (λ (n : ℕ). read_u32 (pre ++ xs) n)
            (let z : length pre ≡ length pre + 0 = omega arith in z)
          ∙ read_u32-put32 pre xs 0 cen_sig _ (omega arith) refl;
      name_len = read_u16-put16 pre xs 28 (length c.entry.name) _ f.name refl;
      extra_len = read_u16-put16 pre xs 30 (length c.extra) _ f.extra refl;
      comment_len = read_u16-put16 pre xs 32 (length c.comment) _ f.comment refl;
      flags = read_u16-put16 pre xs 8 c.entry.flags _ f.flags refl;
      method = read_u16-put16 pre xs 10 c.entry.method _ f.method refl;
      compressed_size = read_u32-put32 pre xs 20 c.entry.compressed_size _ f.compressed_size refl;
      uncompressed_size =
          read_u32-put32 pre xs 24 c.entry.uncompressed_size _ f.uncompressed_size refl;
      local_header_offset =
          read_u32-put32 pre xs 42 c.entry.local_header_offset _ f.local_header_offset refl;
      name =
          slice-append pre xs 46 c.entry.name (c.extra ++ (c.comment ++ rest)) refl
            (omega (arith, length-central c rest));
      fits = omega (arith, length-append pre xs, length-central c rest);
    }

-- The directory.
unfoldable pub directory_bytes : List Central → List ℕ → List ℕ
directory_bytes [] rest = rest
directory_bytes (c ∷ cs) rest = central_bytes c (directory_bytes cs rest)

pub central_bytes-append :
    (c : Central) (rest : List ℕ) → central_bytes c rest ≡ central_bytes c [] ++ rest
unfolding central_bytes header_bytes
central_bytes-append c rest = ap (header_bytes c) (
    ap (λ (l : List ℕ). c.entry.name ++ l)
      (ap (λ (l : List ℕ). c.extra ++ l)
          (sym (ap (λ (l : List ℕ). l ++ rest) (append-nil c.comment)))
        ∙ sym (append_assoc c.extra (c.comment ++ []) rest))
    ∙ sym (append_assoc c.entry.name (c.extra ++ (c.comment ++ [])) rest))

pub entries_loop-directory :
    (pre : List ℕ) (cs : List Central) (rest : List ℕ)
    → All Fits cs
    → entries_loop (length cs) (pre ++ directory_bytes cs rest) (length pre)
      ≡ ok (map (λ (c : Central). c.entry) cs)
unfolding entries_loop directory_bytes
entries_loop-directory pre [] rest h = refl
entries_loop-directory pre (c ∷ cs) rest (f, h) =
    let tail = directory_bytes cs rest in
    let first = read_entry-Reads _ _ c (central_bytes-Reads pre c tail f) in
    let bytes : pre ++ central_bytes c tail ≡ (pre ++ central_bytes c []) ++ tail =
      ap (λ (l : List ℕ). pre ++ l) (central_bytes-append c tail)
      ∙ sym (append_assoc pre (central_bytes c []) tail) in
    let next : length pre + central_length c ≡ length (pre ++ central_bytes c []) =
      omega (arith, length-append pre (central_bytes c []), length-central c []) in
    rw first
      (rw (bytes, next) (rw (entries_loop-directory (pre ++ central_bytes c []) cs rest h) refl))
