-- ===== src/Apk/Zip.antt =====
-- The zip reader of platform/android-aarch64/apk/apk_envelope.cpp: `read_zip_entries` and
-- `extract_entry_data`.
pub mod Bounds
pub mod Fields
pub mod Directory
pub mod RoundTrip
pub mod Local
use muplar.Base.{ℕ, zero, suc, ◌+◌, ◌-◌, List, [], ◌∷◌, Option, none, some}
use muplar.Base.{Bool, true, false, not, ◌==◌, ltb, if◌then◌else◌, length}
use muplar.Apk.{Result, ok, throws, ◌>>=◌, ◌>>◌, throw_if, slice, read_u16, read_u32}
use muplar.Apk.{too_small, no_directory, zip64, directory_outside, entry_invalid, entry_truncated}
use muplar.Apk.{local_invalid, data_truncated, bad_method, inflate_failed}

pub record ZipEntry : Type 0 where
  pub name : List ℕ
  pub flags : ℕ
  pub method : ℕ
  pub compressed_size : ℕ
  pub uncompressed_size : ℕ
  pub local_header_offset : ℕ

abbrev pub eocd_sig : ℕ
eocd_sig = 0x06054b50

abbrev pub cen_sig : ℕ
cen_sig = 0x02014b50

abbrev pub loc_sig : ℕ
loc_sig = 0x04034b50

abbrev pub eocd_min_size : ℕ
eocd_min_size = 22

abbrev pub eocd_max_comment : ℕ
eocd_max_comment = 65535

-- `for (size_t off = …; off-- > search_start;)`: the argument is `off` before the step down.
unfoldable pub find_eocd : (off : ℕ) → List ℕ → (search_start : ℕ) → Result ℕ
find_eocd zero apk search_start = throws no_directory
find_eocd (suc off) apk search_start =
    let rest = find_eocd off apk search_start in
    if ltb search_start (suc off)
    then (read_u32 apk off >>= λ sig. if sig == eocd_sig then ok off else rest)
    else throws no_directory

-- A round of the loop over the central directory: the entry, and the offset of the next one.
unfoldable pub read_entry : List ℕ → (off : ℕ) → Result (ZipEntry × ℕ)
read_entry apk off = do
  throw_if (ltb (length apk) (off + 46)) entry_invalid
  sig ← read_u32 apk off
  throw_if (not (sig == cen_sig)) entry_invalid
  name_len ← read_u16 apk (off + 28)
  extra_len ← read_u16 apk (off + 30)
  comment_len ← read_u16 apk (off + 32)
  throw_if (ltb (length apk) (off + 46 + name_len + extra_len + comment_len)) entry_truncated
  flags ← read_u16 apk (off + 8)
  method ← read_u16 apk (off + 10)
  compressed_size ← read_u32 apk (off + 20)
  uncompressed_size ← read_u32 apk (off + 24)
  local_header_offset ← read_u32 apk (off + 42)
  name ← slice apk (off + 46) name_len
  ok (
    record {
      name = name;
      flags = flags;
      method = method;
      compressed_size = compressed_size;
      uncompressed_size = uncompressed_size;
      local_header_offset = local_header_offset;
    },
    off + (46 + name_len + extra_len + comment_len),
  )

unfoldable pub entries_loop : (entry_count : ℕ) → List ℕ → (off : ℕ) → Result (List ZipEntry)
entries_loop zero apk off = ok []
entries_loop (suc n) apk off = do
  r ← read_entry apk off
  entries ← entries_loop n apk r.1
  ok (r.0 ∷ entries)

-- What follows the end-of-central-directory record at `eocd`.
unfoldable pub read_directory : List ℕ → (eocd : ℕ) → Result (List ZipEntry)
read_directory apk eocd = do
  entry_count ← read_u16 apk (eocd + 10)
  central_size ← read_u32 apk (eocd + 12)
  central_off ← read_u32 apk (eocd + 16)
  throw_if (central_off == 0xffffffff) zip64
  throw_if (central_size == 0xffffffff) zip64
  throw_if (ltb (length apk) (central_off + central_size)) directory_outside
  entries_loop entry_count apk central_off

abbrev pub search_start_of : (size : ℕ) → ℕ
search_start_of size =
    if ltb (eocd_min_size + eocd_max_comment) size
    then size - (eocd_min_size + eocd_max_comment)
    else 0

unfoldable pub read_zip_entries : List ℕ → Result (List ZipEntry)
read_zip_entries apk = do
  throw_if (ltb (length apk) eocd_min_size) too_small
  eocd ← find_eocd (length apk - eocd_min_size + 1) apk (search_start_of (length apk))
  read_directory apk eocd

-- zlib's raw `inflate` over the input, with room for the given number of bytes: the output, if the
-- stream ends and fills exactly this room.
abbrev pub Inflate : Type 0
Inflate = List ℕ → ℕ → Option (List ℕ)

abbrev pub inflated : Option (List ℕ) → Result (List ℕ)
inflated none = throws inflate_failed
inflated (some out) = ok out

unfoldable pub extract_entry_data : Inflate → List ℕ → ZipEntry → Result (List ℕ)
extract_entry_data inflate apk entry =
    let off = entry.local_header_offset in
    do
      throw_if (ltb (length apk) (off + 30)) local_invalid
      sig ← read_u32 apk off
      throw_if (not (sig == loc_sig)) local_invalid
      name_len ← read_u16 apk (off + 26)
      extra_len ← read_u16 apk (off + 28)
      let data_off = off + 30 + name_len + extra_len
      throw_if (ltb (length apk) (data_off + entry.compressed_size)) data_truncated
      src ← slice apk data_off entry.compressed_size
      if entry.method == 0
          then ok src
          else if not (entry.method == 8)
          then throws bad_method
          else inflated (inflate src entry.uncompressed_size)
