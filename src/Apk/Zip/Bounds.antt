-- ===== src/Apk/Zip/Bounds.antt =====
-- The zip reader stays inside of the file, and ends.
use Prim.Native.Nat.{◌≤◌}
use muplar.Base.{
  ℕ, zero, suc, ◌+◌, ◌<◌, ◌≡◌, refl, sym, ap, ◌∙◌, arith, ◌⊎◌, inl, inr, List, [], ◌∷◌, Option,
  none, some,
}
use muplar.Apk.{ok, read_u16, read_u32}
use muplar.Base.{not, ◌==◌, ltb, length, take, drop}
use muplar.Apk.Runs.{
  Runs, gives, fails, Runs-bind, Runs-self, Runs-mono, Runs-if, throw_if-Runs, slice-Runs,
  read_u16-Runs, read_u32-Runs,
}
use muplar.Apk.Zip.{
  ZipEntry, find_eocd, read_entry, entries_loop, read_directory, read_zip_entries, eocd_sig,
  cen_sig, search_start_of, loc_sig, Inflate, inflated, extract_entry_data,
}

-- A header of the central directory at an offset: its signature, its fields, and its name, with the
-- extra field and the comment behind it, inside of the file; and the offset behind all that.
pub record Header (apk : List ℕ) (off : ℕ) (e : ZipEntry) (next : ℕ) : Type 0 where
  pub name_len : ℕ
  pub extra_len : ℕ
  pub comment_len : ℕ
  pub sig : read_u32 apk off ≡ ok cen_sig
  pub name_field : read_u16 apk (off + 28) ≡ ok name_len
  pub extra_field : read_u16 apk (off + 30) ≡ ok extra_len
  pub comment_field : read_u16 apk (off + 32) ≡ ok comment_len
  pub flags : read_u16 apk (off + 8) ≡ ok e.flags
  pub method : read_u16 apk (off + 10) ≡ ok e.method
  pub compressed_size : read_u32 apk (off + 20) ≡ ok e.compressed_size
  pub uncompressed_size : read_u32 apk (off + 24) ≡ ok e.uncompressed_size
  pub local_header_offset : read_u32 apk (off + 42) ≡ ok e.local_header_offset
  pub name : e.name ≡ take name_len (drop (off + 46) apk)
  pub next_lem : next ≡ off + (46 + name_len + extra_len + comment_len)
  pub fits : next ≤ length apk

-- The entries are those of headers that lie one behind the other from an offset on.
pub data Listed (apk : List ℕ) : (off : ℕ) → List ZipEntry → Type 0 where
  listed_end : {off : ℕ} → Listed apk off []
  listed :
      {off next : ℕ} {e : ZipEntry} {es : List ZipEntry}
      → Header apk off e next
      → Listed apk next es
      → Listed apk off (e ∷ es)

read_entry-Runs :
    (apk : List ℕ) (off : ℕ) → Runs ⊥ (λ r. Header apk off r.0 r.1) (read_entry apk off)
unfolding read_entry
read_entry-Runs apk off = Runs-bind (throw_if-Runs (ltb (length apk) (off + 46)) _) λ u h.
    Runs-bind (Runs-self (read_u32-Runs apk off)) λ sig h0.
      Runs-bind (throw_if-Runs (not (sig == cen_sig)) _) λ u' h1.
        Runs-bind (Runs-self (read_u16-Runs apk (off + 28))) λ name_len h2.
          Runs-bind (Runs-self (read_u16-Runs apk (off + 30))) λ extra_len h3.
            Runs-bind (Runs-self (read_u16-Runs apk (off + 32))) λ comment_len h4.
              Runs-bind
                (throw_if-Runs (ltb (length apk) (off + 46 + name_len + extra_len + comment_len)) _)
                λ u'' room. Runs-bind (Runs-self (read_u16-Runs apk (off + 8))) λ flags h5.
                  Runs-bind (Runs-self (read_u16-Runs apk (off + 10))) λ method h6.
                    Runs-bind (Runs-self (read_u32-Runs apk (off + 20))) λ compressed_size h7.
                      Runs-bind (Runs-self (read_u32-Runs apk (off + 24))) λ uncompressed_size h8.
                        Runs-bind (Runs-self (read_u32-Runs apk (off + 42)))
                          λ local_header_offset h9.
                            let fits : off + 46 + name_len + extra_len + comment_len ≤ length apk =
                              ground arith in
                            let is_sig : sig ≡ cen_sig = ground arith in
                            Runs-bind (slice-Runs apk (off + 46) name_len (omega arith)) λ name h10.
                              gives (record {
                                name_len = name_len;
                                extra_len = extra_len;
                                comment_len = comment_len;
                                sig = h0.0 ∙ ap ok is_sig;
                                name_field = h2.0;
                                extra_field = h3.0;
                                comment_field = h4.0;
                                flags = h5.0;
                                method = h6.0;
                                compressed_size = h7.0;
                                uncompressed_size = h8.0;
                                local_header_offset = h9.0;
                                name = h10;
                                next_lem = refl;
                                fits = omega arith;
                              })

entries_loop-Runs :
    (n : ℕ) (apk : List ℕ) (off : ℕ)
    → Runs ⊥ (λ entries. (length entries ≡ n) × Listed apk off entries) (entries_loop n apk off)
unfolding entries_loop
entries_loop-Runs zero apk off = gives (refl, listed_end)
entries_loop-Runs (suc n) apk off = Runs-bind (read_entry-Runs apk off) λ r header.
    Runs-bind (entries_loop-Runs n apk r.1)
      λ entries (count, rest). gives (omega arith, listed header rest)

find_eocd-Runs :
    (off : ℕ) (apk : List ℕ) (search_start : ℕ)
    → Runs ⊥
        (λ eocd. (read_u32 apk eocd ≡ ok eocd_sig) × (search_start ≤ eocd) × (eocd < off))
        (find_eocd off apk search_start)
unfolding find_eocd
find_eocd-Runs zero apk search_start = fails
find_eocd-Runs (suc off) apk search_start =
    Runs-if (ltb search_start (suc off))
      (λ below. Runs-bind (Runs-self (read_u32-Runs apk off)) λ sig h.
        Runs-if (sig == eocd_sig)
          (λ found.
            let is_sig : sig ≡ eocd_sig = ground arith in
            gives (h.0 ∙ ap ok is_sig, ground arith, omega arith))
          (λ other.
            Runs-mono (find_eocd-Runs off apk search_start)
              λ eocd found. (found.0, found.1, omega (arith, found.2))))
      (λ done. fails)

-- The entries of a file: an end-of-central-directory record stands in its last 65557 bytes, with
-- their number at 10 and the offset of the first header at 16.
pub record IsDirectory (apk : List ℕ) (entries : List ZipEntry) : Type 0 where
  pub eocd : ℕ
  pub central_off : ℕ
  pub sig : read_u32 apk eocd ≡ ok eocd_sig
  pub above : search_start_of (length apk) ≤ eocd
  pub count_field : read_u16 apk (eocd + 10) ≡ ok (length entries)
  pub off_field : read_u32 apk (eocd + 16) ≡ ok central_off
  pub headers : Listed apk central_off entries

-- `read_zip_entries` reads nothing outside of the file and ends, for every file: by an exception, or
-- by the list of the entries of a central directory. A record with its signature, within the last
-- 65557 bytes, tells their number and where the first header stands; the headers lie one behind the
-- other from there on, inside of the file, and each entry has the fields and the name of its header.
pub read_zip_entries-Runs : (apk : List ℕ) → Runs ⊥ (IsDirectory apk) (read_zip_entries apk)
unfolding read_zip_entries read_directory
read_zip_entries-Runs apk = Runs-bind (throw_if-Runs (ltb (length apk) 22) _) λ u h.
    Runs-bind (find_eocd-Runs _ apk _) λ eocd found.
      Runs-bind (Runs-self (read_u16-Runs apk (eocd + 10))) λ entry_count h1.
        Runs-bind (Runs-self (read_u32-Runs apk (eocd + 12))) λ central_size h2.
          Runs-bind (Runs-self (read_u32-Runs apk (eocd + 16))) λ central_off h3.
            Runs-bind (throw_if-Runs (central_off == 0xffffffff) _) λ u' h4.
              Runs-bind (throw_if-Runs (central_size == 0xffffffff) _) λ u'' h5.
                Runs-bind (throw_if-Runs (ltb (length apk) (central_off + central_size)) _)
                  λ v room.
                    Runs-mono (entries_loop-Runs entry_count apk central_off)
                      λ entries (count, rest). record {
                        eocd = eocd;
                        central_off = central_off;
                        sig = found.0;
                        above = found.1;
                        count_field = h1.0 ∙ ap ok (sym count);
                        off_field = h3.0;
                        headers = rest;
                      }

-- What the bytes of an entry are: `compressed_size` bytes of the file, stored or deflated.
pub record IsExtracted (inflate : Inflate) (apk : List ℕ) (entry : ZipEntry) (out : List ℕ)
    : Type 0 where
  pub data_off : ℕ
  pub name_len : ℕ
  pub extra_len : ℕ
  pub name_field : read_u16 apk (entry.local_header_offset + 26) ≡ ok name_len
  pub extra_field : read_u16 apk (entry.local_header_offset + 28) ≡ ok extra_len
  pub behind_header : data_off ≡ entry.local_header_offset + 30 + name_len + extra_len
  pub fits : data_off + entry.compressed_size ≤ length apk
  pub content :
      ((entry.method ≡ 0) × (out ≡ take entry.compressed_size (drop data_off apk)))
      ⊎ ((entry.method ≡ 8)
          × (inflate (take entry.compressed_size (drop data_off apk)) entry.uncompressed_size
              ≡ some out))

inflated-Runs : (o : Option (List ℕ)) → Runs ⊥ (λ out. o ≡ some out) (inflated o)
inflated-Runs none = fails
inflated-Runs (some out) = gives refl

-- `extract_entry_data` reads nothing outside of the file, whatever the entry says: it throws, or it
-- returns the bytes that the entry's data are if they are stored, or inflate to with
-- `uncompressed_size` bytes. These data are the `compressed_size` bytes, inside of the file, that
-- follow the local header with the name and the extra field, whose lengths it has at 26 and 28.
pub extract_entry_data-IsExtracted :
    (inflate : Inflate) (apk : List ℕ) (entry : ZipEntry)
    → Runs ⊥ (IsExtracted inflate apk entry) (extract_entry_data inflate apk entry)
unfolding extract_entry_data
extract_entry_data-IsExtracted inflate apk entry =
    let off = entry.local_header_offset in
    Runs-bind (throw_if-Runs (ltb (length apk) (off + 30)) _) λ u h.
      Runs-bind (read_u32-Runs apk off) λ sig h0.
        Runs-bind (throw_if-Runs (not (sig == loc_sig)) _) λ u' h1.
          Runs-bind (Runs-self (read_u16-Runs apk (off + 26))) λ name_len h2.
            Runs-bind (Runs-self (read_u16-Runs apk (off + 28))) λ extra_len h3.
              let data_off = off + 30 + name_len + extra_len in
              Runs-bind (throw_if-Runs (ltb (length apk) (data_off + entry.compressed_size)) _)
                λ u'' room.
                  let fits : data_off + entry.compressed_size ≤ length apk = ground arith in
                  Runs-bind (slice-Runs apk data_off entry.compressed_size fits) λ src is_src.
                    let result =
                      λ (out : List ℕ)
                          (content : ((entry.method ≡ 0)
                              × (out ≡ take entry.compressed_size (drop data_off apk)))
                            ⊎ ((entry.method ≡ 8)
                                × (inflate (take entry.compressed_size (drop data_off apk))
                                      entry.uncompressed_size
                                    ≡ some out))).
                        let r : IsExtracted inflate apk entry out = record {
                          data_off = data_off;
                          name_len = name_len;
                          extra_len = extra_len;
                          name_field = h2.0;
                          extra_field = h3.0;
                          behind_header = refl;
                          fits = fits;
                          content = content;
                        } in
                        r in
                    Runs-if (entry.method == 0)
                      (λ stored. gives (result src (inl (ground arith, is_src))))
                      (λ other.
                        Runs-if (not (entry.method == 8)) (λ bad. fails)
                          (λ deflated.
                            Runs-mono (inflated-Runs (inflate src entry.uncompressed_size))
                              λ out e. result out (inr (ground arith, rw (← is_src) e))))
