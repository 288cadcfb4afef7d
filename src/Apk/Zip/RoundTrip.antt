-- ===== src/Apk/Zip/RoundTrip.antt =====
-- A zip file as a writer lays it down: `read_zip_entries` takes the entries of its directory back.
use Prim.Native.Nat.{◌≤◌}
use mathlib.Core.List.{append_assoc}
use muplar.Base.{
  ℕ, suc, ◌+◌, ◌-◌, ◌^◌, ◌<◌, ◌≡◌, refl, ap, ◌∙◌, sym, arith, List, [], ◌∷◌, ◌++◌, map,
}
use muplar.Base.{true, false, ◌==◌, ltb, length, All, length-append}
use muplar.Apk.{ok, read_u16, read_u32}
use muplar.Apk.Zip.{
  entries_loop, find_eocd, read_directory, read_zip_entries, search_start_of, eocd_sig,
}
use muplar.Apk.Zip.Fields.{put16, put32, read_u16-put16, read_u32-put32}
use muplar.Apk.Zip.Directory.{
  Central, Fits, central_bytes, central_length, central_bytes-append, length-central,
  directory_bytes, entries_loop-directory,
}

-- The record at the end of the file, without a comment.
unfoldable pub end_bytes : (count size off : ℕ) → List ℕ
end_bytes count size off =
    put32 eocd_sig (put32 0 (put16 count (put16 count (put32 size (put32 off (put16 0 []))))))

abbrev pub directory_length : List Central → ℕ
directory_length [] = 0
directory_length (c ∷ cs) = central_length c + directory_length cs

-- The file: what stands before the directory, the directory, and the record.
unfoldable pub zip_bytes : (before : List ℕ) → List Central → List ℕ
zip_bytes before cs =
    before ++ directory_bytes cs (end_bytes (length cs) (directory_length cs) (length before))

directory_bytes-append :
    (cs : List Central) (rest : List ℕ) → directory_bytes cs rest ≡ directory_bytes cs [] ++ rest
unfolding directory_bytes
directory_bytes-append [] rest = refl
directory_bytes-append (c ∷ cs) rest =
    central_bytes-append c (directory_bytes cs rest)
    ∙ ap (λ (l : List ℕ). central_bytes c [] ++ l) (directory_bytes-append cs rest)
    ∙ sym (append_assoc (central_bytes c []) (directory_bytes cs []) rest)
    ∙ ap (λ (l : List ℕ). l ++ rest) (sym (central_bytes-append c (directory_bytes cs [])))

length-directory : (cs : List Central) → length (directory_bytes cs []) ≡ directory_length cs
unfolding directory_bytes
length-directory [] = refl
length-directory (c ∷ cs) =
    omega (arith, length-central c (directory_bytes cs []), length-directory cs)

-- The fields of the record at the end, as the reader sees them.
record Ends (bytes : List ℕ) (eocd count size off : ℕ) : Type 0 where
  sig : read_u32 bytes eocd ≡ ok eocd_sig
  entry_count : read_u16 bytes (eocd + 10) ≡ ok count
  central_size : read_u32 bytes (eocd + 12) ≡ ok size
  central_off : read_u32 bytes (eocd + 16) ≡ ok off
  last : length bytes ≡ eocd + 22

end_bytes-Ends :
    (body : List ℕ) (count size off : ℕ)
    → count < 65536
    → size < 2 ^ 32
    → off < 2 ^ 32
    → Ends (body ++ end_bytes count size off) (length body) count size off
unfolding end_bytes
end_bytes-Ends body count size off hc hs ho =
    let xs = end_bytes count size off in
    record {
      sig =
          ap (λ (n : ℕ). read_u32 (body ++ xs) n)
            (let z : length body ≡ length body + 0 = omega arith in z)
          ∙ read_u32-put32 body xs 0 eocd_sig _ (omega arith) refl;
      entry_count = read_u16-put16 body xs 10 count _ hc refl;
      central_size = read_u32-put32 body xs 12 size _ hs refl;
      central_off = read_u32-put32 body xs 16 off _ ho refl;
      last = length-append body xs;
    }

find_eocd-Ends :
    (bytes : List ℕ) (eocd count size off : ℕ)
    → Ends bytes eocd count size off
    → find_eocd (length bytes - 22 + 1) bytes (search_start_of (length bytes)) ≡ ok eocd
unfolding find_eocd
find_eocd-Ends bytes eocd count size off e =
    let start : length bytes - 22 + 1 ≡ suc eocd = omega (arith, e.last) in
    let above : ltb (search_start_of (length bytes)) (suc eocd) ≡ true = ground (arith, e.last) in
    rw start (rw (above, e.sig, find_eocd) refl)

read_zip_entries-Ends :
    (bytes : List ℕ) (eocd count size off : ℕ)
    → Ends bytes eocd count size off
    → size < 0xffffffff
    → off < 0xffffffff
    → off + size ≤ length bytes
    → read_zip_entries bytes ≡ entries_loop count bytes off
unfolding read_zip_entries read_directory
read_zip_entries-Ends bytes eocd count size off e hs ho h =
    let large : ltb (length bytes) 22 ≡ false = ground (arith, e.last) in
    let off32 : (off == 0xffffffff) ≡ false = ground arith in
    let size32 : (size == 0xffffffff) ≡ false = ground arith in
    let inside : ltb (length bytes) (off + size) ≡ false = ground arith in
    rw
      (
        large,
        find_eocd-Ends bytes eocd count size off e,
        e.entry_count,
        e.central_size,
        e.central_off,
        off32,
        size32,
        inside,
      )
      refl

-- `read_zip_entries`, on a file with anything before its directory, whose directory lists the entries
-- one behind the other, each with its extra field and its comment and any versions, time, checksum,
-- disk and attributes, and whose last 22 bytes are the
-- record of it: the result is the list of the entries, in order. The fields have the widths of the
-- format, and the place and the size of the directory are below 2^32 - 1.
pub read_zip_entries-zip_bytes :
    (before : List ℕ) (cs : List Central)
    → All Fits cs
    → length cs < 65536
    → length before < 0xffffffff
    → directory_length cs < 0xffffffff
    → read_zip_entries (zip_bytes before cs) ≡ ok (map (λ (c : Central). c.entry) cs)
unfolding zip_bytes
read_zip_entries-zip_bytes before cs fits hc hb hd =
    let end = end_bytes (length cs) (directory_length cs) (length before) in
    let body = before ++ directory_bytes cs [] in
    let bytes : before ++ directory_bytes cs end ≡ body ++ end =
      ap (λ (l : List ℕ). before ++ l) (directory_bytes-append cs end)
      ∙ sym (append_assoc before (directory_bytes cs []) end) in
    let e : Ends (before ++ directory_bytes cs end) (length body) (length cs) (directory_length cs)
        (length before) =
      rw bytes (
        end_bytes-Ends body (length cs) (directory_length cs) (length before) hc (omega arith)
          (omega arith)) in
    read_zip_entries-Ends (before ++ directory_bytes cs end) (length body) (length cs)
      (directory_length cs) (length before) e hd hb
      (omega (arith, e.last, length-append before (directory_bytes cs []), length-directory cs))
    ∙ entries_loop-directory before cs end fits
