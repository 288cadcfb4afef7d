-- ===== src/Runs/Manifests.antt =====
-- Examples of the theorems on the manifests of APK files, and runs of their readers.
use muplar.Base.{ℕ, ◌≡◌, refl, List, [], ◌∷◌, ◌++◌, true, replicate}
use muplar.Base.Text.{codes}
use muplar.Apk.{ok, spins}
use muplar.Apk.Runs.{Runs}
use muplar.Apk.Find.{find, find_loop, find_if, starts_with}
use muplar.Apk.{read_u16, read_u32, slice, index, outside}
use muplar.Apk.Chunks.{first_chunk, Chunk, chunk_at, chunk_loop}
use muplar.Apk.Attribute.{plain_manifest_attribute}
use muplar.Apk.Axml.{
  axml_pool_visit, axml_string_pool, Pool, pool_loop, pool_string, push_found, push_always,
  utf8_length_string, read_len8,
}
use muplar.Apk.Classify.{icon_is_missing}
use muplar.Apk.Manifest.{application_attribute}

abbrev zeros : ℕ → List ℕ
zeros n = replicate n 0

-- A binary manifest with a chunk of size 0 behind its header.
abbrev stuck : List ℕ
stuck = (3 ∷ 0 ∷ 8 ∷ 0 ∷ 36 ∷ 0 ∷ 0 ∷ 0 ∷ []) ++ 2 ∷ zeros 27

abbrev empty_chunk : Chunk
empty_chunk = record { off = 8; type = 2; header_size = 0; size = 0 }

-- So the string pool of this manifest is never read.
stuck_spins : axml_string_pool stuck ≡ spins
unfolding axml_string_pool first_chunk chunk_loop chunk_at read_u16 read_u32 axml_pool_visit
stuck_spins = refl

abbrev manifest : List ℕ
manifest = codes "<manifest package=\"a.b\"><activity android:name=\".Main\"></activity></manifest>"

-- An icon that is there and empty has no first character to look at.
empty_icon :
    icon_is_missing (
      application_attribute
        (codes "<application android:icon=\"\">")
        (codes "android:icon")
        (codes "icon"))
    ≡ outside
unfolding application_attribute plain_manifest_attribute find find_loop starts_with find_if
empty_icon = refl

-- A pool of the offsets 9 and 0, of which the first lies behind the chunk: the one reader leaves it
-- out, and the other keeps its place.
abbrev pool_bytes : List ℕ
pool_bytes = 9 ∷ 0 ∷ 0 ∷ 0 ∷ 0 ∷ 0 ∷ 0 ∷ 0 ∷ 1 ∷ 1 ∷ b'x' ∷ []

abbrev pool : Pool
pool = record {
  off = 0;
  header_size = 0;
  chunk_size = 11;
  string_count = 2;
  strings_start = 8;
  utf8 = true;
}

pool_shift :
    (pool_loop push_found 2 pool_bytes pool 0 ≡ ok (codes "x" ∷ []))
    × (pool_loop push_always 2 pool_bytes pool 0 ≡ ok ([] ∷ codes "x" ∷ []))
unfolding pool_loop pool_string read_u32 utf8_length_string read_len8 index slice
pool_shift = (refl, refl)
