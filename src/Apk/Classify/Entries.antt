-- ===== src/Apk/Classify/Entries.antt =====
-- What `classify_entries` does with the names of the entries: three lists, each sorted.
use mathlib.Core.List.{Perm, append_assoc, append-nil}
use mathlib.Core.List.Perm
use mathlib.Core.Path.{subst}
use muplar.Base.{
  ℕ, ◌≡◌, refl, ap, ◌∙◌, sym, arith, inl, inr, List, [], ◌∷◌, ◌++◌, map, Option, none, some,
}
use muplar.Base.{Bool, true, false, if◌then◌else◌, get_or, All, Bool-cases}
use muplar.Base.Text.{codes}
use muplar.Apk.Runs.{Leaves, leaves, Leaves-then}
use muplar.Apk.Find.{same, starts_with}
use muplar.Apk.Paths.{is_root_dex, lib_base_name}
use muplar.Apk.Zip.{ZipEntry, Inflate, extract_entry_data}
use muplar.Apk.Classify.{
  ApkClassification, runtime_kind_for, is_arm64_lib, is_asset, Sorting, sort_entry, sort_entries,
  unsorted, text_leb, insert_text, sort_texts, bare_classification, with_manifest, classify_entries,
  label_of, icon_of,
}
use muplar.Apk.Manifest.{infer_manifest_info}

-- The names that pass a test, in the order of the entries.
abbrev pub names_where : (List ℕ → Bool) → List ZipEntry → List (List ℕ)
names_where test [] = []
names_where test (entry ∷ entries) =
    let rest = names_where test entries in if test entry.name then entry.name ∷ rest else rest

abbrev pub IsSorted : List (List ℕ) → Type 0
IsSorted [] = Unit {0}
IsSorted (t ∷ ts) = All (λ u. text_leb t u ≡ true) ts × IsSorted ts

text_leb_total : (s t : List ℕ) → text_leb s t ≡ false → text_leb t s ≡ true
unfolding text_leb
text_leb_total [] t h = cc
text_leb_total (c ∷ cs) [] h = refl
text_leb_total (c ∷ cs) (d ∷ ds) h = ground (arith, text_leb_total cs ds)

text_leb_trans : (s t u : List ℕ) → text_leb s t ≡ true → text_leb t u ≡ true → text_leb s u ≡ true
unfolding text_leb
text_leb_trans [] t u h k = refl
text_leb_trans (c ∷ cs) [] u h k = cc
text_leb_trans (c ∷ cs) (d ∷ ds) [] h k = cc
text_leb_trans (c ∷ cs) (d ∷ ds) (e ∷ es) h k = ground (arith, text_leb_trans cs ds es)

insert_text-All :
    (P : List ℕ → Type 0) (s : List ℕ) (ts : List (List ℕ))
    → P s
    → All P ts
    → All P (insert_text s ts)
unfolding insert_text
insert_text-All P s [] p h = (p, tt)
insert_text-All P s (t ∷ ts) p h = elim (Bool-cases (text_leb s t)) [
  | inl e ↦ rw e (p, h)
  | inr e ↦ rw e (h.0, insert_text-All P s ts p h.1)
]

All-below :
    (s t : List ℕ) (ts : List (List ℕ))
    → text_leb s t ≡ true
    → All (λ u. text_leb t u ≡ true) ts
    → All (λ u. text_leb s u ≡ true) ts
All-below s t [] h a = tt
All-below s t (u ∷ us) h a = (text_leb_trans s t u h a.0, All-below s t us h a.1)

insert_text-IsSorted : (s : List ℕ) (ts : List (List ℕ)) → IsSorted ts → IsSorted (insert_text s ts)
unfolding insert_text
insert_text-IsSorted s [] h = (tt, tt)
insert_text-IsSorted s (t ∷ ts) h = elim (Bool-cases (text_leb s t)) [
  | inl e ↦ rw e ((e, All-below s t ts e h.0), h)
  | inr e ↦ rw e (
    insert_text-All (λ u. text_leb t u ≡ true) s ts (text_leb_total s t e) h.0,
    insert_text-IsSorted s ts h.1,
  )
]

insert_text-perm : (s : List ℕ) (ts : List (List ℕ)) → Perm (insert_text s ts) (s ∷ ts)
unfolding insert_text
insert_text-perm s [] = Perm.rfl
insert_text-perm s (t ∷ ts) = elim (Bool-cases (text_leb s t)) [
  | inl e ↦ rw e Perm.rfl
  | inr e ↦ rw e (Perm.trans (Perm.cons t (insert_text-perm s ts)) (Perm.swap s t ts))
]

sort_texts-IsSorted : (ts : List (List ℕ)) → IsSorted (sort_texts ts)
unfolding sort_texts
sort_texts-IsSorted [] = tt
sort_texts-IsSorted (t ∷ ts) = insert_text-IsSorted t (sort_texts ts) (sort_texts-IsSorted ts)

sort_texts-perm : (ts : List (List ℕ)) → Perm (sort_texts ts) ts
unfolding sort_texts
sort_texts-perm [] = Perm.rfl
sort_texts-perm (t ∷ ts) =
    Perm.trans (insert_text-perm t (sort_texts ts)) (Perm.cons t (sort_texts-perm ts))

-- The first character tells the kinds of names apart.
starts_with-first :
    (s : List ℕ) (d : ℕ) (ds : List ℕ) → starts_with s (d ∷ ds) ≡ true → get_or s 0 0 ≡ d
unfolding starts_with
starts_with-first [] d ds h = cc
starts_with-first (c ∷ cs) d ds h = ground arith

same-first : (s : List ℕ) (d : ℕ) (ds : List ℕ) → same s (d ∷ ds) ≡ true → get_or s 0 0 ≡ d
unfolding same
same-first [] d ds h = cc
same-first (c ∷ cs) d ds h = ground arith

is_root_dex-first : (s : List ℕ) → is_root_dex s ≡ true → get_or s 0 0 ≡ b'c'
unfolding is_root_dex
is_root_dex-first s h =
    ground
      (arith, same-first s b'c' (codes "lasses.dex"), starts_with-first s b'c' (codes "lasses"))

sort_entry-lists :
    (entry : ZipEntry) (s : Sorting)
    → ((sort_entry entry s).arm64_libs
        ≡ (if is_arm64_lib entry.name then s.arm64_libs ++ entry.name ∷ [] else s.arm64_libs))
      × ((sort_entry entry s).dex_files
          ≡ (if is_root_dex entry.name then s.dex_files ++ entry.name ∷ [] else s.dex_files))
      × ((sort_entry entry s).asset_entries
          ≡ (if is_asset entry.name then s.asset_entries ++ entry.name ∷ [] else s.asset_entries))
unfolding sort_entry
sort_entry-lists entry s =
    let manifest = same-first entry.name b'A' (codes "ndroidManifest.xml") in
    let resources = same-first entry.name b'r' (codes "esources.arsc") in
    let lib = starts_with-first entry.name b'l' (codes "ib/arm64-v8a/") in
    let dex = is_root_dex-first entry.name in
    let asset = starts_with-first entry.name b'a' (codes "ssets/") in
    (
      ground (arith, manifest, resources, lib, dex, asset),
      ground (arith, manifest, resources, lib, dex, asset),
      ground (arith, manifest, resources, lib, dex, asset),
    )

append_kept :
    (acc acc' : List (List ℕ)) (name : List ℕ) (kept : Bool) (rest : List (List ℕ))
    → acc' ≡ (if kept then acc ++ name ∷ [] else acc)
    → acc' ++ rest ≡ acc ++ (if kept then name ∷ rest else rest)
append_kept acc acc' name true rest e =
    ap (λ (l : List (List ℕ)). l ++ rest) e ∙ append_assoc acc (name ∷ []) rest
append_kept acc acc' name false rest e = ap (λ (l : List (List ℕ)). l ++ rest) e

sort_entries-lists :
    (entries : List ZipEntry) (s : Sorting)
    → ((sort_entries entries s).arm64_libs ≡ s.arm64_libs ++ names_where is_arm64_lib entries)
      × ((sort_entries entries s).dex_files ≡ s.dex_files ++ names_where is_root_dex entries)
      × ((sort_entries entries s).asset_entries ≡ s.asset_entries ++ names_where is_asset entries)
unfolding sort_entries
sort_entries-lists [] s =
    (sym (append-nil s.arm64_libs), sym (append-nil s.dex_files), sym (append-nil s.asset_entries))
sort_entries-lists (entry ∷ entries) s =
    let s' = sort_entry entry s in
    let (libs, dexes, assets) = sort_entries-lists entries s' in
    let (lib, dex, asset) = sort_entry-lists entry s in
    (
      libs
          ∙ append_kept s.arm64_libs s'.arm64_libs entry.name (is_arm64_lib entry.name)
              (names_where is_arm64_lib entries) lib,
      dexes
          ∙ append_kept s.dex_files s'.dex_files entry.name (is_root_dex entry.name)
              (names_where is_root_dex entries) dex,
      assets
          ∙ append_kept s.asset_entries s'.asset_entries entry.name (is_asset entry.name)
              (names_where is_asset entries) asset,
    )

-- A list is what a test lets through, in the order of the names.
pub record Lists (test : List ℕ → Bool) (entries : List ZipEntry) (names : List (List ℕ))
    : Type 0 where
  pub sorted : IsSorted names
  pub perm : Perm names (names_where test entries)

-- What a classification says of the entries.
pub record IsClassified (entries : List ZipEntry) (c : ApkClassification) : Type 0 where
  pub arm64_libs : Lists is_arm64_lib entries c.arm64_libs
  pub dex_files : Lists is_root_dex entries c.dex_files
  pub asset_entries : Lists is_asset entries c.asset_entries
  pub runtime_kind : c.runtime_kind ≡ runtime_kind_for c.arm64_libs c.dex_files

sort_texts-Lists :
    (test : List ℕ → Bool) (entries : List ZipEntry) (names : List (List ℕ))
    → names ≡ names_where test entries
    → Lists test entries (sort_texts names)
sort_texts-Lists test entries names e = record {
  sorted = sort_texts-IsSorted names;
  perm = subst (λ (l : List (List ℕ)). Perm (sort_texts names) l) e (sort_texts-perm names);
}

bare_classification-IsClassified :
    (path : List ℕ) (entries : List ZipEntry)
    → IsClassified entries (bare_classification path (sort_entries entries unsorted))
unfolding bare_classification
bare_classification-IsClassified path entries =
    let s = sort_entries entries unsorted in
    let (libs, dexes, assets) = sort_entries-lists entries unsorted in
    record {
      arm64_libs = sort_texts-Lists is_arm64_lib entries s.arm64_libs libs;
      dex_files = sort_texts-Lists is_root_dex entries s.dex_files dexes;
      asset_entries = sort_texts-Lists is_asset entries s.asset_entries assets;
      runtime_kind = refl;
    }

with_manifest-IsClassified :
    (inflate : Inflate) (apk : List ℕ) (entries : List ZipEntry) (s : Sorting)
    (manifest_entry : Option ZipEntry) (c : ApkClassification)
    → IsClassified entries c
    → Leaves (IsClassified entries) (with_manifest inflate apk s manifest_entry c)
unfolding with_manifest
with_manifest-IsClassified inflate apk entries s none c h = leaves h
with_manifest-IsClassified inflate apk entries s (some entry) c h =
    Leaves-then (extract_entry_data inflate apk entry) _ λ manifest.
      Leaves-then (infer_manifest_info manifest (map lib_base_name s.arm64_libs)) _ λ info.
        Leaves-then (label_of inflate apk s.resources_entry info info.application_label) _ λ label.
          Leaves-then (icon_of inflate apk s.resources_entry info) _ λ icon. leaves (record {
            arm64_libs = h.arm64_libs;
            dex_files = h.dex_files;
            asset_entries = h.asset_entries;
            runtime_kind = h.runtime_kind;
          })

-- Whatever `classify_entries` finds in the manifest, if it returns: the libraries for arm64, the dex
-- files of the root and the assets with safe names are each a sorted rearrangement of the names of
-- the entries that are such, and the kind of the APK is that of the first two lists.
pub classify_entries-IsClassified :
    (inflate : Inflate) (apk_path apk : List ℕ) (entries : List ZipEntry)
    → Leaves (IsClassified entries) (classify_entries inflate apk_path apk entries)
unfolding classify_entries
classify_entries-IsClassified inflate apk_path apk entries =
    let s = sort_entries entries unsorted in
    with_manifest-IsClassified inflate apk entries s s.manifest_entry
      (bare_classification apk_path s) (bare_classification-IsClassified apk_path entries)
