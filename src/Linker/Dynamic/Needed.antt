-- ===== src/Linker/Dynamic/Needed.antt =====
-- What `parse_dynamic` leaves in the object: every field by the last entry of its tag, and the first
-- 256 needed libraries in order.
use Prim.Native.Nat.{◌≤◌}
use mathlib.Core.List.{append_assoc}
use muplar.Base.{ℕ, zero, suc, ◌<◌, ◌/◌, ◌≡◌, refl, sym, ap, ◌∙◌, arith, List, [], ◌∷◌, ◌++◌}
use muplar.Base.{◌==◌, ltb, if◌then◌else◌, length, take, length-append, Bool-cases, inl, inr, tests}
use muplar.Base.{Option, none, some}
use muplar.Base.Words.{add64, u32}
use muplar.Memory.{Memory}
use muplar.Elf.{Dyn, dt_needed, dt_pltrelsz, dt_strtab, dt_symtab, dt_rela, dt_relasz, dt_strsz}
use muplar.Elf.{dt_jmprel, dt_android_rela, dt_android_relasz}
use muplar.Linker.{Object, nonzero, max_needed}
use muplar.Linker.Dynamic.{Parsed, parse_entry, finish, parse_dynamic}
use muplar.Linker.Dynamic.{dt_relr, dt_relrsz, dt_gnu_hash}
use muplar.Linker.Dynamic.Laws.{IsDynamic, parse_entries, parse_loop-entries, last_value, or_else}
use muplar.Linker.Dynamic.Laws.{IsFolded, parse_entries-IsFolded, only, one_of}

-- The offsets of all DT_NEEDED entries, in order, as 32-bit words.
unfoldable pub needed : List Dyn → List ℕ
needed [] = []
needed (d ∷ ds) = if d.d_tag == dt_needed then u32 d.d_val ∷ needed ds else needed ds

take_all : (n : ℕ) (xs : List ℕ) → length xs ≤ n → take n (xs ++ []) ≡ xs
take_all zero [] h = refl
take_all zero (x ∷ xs) h = absurd (omega arith)
take_all (suc n) [] h = refl
take_all (suc n) (x ∷ xs) h = ap (λ (l : List ℕ). x ∷ l) (take_all n xs (omega arith))

take_full : (n : ℕ) (xs ys : List ℕ) → length xs ≡ n → take n (xs ++ ys) ≡ xs
take_full zero [] ys h = refl
take_full zero (x ∷ xs) ys h = absurd (omega arith)
take_full (suc n) [] ys h = absurd (omega arith)
take_full (suc n) (x ∷ xs) ys h = ap (λ (l : List ℕ). x ∷ l) (take_full n xs ys (omega arith))

needed_step :
    (d : Dyn) (s : Parsed)
    → (parse_entry d s).obj.needed_off ≡ (
        if d.d_tag == dt_needed
        then if ltb (length s.obj.needed_off) max_needed
          then s.obj.needed_off ++ u32 d.d_val ∷ []
          else s.obj.needed_off
        else s.obj.needed_off)
unfolding parse_entry
needed_step d s = ground arith

-- One more offset is kept while there is room.
module _ (old new : List ℕ) (v : ℕ) where
  room_length :
      length old ≤ max_needed
      → new ≡ (if ltb (length old) max_needed then old ++ v ∷ [] else old)
      → length new ≤ max_needed
  room_length h e = elim (Bool-cases (ltb (length old) 256)) [
    | inl lt ↦ rw (e, lt) (omega (tests, length-append old (v ∷ [])))
    | inr ge ↦ rw (e, ge) h
  ]

  room :
      (ys : List ℕ)
      → length old ≤ max_needed
      → new ≡ (if ltb (length old) max_needed then old ++ v ∷ [] else old)
      → take max_needed (new ++ ys) ≡ take max_needed (old ++ v ∷ ys)
  room ys h e = elim (Bool-cases (ltb (length old) 256)) [
    | inl lt ↦ rw (e, lt, append_assoc) refl
    | inr ge ↦
        let full : length old ≡ 256 = ground arith in
        rw (e, ge) (take_full 256 old ys full ∙ sym (take_full 256 old (v ∷ ys) full))
  ]

parse_entries-needed :
    (ds : List Dyn) (s : Parsed)
    → length s.obj.needed_off ≤ max_needed
    → (parse_entries ds s).obj.needed_off ≡ take max_needed (s.obj.needed_off ++ needed ds)
unfolding parse_entries needed
parse_entries-needed [] s h = sym (take_all 256 s.obj.needed_off h)
parse_entries-needed (d ∷ ds) s h = elim (Bool-cases (d.d_tag == dt_needed)) [
  | inl hit ↦
      let e = needed_step d s ∙ rw hit refl in
      parse_entries-needed ds (parse_entry d s) (room_length _ _ (u32 d.d_val) h e)
      ∙ rw hit (room _ _ (u32 d.d_val) (needed ds) h e)
  | inr miss ↦
      let e : (parse_entry d s).obj.needed_off ≡ s.obj.needed_off =
        needed_step d s ∙ rw miss refl in
      parse_entries-needed ds (parse_entry d s) (rw e h) ∙ rw (e, miss) refl
]

finish_kept {ℓ} :
    {A : Type ℓ} (get : Object → A)
    → ((o : Object) (v : ℕ) → get (record o { strtab = v }) ≡ get o)
    → (s : Parsed) → get (finish s) ≡ get s.obj
unfolding finish
finish_kept get same s = elim (Bool-cases (nonzero s.strtab_va)) [
  | inl e ↦ rw (e, finish) (same s.obj s.strtab_va)
  | inr e ↦ rw (e, finish) refl
]

-- What an object becomes by the entries of its dynamic section.
pub record IsParsed (obj : Object) (ds : List Dyn) (r : Object) : Type 0 where
  pub strtab :
      r.strtab
      ≡ or_else obj.strtab
          (λ v. if nonzero (add64 v obj.load_base) then add64 v obj.load_base else obj.strtab)
          (last_value (only dt_strtab) ds)
  pub strsz : r.strsz ≡ or_else obj.strsz (λ v. v) (last_value (only dt_strsz) ds)
  pub symtab :
      r.symtab ≡ or_else obj.symtab (λ v. add64 v obj.load_base) (last_value (only dt_symtab) ds)
  pub rela : r.rela ≡ or_else obj.rela (λ v. add64 v obj.load_base) (last_value (only dt_rela) ds)
  pub rela_count :
      r.rela_count ≡ or_else obj.rela_count (λ v. v / 24) (last_value (only dt_relasz) ds)
  pub jmprel :
      r.jmprel ≡ or_else obj.jmprel (λ v. add64 v obj.load_base) (last_value (only dt_jmprel) ds)
  pub jmprel_count :
      r.jmprel_count ≡ or_else obj.jmprel_count (λ v. v / 24) (last_value (only dt_pltrelsz) ds)
  pub relr :
      r.relr ≡ or_else obj.relr (λ v. add64 v obj.load_base) (last_value (one_of 36 dt_relr) ds)
  pub relr_count :
      r.relr_count ≡ or_else obj.relr_count (λ v. v / 8) (last_value (one_of 35 dt_relrsz) ds)
  pub android_rela :
      r.android_rela
      ≡ or_else obj.android_rela (λ v. add64 v obj.load_base) (last_value (only dt_android_rela) ds)
  pub android_rela_size :
      r.android_rela_size
      ≡ or_else obj.android_rela_size (λ v. v) (last_value (only dt_android_relasz) ds)
  pub gnu_hash :
      r.gnu_hash
      ≡ or_else obj.gnu_hash (λ v. add64 v obj.load_base) (last_value (only dt_gnu_hash) ds)
  pub needed_off : r.needed_off ≡ take max_needed (needed ds)
  pub load_base : r.load_base ≡ obj.load_base
  pub soname : r.soname ≡ obj.soname
  pub path : r.path ≡ obj.path

finish_strtab :
    (s : Parsed) → (finish s).strtab ≡ (if nonzero s.strtab_va then s.strtab_va else s.obj.strtab)
unfolding finish
finish_strtab s = ground arith

strtab_value :
    (va old base : ℕ) {now : ℕ} (o : Option ℕ)
    → va ≡ or_else 0 (λ v. add64 v base) o
    → now ≡ old
    → (if nonzero va then va else now)
      ≡ or_else old (λ v. if nonzero (add64 v base) then add64 v base else old) o
unfolding or_else
strtab_value va old base none e k = ground arith
strtab_value va old base (some v) e k = ground arith

finish-IsParsed :
    (obj : Object) (ds : List Dyn) (s : Parsed)
    → IsFolded obj ds s
    → s.obj.needed_off ≡ take max_needed (needed ds)
    → IsParsed obj ds (finish s)
finish-IsParsed obj ds s h n = record {
  strtab =
      finish_strtab s
      ∙ strtab_value _ _ obj.load_base (last_value (only dt_strtab) ds) h.strtab_va h.strtab;
  strsz = finish_kept (λ o. o.strsz) (λ o v. refl) s ∙ h.strsz;
  symtab = finish_kept (λ o. o.symtab) (λ o v. refl) s ∙ h.symtab;
  rela = finish_kept (λ o. o.rela) (λ o v. refl) s ∙ h.rela;
  rela_count = finish_kept (λ o. o.rela_count) (λ o v. refl) s ∙ h.rela_count;
  jmprel = finish_kept (λ o. o.jmprel) (λ o v. refl) s ∙ h.jmprel;
  jmprel_count = finish_kept (λ o. o.jmprel_count) (λ o v. refl) s ∙ h.jmprel_count;
  relr = finish_kept (λ o. o.relr) (λ o v. refl) s ∙ h.relr;
  relr_count = finish_kept (λ o. o.relr_count) (λ o v. refl) s ∙ h.relr_count;
  android_rela = finish_kept (λ o. o.android_rela) (λ o v. refl) s ∙ h.android_rela;
  android_rela_size = finish_kept (λ o. o.android_rela_size) (λ o v. refl) s ∙ h.android_rela_size;
  gnu_hash = finish_kept (λ o. o.gnu_hash) (λ o v. refl) s ∙ h.gnu_hash;
  load_base = finish_kept (λ o. o.load_base) (λ o v. refl) s ∙ h.load_base;
  soname = finish_kept (λ o. o.soname) (λ o v. refl) s ∙ h.soname;
  path = finish_kept (λ o. o.path) (λ o v. refl) s ∙ h.path;
  needed_off = finish_kept (λ o. o.needed_off) (λ o v. refl) s ∙ n;
}

-- `parse_dynamic` ends on a terminated dynamic section, given more rounds than it has entries and an
-- object without needed libraries. Each field of the object then holds what
-- the last entry of its tag says, relocated where it is an address, and keeps its value where there
-- is none; the needed libraries are the first 256 of the section, in order.
pub parse_dynamic-IsParsed :
    (fuel : ℕ) (m : Memory) (obj : Object) (dyn_va : ℕ) (ds : List Dyn)
    → IsDynamic m dyn_va ds
    → length ds < fuel
    → obj.needed_off ≡ []
    → (r : Object) × (parse_dynamic fuel m obj dyn_va ≡ some r) × IsParsed obj ds r
unfolding parse_dynamic
parse_dynamic-IsParsed fuel m obj dyn_va ds h f e =
    let s : Parsed = record { obj = obj; strtab_va = 0 } in
    (
      finish (parse_entries ds s),
      rw (parse_loop-entries fuel m dyn_va ds s h f, parse_dynamic) refl,
      finish-IsParsed obj ds (parse_entries ds s) (parse_entries-IsFolded obj ds)
          (parse_entries-needed ds s (rw e (omega arith)) ∙ rw e refl),
    )
