-- ===== src/Linker/Dynamic/Laws.antt =====
-- The loop of `parse_dynamic` against the list of entries of a dynamic section, and `auxv_get` against the list
-- of entries of an auxiliary vector.
use muplar.Base.{ℕ, zero, suc, ◌+◌, ◌<◌, ◌/◌, ◌≡◌, ◌≢◌, refl, ◌∙◌, arith, List, [], ◌∷◌}
use muplar.Base.{Bool, ◌||◌, ◌==◌, if◌then◌else◌, length}
use muplar.Base.{Option, none, some}
use muplar.Base.Words.{add64}
use muplar.Memory.{Memory}
use muplar.Elf.{Auxv, auxv_at, Dyn, dyn_at}
use muplar.Elf.{dt_pltrelsz, dt_strtab, dt_symtab, dt_rela, dt_relasz, dt_strsz}
use muplar.Elf.{dt_jmprel, dt_android_rela, dt_android_relasz}
use muplar.Linker.{Object}
use muplar.Linker.Dynamic.{auxv_get, Parsed, parse_entry, parse_loop}
use muplar.Linker.Dynamic.{dt_relr, dt_relrsz, dt_gnu_hash}

-- The entries `es` stand at `a`, and an AT_NULL entry follows them.
abbrev pub IsAuxv : Memory → ℕ → List Auxv → Type 0
IsAuxv m a [] = (auxv_at m a).a_type ≡ 0
IsAuxv m a (e ∷ es) = (auxv_at m a ≡ e) × (e.a_type ≢ 0) × IsAuxv m (a + 16) es

unfoldable pub first_value : ℕ → List Auxv → ℕ
first_value type [] = 0
first_value type (e ∷ es) = if e.a_type == type then e.a_val else first_value type es

-- `auxv_get` ends on a terminated vector, given more rounds than it has entries, and returns the value
-- of the first entry of the type, or 0 without one.
pub auxv_get-first_value :
    (fuel : ℕ) (m : Memory) (a type : ℕ) (es : List Auxv)
    → IsAuxv m a es
    → length es < fuel
    → auxv_get fuel m a type ≡ some (first_value type es)
unfolding auxv_get first_value
auxv_get-first_value zero m a type es h f = absurd (omega arith)
auxv_get-first_value (suc fuel) m a type [] h f = ground arith
auxv_get-first_value (suc fuel) m a type (e ∷ es) h f =
    ground (arith, auxv_get-first_value fuel m (a + 16) type es h.2)

-- The entries `ds` stand at `a`, and a DT_NULL entry follows them.
abbrev pub IsDynamic : Memory → ℕ → List Dyn → Type 0
IsDynamic m a [] = (dyn_at m a).d_tag ≡ 0
IsDynamic m a (d ∷ ds) = (dyn_at m a ≡ d) × (d.d_tag ≢ 0) × IsDynamic m (a + 16) ds

unfoldable pub parse_entries : List Dyn → Parsed → Parsed
parse_entries [] s = s
parse_entries (d ∷ ds) s = parse_entries ds (parse_entry d s)

pub parse_loop-entries :
    (fuel : ℕ) (m : Memory) (a : ℕ) (ds : List Dyn) (s : Parsed)
    → IsDynamic m a ds
    → length ds < fuel
    → parse_loop fuel m a s ≡ some (parse_entries ds s)
unfolding parse_loop parse_entries
parse_loop-entries zero m a ds s h f = absurd (omega arith)
parse_loop-entries (suc fuel) m a [] s h f = ground arith
parse_loop-entries (suc fuel) m a (d ∷ ds) s h f =
    ground (arith, parse_loop-entries fuel m (a + 16) ds (parse_entry d s) h.2)

-- The value of the last entry whose tag passes the test.
unfoldable pub last_value : (ℕ → Bool) → List Dyn → Option ℕ
last_value tag [] = none
last_value tag (d ∷ ds) = elim (last_value tag ds) [
  | some v ↦ some v
  | none ↦ if tag d.d_tag then some d.d_val else none
]

unfoldable pub or_else : ℕ → (ℕ → ℕ) → Option ℕ → ℕ
or_else old f none = old
or_else old f (some v) = f v

pub parse_entry-load_base :
    (d : Dyn) (s : Parsed) → (parse_entry d s).obj.load_base ≡ s.obj.load_base
unfolding parse_entry
parse_entry-load_base d s = ground arith

-- A field that one tag sets holds what the last entry of that tag says.
module _ (get : Parsed → ℕ) (tag : ℕ → Bool) (value : ℕ → ℕ → ℕ)
    (step : (d : Dyn) (s : Parsed)
      → get (parse_entry d s)
        ≡ (if tag d.d_tag then value d.d_val s.obj.load_base else get s)) where
  field_lem :
      (ds : List Dyn) (s : Parsed)
      → get (parse_entries ds s)
        ≡ or_else (get s) (λ v. value v s.obj.load_base) (last_value tag ds)
  unfolding parse_entries last_value or_else
  field_lem [] s = refl
  field_lem (d ∷ ds) s =
      ground (arith, field_lem ds (parse_entry d s), step d s, parse_entry-load_base d s)

-- The tests on a tag.
abbrev pub one_of : ℕ → ℕ → ℕ → Bool
one_of a b tag = tag == a || tag == b

abbrev pub only : ℕ → ℕ → Bool
only a tag = tag == a

-- What the loop has in hand after the entries, field by field.
pub record IsFolded (obj : Object) (ds : List Dyn) (s : Parsed) : Type 0 where
  pub strtab_va :
      s.strtab_va ≡ or_else 0 (λ v. add64 v obj.load_base) (last_value (only dt_strtab) ds)
  pub strsz : s.obj.strsz ≡ or_else obj.strsz (λ v. v) (last_value (only dt_strsz) ds)
  pub symtab :
      s.obj.symtab
      ≡ or_else obj.symtab (λ v. add64 v obj.load_base) (last_value (only dt_symtab) ds)
  pub rela :
      s.obj.rela ≡ or_else obj.rela (λ v. add64 v obj.load_base) (last_value (only dt_rela) ds)
  pub rela_count :
      s.obj.rela_count ≡ or_else obj.rela_count (λ v. v / 24) (last_value (only dt_relasz) ds)
  pub jmprel :
      s.obj.jmprel
      ≡ or_else obj.jmprel (λ v. add64 v obj.load_base) (last_value (only dt_jmprel) ds)
  pub jmprel_count :
      s.obj.jmprel_count ≡ or_else obj.jmprel_count (λ v. v / 24) (last_value (only dt_pltrelsz) ds)
  pub relr :
      s.obj.relr ≡ or_else obj.relr (λ v. add64 v obj.load_base) (last_value (one_of 36 dt_relr) ds)
  pub relr_count :
      s.obj.relr_count ≡ or_else obj.relr_count (λ v. v / 8) (last_value (one_of 35 dt_relrsz) ds)
  pub android_rela :
      s.obj.android_rela
      ≡ or_else obj.android_rela (λ v. add64 v obj.load_base) (last_value (only dt_android_rela) ds)
  pub android_rela_size :
      s.obj.android_rela_size
      ≡ or_else obj.android_rela_size (λ v. v) (last_value (only dt_android_relasz) ds)
  pub gnu_hash :
      s.obj.gnu_hash
      ≡ or_else obj.gnu_hash (λ v. add64 v obj.load_base) (last_value (only dt_gnu_hash) ds)
  pub load_base : s.obj.load_base ≡ obj.load_base
  pub strtab : s.obj.strtab ≡ obj.strtab
  pub soname : s.obj.soname ≡ obj.soname
  pub path : s.obj.path ≡ obj.path

strtab_va_step :
    (d : Dyn) (s : Parsed)
    → (parse_entry d s).strtab_va
      ≡ (if d.d_tag == dt_strtab then add64 d.d_val s.obj.load_base else s.strtab_va)
unfolding parse_entry
strtab_va_step d s = ground arith

strsz_step :
    (d : Dyn) (s : Parsed)
    → (parse_entry d s).obj.strsz ≡ (if d.d_tag == dt_strsz then d.d_val else s.obj.strsz)
unfolding parse_entry
strsz_step d s = ground arith

symtab_step :
    (d : Dyn) (s : Parsed)
    → (parse_entry d s).obj.symtab
      ≡ (if d.d_tag == dt_symtab then add64 d.d_val s.obj.load_base else s.obj.symtab)
unfolding parse_entry
symtab_step d s = ground arith

rela_step :
    (d : Dyn) (s : Parsed)
    → (parse_entry d s).obj.rela
      ≡ (if d.d_tag == dt_rela then add64 d.d_val s.obj.load_base else s.obj.rela)
unfolding parse_entry
rela_step d s = ground arith

rela_count_step :
    (d : Dyn) (s : Parsed)
    → (parse_entry d s).obj.rela_count
      ≡ (if d.d_tag == dt_relasz then d.d_val / 24 else s.obj.rela_count)
unfolding parse_entry
rela_count_step d s = ground arith

jmprel_step :
    (d : Dyn) (s : Parsed)
    → (parse_entry d s).obj.jmprel
      ≡ (if d.d_tag == dt_jmprel then add64 d.d_val s.obj.load_base else s.obj.jmprel)
unfolding parse_entry
jmprel_step d s = ground arith

jmprel_count_step :
    (d : Dyn) (s : Parsed)
    → (parse_entry d s).obj.jmprel_count
      ≡ (if d.d_tag == dt_pltrelsz then d.d_val / 24 else s.obj.jmprel_count)
unfolding parse_entry
jmprel_count_step d s = ground arith

relr_step :
    (d : Dyn) (s : Parsed)
    → (parse_entry d s).obj.relr
      ≡ (if one_of 36 dt_relr d.d_tag then add64 d.d_val s.obj.load_base else s.obj.relr)
unfolding parse_entry
relr_step d s = ground arith

relr_count_step :
    (d : Dyn) (s : Parsed)
    → (parse_entry d s).obj.relr_count
      ≡ (if one_of 35 dt_relrsz d.d_tag then d.d_val / 8 else s.obj.relr_count)
unfolding parse_entry
relr_count_step d s = ground arith

android_rela_step :
    (d : Dyn) (s : Parsed)
    → (parse_entry d s).obj.android_rela
      ≡ (if d.d_tag == dt_android_rela then add64 d.d_val s.obj.load_base else s.obj.android_rela)
unfolding parse_entry
android_rela_step d s = ground arith

android_rela_size_step :
    (d : Dyn) (s : Parsed)
    → (parse_entry d s).obj.android_rela_size
      ≡ (if d.d_tag == dt_android_relasz then d.d_val else s.obj.android_rela_size)
unfolding parse_entry
android_rela_size_step d s = ground arith

gnu_hash_step :
    (d : Dyn) (s : Parsed)
    → (parse_entry d s).obj.gnu_hash
      ≡ (if d.d_tag == dt_gnu_hash then add64 d.d_val s.obj.load_base else s.obj.gnu_hash)
unfolding parse_entry
gnu_hash_step d s = ground arith

module _ {ℓ} {A : Type ℓ} (get : Parsed → A)
    (step : (d : Dyn) (s : Parsed) → get (parse_entry d s) ≡ get s) where
  pub kept_lem : (ds : List Dyn) (s : Parsed) → get (parse_entries ds s) ≡ get s
  unfolding parse_entries
  kept_lem [] s = refl
  kept_lem (d ∷ ds) s = kept_lem ds (parse_entry d s) ∙ step d s

strtab_step : (d : Dyn) (s : Parsed) → (parse_entry d s).obj.strtab ≡ s.obj.strtab
unfolding parse_entry
strtab_step d s = ground arith

pub soname_step : (d : Dyn) (s : Parsed) → (parse_entry d s).obj.soname ≡ s.obj.soname
unfolding parse_entry
soname_step d s = ground arith

path_step : (d : Dyn) (s : Parsed) → (parse_entry d s).obj.path ≡ s.obj.path
unfolding parse_entry
path_step d s = ground arith

pub parse_entries-IsFolded :
    (obj : Object) (ds : List Dyn)
    → IsFolded obj ds (parse_entries ds (record { obj = obj; strtab_va = 0 }))
parse_entries-IsFolded obj ds =
    let s : Parsed = record { obj = obj; strtab_va = 0 } in
    record {
      strtab_va = field_lem (λ s. s.strtab_va) (only dt_strtab) add64 strtab_va_step ds s;
      strsz = field_lem (λ s. s.obj.strsz) (only dt_strsz) (λ v base. v) strsz_step ds s;
      symtab = field_lem (λ s. s.obj.symtab) (only dt_symtab) add64 symtab_step ds s;
      rela = field_lem (λ s. s.obj.rela) (only dt_rela) add64 rela_step ds s;
      rela_count =
          field_lem (λ s. s.obj.rela_count) (only dt_relasz) (λ v base. v / 24) rela_count_step ds
            s;
      jmprel = field_lem (λ s. s.obj.jmprel) (only dt_jmprel) add64 jmprel_step ds s;
      jmprel_count =
          field_lem (λ s. s.obj.jmprel_count) (only dt_pltrelsz) (λ v base. v / 24)
            jmprel_count_step ds s;
      relr = field_lem (λ s. s.obj.relr) (one_of 36 dt_relr) add64 relr_step ds s;
      relr_count =
          field_lem (λ s. s.obj.relr_count) (one_of 35 dt_relrsz) (λ v base. v / 8) relr_count_step
            ds s;
      android_rela =
          field_lem (λ s. s.obj.android_rela) (only dt_android_rela) add64 android_rela_step ds s;
      android_rela_size =
          field_lem (λ s. s.obj.android_rela_size) (only dt_android_relasz) (λ v base. v)
            android_rela_size_step ds s;
      gnu_hash = field_lem (λ s. s.obj.gnu_hash) (only dt_gnu_hash) add64 gnu_hash_step ds s;
      load_base = kept_lem (λ s. s.obj.load_base) parse_entry-load_base ds s;
      strtab = kept_lem (λ s. s.obj.strtab) strtab_step ds s;
      soname = kept_lem (λ s. s.obj.soname) soname_step ds s;
      path = kept_lem (λ s. s.obj.path) path_step ds s;
    }
