-- ===== src/Linker/Libs/Loads.antt =====
-- `load_needed_so`: it ends, it only adds objects, and no two objects have the same name.
use muplar.Base.{ℕ, zero, suc, ◌+◌, ◌*◌, ◌≡◌, refl, ◌∙◌, arith, List, [], ◌∷◌}
use muplar.Base.{Bool, true, false, ◌==◌, ltb, leb, length, if◌then◌else◌, Bool-cases, inl, inr}
use muplar.Base.{Option, none, some}
use muplar.Memory.{Memory, of_bytes}
use muplar.Elf.{Phdr, ehdr_at, dyn_at, dt_null, pt_dynamic, pt_tls, pt_load}
use muplar.Linker.{
  Object, Env, Fatal, read_elf_header, read_phdrs, Result, ok, fatal, fault, ◌>>=◌, empty_object,
  soname_size,
}
use muplar.Linker.Dynamic.{Parsed, parse_loop, finish, parse_dynamic, parse_entry}
use muplar.Linker.Dynamic.Laws.{soname_step}
use muplar.Linker.Load.{
  Os, Space, load_so, load_segments, map_segments, map_segment, scan_segments, ReadResult, expect,
  phdrs_from, sys_close,
}
use muplar.Linker.Load.Reading.{Ends, with_bytes, with_failure, read_at-Ends}
use muplar.Linker.Libs.{load_object, is_system_lib, search_dirs, library_dirs}

-- The run ends, and its result has the property.
pub data Yields {A : Type 0} (P : A → Type 0) : Result A → Type 0 where
  yields : {a : A} → P a → Yields P (ok a)
  stops : {e : Fatal} → Yields P (fatal e)
  faults : Yields P fault

pub Yields-bind :
    {A B : Type 0} {P : A → Type 0} {Q : B → Type 0} {r : Result A} {f : A → Result B}
    → Yields P r
    → ((a : A) → P a → Yields Q (f a))
    → Yields Q (r >>= f)
Yields-bind (yields p) next = next _ p
Yields-bind stops next = stops
Yields-bind faults next = faults

-- The run that ends with a result is the one that gave it.
pub Yields-self :
    {A : Type 0} {P : A → Type 0} {r : Result A} → Yields P r → Yields (λ a. (r ≡ ok a) × P a) r
Yields-self (yields p) = yields (refl, p)
Yields-self stops = stops
Yields-self faults = faults

pub Yields-if :
    {A : Type 0} {P : A → Type 0} (b : Bool) {x y : Result A}
    → Yields P x
    → Yields P y
    → Yields P (if b then x else y)
Yields-if true h k = h
Yields-if false h k = k

abbrev pub Anything : {A : Type 0} → A → Type 0
Anything a = Unit {0}

-- An object keeps its name while it is loaded.
abbrev pub Named : List ℕ → Object → Type 0
Named soname obj = obj.soname ≡ soname

parse_loop-soname :
    (fuel : ℕ) (m : Memory) (a : ℕ) (s r : Parsed)
    → parse_loop fuel m a s ≡ some r
    → r.obj.soname ≡ s.obj.soname
unfolding parse_loop
parse_loop-soname zero m a s r e = cc
parse_loop-soname (suc fuel) m a s r e = elim (Bool-cases ((dyn_at m a).d_tag == dt_null)) [
  | inl end ↦ let same : some s ≡ some r = rw (end, parse_loop) at e in cc
  | inr more ↦
      parse_loop-soname fuel m (a + 16) (parse_entry (dyn_at m a) s) r (rw (more, parse_loop) at e)
      ∙ soname_step (dyn_at m a) s
]

finish-soname : (s : Parsed) → (finish s).soname ≡ s.obj.soname
unfolding finish
finish-soname s = ground arith

parse_dynamic-Named :
    (fuel : ℕ) (m : Memory) (obj : Object) (a : ℕ) {P : Object → Type 0}
    {f : Object → Result Object}
    → ((obj' : Object) → Named obj.soname obj' → Yields P (f obj'))
    → Yields P (elim (parse_dynamic fuel m obj a) [ none ↦ fault | some obj' ↦ f obj' ])
unfolding parse_dynamic
parse_dynamic-Named fuel m obj a {P} {f} next =
    go (parse_loop fuel m a (record { obj = obj; strtab_va = 0 })) refl
  where
    go :
        (o : Option Parsed)
        → parse_loop fuel m a (record { obj = obj; strtab_va = 0 }) ≡ o
        → (let parsed : Option Object = elim o [ none ↦ none | some s ↦ some (finish s) ] in
            Yields P (elim parsed [ none ↦ fault | some obj' ↦ f obj' ]))
    go none e = faults
    go (some s) e = next (finish s) (finish-soname s ∙ parse_loop-soname fuel m a _ s e)

pub scan_segments-Named :
    (limit : ℕ) (m : Memory) (phs : List Phdr) (obj : Object) (soname : List ℕ)
    → Named soname obj
    → Yields (Named soname) (scan_segments limit m phs obj)
unfolding scan_segments
scan_segments-Named limit m [] obj soname e = yields e
scan_segments-Named limit m (ph ∷ phs) obj soname e =
    Yields-if (ph.p_type == pt_dynamic)
      (parse_dynamic-Named limit m obj _
        λ obj' e'. scan_segments-Named limit m phs obj' soname (e' ∙ e))
      (Yields-if (ph.p_type == pt_tls) (scan_segments-Named limit m phs _ soname e)
        (scan_segments-Named limit m phs obj soname e))

map_segment-Yields :
    (os : Os) (fd base : ℕ) (ph : Phdr) (s : Space) → Yields Anything (map_segment os fd base ph s)
unfolding map_segment
map_segment-Yields os fd base ph s = Yields-if _ stops (Yields-if _ (yields tt) (yields tt))

map_segments-Yields :
    (os : Os) (fd base : ℕ) (phs : List Phdr) (s : Space)
    → Yields Anything (map_segments os fd base phs s)
unfolding map_segments
map_segments-Yields os fd base [] s = yields tt
map_segments-Yields os fd base (ph ∷ phs) s =
    Yields-if (ph.p_type == pt_load)
      (Yields-bind (map_segment-Yields os fd base ph s)
        λ s' h. map_segments-Yields os fd base phs s')
      (map_segments-Yields os fd base phs s)

-- The name of the object of a load.
abbrev NamedLoad : List ℕ → Object × Space → Type 0
NamedLoad soname r = Named soname r.0

load_segments-Named :
    (os : Os) (limit fd : ℕ) (phs : List Phdr) (obj : Object) (s : Space)
    → Yields (NamedLoad obj.soname) (load_segments os limit fd phs obj s)
unfolding load_segments
load_segments-Named os limit fd phs obj s = Yields-if _ stops (
    Yields-bind (map_segments-Yields os fd _ phs _) λ s' h.
      Yields-bind (scan_segments-Named limit s'.mem phs _ obj.soname refl) λ obj' e. yields e)

expect-Yields : {r : ReadResult} → Ends r → (e : Fatal) → Yields Anything (expect r e)
expect-Yields (with_bytes bs) e = yields tt
expect-Yields with_failure e = stops

load_so-Named :
    (os : Os) (limit : ℕ) (obj : Object) (fd : ℕ) (s : Space)
    → Yields (NamedLoad obj.soname) (load_so os limit obj fd s)
unfolding load_so
load_so-Named os limit obj fd s =
    Yields-bind (expect-Yields (read_at-Ends os fd 0 64) read_elf_header) λ header h.
      Yields-bind {P = Anything}
        (Yields-if (ltb 16 (ehdr_at (of_bytes header) 0).e_phnum) stops (yields tt))
        λ phnum h.
          Yields-bind (expect-Yields (read_at-Ends os fd _ (phnum * 56)) read_phdrs)
            λ table h. load_segments-Named os limit fd (phdrs_from (of_bytes table) phnum 0) obj s

-- `load_object` ends, and the object has the name that was asked for.
pub load_object-Named :
    (env : Env) (os : Os) (soname : List ℕ) (s : Space)
    → Yields (NamedLoad soname) (load_object env os soname s)
unfolding load_object
load_object-Named env os soname s =
    Yields-if (leb soname_size (length soname)) faults
      (Yields-if (is_system_lib soname) (yields refl) (found (search_dirs os library_dirs soname)))
  where
    found :
        (o : Option (List ℕ × ℕ))
        → Yields (NamedLoad soname) (elim o [
          | none ↦ ok (record empty_object { soname = soname }, s)
          | some found ↦ (do
            (obj', s') ←
                load_so os env.limit
                  (record empty_object { soname = soname; path = found.0 })
                  found.1
                  s
            ok (obj', sys_close found.1 s'))
        ])
    found none = yields refl
    found (some (path, fd)) =
        Yields-bind
          (load_so-Named os env.limit (record empty_object { soname = soname; path = path }) fd s)
          λ r e. yields e
