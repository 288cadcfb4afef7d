-- ===== src/Linker/Libs/Growth.antt =====
-- `load_needed_so`: it ends, it only adds objects, and no two objects have the same name.
use Prim.Native.Nat.{◌≤◌}
use mathlib.Core.List.{append_assoc, append-nil}
use muplar.Base.{ℕ, zero, suc, ◌+◌, ◌<◌, ◌≡◌, refl, sym, ap, ◌∙◌, arith, List, [], ◌∷◌, ◌++◌}
use muplar.Base.{true, false, ◌||◌, leb, if◌then◌else◌, length, length-append, Bool-cases, inl, inr}
use muplar.Cstring.{NoNul, strcmp, str_eq}
use muplar.Cstring.Laws.{str_eq_refl}
use muplar.Linker.{Object, Env, Result, ok, max_objects, nonzero}
use muplar.Linker.Load.{Os, Space}
use muplar.Linker.Libs.{State, has_soname, load_list, load_needed_so}
use muplar.Linker.Libs.Loads.{
  Yields, yields, stops, faults, Yields-bind, Yields-if, Named, load_object-Named,
}

-- No object has the name of an earlier one.
abbrev pub Distinct : List Object → Type 0
Distinct [] = Unit {0}
Distinct (o ∷ os) = (has_soname o.soname os ≡ false) × Distinct os

str_eq_comm : (a b : List ℕ) → str_eq a b ≡ str_eq b a
unfolding strcmp
str_eq_comm [] [] = refl
str_eq_comm [] (d ∷ ds) = ground arith
str_eq_comm (c ∷ cs) [] = ground arith
str_eq_comm (c ∷ cs) (d ∷ ds) = ground (arith, str_eq_comm cs ds)

has_soname-append :
    (s : List ℕ) (xs ys : List Object)
    → has_soname s (xs ++ ys) ≡ (has_soname s xs || has_soname s ys)
unfolding has_soname
has_soname-append s [] ys = refl
has_soname-append s (x ∷ xs) ys = ground (arith, has_soname-append s xs ys)

Distinct-append :
    (o : Object) (xs : List Object)
    → Distinct xs
    → has_soname o.soname xs ≡ false
    → Distinct (xs ++ o ∷ [])
unfolding has_soname
Distinct-append o [] h e = (refl, tt)
Distinct-append o (x ∷ xs) h e = (
  ground (arith, has_soname-append x.soname xs (o ∷ []), str_eq_comm x.soname o.soname, h.0),
  Distinct-append o xs h.1 (ground arith),
)

-- What a load does to the registered objects.
pub record Grows (st st' : State) : Type 0 where
  pub new : List Object
  pub extends : st'.objects ≡ st.objects ++ new
  pub bounded : length st'.objects ≤ max_objects
  pub distinct : Distinct st.objects → Distinct st'.objects

pub Grows-refl : (st : State) → length st.objects ≤ max_objects → Grows st st
Grows-refl st h = record {
  new = [];
  extends = sym (append-nil st.objects);
  bounded = h;
  distinct = λ d. d;
}

Grows-trans : {a b c : State} → Grows a b → Grows b c → Grows a c
Grows-trans {a} g h = record {
  new = g.new ++ h.new;
  extends =
      h.extends
      ∙ ap (λ (l : List Object). l ++ h.new) g.extends
      ∙ append_assoc a.objects g.new h.new;
  bounded = h.bounded;
  distinct = λ d. h.distinct (g.distinct d);
}

Grows-length : {a b : State} → Grows a b → length a.objects ≤ length b.objects
Grows-length {a} g = rw g.extends (omega (arith, length-append a.objects g.new))

-- A load that also leaves an object of the name.
pub record Registers (soname : List ℕ) (st st' : State) : Type 0 where
  pub grows : Grows st st'
  pub registered : NoNul soname → has_soname soname st'.objects ≡ true

Grows-registered :
    (soname : List ℕ) {a b : State}
    → Grows a b
    → has_soname soname a.objects ≡ true
    → has_soname soname b.objects ≡ true
Grows-registered soname {a} g e =
    rw (g.extends) (has_soname-append soname a.objects g.new ∙ rw e refl)

pub Yields-mono :
    {A : Type 0} {P Q : A → Type 0} {r : Result A} → Yields P r → ((a : A) → P a → Q a) → Yields Q r
Yields-mono (yields p) weaken = yields (weaken _ p)
Yields-mono stops weaken = stops
Yields-mono faults weaken = faults

-- The loop over the needed libraries, where each load does its part.
pub load_list-Grows :
    (load : List ℕ → State → Result State) (floor limit strtab : ℕ) (offs : List ℕ) (st : State)
    → ((soname : List ℕ) (st : State)
        → floor ≤ length st.objects
        → length st.objects ≤ max_objects
        → Yields (Registers soname st) (load soname st))
    → floor ≤ length st.objects
    → length st.objects ≤ max_objects
    → Yields (Grows st) (load_list load limit strtab offs st)
unfolding load_list
load_list-Grows load floor limit strtab [] st each lo hi = yields (Grows-refl st hi)
load_list-Grows load floor limit strtab (off ∷ offs) st each lo hi =
    Yields-bind (each _ st lo hi) λ st' r.
      let g = r.grows in
      let up = Grows-length g in
      Yields-mono (load_list-Grows load floor limit strtab offs st' each (omega arith) g.bounded)
        λ st'' h. Grows-trans g h

-- The new object is put behind the others.
grow_one :
    (soname : List ℕ) (obj : Object) (s : Space) (st : State)
    → Named soname obj
    → has_soname soname st.objects ≡ false
    → length st.objects < max_objects
    → Registers soname st (record { objects = st.objects ++ obj ∷ []; space = s })
unfolding has_soname
grow_one soname obj s st e fresh room = record {
  grows = record {
    new = obj ∷ [];
    extends = refl;
    bounded = omega (arith, length-append st.objects (obj ∷ []));
    distinct = λ d. Distinct-append obj st.objects d (rw e fresh);
  };
  registered = λ nn.
      has_soname-append soname st.objects (obj ∷ []) ∙ rw (fresh, e, str_eq_refl soname nn) refl;
}

-- What follows the load of one object: its own needed libraries.
add_object :
    (load : List ℕ → State → Result State) (env : Env) (soname : List ℕ) (obj : Object) (s : Space)
    (st : State)
    → ((soname' : List ℕ) (st' : State)
        → suc (length st.objects) ≤ length st'.objects
        → length st'.objects ≤ max_objects
        → Yields (Registers soname' st') (load soname' st'))
    → Named soname obj
    → length st.objects < max_objects
    → has_soname soname st.objects ≡ false
    → Yields (Registers soname st) (
        if nonzero obj.strtab
        then load_list load env.limit obj.strtab obj.needed_off
            (record { objects = st.objects ++ obj ∷ []; space = s })
        else ok (record { objects = st.objects ++ obj ∷ []; space = s }))
add_object load env soname obj s st each e below fresh =
    let st' : State = record { objects = st.objects ++ obj ∷ []; space = s } in
    let one = grow_one soname obj s st e fresh below in
    let count = length-append st.objects (obj ∷ []) in
    Yields-if (nonzero obj.strtab)
      (Yields-mono
        (load_list-Grows load (suc (length st.objects)) env.limit obj.strtab obj.needed_off st' each
          (omega arith) one.grows.bounded)
        λ st'' g. record {
          grows = Grows-trans one.grows g;
          registered = λ nn. Grows-registered soname g (one.registered nn);
        })
      (yields one)

pub load_needed_so-Registers :
    (fuel : ℕ) (env : Env) (os : Os) (soname : List ℕ) (st : State)
    → max_objects < fuel + length st.objects
    → length st.objects ≤ max_objects
    → Yields (Registers soname st) (load_needed_so fuel env os soname st)
unfolding load_needed_so
load_needed_so-Registers zero env os soname st h hi = absurd (omega arith)
load_needed_so-Registers (suc fuel) env os soname st h hi =
    elim (Bool-cases (has_soname soname st.objects)) [
      | inl known ↦
          rw (known, load_needed_so)
            (yields (record { grows = Grows-refl st hi; registered = λ nn. known }))
      | inr fresh ↦ elim (Bool-cases (leb max_objects (length st.objects))) [
        | inl full ↦ rw (fresh, full, load_needed_so) stops
        | inr room ↦
            let below : length st.objects < max_objects = ground arith in
            rw (fresh, room, load_needed_so)
              (Yields-bind (load_object-Named env os soname st.space) λ r e.
                add_object (load_needed_so fuel env os) env soname r.0 r.1 st
                  (λ soname' st' lo hi'.
                    load_needed_so-Registers fuel env os soname' st' (omega arith) hi')
                  e below fresh)
      ]
    ]

-- `load_needed_so`, started below the limit of 1024 objects, ends: 1025 nested calls are enough. It
-- stops with a message, or runs out of a table in memory, or overruns the array of 128 bytes with a
-- library's name, or returns with at most 1024 objects: those that were there and new ones behind
-- them, one of them of the name, and no two of one name if that was so before.
pub load_needed_so_ends :
    (env : Env) (os : Os) (soname : List ℕ) (st : State)
    → length st.objects ≤ max_objects
    → Yields (Registers soname st) (load_needed_so (suc max_objects) env os soname st)
load_needed_so_ends env os soname st h =
    load_needed_so-Registers (suc max_objects) env os soname st (omega arith) h
