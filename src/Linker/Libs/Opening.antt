-- ===== src/Linker/Libs/Opening.antt =====
-- `lnk_dlopen`: it ends, and answers an object that is registered under the name it was given.
use Prim.Native.Nat.{◌≤◌}
use muplar.Base.{ℕ, suc, ◌+◌, ◌≡◌, refl, ap, ◌∙◌, arith, List, [], ◌∷◌, Bool, true, false, ◌||◌}
use muplar.Base.{length, drop, Option, none, some, Bool-cases, inl, inr, get_elem?}
use muplar.Cstring.{NoNul, str_eq, basename}
use muplar.Linker.{Object, Env, Result, ok, ◌>>=◌, max_objects}
use muplar.Linker.Load.{Os}
use muplar.Linker.Libs.{State, has_soname, find_object, dlopen, load_needed_so, relocate_all}
use muplar.Linker.Libs.Loads.{Yields, yields, Yields-bind}
use muplar.Linker.Libs.Growth.{Grows, Grows-refl, load_needed_so_ends}
use muplar.Linker.Libs.Relocates.{relocate_all-Yields}

-- The index is that of an object that passes the test.
abbrev pub Found : (Object → Bool) → List Object → Option ℕ → Type 0
Found test objs none = ⊥
Found test objs (some i) = (obj : Object) × (get_elem? objs i ≡ some obj) × (test obj ≡ true)

-- The same with the index counted from `i` on.
record FoundFrom (test : Object → Bool) (objs : List Object) (i k : ℕ) : Type 0 where
  steps : ℕ
  obj : Object
  counted : k ≡ i + steps
  stands : get_elem? objs steps ≡ some obj
  passes : test obj ≡ true

find_object-FoundFrom :
    (test : Object → Bool) (objs : List Object) (i k : ℕ)
    → find_object test objs i ≡ some k
    → FoundFrom test objs i k
unfolding find_object
find_object-FoundFrom test [] i k e = absurd (ground arith)
find_object-FoundFrom test (obj ∷ objs) i k e = elim (Bool-cases (test obj)) [
  | inl hit ↦ record { steps = 0; obj = obj; counted = ground arith; stands = refl; passes = hit }
  | inr miss ↦
      let rest = find_object-FoundFrom test objs (i + 1) k (rw (miss, find_object) at e) in
      record {
        steps = suc rest.steps;
        obj = rest.obj;
        counted = omega (arith, rest.counted);
        stands = rest.stands;
        passes = rest.passes;
      }
]

find_object-Found :
    (test : Object → Bool) (objs : List Object) (k : ℕ)
    → find_object test objs 0 ≡ some k
    → Found test objs (some k)
find_object-Found test objs k e =
    let f = find_object-FoundFrom test objs 0 k e in
    let same : k ≡ f.steps = omega (arith, f.counted) in
    (f.obj, ap (get_elem? objs) same ∙ f.stands, f.passes)

-- An object of the name is one that the loop finds.
has_soname-find_object :
    (name : List ℕ) (objs : List Object) (i : ℕ)
    → has_soname name objs ≡ true
    → (k : ℕ) × (find_object (λ obj. str_eq obj.soname name) objs i ≡ some k)
unfolding has_soname find_object
has_soname-find_object name [] i e = absurd (ground arith)
has_soname-find_object name (obj ∷ objs) i e = elim (Bool-cases (str_eq obj.soname name)) [
  | inl hit ↦ (i, rw hit refl)
  | inr miss ↦
      let rest = has_soname-find_object name objs (i + 1) (rw miss at e) in
      (rest.0, rw (miss, find_object) rest.1)
]

-- What `dlopen` tests a registered object for.
abbrev pub is_known : List ℕ → Object → Bool
is_known filename obj =
    str_eq obj.soname filename || str_eq obj.path filename || str_eq obj.soname (basename filename)

-- The objects that were there keep their places, and the handle is one of a registered object that
-- is known by the file name.
pub record Opened (filename : List ℕ) (st : State) (r : Option ℕ × State) : Type 0 where
  pub grows : Grows st r.1
  pub handle : NoNul (basename filename) → Found (is_known filename) r.1.objects r.0

by_base :
    (filename : List ℕ) (st : State)
    → has_soname (basename filename) st.objects ≡ true
    → Found
        (is_known filename)
        st.objects
        (find_object (λ obj. str_eq obj.soname (basename filename)) st.objects 0)
by_base filename st e =
    let name = basename filename in
    let (k, hit) = has_soname-find_object name st.objects 0 e in
    let (obj, here, same) = find_object-Found (λ obj. str_eq obj.soname name) st.objects k hit in
    rw hit (obj, here, last_of (str_eq obj.soname filename) (str_eq obj.path filename) same)
  where
    last_of : (a b : Bool) {c : Bool} → c ≡ true → (a || b || c) ≡ true
    last_of true b e = refl
    last_of false true e = refl
    last_of false false e = e

-- `lnk_dlopen` of a file name, called with at most 1024 objects, ends: it stops with a message, or
-- runs out of a table in memory, or overruns the array of 128 bytes with a library's name, or
-- returns. Then the objects that were there keep their places, and
-- if the base name has no zero byte, the handle is that of an object whose name or path is the file
-- name, or whose name is its base name.
pub dlopen_ends :
    (env : Env) (os : Os) (filename : List ℕ) (st : State)
    → length st.objects ≤ max_objects
    → Yields (Opened filename st) (dlopen env os (some filename) st)
unfolding dlopen
dlopen_ends env os filename st h = found (find_object (is_known filename) st.objects 0) refl
  where
    load : Result (Option ℕ × State)
    load = (do
      st' ← load_needed_so (suc max_objects) env os (basename filename) st
      s ← relocate_all env st'.objects (drop (length st.objects) st'.objects) st'.space
      ok (
        find_object (λ obj. str_eq obj.soname (basename filename)) st'.objects 0,
        record st' { space = s },
      ))

    loaded : Yields (Opened filename st) load
    loaded = Yields-bind (load_needed_so_ends env os (basename filename) st h) λ st' r.
        Yields-bind
          (relocate_all-Yields env st'.objects (drop (length st.objects) st'.objects) st'.space)
          λ s t. yields (record {
            grows = record {
              new = r.grows.new;
              extends = r.grows.extends;
              bounded = r.grows.bounded;
              distinct = r.grows.distinct;
            };
            handle = λ nn. by_base filename st' (r.registered nn);
          })

    found :
        (o : Option ℕ)
        → find_object (is_known filename) st.objects 0 ≡ o
        → Yields (Opened filename st) (elim o [ some i ↦ ok (some i, st) | none ↦ load ])
    found none e = loaded
    found (some i) e = yields (record {
      grows = Grows-refl st h;
      handle = λ nn. find_object-Found (is_known filename) st.objects i e;
    })
