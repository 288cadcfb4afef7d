-- ===== src/Parcel/Bounds.antt =====
-- The buffer of a parcel: it grows as far as it is asked to, keeps its bytes, and the data stays inside
-- it.
use Prim.Native.Nat.{◌≤◌}
use native.Mathlib.Nat.{pow-suc}
use muplar.Base.{ℕ, zero, suc, ◌+◌, ◌*◌, ◌/◌, ◌^◌, ◌<◌, ◌≡◌, refl, arith, List}
use muplar.Base.{Bool, true, false, ◌==◌, ltb, leb, if◌then◌else◌, length, Bool-cases, inl, inr}
use muplar.Base.Words.{u64, add64}
use muplar.Parcel.{
  Parcel, Jni, double_cap, next_cap, grow, align4, put, get, put_string, get_string,
}
use muplar.Parcel.Ops.{resize, put_binder}

-- The data lies inside the allocated bytes.
abbrev pub IsValid : Parcel → Type 0
IsValid p = p.size ≤ p.capacity

double_room :
    (rounds capacity needed : ℕ)
    → needed ≤ capacity * 2 ^ suc rounds
    → needed ≤ capacity * 2 * 2 ^ rounds
double_room rounds capacity needed h = grind (arith, pow-suc 2 rounds)

double_cap-le :
    (rounds cap needed : ℕ)
    → needed ≤ cap * 2 ^ rounds
    → needed ≤ 2 ^ 63
    → (needed ≤ double_cap rounds cap needed) × (cap ≤ double_cap rounds cap needed)
unfolding double_cap
double_cap-le zero cap needed h small = (omega arith, omega arith)
double_cap-le (suc rounds) cap needed h small = elim (Bool-cases (ltb cap needed)) [
  | inl less ↦
      let exact : u64 (cap * 2) ≡ cap * 2 = ground arith in
      let rest = double_cap-le rounds (cap * 2) needed (double_room rounds cap needed h) small in
      rw (less, double_cap, exact) (rest.0, omega (arith, rest.1))
  | inr large ↦ rw (large, double_cap) (ground arith, omega arith)
]

pub next_cap-le :
    (capacity needed : ℕ)
    → capacity < needed
    → needed ≤ 2 ^ 63
    → (needed ≤ next_cap capacity needed) × (capacity ≤ next_cap capacity needed)
next_cap-le capacity needed more h = elim (Bool-cases (capacity == 0)) [
  | inl none_yet ↦
      let first = double_cap-le 64 128 needed (omega arith) h in rw none_yet (first.0, ground arith)
  | inr some_bytes ↦
      let exact : u64 (capacity * 2) ≡ capacity * 2 = ground arith in
      let rest = double_cap-le 64 (capacity * 2) needed (ground arith) h in
      rw (some_bytes, exact) (rest.0, omega (arith, rest.1))
]

-- What `grow` keeps, and what it gives where it answers that there is room.
pub record Grown (p : Parcel) (needed : ℕ) (r : Bool × Parcel) : Type 0 where
  pub roomy : r.0 ≡ true → needed ≤ r.1.capacity
  pub wider : p.capacity ≤ r.1.capacity
  pub same_bytes : (x : ℕ) → x < p.capacity → r.1.data_bytes x ≡ p.data_bytes x
  pub same_size : r.1.size ≡ p.size
  pub same_pos : r.1.pos ≡ p.pos
  pub same_binders : r.1.binders ≡ p.binders

pub grow-Grown :
    (jni : Jni) (p : Parcel) (needed : ℕ) → needed ≤ 2 ^ 63 → Grown p needed (grow jni p needed)
unfolding grow
grow-Grown jni p needed h = elim (Bool-cases (leb needed p.capacity)) [
  | inl fits ↦
      rw (fits, grow)
        (record {
          roomy = λ e. ground arith;
          wider = omega arith;
          same_bytes = λ x lt. refl;
          same_size = refl;
          same_pos = refl;
          same_binders = refl;
        })
  | inr more ↦
      let caps = next_cap-le p.capacity needed (ground arith) h in
      elim (Bool-cases (jni.realloc (next_cap p.capacity needed))) [
        | inl given ↦
            rw (more, given, grow)
              (record {
                roomy = λ e. caps.0;
                wider = caps.1;
                same_bytes = λ x lt. ground arith;
                same_size = refl;
                same_pos = refl;
                same_binders = refl;
              })
        | inr refused ↦
            rw (more, refused, grow)
              (record {
                roomy = λ e. absurd (ground arith);
                wider = omega arith;
                same_bytes = λ x lt. refl;
                same_size = refl;
                same_pos = refl;
                same_binders = refl;
              })
      ]
]

-- An allocator that never refuses.
abbrev pub Generous : Jni → Type 0
Generous jni = (size : ℕ) → jni.realloc size ≡ true

pub grow-Generous :
    (jni : Jni) (p : Parcel) (needed : ℕ) → Generous jni → (grow jni p needed).0 ≡ true
unfolding grow
grow-Generous jni p needed all = elim (Bool-cases (leb needed p.capacity)) [
  | inl fits ↦ rw (fits, grow) refl
  | inr more ↦ rw (more, all (next_cap p.capacity needed), grow) refl
]

advanced :
    (b : Bool) (q q' : Parcel) → IsValid q → (b ≡ true → IsValid q') → IsValid (if b then q' else q)
advanced true q q' h k = k refl
advanced false q q' h k = h

-- Without a wrap-around.
pub align4-small : (x : ℕ) → x + 3 ≤ 2 ^ 63 → align4 x ≡ (x + 3) / 4 * 4
unfolding align4 add64
align4-small x h = omega arith

pub add64-small : (a b : ℕ) → a + b ≤ 2 ^ 63 → add64 a b ≡ a + b
unfolding add64
add64-small a b h = omega arith

-- Where a value of `n` bytes ends.
pub end_lem : (x n : ℕ) → x + 3 + n ≤ 2 ^ 63 → add64 (align4 x) n ≡ align4 x + n
end_lem x n h = add64-small (align4 x) n (omega (arith, align4-small x (omega arith)))

pub end-le : (x n : ℕ) → x + 3 + n ≤ 2 ^ 63 → add64 (align4 x) n ≤ x + 3 + n
end-le x n h = omega (arith, end_lem x n h, align4-small x (omega arith))

pub put-IsValid :
    (jni : Jni) (n v : ℕ) (p : Parcel)
    → p.pos + 3 + n ≤ 2 ^ 63
    → IsValid p
    → IsValid (put jni n v p).1
unfolding put
put-IsValid jni n v p small h =
    let end = add64 (align4 p.pos) n in
    let g = grow-Grown jni p end (omega (arith, end-le p.pos n small)) in
    let size = g.same_size in
    let wider = g.wider in
    elim (Bool-cases (grow jni p end).0) [
      | inl given ↦ let room = g.roomy given in rw (given, put) (ground arith)
      | inr refused ↦ rw (refused, put) (omega arith)
    ]

-- The allocator gives what a change of the size asks for.
abbrev pub Grants : Jni → Parcel → (size : ℕ) → Type 0
Grants jni p size = p.capacity < size → jni.realloc (next_cap p.capacity size) ≡ true

grow-granted :
    (jni : Jni) (p : Parcel) (size : ℕ)
    → p.capacity < size
    → jni.realloc (next_cap p.capacity size) ≡ true
    → (grow jni p size).0 ≡ true
unfolding grow
grow-granted jni p size less e =
    let full : leb size p.capacity ≡ false = ground arith in rw (full, e, grow) refl

pub resize-IsValid :
    (jni : Jni) (p : Parcel) (size : ℕ)
    → size ≤ 2 ^ 63
    → Grants jni p size
    → IsValid p
    → IsValid (resize jni p size)
unfolding resize
resize-IsValid jni p size small granted h = elim (Bool-cases (ltb p.capacity size)) [
  | inl more ↦
      let less : p.capacity < size = ground arith in
      rw (more, resize)
        ((grow-Grown jni p size small).roomy (grow-granted jni p size less (granted less)))
  | inr fits ↦ rw (fits, resize) (ground arith)
]

-- The operations that change a parcel.
pub data Op : Type 0 where
  put_value : (n v : ℕ) → Op
  put_chars : (len : ℕ) (chars nul : List ℕ) → Op
  put_reference : (binder : ℕ) → Op
  get_value : (n : ℕ) → Op
  get_chars : (width : ℕ) → Op
  seek : (pos : ℕ) → Op
  set_size : (size : ℕ) → Op
  reserve : (size : ℕ) → Op

unfoldable pub run : Jni → Op → Parcel → Parcel
run jni (put_value n v) p = (put jni n v p).1
run jni (put_chars len chars nul) p = put_string jni len chars nul p
run jni (put_reference binder) p = put_binder jni binder p
run jni (get_value n) p = (get n p).1
run jni (get_chars width) p = (get_string width p).1
run jni (seek pos) p = record p { pos = pos }
run jni (set_size size) p = resize jni p size
run jni (reserve size) p = (grow jni p size).1

-- The bytes that an operation may add behind the aligned position, or asks for.
abbrev pub extent : Op → ℕ
extent (put_value n v) = n
extent (put_chars len chars nul) = 7 + (length chars + length nul)
extent (put_reference binder) = 4
extent (get_value n) = 0
extent (get_chars width) = 0
extent (seek pos) = 0
extent (set_size size) = size
extent (reserve size) = size

-- What an operation asks of the allocator: only the setter of the size, which sets it whether or not
-- the buffer could grow.
abbrev pub Allows : Jni → Op → Parcel → Type 0
Allows jni (set_size size) p = Grants jni p size
Allows jni op p = Unit {0}
