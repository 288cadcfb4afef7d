-- ===== src/Parcel/RoundTrip.antt =====
-- What is written to a parcel is read back from the same position.
use Prim.Native.Nat.{◌≤◌}
use muplar.Base.{ℕ, ◌+◌, ◌^◌, ◌<◌, ◌≡◌, refl, sym, ap, ◌∙◌, arith}
use muplar.Base.{true, false, ltb}
use muplar.Memory.{Memory, load, store, bytes}
use muplar.Memory.Laws.{load-store, word-bytes, length-bytes}
use muplar.Parcel.{Parcel, Jni, grow, align4, put, get, advance}
use muplar.Base.Words.{add64}
use muplar.Parcel.Bounds.{Generous, grow-Generous, grow-Grown, end_lem, end-le}

-- The parcel with its position set back.
abbrev pub rewind : ℕ → Parcel → Parcel
rewind pos p = record p { pos = pos }

-- A value that stands in the data at the aligned position is read.
get_lem :
    (n v : ℕ) (p : Parcel)
    → add64 (align4 p.pos) n ≤ p.size
    → load p.data_bytes (align4 p.pos) n ≡ bytes n v
    → v < 256 ^ n
    → get n p ≡ (v, record p { pos = add64 (align4 p.pos) n })
unfolding get
get_lem n v p fits e small =
    let test : ltb p.size (add64 (align4 p.pos) n) ≡ false = ground arith in
    rw (test, get, e, word-bytes n v small) refl

-- The parcel after a value was written.
put_lem :
    (jni : Jni) (n v : ℕ) (p : Parcel)
    → Generous jni
    → (let q = (grow jni p (add64 (align4 p.pos) n)).1 in
        put jni n v p ≡ (
          true,
          advance
              (add64 (align4 p.pos) n)
              (record q { data_bytes = store q.data_bytes (align4 p.pos) (bytes n v) }),
        ))
unfolding put
put_lem jni n v p all = rw (grow-Generous jni p (add64 (align4 p.pos) n) all, put) refl

load_stored : (m : Memory) (a n v : ℕ) → load (store m a (bytes n v)) a n ≡ bytes n v
load_stored m a n v =
    ap (λ (k : ℕ). load (store m a (bytes n v)) a k) (sym (length-bytes n v))
    ∙ load-store m a (bytes n v)

-- A value of `n` bytes, four for an int and eight for a long, is written at a position that leaves
-- its end below 2^63, with an allocator that never refuses. The bytes lie inside of the buffer; the
-- value is read back after the position is set back, and the reader then stands where the writer
-- stood.
pub get-put :
    (jni : Jni) (n v : ℕ) (p : Parcel)
    → Generous jni
    → p.pos + 3 + n ≤ 2 ^ 63
    → v < 256 ^ n
    → ((put jni n v p).0 ≡ true)
      × (align4 p.pos + n ≤ (put jni n v p).1.capacity)
      × (get n (rewind p.pos (put jni n v p).1) ≡ (v, (put jni n v p).1))
get-put jni n v p all low small =
    let end = add64 (align4 p.pos) n in
    let exact = end_lem p.pos n low in
    let g = grow-Grown jni p end (omega (arith, end-le p.pos n low)) in
    let room = g.roomy (grow-Generous jni p end all) in
    rw (put_lem jni n v p all)
      (refl, omega arith, get_lem n v _ (ground arith) (load_stored _ (align4 p.pos) n v) small)
