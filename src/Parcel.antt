-- ===== src/Parcel.antt =====
-- The parcel of platform/android-aarch64/art-shim/muplar_android_art_shim.c: `struct muplar_parcel`
-- and the `Java_android_os_Parcel_native…` functions. A `jint` or `jlong` is its bit pattern;
-- the sums of positions and sizes wrap around at 2^64, as `size_t` does.
pub mod Ops
pub mod Bounds
pub mod RoundTrip
use muplar.Base.{
  ℕ, zero, suc, ◌+◌, ◌-◌, ◌*◌, ◌/◌, ◌^◌, List, [], ◌∷◌, ◌++◌, Bool, true, false, ◌&&◌, ◌==◌, ltb,
  leb,
}
use muplar.Base.{if◌then◌else◌, length, Option, none, some}
use muplar.Base.Words.{u64, add64}
use muplar.Memory.{Memory, store, load, bytes, word}

-- `struct muplar_parcel`. The bytes of `data` below `capacity` are allocated; of `binders` the first
-- `binder_count`, which is the length of the list, are set.
pub record Parcel : Type 0 where
  pub data_bytes : Memory
  pub size : ℕ
  pub pos : ℕ
  pub capacity : ℕ
  pub binders : List ℕ
  pub binder_cap : ℕ

-- What the parcel takes from its surroundings: whether `realloc` gives a block of a size, and the
-- functions of `JNIEnv` on references and strings. A Java string is the list of its UTF-16 units;
-- a reference is a number, NULL is 0; `none` is NULL for the others.
pub record Jni : Type 0 where
  pub realloc : ℕ → Bool
  pub new_global_ref : ℕ → ℕ
  pub new_local_ref : ℕ → ℕ
  pub get_string_utf_chars : List ℕ → Option (List ℕ)
  pub get_string_chars : List ℕ → Option (List ℕ)
  pub new_string_utf : List ℕ → Option (List ℕ)
  pub new_string : List ℕ → Option (List ℕ)

-- `while (new_cap < needed) new_cap *= 2`. 64 rounds are enough for a need of up to 2^63. For a larger
-- one the capacity wraps around to 0 and the program's loop does not end; what stands here for it is
-- no result of the program, and no theorem speaks of such a need.
unfoldable pub double_cap : ℕ → (new_cap needed : ℕ) → ℕ
double_cap zero new_cap needed = new_cap
double_cap (suc rounds) new_cap needed = elim (ltb new_cap needed) [
  | true ↦ double_cap rounds (u64 (new_cap * 2)) needed
  | false ↦ new_cap
]

abbrev pub next_cap : (capacity needed : ℕ) → ℕ
next_cap capacity needed = double_cap 64 (if capacity == 0 then 128 else u64 (capacity * 2)) needed

-- The bytes from `from` to `to` set to 0.
abbrev pub zero_between : (from to : ℕ) → Memory → Memory
zero_between from to m x = if leb from x && ltb x to then 0 else m x

-- Whether there is room now, and the parcel.
unfoldable pub grow : Jni → Parcel → ℕ → Bool × Parcel
grow jni p needed =
    let new_cap = next_cap p.capacity needed in
    let grown : Parcel = record p {
      data_bytes = zero_between p.capacity new_cap p.data_bytes;
      capacity = new_cap;
    } in
    if leb needed p.capacity
    then (true, p)
    else if jni.realloc new_cap
    then (true, grown)
    else (false, p)

-- `(x + 3) & ~3`
unfoldable pub align4 : ℕ → ℕ
align4 x = add64 x 3 / 4 * 4

-- `p->pos = end; if (p->pos > p->size) p->size = p->pos;`
abbrev pub advance : ℕ → Parcel → Parcel
advance end p = record p { pos = end; size = if ltb p.size end then end else p.size }

-- The bytes of a value at an aligned position: `nativeWriteInt` with four of them, `nativeWriteLong`
-- with eight. The answer tells whether it was written.
unfoldable pub put : Jni → (n v : ℕ) → Parcel → Bool × Parcel
put jni n v p =
    let aligned_pos = align4 p.pos in
    let end = add64 aligned_pos n in
    let grown = grow jni p end in
    let q = grown.1 in
    if grown.0
    then (true, advance end (record q { data_bytes = store q.data_bytes aligned_pos (bytes n v) }))
    else (false, q)

-- `nativeReadInt` and `nativeReadLong`: 0 where the value does not fit in the data.
unfoldable pub get : (n : ℕ) → Parcel → ℕ × Parcel
get n p =
    let aligned_pos = align4 p.pos in
    let end = add64 aligned_pos n in
    if ltb p.size end
    then (0, p)
    else (word (load p.data_bytes aligned_pos n), record p { pos = end })

-- A `jint` of -1, and the test for a negative one.
abbrev pub minus_one : ℕ
minus_one = 2 ^ 32 - 1

abbrev pub negative : ℕ → Bool
negative v = leb (2 ^ 31) v

-- The characters of a string behind its length: `chars` and `nul` are bytes, `len` is the length
-- that is written.
unfoldable pub put_string : Jni → (len : ℕ) (chars nul : List ℕ) → Parcel → Parcel
put_string jni len chars nul p =
    let q = (put jni 4 len p).1 in
    let end = add64 q.pos (align4 (length chars + length nul)) in
    let grown = grow jni q end in
    let r = grown.1 in
    if grown.0
    then advance end (record r { data_bytes = store r.data_bytes r.pos (chars ++ nul) })
    else r

-- The characters of a string of `len` units of `width` bytes; `none` is NULL.
unfoldable pub get_string : (width : ℕ) → Parcel → Option (List ℕ) × Parcel
get_string width p =
    let (len, q) = get 4 p in
    let padded = align4 ((len + 1) * width) in
    let empty_end = if leb (add64 q.pos 4) q.size then add64 q.pos 4 else q.size in
    let end = if leb (add64 q.pos padded) q.size then add64 q.pos padded else q.size in
    if negative len
    then (none, q)
    else if len == 0
    then (some [], record q { pos = empty_end })
    else if ltb q.size (add64 q.pos (len * width))
    then (none, q)
    else (some (load q.data_bytes q.pos (len * width)), record q { pos = end })
