-- ===== src/Parcel/Ops.antt =====
-- The functions of `android.os.Parcel` in platform/android-aarch64/art-shim/
-- muplar_android_art_shim.c, one for each `Java_android_os_Parcel_native…`. `none` is the null
-- parcel, and a null string.
use muplar.Base.{ℕ, ◌+◌, ◌-◌, ◌*◌, List, [], ◌∷◌, ◌++◌, Bool, false, not, ◌||◌, ◌==◌, ltb, leb}
use muplar.Base.{if◌then◌else◌, length, get_elem?, Option, none, some}
use muplar.Memory.{bytes, word}
use muplar.Parcel.{Parcel, Jni, grow, put, get, put_string, get_string, minus_one, negative}

-- `calloc` gives zeros; `none` where it gives no block.
abbrev pub empty_parcel : Parcel
empty_parcel = record {
  data_bytes = λ x. 0;
  size = 0;
  pos = 0;
  capacity = 0;
  binders = [];
  binder_cap = 0;
}

unfoldable pub create : (calloc : Bool) → Option Parcel
create calloc = if calloc then some empty_parcel else none

-- The global references that are given back, in order.
abbrev pub live : List ℕ → List ℕ
live [] = []
live (b ∷ bs) = if b == 0 then live bs else b ∷ live bs

unfoldable pub destroy : Option Parcel → List ℕ
destroy none = []
destroy (some p) = live p.binders

unfoldable pub data_avail : Option Parcel → ℕ
data_avail none = 0
data_avail (some p) = if leb p.size p.pos then 0 else p.size - p.pos

unfoldable pub data_capacity : Option Parcel → ℕ
data_capacity none = 0
data_capacity (some p) = p.capacity

unfoldable pub data_position : Option Parcel → ℕ
data_position none = 0
data_position (some p) = p.pos

unfoldable pub data_size : Option Parcel → ℕ
data_size none = 0
data_size (some p) = p.size

unfoldable pub set_data_capacity : Jni → Option Parcel → ℕ → Option Parcel
set_data_capacity jni none size = none
set_data_capacity jni (some p) size =
    if negative size || size == 0 then some p else some (grow jni p size).1

unfoldable pub set_data_position : Option Parcel → ℕ → Option Parcel
set_data_position none pos = none
set_data_position (some p) pos = if negative pos then some p else some (record p { pos = pos })

-- The size is set whether or not the buffer could grow.
unfoldable pub resize : Jni → Parcel → ℕ → Parcel
resize jni p size =
    let q = if ltb p.capacity size then (grow jni p size).1 else p in
    record q { size = size; pos = if ltb size q.pos then size else q.pos }

unfoldable pub set_data_size : Jni → Option Parcel → ℕ → Option Parcel
set_data_size jni none size = none
set_data_size jni (some p) size = if negative size then some p else some (resize jni p size)

-- The buffer and the references are given back; the parcel stays, empty.
unfoldable pub free_buffer : Option Parcel → List ℕ × Option Parcel
free_buffer none = ([], none)
free_buffer (some p) = (live p.binders, some empty_parcel)

unfoldable pub has_binders : Option Parcel → Bool
has_binders none = false
has_binders (some p) = ltb 0 (length p.binders)

unfoldable pub has_binders_in_range : Option Parcel → (offset len : ℕ) → Bool
has_binders_in_range p offset len = has_binders p

unfoldable pub has_file_descriptors : Option Parcel → Bool
has_file_descriptors p = false

unfoldable pub is_for_rpc : Option Parcel → Bool
is_for_rpc p = false

-- The answer is a `jint`: 0, or -1 where nothing was written.
unfoldable pub write_value : Jni → (n v : ℕ) → Option Parcel → ℕ × Option Parcel
write_value jni n v none = (minus_one, none)
write_value jni n v (some p) =
    let written = put jni n v p in (if written.0 then 0 else minus_one, some written.1)

abbrev pub write_int : Jni → ℕ → Option Parcel → ℕ × Option Parcel
write_int jni v p = write_value jni 4 v p

abbrev pub write_long : Jni → ℕ → Option Parcel → ℕ × Option Parcel
write_long jni v p = write_value jni 8 v p

-- A float and a double are written and read as their bit patterns.
abbrev pub write_float : Jni → ℕ → Option Parcel → ℕ × Option Parcel
write_float = write_int

abbrev pub write_double : Jni → ℕ → Option Parcel → ℕ × Option Parcel
write_double = write_long

unfoldable pub read_value : (n : ℕ) → Option Parcel → ℕ × Option Parcel
read_value n none = (0, none)
read_value n (some p) = let (v, q) = get n p in (v, some q)

abbrev pub read_int : Option Parcel → ℕ × Option Parcel
read_int p = read_value 4 p

abbrev pub read_long : Option Parcel → ℕ × Option Parcel
read_long p = read_value 8 p

abbrev pub read_float : Option Parcel → ℕ × Option Parcel
read_float = read_int

abbrev pub read_double : Option Parcel → ℕ × Option Parcel
read_double = read_long

-- A reference to a binder is written as its index; -1 is written for NULL, and where the array has
-- no room.
unfoldable pub put_binder : Jni → ℕ → Parcel → Parcel
put_binder jni binder p =
    let new_cap = if p.binder_cap == 0 then 4 else p.binder_cap * 2 in
    let full = leb p.binder_cap (length p.binders) in
    let added = p.binders ++ jni.new_global_ref binder ∷ [] in
    let widened : Parcel = record p { binders = added; binder_cap = new_cap } in
    let filled : Parcel = record p { binders = added } in
    if binder == 0
    then (put jni 4 minus_one p).1
    else if not full
    then (put jni 4 (length p.binders) filled).1
    else if jni.realloc (new_cap * 8)
    then (put jni 4 (length p.binders) widened).1
    else (put jni 4 minus_one p).1

unfoldable pub write_strong_binder : Jni → ℕ → Option Parcel → Option Parcel
write_strong_binder jni binder none = none
write_strong_binder jni binder (some p) = some (put_binder jni binder p)

unfoldable pub binder_at : Jni → List ℕ → ℕ → ℕ
binder_at jni binders idx = elim (get_elem? binders idx) [
  | none ↦ 0
  | some b ↦ if b == 0 then 0 else jni.new_local_ref b
]

unfoldable pub read_strong_binder : Jni → Option Parcel → ℕ × Option Parcel
read_strong_binder jni none = (0, none)
read_strong_binder jni (some p) =
    let (idx, q) = get 4 p in (if negative idx then 0 else binder_at jni q.binders idx, some q)

-- The bytes of UTF-16 units, and the units of bytes.
unfoldable pub unit_bytes : List ℕ → List ℕ
unit_bytes [] = []
unit_bytes (u ∷ us) = bytes 2 u ++ unit_bytes us

unfoldable pub units : List ℕ → List ℕ
units [] = []
units (a ∷ []) = a ∷ []
units (a ∷ b ∷ bs) = word (a ∷ b ∷ []) ∷ units bs

unfoldable pub write_string8 : Jni → Option (List ℕ) → Option Parcel → Option Parcel
write_string8 jni value none = none
write_string8 jni none (some p) = some (put jni 4 minus_one p).1
write_string8 jni (some value) (some p) = elim (jni.get_string_utf_chars value) [
  | none ↦ some (put jni 4 minus_one p).1
  | some chars ↦ some (put_string jni (length chars) chars (0 ∷ []) p)
]

unfoldable pub write_string16 : Jni → Option (List ℕ) → Option Parcel → Option Parcel
write_string16 jni value none = none
write_string16 jni none (some p) = some (put jni 4 minus_one p).1
write_string16 jni (some value) (some p) = elim (jni.get_string_chars value) [
  | none ↦ some (put jni 4 minus_one p).1
  | some chars ↦ some (put_string jni (length chars) (unit_bytes chars) (0 ∷ 0 ∷ []) p)
]

unfoldable pub write_interface_token : Jni → Option (List ℕ) → Option Parcel → Option Parcel
write_interface_token jni value p = write_string16 jni value (write_int jni 0 p).1

-- A `malloc` for the characters may fail, and then the position stays behind the length.
unfoldable pub read_string8 :
    Jni → (malloc : ℕ → Bool) → Option Parcel → Option (List ℕ) × Option Parcel
read_string8 jni malloc none = (none, none)
read_string8 jni malloc (some p) =
    let len = (get 4 p).0 in
    let (chars, q) = get_string 1 p in
    elim chars [
      | none ↦ (none, some q)
      | some cs ↦
          if len == 0 || malloc (len + 1)
          then (jni.new_string_utf cs, some q)
          else (none, some (get 4 p).1)
    ]

unfoldable pub read_string16 : Jni → Option Parcel → Option (List ℕ) × Option Parcel
read_string16 jni none = (none, none)
read_string16 jni (some p) =
    let (chars, q) = get_string 2 p in
    elim chars [ none ↦ (none, some q) | some cs ↦ (jni.new_string (units cs), some q) ]

-- The token is read and not compared.
unfoldable pub enforce_interface : Jni → Option Parcel → Option Parcel
enforce_interface jni p = (read_string16 jni (read_int p).1).1
