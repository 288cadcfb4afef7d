-- ===== src/Apk.antt =====
-- platform/android-aarch64/apk/apk_envelope.cpp: the data of the reader of APK files. A string and
-- a vector of bytes are lists. A file in memory is smaller than 2^63, and the offsets are sums of it
-- and of a few 32-bit numbers, so no wrap-around of `size_t` is written out.
pub mod Runs
pub mod Find
pub mod Paths
pub mod Zip
pub mod Chunks
pub mod Axml
pub mod Attribute
pub mod Plain
pub mod Binary
pub mod Activities
pub mod Resources
pub mod Manifest
pub mod Classify
pub mod Io
pub mod Launch
use muplar.Base.{
  ℕ, ◌+◌, ◌*◌, ◌^◌, List, [], ◌∷◌, Bool, true, false, ltb, if◌then◌else◌, length, get_or, take,
  drop,
}

-- The exceptions, by what their text begins with.
pub data Error : Type 0 where
  header_truncated open_failed too_small no_directory zip64 directory_outside : Error
  entry_invalid entry_truncated local_invalid data_truncated bad_method inflate_failed : Error
  axml_length axml_text path_empty not_implemented no_libs no_requested_lib ambiguous : Error
  write_failed lib_missing : Error

-- `throws`: an exception. `outside`: an index outside of a vector or a string, which C++ leaves
-- undefined. `spins`: a loop of the program went on past its fuel.
pub data Result {ℓ} (A : Type ℓ) : Type ℓ where
  ok : A → Result A
  throws : Error → Result A
  outside : Result A
  spins : Result A

infixl 5 ◌>>=◌
abbrev pub ◌>>=◌ {ℓ κ} : {A : Type ℓ} {B : Type κ} → Result A → (A → Result B) → Result B
ok a >>= f = f a
throws e >>= f = throws e
outside >>= f = outside
spins >>= f = spins

-- `try { … } catch (const std::exception &) { … }` around a value.
abbrev pub attempt {ℓ} : {A : Type ℓ} → A → Result A → Result A
attempt other (ok a) = ok a
attempt other (throws e) = ok other
attempt other outside = outside
attempt other spins = spins

infixl 5 ◌>>◌
abbrev pub ◌>>◌ {ℓ} : {B : Type ℓ} → Result (Unit {0}) → Result B → Result B
m >> k = m >>= λ _. k

-- `if (…) throw …;`
abbrev pub throw_if : Bool → Error → Result (Unit {0})
throw_if true e = throws e
throw_if false e = ok tt

-- `data[i]`
unfoldable pub index : List ℕ → ℕ → Result ℕ
index bytes i = if ltb i (length bytes) then ok (get_or bytes i 0) else outside

-- The `n` bytes at `off`, copied without a test.
unfoldable pub slice : List ℕ → (off n : ℕ) → Result (List ℕ)
slice bytes off n = if ltb (length bytes) (off + n) then outside else ok (take n (drop off bytes))

unfoldable pub read_u16 : List ℕ → ℕ → Result ℕ
read_u16 bytes off =
    if ltb (length bytes) (off + 2)
    then throws header_truncated
    else ok (get_or bytes off 0 + 256 * get_or bytes (off + 1) 0)

unfoldable pub read_u32 : List ℕ → ℕ → Result ℕ
read_u32 bytes off =
    if ltb (length bytes) (off + 4)
    then throws header_truncated
    else ok (
        get_or bytes off 0
        + 2 ^ 8 * get_or bytes (off + 1) 0
        + 2 ^ 16 * get_or bytes (off + 2) 0
        + 2 ^ 24 * get_or bytes (off + 3) 0)
