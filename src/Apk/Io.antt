-- ===== src/Apk/Io.antt =====
-- The files that platform/android-aarch64/apk/apk_envelope.cpp writes, as a list of the steps taken,
-- the last one first. A path is its text; `◌/◌` of `std::filesystem::path` is `append_path`.
use muplar.Base.{ℕ, ◌≡◌, ◌⊎◌, List, [], ◌∷◌, ◌++◌, Option}
use muplar.Base.{Bool, true, false, if◌then◌else◌}
use muplar.Base.Text.{codes}
use muplar.Apk.{Result, ok, throws, outside, spins, write_failed}
use muplar.Apk.Find.{ends_with}
use muplar.Apk.Paths.{starts_with_slash}

-- `make_dirs` creates the directory and those above it that are missing, `make_parents` the
-- directories above the path.
pub data Effect : Type 0 where
  make_dirs : (path : List ℕ) → Effect
  make_parents : (path : List ℕ) → Effect
  write : (path bytes : List ℕ) → Effect

-- `q` is what stands before one of the slashes of `path`, so that it names a directory above it.
abbrev pub IsAbove : (q path : List ℕ) → Type 0
IsAbove q path = (rest : List ℕ) × (path ≡ q ++ b'/' ∷ rest)

-- The places that a step may make or write to.
abbrev pub Touches : Effect → (q : List ℕ) → Type 0
Touches (make_dirs path) q = (q ≡ path) ⊎ IsAbove q path
Touches (make_parents path) q = IsAbove q path
Touches (write path bytes) q = q ≡ path

-- What the system answers: the bytes of a file, if it can be read; whether directories can be made
-- and whether a file can be opened for writing, after the steps taken so far; whether the bytes
-- could be written; and the directory that `default_extract_dir` names, by a hash of the path.
pub record Disk : Type 0 where
  pub read_file : List ℕ → Option (List ℕ)
  pub makes : List Effect → List ℕ → Bool
  pub opens : List Effect → List ℕ → Bool
  pub written : List Effect → List ℕ → Bool
  pub default_extract_dir : (apk_path base_dir : List ℕ) → List ℕ

abbrev pub Io : Type 0 → Type 0
Io A = List Effect → Result A × List Effect

-- What follows a step, by its result.
abbrev pub follow : {A B : Type 0} → (A → Io B) → Result A → Io B
follow f (ok a) log = f a log
follow f (throws e) log = (throws e, log)
follow f outside log = (outside, log)
follow f spins log = (spins, log)

infixl 5 ◌>>=◌ ◌>>◌
abbrev pub ◌>>=◌ : {A B : Type 0} → Io A → (A → Io B) → Io B
◌>>=◌ m f log = let r = m log in follow f r.0 r.1

abbrev pub ◌>>◌ : {B : Type 0} → Io (Unit {0}) → Io B → Io B
m >> k = m >>= λ u. k

abbrev pub lift : {A : Type 0} → Result A → Io A
lift r log = (r, log)

abbrev pub pure : {A : Type 0} → A → Io A
pure a log = (ok a, log)

-- `lhs / rhs`
unfoldable pub append_path : (lhs rhs : List ℕ) → List ℕ
append_path [] rhs = rhs
append_path (c ∷ cs) rhs =
    if starts_with_slash rhs
    then rhs
    else if ends_with (c ∷ cs) (codes "/")
    then (c ∷ cs) ++ rhs
    else (c ∷ cs) ++ b'/' ∷ rhs

-- `std::filesystem::create_directories`, which throws where it fails.
unfoldable pub create_directories : Disk → (path : List ℕ) → Io (Unit {0})
create_directories disk path log =
    if disk.makes log path then (ok tt, make_dirs path ∷ log) else (throws write_failed, log)

-- `create_directories(path.parent_path(), ec)`: whether it succeeded.
unfoldable pub try_parents : Disk → (path : List ℕ) → Io Bool
try_parents disk path log =
    if disk.makes log path then (ok true, make_parents path ∷ log) else (ok false, log)

abbrev pub or_write_failed : Bool → Io (Unit {0})
or_write_failed true = pure tt
or_write_failed false = lift (throws write_failed)

-- `create_directories(path.parent_path())`, which throws where it fails.
unfoldable pub create_parents : Disk → (path : List ℕ) → Io (Unit {0})
create_parents disk path = try_parents disk path >>= or_write_failed

-- `std::ofstream out(path, …)` and `out.write`: whether the file was opened.
unfoldable pub write_file : Disk → (path bytes : List ℕ) → Io Bool
write_file disk path bytes log =
    if disk.opens log path then (ok true, write path bytes ∷ log) else (ok false, log)
