-- ===== src/Apk/Runs.antt =====
-- How a run of the reader in platform/android-aarch64/apk/apk_envelope.cpp ends: by a value with a
-- property or by an exception, never by an index outside of a vector.
use Prim.Native.Nat.{◌≤◌}
use muplar.Base.{
  ℕ, ◌+◌, ◌<◌, ◌≡◌, refl, arith, List, Bool, true, false, ltb, if◌then◌else◌, length, take, drop,
}
use muplar.Apk.{
  Result, ok, throws, outside, spins, Error, ◌>>=◌, throw_if, attempt, index, slice, read_u16,
  read_u32,
}

-- `Spins` is what has to be so if a loop of the run does not end.
pub data Runs (Spins : Type 0) {A : Type 0} (P : A → Type 0) : Result A → Type 0 where
  gives : {a : A} → P a → Runs Spins P (ok a)
  fails : {e : Error} → Runs Spins P (throws e)
  hangs : Spins → Runs Spins P spins

-- No more than that.
abbrev pub Any : {A : Type 0} → A → Type 0
Any a = Unit {0}

module _ {Spins : Type 0} where
  pub Runs-bind :
      {A B : Type 0} {P : A → Type 0} {Q : B → Type 0} {r : Result A} {f : A → Result B}
      → Runs Spins P r
      → ((a : A) → P a → Runs Spins Q (f a))
      → Runs Spins Q (r >>= f)
  Runs-bind (gives p) k = k _ p
  Runs-bind fails k = fails
  Runs-bind (hangs s) k = hangs s

  pub Runs-self :
      {A : Type 0} {P : A → Type 0} {r : Result A}
      → Runs Spins P r
      → Runs Spins (λ a. (r ≡ ok a) × P a) r
  Runs-self (gives p) = gives (refl, p)
  Runs-self fails = fails
  Runs-self (hangs s) = hangs s

  pub Runs-mono :
      {A : Type 0} {P Q : A → Type 0} {r : Result A}
      → Runs Spins P r
      → ((a : A) → P a → Q a)
      → Runs Spins Q r
  Runs-mono (gives p) weaken = gives (weaken _ p)
  Runs-mono fails weaken = fails
  Runs-mono (hangs s) weaken = hangs s

  pub Runs-if :
      {A : Type 0} {P : A → Type 0} {x y : Result A} (b : Bool)
      → (b ≡ true → Runs Spins P x)
      → (b ≡ false → Runs Spins P y)
      → Runs Spins P (if b then x else y)
  Runs-if true yes_case no_case = yes_case refl
  Runs-if false yes_case no_case = no_case refl

  pub throw_if-Runs : (b : Bool) (e : Error) → Runs Spins (λ u. b ≡ false) (throw_if b e)
  throw_if-Runs true e = fails
  throw_if-Runs false e = gives refl

  pub attempt-Runs :
      {A : Type 0} {P : A → Type 0} {r : Result A} (other : A)
      → P other
      → Runs Spins P r
      → Runs Spins P (attempt other r)
  attempt-Runs other q (gives p) = gives p
  attempt-Runs other q fails = gives q
  attempt-Runs other q (hangs s) = hangs s

  pub index-Runs : (bytes : List ℕ) (i : ℕ) → i < length bytes → Runs Spins Any (index bytes i)
  unfolding index
  index-Runs bytes i h = Runs-if (ltb i (length bytes)) (λ e. gives tt) (λ e. absurd (ground arith))

  pub slice-Runs :
      (bytes : List ℕ) (off n : ℕ)
      → off + n ≤ length bytes
      → Runs Spins (λ s. s ≡ take n (drop off bytes)) (slice bytes off n)
  unfolding slice
  slice-Runs bytes off n h =
      Runs-if (ltb (length bytes) (off + n)) (λ e. absurd (ground arith)) (λ e. gives refl)

  pub read_u16-Runs :
      (bytes : List ℕ) (off : ℕ) → Runs Spins (λ v. off + 2 ≤ length bytes) (read_u16 bytes off)
  unfolding read_u16
  read_u16-Runs bytes off =
      Runs-if (ltb (length bytes) (off + 2)) (λ e. fails) (λ e. gives (ground arith))

  pub read_u32-Runs :
      (bytes : List ℕ) (off : ℕ) → Runs Spins (λ v. off + 4 ≤ length bytes) (read_u32 bytes off)
  unfolding read_u32
  read_u32-Runs bytes off =
      Runs-if (ltb (length bytes) (off + 4)) (λ e. fails) (λ e. gives (ground arith))

  -- The value is the one that the run gives.
  pub Runs-eq :
      {A : Type 0} {P : A → Type 0} {r : Result A}
      → Runs Spins P r
      → Runs Spins (λ a. (r ≡ ok a) × P a) r
  Runs-eq (gives p) = gives (refl, p)
  Runs-eq fails = fails
  Runs-eq (hangs s) = hangs s

-- A run that ends is one that ends or has a reason not to.
pub Runs-ends : {Spins A : Type 0} {P : A → Type 0} {r : Result A} → Runs ⊥ P r → Runs Spins P r
Runs-ends (gives p) = gives p
Runs-ends fails = fails
Runs-ends (hangs s) = absurd s

-- The value of a run, if it has one, has the property.
pub data Leaves {A : Type 0} (P : A → Type 0) : Result A → Type 0 where
  leaves : {a : A} → P a → Leaves P (ok a)
  thrown : {e : Error} → Leaves P (throws e)
  went_outside : Leaves P outside
  spun : Leaves P spins

pub Leaves-any : {A : Type 0} (r : Result A) → Leaves (λ (a : A). Unit {0}) r
Leaves-any (ok a) = leaves tt
Leaves-any (throws e) = thrown
Leaves-any outside = went_outside
Leaves-any spins = spun

pub Leaves-then :
    {A B : Type 0} {P : B → Type 0} (r : Result A) (f : A → Result B)
    → ((a : A) → Leaves P (f a))
    → Leaves P (r >>= f)
Leaves-then (ok a) f h = h a
Leaves-then (throws e) f h = thrown
Leaves-then outside f h = went_outside
Leaves-then spins f h = spun
