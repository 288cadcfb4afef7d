-- ===== src/Memory/Laws.antt =====
-- Loads after stores: the written word, and an untouched word outside it.
use Prim.Native.Nat.{◌≤◌}
use muplar.Base.{ℕ, zero, suc, ◌+◌, ◌/◌, ◌^◌, ◌<◌, ◌≡◌, ◌⊎◌, inl, inr, List, [], ◌∷◌}
use muplar.Base.{refl, ap, arith, length}
use muplar.Base.Words.{IsU64}
use native.Mathlib.Nat.{pow-suc}
use muplar.Memory.{Memory, load, store, word, bytes, load64, store64}

pub length-load : (m : Memory) (a n : ℕ) → length (load m a n) ≡ n
unfolding load
length-load m a zero = refl
length-load m a (suc n) = ap suc (length-load m (a + 1) n)

pub load-eq :
    (m m' : Memory) (a n : ℕ)
    → ((x : ℕ) → a ≤ x → x < a + n → m x ≡ m' x)
    → load m a n ≡ load m' a n
unfolding load
load-eq m m' a zero same = refl
load-eq m m' a (suc n) same = ground (
  arith,
  same a (omega arith) (omega arith),
  load-eq m m' (a + 1) n (λ x lo hi. same x (omega arith) (omega arith)),
)

pub store_outside :
    (m : Memory) (a : ℕ) (bs : List ℕ) (x : ℕ)
    → ((x < a) ⊎ (a + length bs ≤ x))
    → store m a bs x ≡ m x
unfolding store
store_outside m a [] x out = refl
store_outside m a (b ∷ bs) x (inl lt) =
    ground (arith, store_outside m (a + 1) bs x (inl (omega arith)))
store_outside m a (b ∷ bs) x (inr le) =
    ground (arith, store_outside m (a + 1) bs x (inr (omega arith)))

pub load-store : (m : Memory) (a : ℕ) (bs : List ℕ) → load (store m a bs) a (length bs) ≡ bs
unfolding load
load-store m a [] = refl
load-store m a (b ∷ bs) = ground (
  arith,
  head,
  load-eq (store m a (b ∷ bs)) (store m (a + 1) bs) (a + 1) (length bs)
      (λ x lo hi. unfold store in ground arith),
  load-store m (a + 1) bs,
)
  where
    head : store m a (b ∷ bs) a ≡ b
    head = unfold store in ground arith

pub word-bytes : (n v : ℕ) → v < 256 ^ n → word (bytes n v) ≡ v
unfolding word bytes
word-bytes zero v h = omega arith
word-bytes (suc n) v h = omega (arith, word-bytes n (v / 256) (omega (arith, pow-suc 256 n)))

pub length-bytes : (n v : ℕ) → length (bytes n v) ≡ n
unfolding bytes
length-bytes zero v = refl
length-bytes (suc n) v = ap suc (length-bytes n (v / 256))

-- Reading back a stored word.
pub load64-store64 : (m : Memory) (a v : ℕ) → IsU64 v → load64 (store64 m a v) a ≡ v
unfolding load64 store64
load64-store64 m a v h = ground (arith, load-store m a (bytes 8 v), word-bytes 8 v)

-- A store changes no word outside the eight bytes it writes.
pub load64-store64_ne :
    (m : Memory) (a b v : ℕ) → ((b + 8 ≤ a) ⊎ (a + 8 ≤ b)) → load64 (store64 m a v) b ≡ load64 m b
unfolding load64 store64
load64-store64_ne m a b v (inl lo) =
    ap word (load-eq _ m b 8 (λ x p q. store_outside m a (bytes 8 v) x (inl (omega arith))))
load64-store64_ne m a b v (inr hi) = ap word (
    load-eq _ m b 8
      (λ x p q. store_outside m a (bytes 8 v) x (inr (omega (arith, length-bytes 8 v)))))

pub store64_outside : (m : Memory) (a v x : ℕ) → ((x < a) ⊎ (a + 8 ≤ x)) → store64 m a v x ≡ m x
unfolding store64
store64_outside m a v x (inl lo) = store_outside m a (bytes 8 v) x (inl lo)
store64_outside m a v x (inr hi) =
    store_outside m a (bytes 8 v) x (inr (omega (arith, length-bytes 8 v)))

-- Words that are read from the same bytes.
pub load64-eq :
    (m m' : Memory) (a : ℕ) → ((x : ℕ) → a ≤ x → x < a + 8 → m x ≡ m' x) → load64 m a ≡ load64 m' a
unfolding load64
load64-eq m m' a same = ap word (load-eq m m' a 8 same)
