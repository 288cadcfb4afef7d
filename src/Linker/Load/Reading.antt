-- ===== src/Linker/Load/Reading.antt =====
-- `read_at`: it always ends, and with a file behind the descriptor it gives the file's bytes.
use Prim.Native.Nat.{◌≤◌}
use muplar.Base.{ℕ, zero, suc, ◌+◌, ◌-◌, ◌<◌, ◌≡◌, refl, sym, ap, ◌∙◌, arith, List, [], ◌∷◌, ◌++◌}
use muplar.Base.{true, false, ◌==◌, length, take, drop, Bool-cases, inl, inr}
use muplar.Base.{length-take, length-drop}
use muplar.Base.Int.{is_negative}
use muplar.Linker.Load.{Os, ReadResult, got, failed, then_got, read_loop, read_at}

-- Every outcome but `out_of_fuel`.
pub data Ends : ReadResult → Type 0 where
  with_bytes : (bs : List ℕ) → Ends (got bs)
  with_failure : Ends failed

then_got-Ends : (bs : List ℕ) {r : ReadResult} → Ends r → Ends (then_got bs r)
then_got-Ends bs (with_bytes cs) = with_bytes (bs ++ cs)
then_got-Ends bs with_failure = with_failure

read_loop-Ends : (os : Os) (fuel fd at len : ℕ) → len ≤ fuel → Ends (read_loop os fuel fd at len)
unfolding read_loop
read_loop-Ends os zero fd at len h =
    let nothing : (len == 0) ≡ true = ground arith in rw nothing (with_bytes [])
read_loop-Ends os (suc fuel) fd at len h = elim (Bool-cases (len == 0)) [
  | inl all ↦ rw (all, read_loop) (with_bytes [])
  | inr more ↦ elim (Bool-cases (length (os.read fd at len) == 0)) [
    | inl end ↦ rw (more, end, read_loop) with_failure
    | inr some_bytes ↦
        rw (more, some_bytes, read_loop)
          (then_got-Ends (os.read fd at len) (
            read_loop-Ends os fuel fd (at + length (os.read fd at len))
              (len - length (os.read fd at len)) (ground arith)))
  ]
]

-- `read_at` ends whatever the kernel answers.
pub read_at-Ends : (os : Os) (fd offset len : ℕ) → Ends (read_at os fd offset len)
unfolding read_at
read_at-Ends os fd offset len = elim (Bool-cases (is_negative (os.lseek fd offset))) [
  | inl bad ↦ rw (bad, read_at) with_failure
  | inr good ↦ rw (good, read_at) (read_loop-Ends os len fd offset len (omega arith))
]

-- What `read` promises for a descriptor of a regular file: the bytes at the position, as many of the
-- ones asked for as it likes, but one at least where the file has one.
pub record Reads (os : Os) (fd : ℕ) (content : List ℕ) : Type 0 where
  pub seeks : (offset : ℕ) → is_negative (os.lseek fd offset) ≡ false
  pub part : (at len : ℕ) → (k : ℕ) × (os.read fd at len ≡ take k (drop at content)) × (k ≤ len)
  pub progress : (at len : ℕ) → 0 < len → at < length content → 0 < length (os.read fd at len)

abbrev nil : List ℕ
nil = []

drop-nil : (n : ℕ) → drop n [] ≡ nil
drop-nil zero = refl
drop-nil (suc n) = refl

take-nil : (n : ℕ) → take n [] ≡ nil
take-nil zero = refl
take-nil (suc n) = refl

drop-drop : (a b : ℕ) (xs : List ℕ) → drop a (drop b xs) ≡ drop (b + a) xs
drop-drop a zero xs = let e : zero + a ≡ a = omega arith in rw e refl
drop-drop a (suc b) [] = drop-nil a ∙ sym (drop-nil (suc b + a))
drop-drop a (suc b) (x ∷ xs) =
    let e : suc b + a ≡ suc (b + a) = omega arith in rw e (drop-drop a b xs)

take_then : (k n : ℕ) (xs : List ℕ) → take k xs ++ take n (drop k xs) ≡ take (k + n) xs
take_then zero n xs = let e : zero + n ≡ n = omega arith in rw e refl
take_then (suc k) n [] = take-nil n ∙ sym (take-nil (suc k + n))
take_then (suc k) n (x ∷ xs) =
    let e : suc k + n ≡ suc (k + n) = omega arith in
    rw e (ap (λ (l : List ℕ). x ∷ l) (take_then k n xs))

take-length-take : (k : ℕ) (xs : List ℕ) → take (length (take k xs)) xs ≡ take k xs
take-length-take zero xs = refl
take-length-take (suc k) [] = refl
take-length-take (suc k) (x ∷ xs) = ap (λ (l : List ℕ). x ∷ l) (take-length-take k xs)

module _ (os : Os) (fd : ℕ) (content : List ℕ) (file : Reads os fd content) where
  -- What a read of some bytes and the rest of the loop make together.
  joined :
      (at len k : ℕ) (bs : List ℕ)
      → bs ≡ take k (drop at content)
      → length bs ≤ len
      → bs ++ take (len - length bs) (drop (at + length bs) content) ≡ take len (drop at content)
  joined at len k bs e h =
      let same : take (length bs) (drop at content) ≡ bs =
        rw e (take-length-take k (drop at content)) in
      let whole : length bs + (len - length bs) ≡ len = omega arith in
      ap (λ (l : List ℕ). bs ++ take (len - length bs) l) (sym (drop-drop (length bs) at content))
      ∙ ap (λ (l : List ℕ). l ++ take (len - length bs) (drop (length bs) (drop at content)))
          (sym same)
      ∙ take_then (length bs) (len - length bs) (drop at content)
      ∙ ap (λ (n : ℕ). take n (drop at content)) whole

  short_read : (at len : ℕ) → length (os.read fd at len) ≤ len
  short_read at len =
      let (k, e, h) = file.part at len in rw e (omega (arith, length-take k (drop at content)))

  stored_read : (at len : ℕ) → length (os.read fd at len) ≤ length content - at
  stored_read at len =
      let (k, e, h) = file.part at len in
      rw e (omega (arith, length-take k (drop at content), length-drop at content))

  read_loop-content :
      (fuel at len : ℕ)
      → len ≤ fuel
      → at + len ≤ length content
      → read_loop os fuel fd at len ≡ got (take len (drop at content))
  unfolding read_loop
  read_loop-content zero at len h inside =
      let none_left : len ≡ 0 = omega arith in rw (none_left, read_loop) refl
  read_loop-content (suc fuel) at len h inside = elim (Bool-cases (len == 0)) [
    | inl all ↦ let none_left : len ≡ 0 = ground arith in rw (none_left, read_loop) refl
    | inr more ↦
        let some_bytes = file.progress at len (ground arith) (ground arith) in
        let (k, e, _) = file.part at len in
        let test : (length (os.read fd at len) == 0) ≡ false = ground arith in
        let short = short_read at len in
        rw
          (
            more,
            test,
            read_loop,
            read_loop-content fuel (at + length (os.read fd at len))
                (len - length (os.read fd at len)) (omega arith) (omega arith),
          )
          (ap got (joined at len k (os.read fd at len) e short))
  ]

  read_loop-failed :
      (fuel at len : ℕ)
      → len ≤ fuel
      → 0 < len
      → length content < at + len
      → read_loop os fuel fd at len ≡ failed
  unfolding read_loop
  read_loop-failed zero at len h pos_len beyond = absurd (omega arith)
  read_loop-failed (suc fuel) at len h pos_len beyond =
      let more : (len == 0) ≡ false = ground arith in
      elim (Bool-cases (length (os.read fd at len) == 0)) [
        | inl end ↦ rw (more, end, read_loop) refl
        | inr some_bytes ↦
            let (k, e, _) = file.part at len in
            let short = short_read at len in
            let stored = stored_read at len in
            let inside : at + length (os.read fd at len) ≤ length content = ground arith in
            rw
              (
                more,
                some_bytes,
                read_loop,
                read_loop-failed fuel (at + length (os.read fd at len))
                    (len - length (os.read fd at len)) (ground arith) (ground arith) (ground arith),
              )
              refl
      ]

  -- `read_at` gives exactly the bytes of the file at the offset, however the kernel splits the reads,
  -- and fails exactly where the file ends before them.
  pub read_at-content :
      (offset len : ℕ)
      → (offset + len ≤ length content
          → read_at os fd offset len ≡ got (take len (drop offset content)))
        × (0 < len → length content < offset + len → read_at os fd offset len ≡ failed)
  unfolding read_at
  read_at-content offset len = (
    λ inside.
        rw (file.seeks offset, read_at) (read_loop-content len offset len (omega arith) inside),
    λ some_bytes beyond.
        rw (file.seeks offset, read_at)
          (read_loop-failed len offset len (omega arith) some_bytes beyond),
  )
