-- ===== src/Apk/Zip/Fields.antt =====
-- Little-endian fields as a writer of zip files lays them down, and that the reader takes them back.
use Prim.Native.Nat.{◌≤◌}
use muplar.Base.{
  ℕ, zero, suc, ◌+◌, ◌/◌, ◌%◌, ◌^◌, ◌<◌, ◌≡◌, refl, ap, ◌∙◌, sym, arith, List, [], ◌∷◌, ◌++◌,
}
use muplar.Base.{false, ltb, length, take, drop, get_or, length-append, length-drop}
use muplar.Apk.{ok, read_u16, read_u32, slice}

-- Two and four bytes before the rest.
abbrev pub put16 : ℕ → List ℕ → List ℕ
put16 v rest = v % 256 ∷ v / 256 % 256 ∷ rest

abbrev pub put32 : ℕ → List ℕ → List ℕ
put32 v rest = v % 256 ∷ v / 256 % 256 ∷ v / 65536 % 256 ∷ v / 16777216 % 256 ∷ rest

drop-append : (pre xs : List ℕ) (k : ℕ) → drop (length pre + k) (pre ++ xs) ≡ drop k xs
drop-append [] xs k = rw (let e : 0 + k ≡ k = omega arith in e) refl
drop-append (x ∷ pre) xs k =
    rw (let e : suc (length pre) + k ≡ suc (length pre + k) = omega arith in e)
      (drop-append pre xs k)

get_or-drop : (s : List ℕ) (off j : ℕ) → get_or (drop off s) j 0 ≡ get_or s (off + j) 0
get_or-drop s zero j = rw (let e : 0 + j ≡ j = omega arith in e) refl
get_or-drop [] (suc off) j = refl
get_or-drop (x ∷ s) (suc off) j =
    rw (let e : suc off + j ≡ suc (off + j) = omega arith in e) (get_or-drop s off j)

-- What stands at an offset.
at_offset :
    (pre xs : List ℕ) (k j : ℕ) (ys : List ℕ)
    → drop k xs ≡ ys
    → get_or (pre ++ xs) (length pre + k + j) 0 ≡ get_or ys j 0
at_offset pre xs k j ys e =
    sym (get_or-drop (pre ++ xs) (length pre + k) j)
    ∙ ap (λ (l : List ℕ). get_or l j 0) (drop-append pre xs k ∙ e)

at_start :
    (pre xs : List ℕ) (k : ℕ) (ys : List ℕ)
    → drop k xs ≡ ys
    → get_or (pre ++ xs) (length pre + k) 0 ≡ get_or ys 0 0
at_start pre xs k ys e =
    ap (λ (n : ℕ). get_or (pre ++ xs) n 0)
      (let z : length pre + k ≡ length pre + k + 0 = omega arith in z)
    ∙ at_offset pre xs k 0 ys e

take-append : (xs ys : List ℕ) → take (length xs) (xs ++ ys) ≡ xs
take-append [] ys = refl
take-append (x ∷ xs) ys = ap (λ (l : List ℕ). x ∷ l) (take-append xs ys)

length-offset :
    (xs ys : List ℕ) (k : ℕ) → drop k xs ≡ ys → 0 < length ys → length xs ≡ k + length ys
length-offset xs ys zero e h = omega (arith, ap length e)
length-offset [] ys (suc k) e h = absurd (omega (arith, ap length e))
length-offset (x ∷ xs) ys (suc k) e h = omega (arith, length-offset xs ys k e h)

pub read_u16-put16 :
    (pre xs : List ℕ) (k v : ℕ) (rest : List ℕ)
    → v < 65536
    → drop k xs ≡ put16 v rest
    → read_u16 (pre ++ xs) (length pre + k) ≡ ok v
unfolding read_u16
read_u16-put16 pre xs k v rest h e =
    let inside : ltb (length (pre ++ xs)) (length pre + k + 2) ≡ false =
      ground (arith, length-append pre xs, length-offset xs (put16 v rest) k e (omega arith)) in
    let b0 = at_start pre xs k (put16 v rest) e in
    let b1 = at_offset pre xs k 1 (put16 v rest) e in rw inside (ap ok (omega (arith, b0, b1)))

pub read_u32-put32 :
    (pre xs : List ℕ) (k v : ℕ) (rest : List ℕ)
    → v < 2 ^ 32
    → drop k xs ≡ put32 v rest
    → read_u32 (pre ++ xs) (length pre + k) ≡ ok v
unfolding read_u32
read_u32-put32 pre xs k v rest h e =
    let inside : ltb (length (pre ++ xs)) (length pre + k + 4) ≡ false =
      ground (arith, length-append pre xs, length-offset xs (put32 v rest) k e (omega arith)) in
    let b0 = at_start pre xs k (put32 v rest) e in
    let b1 = at_offset pre xs k 1 (put32 v rest) e in
    let b2 = at_offset pre xs k 2 (put32 v rest) e in
    let b3 = at_offset pre xs k 3 (put32 v rest) e in
    rw inside (ap ok (omega (arith, b0, b1, b2, b3)))

pub slice-append :
    (pre xs : List ℕ) (k : ℕ) (ys rest : List ℕ)
    → drop k xs ≡ ys ++ rest
    → k ≤ length xs
    → slice (pre ++ xs) (length pre + k) (length ys) ≡ ok ys
unfolding slice
slice-append pre xs k ys rest e h =
    let inside : ltb (length (pre ++ xs)) (length pre + k + length ys) ≡ false =
      ground (arith, length-append pre xs, length-drop k xs, ap length e, length-append ys rest) in
    rw inside (
      ap ok
        (ap (λ (l : List ℕ). take (length ys) l) (drop-append pre xs k ∙ e) ∙ take-append ys rest))
