-- ===== src/Linker/Relr/Decode.antt =====
-- `apply_relr` against the list of addresses that a packed table stands for.
use native.Mathlib.Nat.{div-div-eq-div-mul, pow-suc}
use mathlib.Core.Path.{subst}
use muplar.Base.{
  ℕ, zero, suc, ◌+◌, ◌*◌, ◌/◌, ◌%◌, ◌^◌, ◌≤◌, ◌<◌, ◌≡◌, ◌≢◌, refl, ap, ◌∙◌, sym, arith, ◌⊎◌, inl,
  inr,
}
use muplar.Base.{
  List, [], ◌∷◌, ◌++◌, Bool, true, false, not, ◌||◌, ◌==◌, if◌then◌else◌, length, All, Bool-cases,
}
use muplar.Base.Words.{add64, IsU64}
use muplar.Memory.{Memory, load64}
use muplar.Memory.Laws.{load64-store64_ne}
use muplar.Linker.{Object, nonzero}
use muplar.Linker.Relr.{patch, bitmap_loop, relr_loop, apply_relr}

-- The slots of a bitmap word, `n` bits from the one of weight `p` on, for the slots from `s` on.
unfoldable pub window : (n p w s : ℕ) → List ℕ
window zero p w s = []
window (suc n) p w s =
    let rest = window n (p * 2) w (s + 8) in if w / p % 2 == 1 then s ∷ rest else rest

-- The addresses that the words stand for: an even word is the address of a slot, less the load base;
-- an odd one has a bit for each of the 63 slots that follow.
unfoldable pub addresses : (base : ℕ) (words : List ℕ) (slot : ℕ) → List ℕ
addresses base [] slot = []
addresses base (w ∷ ws) slot =
    let single = add64 w base ∷ addresses base ws (add64 w base + 8) in
    let many = window 63 2 w slot ++ addresses base ws (slot + 8 * 63) in
    if w % 2 == 0 then single else many

-- The load base is added to the words at the addresses, one after the other.
unfoldable pub patch_all : (base : ℕ) → List ℕ → Memory → Memory
patch_all base [] m = m
patch_all base (a ∷ rest) m = patch_all base rest (patch base a m)

-- The words stand one behind the other in memory.
abbrev pub TableAt : Memory → ℕ → List ℕ → Type 0
TableAt m a [] = Unit {0}
TableAt m a (w ∷ ws) = (load64 m a ≡ w) × TableAt m (a + 8) ws

-- A slot that does not overlap the bytes from `lo` up to `hi`.
abbrev pub Outside : (lo hi a : ℕ) → Type 0
Outside lo hi a = (a + 8 ≤ lo) ⊎ (hi ≤ a)

patch_all-append :
    (base : ℕ) (xs bs : List ℕ) (m : Memory)
    → patch_all base (xs ++ bs) m ≡ patch_all base bs (patch_all base xs m)
unfolding patch_all
patch_all-append base [] bs m = refl
patch_all-append base (a ∷ rest) bs m = patch_all-append base rest bs (patch base a m)

-- The slots of a bitmap that is empty, and of one that is shifted to its first bit.
bits : (n b s : ℕ) → List ℕ
bits zero b s = []
bits (suc n) b s = let rest = bits n (b / 2) (s + 8) in if b % 2 == 1 then s ∷ rest else rest

bits_zero : (n s : ℕ) → bits n 0 s ≡ []
unfolding bits
bits_zero zero s = refl
bits_zero (suc n) s = bits_zero n (s + 8)

window-bits : (n p w s : ℕ) → window n p w s ≡ bits n (w / p) s
unfolding window bits
window-bits zero p w s = refl
window-bits (suc n) p w s = rw (window-bits n (p * 2) w (s + 8), div-div-eq-div-mul w p 2) refl

two_pow : (n : ℕ) → 2 ^ suc n ≡ 2 * 2 ^ n
two_pow n = omega (arith, pow-suc 2 n)

-- A round more than the bitmap has bits changes nothing.
bits_last : (n b s : ℕ) → b < 2 ^ n → bits (suc n) b s ≡ bits n b s
unfolding bits
bits_last zero b s h = let z : b ≡ 0 = omega arith in rw z refl
bits_last (suc n) b s h =
    let half : b / 2 < 2 ^ n = omega (arith, two_pow n) in
    let ih = bits_last n (b / 2) (s + 8) half in
    ap (λ (l : List ℕ). if b % 2 == 1 then s ∷ l else l) ih

patch_all_if :
    (base s : ℕ) (rest : List ℕ) (b : Bool) (m : Memory)
    → patch_all base rest (if b then patch base s m else m)
      ≡ patch_all base (if b then s ∷ rest else rest) m
unfolding patch_all
patch_all_if base s rest true m = refl
patch_all_if base s rest false m = refl

bitmap_loop-bits :
    (n base b s : ℕ) (m : Memory) → bitmap_loop n base b s m ≡ patch_all base (bits n b s) m
unfolding bitmap_loop bits patch_all
bitmap_loop-bits zero base b s m = refl
bitmap_loop-bits (suc n) base b s m = elim (Bool-cases (b == 0)) [
  | inl z ↦
      let empty : b ≡ 0 = ground arith in
      rw empty (ap (λ (l : List ℕ). patch_all base l m) (sym (bits_zero n (s + 8))))
  | inr z ↦
      rw (z, bitmap_loop)
        (bitmap_loop-bits n base (b / 2) (s + 8) (if b % 2 == 1 then patch base s m else m)
          ∙ patch_all_if base s (bits n (b / 2) (s + 8)) (b % 2 == 1) m)
]

bitmap_loop-window :
    (base w s : ℕ) (m : Memory)
    → IsU64 w
    → bitmap_loop 64 base (w / 2) s m ≡ patch_all base (window 63 2 w s) m
bitmap_loop-window base w s m h =
    bitmap_loop-bits 64 base (w / 2) s m
    ∙ ap (λ (l : List ℕ). patch_all base l m)
        (bits_last 63 (w / 2) s (omega arith) ∙ sym (window-bits 63 2 w s))

All-append : (P : ℕ → Type 0) (xs ys : List ℕ) → All P (xs ++ ys) → All P xs × All P ys
All-append P [] ys h = (tt, h)
All-append P (x ∷ xs) ys h = let (a, b) = All-append P xs ys h.1 in ((h.0, a), b)

TableAt-patch :
    (lo hi base t a : ℕ) (ws : List ℕ) (m : Memory)
    → Outside lo hi t
    → lo ≤ a
    → a + 8 * length ws ≤ hi
    → TableAt m a ws
    → TableAt (patch base t m) a ws
unfolding patch
TableAt-patch lo hi base t a [] m o l h at = tt
TableAt-patch lo hi base t a (w ∷ ws) m o l h (here, at) = (
  load64-store64_ne m t a _
        (elim o [ inl below ↦ inr (omega arith) | inr above ↦ inl (omega arith) ])
      ∙ here,
  TableAt-patch lo hi base t (a + 8) ws m o (omega arith) (omega arith) at,
)

TableAt-patch_all :
    (lo hi base a : ℕ) (ts ws : List ℕ) (m : Memory)
    → All (Outside lo hi) ts
    → lo ≤ a
    → a + 8 * length ws ≤ hi
    → TableAt m a ws
    → TableAt (patch_all base ts m) a ws
unfolding patch_all
TableAt-patch_all lo hi base a [] ws m o l h at = at
TableAt-patch_all lo hi base a (t ∷ ts) ws m (here, o) l h at =
    TableAt-patch_all lo hi base a ts ws (patch base t m) o l h
      (TableAt-patch lo hi base t a ws m here l h at)

relr_loop-addresses :
    (lo hi base relr : ℕ) (ws : List ℕ) (i slot : ℕ) (m : Memory)
    → lo ≤ relr + 8 * i
    → relr + 8 * i + 8 * length ws ≤ hi
    → TableAt m (relr + 8 * i) ws
    → All IsU64 ws
    → All (Outside lo hi) (addresses base ws slot)
    → relr_loop (length ws) base relr i slot m ≡ patch_all base (addresses base ws slot) m
unfolding relr_loop addresses patch_all
relr_loop-addresses lo hi base relr [] i slot m l h at u o = refl
relr_loop-addresses lo hi base relr (w ∷ ws) i slot m l h (here, at) (w64, u) o =
    let next : relr + 8 * i + 8 ≡ relr + 8 * (i + 1) = omega arith in
    elim (Bool-cases (w % 2 == 0)) [
      | inl even ↦
          let target = add64 w base in
          let o' : All (Outside lo hi) (target ∷ addresses base ws (target + 8)) = rw even at o in
          rw (here, even, relr_loop)
            (relr_loop-addresses lo hi base relr ws (i + 1) (target + 8) (patch base target m)
              (omega arith) (omega arith)
              (rw (← next) (
                TableAt-patch lo hi base target (relr + 8 * i + 8) ws m o'.0 (omega arith)
                  (omega arith) at))
              u o'.1)
      | inr odd ↦
          let slots = window 63 2 w slot in
          let later = addresses base ws (slot + 8 * 63) in
          let o' : All (Outside lo hi) (slots ++ later) = rw odd at o in
          let (o1, o2) = All-append (Outside lo hi) slots later o' in
          rw (here, odd, relr_loop, bitmap_loop-window base w slot m w64)
            (relr_loop-addresses lo hi base relr ws (i + 1) (slot + 8 * 63) (patch_all base slots m)
                (omega arith) (omega arith)
                (rw (← next) (
                  TableAt-patch_all lo hi base (relr + 8 * i + 8) slots ws m o1 (omega arith)
                    (omega arith) at))
                u o2
              ∙ sym (patch_all-append base slots later m))
    ]

-- `apply_relr`, on a table of 64-bit words at `relr` that overlaps none of the slots that it stands
-- for, adds the load base to the words at these slots, one after the other: an even word stands for
-- the slot at its value plus the load base, and an odd word, the bits 1 to 63 of which are set or
-- not, for those of the 63 slots behind the last one.
pub apply_relr-addresses :
    (obj : Object) (ws : List ℕ) (m : Memory)
    → TableAt m obj.relr ws
    → All IsU64 ws
    → length ws ≡ obj.relr_count
    → obj.relr ≢ 0
    → All (Outside obj.relr (obj.relr + 8 * length ws)) (addresses obj.load_base ws 0)
    → apply_relr obj m ≡ patch_all obj.load_base (addresses obj.load_base ws 0) m
unfolding apply_relr addresses patch_all
apply_relr-addresses obj [] m at u count there o =
    let skipped : (not (nonzero obj.relr) || not (nonzero obj.relr_count)) ≡ true = ground arith in
    rw skipped refl
apply_relr-addresses obj (w ∷ ws) m at u count there o =
    let taken : (not (nonzero obj.relr) || not (nonzero obj.relr_count)) ≡ false = ground arith in
    let first : obj.relr ≡ obj.relr + 8 * 0 = omega arith in
    rw taken (
      ap (λ (n : ℕ). relr_loop n obj.load_base obj.relr 0 0 m) (sym count)
      ∙ relr_loop-addresses obj.relr (obj.relr + 8 * length (w ∷ ws)) obj.load_base obj.relr
          (w ∷ ws) 0 0 m (omega arith) (omega arith)
          (subst (λ (a : ℕ). TableAt m a (w ∷ ws)) first at) u o)
