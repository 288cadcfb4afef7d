-- ===== src/Apk/Launch/Above.antt =====
-- The directories above a path that lies inside of a directory: each is inside of it, too, or above it.
use muplar.Base.{ℕ, ◌≡◌, ◌≢◌, ◌⊎◌, inl, inr, refl, sym, ap, ◌∙◌, arith, List, [], ◌∷◌, ◌++◌}
use muplar.Base.{true, false, ◌==◌, drop, get_or, All, Bool-cases}
use mathlib.Core.List.{append-nil}
use muplar.Base.Text.{codes}
use muplar.Apk.Find.{ends_with}
use muplar.Apk.Paths.{starts_with_slash, dot_dot}
use muplar.Apk.Paths.Parts.{IsRelative, split}
use muplar.Apk.Io.{append_path, IsAbove}

-- The directory itself, and what a relative name without ".." leads to from inside of it.
pub data Inside (dir : List ℕ) : List ℕ → Type 0 where
  here : Inside dir dir
  under :
      {path : List ℕ} (name q : List ℕ)
      → Inside dir path
      → IsRelative name
      → q ≡ append_path path name
      → Inside dir q

head_eq : {x y : ℕ} {xs ys : List ℕ} → x ∷ xs ≡ y ∷ ys → x ≡ y
head_eq e = ap (λ (l : List ℕ). get_or l 0 0) e

tail_eq : {x y : ℕ} {xs ys : List ℕ} → x ∷ xs ≡ y ∷ ys → xs ≡ ys
tail_eq e = ap (λ (l : List ℕ). drop 1 l) e

cons_eq : {x y : ℕ} {xs ys : List ℕ} → x ≡ y → xs ≡ ys → x ∷ xs ≡ y ∷ ys
cons_eq e h = rw (e, h) refl

-- What stands before a place of `ys ++ zs` ends in `ys`, or goes on into `zs`.
parted :
    (xs rest ys zs : List ℕ) (c : ℕ)
    → ys ++ zs ≡ xs ++ c ∷ rest
    → ((r : List ℕ) × (ys ≡ xs ++ c ∷ r)) ⊎ ((n : List ℕ) × (xs ≡ ys ++ n) × (zs ≡ n ++ c ∷ rest))
parted xs rest [] zs c e = inr (xs, refl, e)
parted [] rest (y ∷ ys) zs c e = inl (ys, cons_eq (head_eq e) refl)
parted (x ∷ xs) rest (y ∷ ys) zs c e = elim (parted xs rest ys zs c (tail_eq e)) [
  | inl h ↦ inl (h.0, cons_eq (head_eq e) h.1)
  | inr h ↦ inr (h.0, cons_eq (sym (head_eq e)) h.1, h.2)
]

split_cons : (c : ℕ) (s : List ℕ) → (p : List ℕ) × (ps : List (List ℕ)) × (split c s ≡ p ∷ ps)
unfolding split
split_cons c [] = ([], [], refl)
split_cons c (d ∷ ds) = elim (Bool-cases (d == c)) [
  | inl e ↦ ([], split c ds, rw e refl)
  | inr e ↦ let rest = split_cons c ds in (d ∷ rest.0, rest.1, rw (e, rest.2) refl)
]

-- The parts up to a separator are parts of the whole.
split-front : (c : ℕ) (n rest : List ℕ) → split c (n ++ c ∷ rest) ≡ split c n ++ split c rest
unfolding split
split-front c [] rest = let same : (c == c) ≡ true = ground arith in rw same refl
split-front c (d ∷ n) rest = elim (Bool-cases (d == c)) [
  | inl e ↦ rw (e, split-front c n rest) refl
  | inr e ↦ let some_part = split_cons c n in rw (e, split-front c n rest, some_part.2) refl
]

All-front : (xs ys : List (List ℕ)) → All (λ p. p ≢ dot_dot) (xs ++ ys) → All (λ p. p ≢ dot_dot) xs
All-front [] ys h = tt
All-front (x ∷ xs) ys (p, h) = (p, All-front xs ys h)

-- The front of a relative name, up to a slash, is relative.
front-IsRelative : (n rest : List ℕ) → IsRelative (n ++ b'/' ∷ rest) → IsRelative n × (n ≢ [])
front-IsRelative [] rest h = absurd (let bad = h.not_absolute in ground arith)
front-IsRelative (c ∷ n) rest h = (
  record {
    not_absolute = h.not_absolute;
    no_parent =
        All-front (split b'/' (c ∷ n)) (split b'/' rest)
          (rw (← (split-front b'/' (c ∷ n) rest)) h.no_parent);
  },
  λ e. cc,
)

append_path-slashed :
    (c : ℕ) (cs name : List ℕ)
    → starts_with_slash name ≡ false
    → ends_with (c ∷ cs) (codes "/") ≡ true
    → append_path (c ∷ cs) name ≡ (c ∷ cs) ++ name
unfolding append_path
append_path-slashed c cs name h e = rw (h, e, append_path) refl

append_path-unslashed :
    (c : ℕ) (cs name : List ℕ)
    → starts_with_slash name ≡ false
    → ends_with (c ∷ cs) (codes "/") ≡ false
    → append_path (c ∷ cs) name ≡ (c ∷ cs) ++ b'/' ∷ name
unfolding append_path
append_path-unslashed c cs name h e = rw (h, e, append_path) refl

append_path-nil : (name : List ℕ) → append_path [] name ≡ name
unfolding append_path
append_path-nil name = refl

module _ (dir : List ℕ) where
  abbrev pub Within : List ℕ → Type 0
  Within q = Inside dir q ⊎ IsAbove q dir

  -- The step from a directory to a name: what is above it is above the directory, the directory
  -- itself, or behind it.
  above-step :
      (path name q : List ℕ)
      → Inside dir path
      → ((r : List ℕ) → IsAbove r path → Within r)
      → IsRelative name
      → IsAbove q (append_path path name)
      → Within q
  above-step [] name q inside ih rel (rest, e) =
      let at : name ≡ q ++ b'/' ∷ rest = sym (append_path-nil name) ∙ e in
      let front = front-IsRelative q rest (rw (← at) rel) in
      inl (under q q inside front.0 (sym (append_path-nil q)))
  above-step (c ∷ cs) name q inside ih rel (rest, e) =
      elim (Bool-cases (ends_with (c ∷ cs) (codes "/"))) [
        | inl slashed ↦
            elim (parted q rest (c ∷ cs) name b'/'
              (sym (append_path-slashed c cs name rel.not_absolute slashed) ∙ e)) [
                | inl h ↦ ih q h
                | inr h ↦
                    let front = front-IsRelative h.0 rest (rw (← (h.2)) rel) in
                    inl (
                      under h.0 q inside front.0
                        (h.1 ∙ sym (append_path-slashed c cs h.0 front.0.not_absolute slashed)))
              ]
        | inr bare ↦
            elim (parted q rest (c ∷ cs) (b'/' ∷ name) b'/'
              (sym (append_path-unslashed c cs name rel.not_absolute bare) ∙ e)) [
                | inl h ↦ ih q h
                | inr h ↦ behind h.0 h.1 h.2 bare
              ]
      ]
    where
      behind :
          (n : List ℕ)
          → q ≡ (c ∷ cs) ++ n
          → b'/' ∷ name ≡ n ++ b'/' ∷ rest
          → ends_with (c ∷ cs) (codes "/") ≡ false
          → Within q
      behind [] at parts bare = inl (rw (at ∙ append-nil (c ∷ cs)) inside)
      behind (d ∷ n) at parts bare =
          let front = front-IsRelative n rest (rw (← (tail_eq parts)) rel) in
          let slash : (c ∷ cs) ++ d ∷ n ≡ (c ∷ cs) ++ b'/' ∷ n =
            ap (λ (x : ℕ). (c ∷ cs) ++ x ∷ n) (sym (head_eq parts)) in
          inl (
            under n q inside front.0
              (at ∙ slash ∙ sym (append_path-unslashed c cs n front.0.not_absolute bare)))

  pub Inside-IsAbove : {path : List ℕ} → Inside dir path → (q : List ℕ) → IsAbove q path → Within q
  Inside-IsAbove here q above = inr above
  Inside-IsAbove (under {path} name p inside rel at) q (rest, e) =
      above-step path name q inside (Inside-IsAbove inside) rel (rest, sym at ∙ e)
