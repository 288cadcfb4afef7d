-- ===== src/Apk/Paths/Parts.antt =====
-- The parts of a zip entry's name between its slashes, and what `safe_zip_path` and
-- `filename_from_zip_path` see of them.
use Prim.Native.Nat.{◌≤◌}
use mathlib.Core.List.{append_assoc, append-nil}
use muplar.Base.{
  ℕ, zero, suc, ◌+◌, ◌-◌, ◌<◌, ◌≡◌, refl, sym, ap, ◌∙◌, ◌≢◌, ◌↔◌, ◌⊎◌, inl, inr, arith,
}
use muplar.Base.{List, [], ◌∷◌, ◌++◌, Bool, true, false, ◌||◌, ◌==◌, if◌then◌else◌}
use muplar.Base.{length, take, drop, All, Bool-cases, none, some, length-append, take-append-drop}
use muplar.Base.Text.{codes}
use muplar.Apk.Find.{same, find_if, has_char, is_some, after_last, ends_with}
use muplar.Apk.Paths.{starts_with_slash, dot_dot, parts_loop, safe_zip_path, filename_from_zip_path}

abbrev pub push_head : ℕ → List (List ℕ) → List (List ℕ)
push_head d [] = (d ∷ []) ∷ []
push_head d (p ∷ ps) = (d ∷ p) ∷ ps

-- The parts of a text between the places of a character.
unfoldable pub split : (c : ℕ) → List ℕ → List (List ℕ)
split c [] = [] ∷ []
split c (d ∷ ds) = if d == c then [] ∷ split c ds else push_head d (split c ds)

abbrev pub Lacks : (c : ℕ) → List ℕ → Type 0
Lacks c = All (λ d. d ≢ c)

-- A name that leads nowhere but downwards.
pub record IsRelative (name : List ℕ) : Type 0 where
  pub not_absolute : starts_with_slash name ≡ false
  pub no_parent : All (λ p. p ≢ dot_dot) (split b'/' name)

pub same_iff : (s t : List ℕ) → (same s t ≡ true) ↔ (s ≡ t)
unfolding same
same_iff [] [] = ground arith
same_iff [] (d ∷ ds) = ground arith
same_iff (c ∷ cs) [] = ground arith
same_iff (c ∷ cs) (d ∷ ds) = ground (arith, same_iff cs ds)

-- The first place of the character ends the first part.
find_if-split :
    (c : ℕ) (s : List ℕ) (i : ℕ)
    → ((find_if (λ d. d == c) s i ≡ none) × (split c s ≡ s ∷ []))
      ⊎ ((k : ℕ) × (find_if (λ d. d == c) s i ≡ some (i + k))
          × (split c s ≡ take k s ∷ split c (drop (suc k) s))
          × (k < length s))
unfolding find_if split
find_if-split c [] i = inl (refl, refl)
find_if-split c (d ∷ ds) i = elim (Bool-cases (d == c)) [
  | inl e ↦ inr (0, rw e (ground arith), rw e refl, omega arith)
  | inr e ↦ elim (find_if-split c ds (i + 1)) [
    | inl h ↦ inl (rw e (h.0), rw (e, h.1) refl)
    | inr h ↦
        inr (suc h.0, rw e (h.1 ∙ ap some (omega arith)), rw (e, h.2) refl, omega (arith, h.3))
  ]
]

drop-nil : (n : ℕ) → drop {A = ℕ} n [] ≡ []
drop-nil zero = refl
drop-nil (suc n) = refl

drop-drop : (a b : ℕ) (s : List ℕ) → drop a (drop b s) ≡ drop (b + a) s
drop-drop a zero s = rw (let e : 0 + a ≡ a = omega arith in e) refl
drop-drop a (suc b) [] = drop-nil a ∙ sym (drop-nil (suc b + a))
drop-drop a (suc b) (x ∷ s) =
    rw (let e : suc b + a ≡ suc (b + a) = omega arith in e) (drop-drop a b s)

drop_all : (n : ℕ) (s : List ℕ) → length s ≤ n → drop n s ≡ []
drop_all n [] h = drop-nil n
drop_all zero (x ∷ s) h = absurd (omega arith)
drop_all (suc n) (x ∷ s) h = drop_all n s (omega arith)

abbrev no_dot_dot : List (List ℕ) → Bool
no_dot_dot [] = true
no_dot_dot (p ∷ ps) = if same p dot_dot then false else no_dot_dot ps

parts_loop-split :
    (rounds : ℕ) (path : List ℕ) (start : ℕ)
    → length path < rounds + start
    → parts_loop rounds path start ≡ no_dot_dot (split b'/' (drop start path))
unfolding parts_loop same split
parts_loop-split zero path start h = rw (drop_all start path (omega arith)) refl
parts_loop-split (suc rounds) path start h = elim (find_if-split b'/' (drop start path) start) [
  | inl e ↦ rw (e.1, e.0, parts_loop) (ground arith)
  | inr (k, found, parts, below) ↦
      let width : start + k - start ≡ k = omega arith in
      let next : start + k + 1 ≡ start + suc k = omega arith in
      rw (parts, found, parts_loop, width, drop-drop (suc k) start path)
        (ap (λ b. if same (take k (drop start path)) dot_dot then false else b)
          (parts_loop-split rounds path (start + k + 1) (omega arith)
            ∙ ap (λ (n : ℕ). no_dot_dot (split b'/' (drop n path))) next))
]

no_dot_dot_iff : (ps : List (List ℕ)) → (no_dot_dot ps ≡ true) ↔ All (λ p. p ≢ dot_dot) ps
no_dot_dot_iff [] = (λ h. tt, λ h. refl)
no_dot_dot_iff (p ∷ ps) = ground (arith, no_dot_dot_iff ps, same_iff p dot_dot)

has_char_iff : (s : List ℕ) (c i : ℕ) → (is_some (find_if (λ d. d == c) s i) ≡ false) ↔ Lacks c s
unfolding find_if
has_char_iff [] c i = (λ h. tt, λ h. refl)
has_char_iff (d ∷ ds) c i = ground (arith, has_char_iff ds c (i + 1))

refuses_iff :
    (z s a b p : Bool)
    → ((if z || s || a || b then false else p) ≡ true)
      ↔ ((z ≡ false) × (s ≡ false) × (a ≡ false) × (b ≡ false) × (p ≡ true))
refuses_iff z s a b p = ground arith

-- What `safe_zip_path` tests.
pub record IsSafeName (path : List ℕ) : Type 0 where
  pub relative : IsRelative path
  pub ne_nil : path ≢ []
  pub no_backslash : Lacks 92 path
  pub no_colon : Lacks b':' path

-- `safe_zip_path` accepts a name exactly when it is not empty, does not begin with a slash, holds no
-- backslash and no colon, and no part of it between slashes is "..".
pub safe_zip_path_iff : (path : List ℕ) → (safe_zip_path path ≡ true) ↔ IsSafeName path
unfolding safe_zip_path
safe_zip_path_iff [] = (λ h. absurd (ground arith), λ h. absurd (h.ne_nil refl))
safe_zip_path_iff (c ∷ cs) =
    let path = c ∷ cs in
    let parts = parts_loop-split (suc (length path)) path 0 (omega arith) in
    let parts_iff = no_dot_dot_iff (split b'/' path) in
    let backslash = has_char_iff path 92 0 in
    let colon = has_char_iff path b':' 0 in
    let tests =
      refuses_iff (length path == 0) (starts_with_slash path) (has_char path 92)
        (has_char path b':') (parts_loop (suc (length path)) path 0) in
    (
      λ h.
          let t = tests.0 h in
          record {
            relative = record { not_absolute = t.1; no_parent = parts_iff.0 (sym parts ∙ t.4) };
            ne_nil = cc;
            no_backslash = backslash.0 t.2;
            no_colon = colon.0 t.3;
          },
      λ h. tests.1 (
        ground arith,
        h.relative.not_absolute,
        backslash.1 h.no_backslash,
        colon.1 h.no_colon,
        parts ∙ parts_iff.1 h.relative.no_parent,
      ),
    )

Lacks-append : {c : ℕ} (x : List ℕ) (d : ℕ) → Lacks c x → d ≢ c → Lacks c (x ++ d ∷ [])
Lacks-append [] d h n = (n, tt)
Lacks-append (e ∷ x) d h n = (h.0, Lacks-append x d h.1 n)

after_last-same : (c : ℕ) (t rest : List ℕ) → Lacks c t → after_last c rest t ≡ rest
unfolding after_last
after_last-same c [] rest h = refl
after_last-same c (d ∷ ds) rest h = ground (arith, after_last-same c ds rest h.1)

-- Behind the last place of a character there is none of it.
after_last-Lacks : (c : ℕ) (x s : List ℕ) → Lacks c x → Lacks c (after_last c (x ++ s) s)
unfolding after_last
after_last-Lacks c x [] h = rw append-nil h
after_last-Lacks c x (d ∷ ds) h = elim (Bool-cases (d == c)) [
  | inl e ↦ rw e (after_last-Lacks c [] ds tt)
  | inr e ↦
      rw (e, (let a : x ++ d ∷ ds ≡ (x ++ d ∷ []) ++ ds = sym (append_assoc x (d ∷ []) ds) in a))
        (after_last-Lacks c (x ++ d ∷ []) ds (Lacks-append x d h (ground arith)))
]

-- An ending with none of it stays.
after_last-append :
    (c : ℕ) (t x pre : List ℕ)
    → Lacks c t
    → (q : List ℕ) × (after_last c (x ++ t) (pre ++ t) ≡ q ++ t)
unfolding after_last
after_last-append c t x [] h = (x, after_last-same c t (x ++ t) h)
after_last-append c t x (d ∷ pre) h = elim (Bool-cases (d == c)) [
  | inl e ↦ rw (e, after_last) (after_last-append c t pre pre h)
  | inr e ↦ rw (e, after_last) (after_last-append c t x pre h)
]

Lacks-split : (c : ℕ) (s : List ℕ) → Lacks c s → split c s ≡ s ∷ []
unfolding split
Lacks-split c [] h = refl
Lacks-split c (d ∷ ds) h = ground (arith, Lacks-split c ds h.1)

ends_with-append : (s t : List ℕ) → ends_with s t ≡ true → (q : List ℕ) × (s ≡ q ++ t)
unfolding ends_with
ends_with-append s t h =
    let n = length s - length t in
    (
      take n s,
      sym (take-append-drop n s)
          ∙ ap (λ (r : List ℕ). take n s ++ r) ((same_iff _ t).0 (ground arith)),
    )

so-Lacks : Lacks b'/' (codes ".so")
so-Lacks = omega arith

slash-Lacks : (c : ℕ) (s : List ℕ) → Lacks c s → c ≡ b'/' → starts_with_slash s ≡ false
slash-Lacks c [] h e = refl
slash-Lacks c (d ∷ ds) h e = ground arith

so-ne : (q : List ℕ) → q ++ codes ".so" ≢ dot_dot
so-ne q e = omega (arith, ap length e, length-append q (codes ".so"))

pub filename_from_zip_path-ne_nil :
    (name : List ℕ) → ends_with name (codes ".so") ≡ true → filename_from_zip_path name ≢ []
unfolding filename_from_zip_path
filename_from_zip_path-ne_nil name h e =
    let (pre, at) = ends_with-append name (codes ".so") h in
    let (q, shape) = after_last-append b'/' (codes ".so") pre pre so-Lacks in
    let f : after_last b'/' name name ≡ q ++ codes ".so" =
      ap (λ (n : List ℕ). after_last b'/' n n) at ∙ shape in
    omega (arith, ap length (sym f ∙ e), length-append q (codes ".so"))

-- The file name of a library's entry.
pub filename_from_zip_path-IsRelative :
    (name : List ℕ) → ends_with name (codes ".so") ≡ true → IsRelative (filename_from_zip_path name)
unfolding filename_from_zip_path
filename_from_zip_path-IsRelative name h =
    let (pre, e) = ends_with-append name (codes ".so") h in
    let (q, shape) = after_last-append b'/' (codes ".so") pre pre so-Lacks in
    let lacks = after_last-Lacks b'/' [] name tt in
    record {
      not_absolute = slash-Lacks b'/' (after_last b'/' name name) lacks refl;
      no_parent =
          rw (Lacks-split b'/' (after_last b'/' name name) lacks)
            ((λ w. so-ne q (sym shape ∙ (rw (← e) w))), tt);
    }
