-- ===== src/Cstring/Copy.antt =====
-- What the helpers that copy and cut strings do to memory: `lnk_strcpy`, `lnk_strcat`,
-- `lnk_memset` and `lnk_basename`.
use Prim.Native.Nat.{◌≤◌}
use mathlib.Core.Path.{subst}
use muplar.Base.{ℕ, zero, suc, ◌+◌, ◌<◌, ◌%◌, ◌≡◌, ◌≢◌, inl, refl, ◌∙◌, arith}
use muplar.Base.{Option, ◌⊎◌, inr, true, false, List, [], ◌∷◌, ◌++◌, some, ◌&&◌, ◌==◌, length, All}
use muplar.Base.{if◌then◌else◌, leb, ltb}
use muplar.Memory.{Memory, store}
use muplar.Memory.Laws.{store_outside}
use muplar.Cstring.{IsCstring, strcpy, strcat, memset, basename_loop, basename}
use muplar.Cstring.Laws.{strlen-length}

IsCstring-eq :
    (m m' : Memory) (p : ℕ) (cs : List ℕ)
    → ((x : ℕ) → p ≤ x → x ≤ p + length cs → m' x ≡ m x)
    → IsCstring m p cs
    → IsCstring m' p cs
IsCstring-eq m m' p [] same h = same p (omega arith) (omega arith) ∙ h
IsCstring-eq m m' p (c ∷ cs) same h = (
  same p (omega arith) (omega arith) ∙ h.0,
  h.1,
  IsCstring-eq m m' (p + 1) cs (λ x lo hi. same x (omega arith) (omega arith)) h.2,
)

-- The bytes of the copy do not reach into the string that is copied.
abbrev pub Clear : (d s n : ℕ) → Type 0
Clear d s n = (s + n < d) ⊎ (d + n < s)

-- A copy that ended: the string stands at the destination, and no other byte changed.
pub record Copied (m : Memory) (d : ℕ) (cs : List ℕ) (r : Option Memory) : Type 0 where
  pub mem : Memory
  pub ends : r ≡ some mem
  pub stands : IsCstring mem d cs
  pub same : (x : ℕ) → (x < d) ⊎ (d + length cs < x) → mem x ≡ m x

store_one : (m : Memory) (d v : ℕ) → store m d (v ∷ []) d ≡ v
unfolding store
store_one m d v = ground arith

store_other : (m : Memory) (d v x : ℕ) → (x < d) ⊎ (d < x) → store m d (v ∷ []) x ≡ m x
store_other m d v x (inl h) = store_outside m d (v ∷ []) x (inl h)
store_other m d v x (inr h) = store_outside m d (v ∷ []) x (inr (omega arith))

later_place :
    {d s x : ℕ} (n : ℕ) → Clear d s (suc n) → s + 1 ≤ x → x ≤ s + 1 + n → (x < d) ⊎ (d < x)
later_place n (inl h) lo hi = inl (omega arith)
later_place n (inr h) lo hi = inr (omega arith)

later-Clear : {d s : ℕ} (n : ℕ) → Clear d s (suc n) → Clear (d + 1) (s + 1) n
later-Clear n (inl h) = inl (omega arith)
later-Clear n (inr h) = inr (omega arith)

outside_later :
    {d x : ℕ} (n : ℕ)
    → (x < d) ⊎ (d + suc n < x)
    → ((x < d + 1) ⊎ (d + 1 + n < x)) × ((x < d) ⊎ (d < x))
outside_later n (inl h) = (inl (omega arith), inl h)
outside_later n (inr h) = (inr (omega arith), inr (omega arith))

outside_here : {d x : ℕ} → (x < d) ⊎ (d + 0 < x) → (x < d) ⊎ (d < x)
outside_here (inl h) = inl h
outside_here (inr h) = inr (omega arith)

-- `lnk_strcpy` ends, given more rounds than the string has bytes and a destination clear of it.
pub strcpy-Copied :
    (limit : ℕ) (m : Memory) (d s : ℕ) (cs : List ℕ)
    → IsCstring m s cs
    → length cs < limit
    → Clear d s (length cs)
    → Copied m d cs (strcpy limit m d s)
unfolding strcpy
strcpy-Copied zero m d s cs h f clear = absurd (omega arith)
strcpy-Copied (suc limit) m d s [] h f clear =
    let m' = store m d (m s ∷ []) in
    let end : (m s == 0) ≡ true = ground arith in
    record {
      mem = m';
      ends = rw end refl;
      stands = store_one m d (m s) ∙ h;
      same = λ x out. store_other m d (m s) x (outside_here out);
    }
strcpy-Copied (suc limit) m d s (c ∷ cs) (here, n, t) f clear =
    let m' = store m d (m s ∷ []) in
    let more : (m s == 0) ≡ false = ground arith in
    let source =
      IsCstring-eq m m' (s + 1) cs
        (λ x lo hi. store_other m d (m s) x (later_place (length cs) clear lo hi)) t in
    let rest =
      strcpy-Copied limit m' (d + 1) (s + 1) cs source (omega arith)
        (later-Clear (length cs) clear) in
    record {
      mem = rest.mem;
      ends = rw more rest.ends;
      stands = (rest.same d (inl (omega arith)) ∙ store_one m d (m s) ∙ here, n, rest.stands);
      same = λ x out.
          let o = outside_later (length cs) out in rest.same x o.0 ∙ store_other m d (m s) x o.1;
    }

-- The bytes before the copy stay, so the two strings join.
IsCstring-append :
    (m m' : Memory) (d : ℕ) (a s : List ℕ)
    → IsCstring m d a
    → ((x : ℕ) → x < d + length a → m' x ≡ m x)
    → IsCstring m' (d + length a) s
    → IsCstring m' d (a ++ s)
IsCstring-append m m' d [] s h same t = subst (λ (p : ℕ). IsCstring m' p s) (omega arith) t
IsCstring-append m m' d (c ∷ a) s h same t = (
  same d (omega arith) ∙ h.0,
  h.1,
  IsCstring-append m m' (d + 1) a s h.2 (λ x lt. same x (omega arith))
      (subst (λ (p : ℕ). IsCstring m' p s) (omega arith) t),
)

-- `lnk_strcat` of a string in memory to another one ends, given more rounds than each of them has
-- bytes, if the bytes behind the first one up to the end of the copy are clear of the second. The
-- string at the destination is then the old one followed by the second, and no byte before the end of
-- the old string or behind the copy's end has changed.
pub strcat-append :
    (limit : ℕ) (m : Memory) (d s : ℕ) (old added : List ℕ)
    → IsCstring m d old
    → IsCstring m s added
    → length old < limit
    → length added < limit
    → Clear (d + length old) s (length added)
    → (m' : Memory) × (strcat limit m d s ≡ some m')
      × IsCstring m' d (old ++ added)
      × ((x : ℕ) → (x < d + length old) ⊎ (d + length old + length added < x) → m' x ≡ m x)
unfolding strcat
strcat-append limit m d s old added h k f g clear =
    let c = strcpy-Copied limit m (d + length old) s added k g clear in
    (
      c.mem,
      rw (strlen-length limit m d old h f, strcat) c.ends,
      IsCstring-append m c.mem d old added h (λ x lt. c.same x (inl lt)) c.stands,
      c.same,
    )

-- `lnk_memset` writes the byte to the `n` addresses from `s` on, and nowhere else.
pub memset_lem :
    (m : Memory) (s c n x : ℕ)
    → memset m s c n x ≡ (if leb s x && ltb x (s + n) then c % 256 else m x)
unfolding memset store
memset_lem m s c zero x = ground arith
memset_lem m s c (suc n) x = ground (arith, memset_lem (store m s ((c % 256) ∷ [])) (s + 1) c n x)

abbrev pub NoSlash : List ℕ → Type 0
NoSlash = All (λ c. c ≢ b'/')

basename_loop-NoSlash : (slash base : List ℕ) → NoSlash base → basename_loop slash base ≡ slash
unfolding basename_loop
basename_loop-NoSlash slash [] h = refl
basename_loop-NoSlash slash (c ∷ base) h = ground (arith, basename_loop-NoSlash slash base h.1)

basename_loop-slash :
    (slash dir base : List ℕ) → NoSlash base → basename_loop slash (dir ++ b'/' ∷ base) ≡ base
unfolding basename_loop
basename_loop-slash slash [] base h = basename_loop-NoSlash base base h
basename_loop-slash slash (c ∷ dir) base h =
    basename_loop-slash (if c == b'/' then dir ++ b'/' ∷ base else slash) dir base h

-- The name of a path is what follows its last '/', and the whole path where it has none.
pub basename_lem :
    (dir base : List ℕ)
    → NoSlash base
    → (basename (dir ++ b'/' ∷ base) ≡ base) × (basename base ≡ base)
unfolding basename
basename_lem dir base h =
    (basename_loop-slash (dir ++ b'/' ∷ base) dir base h, basename_loop-NoSlash base base h)
