-- ===== src/Linker/Reloc/Frame.antt =====
-- What `apply_rela` writes: the slots of its entries and nothing else.
use Prim.Native.Nat.{◌≤◌}
use muplar.Base.{ℕ, zero, suc, ◌+◌, ◌*◌, ◌<◌, ◌≡◌, ◌⊎◌, inl, inr, refl, ◌∙◌, arith, List}
use muplar.Base.{Bool, true, false, ◌||◌, ◌==◌, if◌then◌else◌, Option, none, some}
use muplar.Base.Words.{add64}
use muplar.Memory.{Memory, store64}
use muplar.Memory.Laws.{store64_outside, load64-eq}
use muplar.Elf.{Rela, rela_at, r_sym, r_type}
use muplar.Elf.{r_aarch64_abs64, r_aarch64_glob_dat, r_aarch64_jump_slot, r_aarch64_relative}
use muplar.Elf.{r_aarch64_tls_tprel64, r_aarch64_tlsdesc, r_aarch64_irelative}
use muplar.Linker.{Object, Env}
use muplar.Linker.Reloc.{data_value, tls_value, apply_entry, rela_loop, apply_rela}

-- The slot of a relocation; at most 16 bytes of it are written.
abbrev pub slot : Object → Rela → ℕ
slot obj rela = add64 rela.r_offset obj.load_base

abbrev pub Outside : (x a n : ℕ) → Type 0
Outside x a n = (x < a) ⊎ (a + n ≤ x)

-- Memory that holds what `m` holds at `x`.
data Keeps (m : Memory) (x : ℕ) : Memory → Type 0 where
  keeps : {m' : Memory} → m' x ≡ m x → Keeps m x m'

Keeps-if :
    (b : Bool) {m m' m'' : Memory} {x : ℕ}
    → Keeps m x m'
    → Keeps m x m''
    → Keeps m x (if b then m' else m'')
Keeps-if true h k = h
Keeps-if false h k = k

kept_byte : {m m' : Memory} {x : ℕ} → Keeps m x m' → m' x ≡ m x
kept_byte (keeps e) = e

short : {x a : ℕ} → Outside x a 16 → Outside x a 8
short (inl lo) = inl lo
short (inr hi) = inr (omega arith)

later : {x a : ℕ} → Outside x a 16 → Outside x (a + 8) 8
later (inl lo) = inl (omega arith)
later (inr hi) = inr (omega arith)

apply_entry-Keeps :
    (env : Env) (objs : List Object) (obj : Object) (hwcap auxv : ℕ) (rela : Rela) (m : Memory)
    (x : ℕ)
    → Outside x (slot obj rela) 16
    → Keeps m x (apply_entry env objs obj hwcap auxv rela m)
unfolding apply_entry
apply_entry-Keeps env objs obj hwcap auxv rela m x out =
    let type = r_type rela.r_info in
    let value = add64 (tls_value env objs obj (r_sym rela.r_info) m) rela.r_addend in
    let target = add64 obj.load_base rela.r_addend in
    Keeps-if (type == r_aarch64_relative) (word target) (
      Keeps-if
        (type == r_aarch64_glob_dat || type == r_aarch64_jump_slot || type == r_aarch64_abs64)
        (found (data_value env objs obj (r_sym rela.r_info) m))
        (Keeps-if (type == r_aarch64_tls_tprel64) (word value) (
          Keeps-if (type == r_aarch64_tlsdesc) (pair value) (
            Keeps-if (type == r_aarch64_irelative) (word (env.resolver target hwcap auxv))
              (keeps refl)))))
  where
    word : (v : ℕ) → Keeps m x (store64 m (slot obj rela) v)
    word v = keeps (store64_outside m (slot obj rela) v x (short out))

    pair :
        (v : ℕ)
        → Keeps m x
            (store64 (store64 m (slot obj rela) env.tlsdesc_static_resolver) (slot obj rela + 8) v)
    pair v = keeps (
        store64_outside (store64 m (slot obj rela) env.tlsdesc_static_resolver) (slot obj rela + 8)
          v x (later out)
        ∙ store64_outside m (slot obj rela) env.tlsdesc_static_resolver x (short out))

    found :
        (o : Option ℕ)
        → Keeps m x (elim o [
          | none ↦ m
          | some sym_val ↦ store64 m (slot obj rela) (add64 sym_val rela.r_addend)
        ])
    found none = keeps refl
    found (some v) = word (add64 v rela.r_addend)

pub apply_entry-Outside :
    (env : Env) (objs : List Object) (obj : Object) (hwcap auxv : ℕ) (rela : Rela) (m : Memory)
    (x : ℕ)
    → Outside x (slot obj rela) 16
    → apply_entry env objs obj hwcap auxv rela m x ≡ m x
apply_entry-Outside env objs obj hwcap auxv rela m x out =
    kept_byte (apply_entry-Keeps env objs obj hwcap auxv rela m x out)

-- The entry `k` of the table at `rela`.
abbrev pub entry : Memory → (rela k : ℕ) → Rela
entry m rela k = rela_at m (rela + 24 * k)

-- Memory that holds the same table of `count` entries.
abbrev pub SameTable : (m m' : Memory) (rela count : ℕ) → Type 0
SameTable m m' rela count = (x : ℕ) → rela ≤ x → x < rela + 24 * count → m' x ≡ m x

pub entry-SameTable :
    (m m' : Memory) (rela count k : ℕ)
    → SameTable m m' rela count
    → k < count
    → entry m' rela k ≡ entry m rela k
entry-SameTable m m' rela count k same h =
    let e0 = load64-eq m' m (rela + 24 * k) (λ x lo hi. same x (omega arith) (omega arith)) in
    let e1 = load64-eq m' m (rela + 24 * k + 8) (λ x lo hi. same x (omega arith) (omega arith)) in
    let e2 = load64-eq m' m (rela + 24 * k + 16) (λ x lo hi. same x (omega arith) (omega arith)) in
    rw (e0, e1, e2) refl

-- No entry's slot, of `w` bytes, lies in the table itself.
abbrev pub ApartBy : (w : ℕ) → Memory → Object → (rela count : ℕ) → Type 0
ApartBy w m obj rela count =
    (k : ℕ)
    → k < count
    → (slot obj (entry m rela k) + w ≤ rela) ⊎ (rela + 24 * count ≤ slot obj (entry m rela k))

abbrev pub Apart : Memory → Object → (rela count : ℕ) → Type 0
Apart = ApartBy 16

pub table_apart :
    (w a rela n x : ℕ) → (a + w ≤ rela) ⊎ (rela + n ≤ a) → rela ≤ x → x < rela + n → Outside x a w
table_apart w a rela n x (inl h) lo hi = inr (omega arith)
table_apart w a rela n x (inr h) lo hi = inl (omega arith)

-- No entry of the table writes more than `w` bytes of its slot.
module _ (env : Env) (objs : List Object) (obj : Object) (hwcap auxv : ℕ) (m : Memory)
    (rela count w : ℕ) (apart : ApartBy w m obj rela count)
    (within : (k : ℕ) (m' : Memory) (x : ℕ)
      → k < count
      → Outside x (slot obj (entry m rela k)) w
      → apply_entry env objs obj hwcap auxv (entry m rela k) m' x ≡ m' x) where
  -- An entry leaves the table as it was.
  pub step-SameTable :
      (m' : Memory) (i : ℕ)
      → SameTable m m' rela count
      → i < count
      → SameTable m (apply_entry env objs obj hwcap auxv (entry m' rela i) m') rela count
  step-SameTable m' i same h x lo hi =
      let e = entry-SameTable m m' rela count i same h in
      rw e (
        within i m' x h
          (table_apart w (slot obj (entry m rela i)) rela (24 * count) x (apart i h) lo hi)
        ∙ same x lo hi)

  pub rela_loop-Outside :
      (n i : ℕ) (m' : Memory) (x : ℕ)
      → i + n ≤ count
      → SameTable m m' rela count
      → ((k : ℕ) → i ≤ k → k < i + n → Outside x (slot obj (entry m rela k)) w)
      → rela_loop n env objs obj hwcap auxv rela i m' x ≡ m' x
  unfolding rela_loop
  rela_loop-Outside zero i m' x h same out = refl
  rela_loop-Outside (suc n) i m' x h same out =
      let e = entry-SameTable m m' rela count i same (omega arith) in
      rela_loop-Outside n (i + 1) (apply_entry env objs obj hwcap auxv (entry m' rela i) m') x
        (omega arith) (step-SameTable m' i same (omega arith))
        (λ k lo hi. out k (omega arith) (omega arith))
      ∙ rw e (within i m' x (omega arith) (out i (omega arith) (omega arith)))

-- `apply_rela` on a table that none of its own slots overlaps changes no byte outside the 16 bytes
-- from each entry's slot on.
pub apply_rela_frame :
    (env : Env) (objs : List Object) (obj : Object) (hwcap auxv rela count : ℕ) (m : Memory) (x : ℕ)
    → Apart m obj rela count
    → ((k : ℕ) → k < count → Outside x (slot obj (entry m rela k)) 16)
    → apply_rela env objs obj hwcap auxv rela count m x ≡ m x
unfolding apply_rela
apply_rela_frame env objs obj hwcap auxv rela count m x apart out =
    rela_loop-Outside env objs obj hwcap auxv m rela count 16 apart
      (λ k m' y lt o. apply_entry-Outside env objs obj hwcap auxv (entry m rela k) m' y o) count 0 m
      x (omega arith) (λ y lo hi. refl) (λ k lo hi. out k (omega arith))
