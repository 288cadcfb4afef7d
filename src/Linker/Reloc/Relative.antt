-- ===== src/Linker/Reloc/Relative.antt =====
-- `apply_rela` on a table of relative relocations.
use Prim.Native.Nat.{◌≤◌}
use muplar.Base.{ℕ, zero, suc, ◌+◌, ◌<◌, ◌≡◌, ◌⊎◌, inl, inr, refl, ◌∙◌, arith, List}
use muplar.Base.{true, ◌==◌, Bool-cases}
use mathlib.Core.Path.{subst}
use muplar.Base.Words.{add64, add64-lt}
use muplar.Memory.{Memory, load64}
use muplar.Memory.Laws.{load64-store64, load64-eq, store64_outside}
use muplar.Elf.{Rela, r_type, r_aarch64_relative}
use muplar.Linker.{Object, Env}
use muplar.Linker.Reloc.{apply_entry, rela_loop, apply_rela}
use muplar.Linker.Reloc.Frame.{
  slot, entry, Outside, ApartBy, SameTable, entry-SameTable, step-SameTable, rela_loop-Outside,
}

relative_entry :
    (env : Env) (objs : List Object) (obj : Object) (hwcap auxv : ℕ) (rela : Rela) (m : Memory)
    → r_type rela.r_info ≡ r_aarch64_relative
    → load64 (apply_entry env objs obj hwcap auxv rela m) (slot obj rela)
      ≡ add64 obj.load_base rela.r_addend
unfolding apply_entry
relative_entry env objs obj hwcap auxv rela m e =
    let hit : (r_type rela.r_info == r_aarch64_relative) ≡ true = ground arith in
    rw (hit, apply_entry)
      (load64-store64 m (slot obj rela) (add64 obj.load_base rela.r_addend)
        (add64-lt obj.load_base rela.r_addend))

apart_bytes : {x a b : ℕ} → (a + 8 ≤ b) ⊎ (b + 8 ≤ a) → a ≤ x → x < a + 8 → Outside x b 8
apart_bytes (inl h) lo hi = inl (omega arith)
apart_bytes (inr h) lo hi = inr (omega arith)

-- Every entry of the table is relative, and no two of the slots, of 8 bytes, overlap.
pub record IsRelative (m : Memory) (obj : Object) (rela count : ℕ) : Type 0 where
  pub relative : (k : ℕ) → k < count → r_type (entry m rela k).r_info ≡ r_aarch64_relative
  pub separate :
      (j k : ℕ)
      → j < k
      → k < count
      → (slot obj (entry m rela j) + 8 ≤ slot obj (entry m rela k))
        ⊎ (slot obj (entry m rela k) + 8 ≤ slot obj (entry m rela j))

module _ (env : Env) (objs : List Object) (obj : Object) (hwcap auxv : ℕ) (m : Memory)
    (rela count : ℕ) (apart : ApartBy 8 m obj rela count) (h : IsRelative m obj rela count) where
  -- A relative relocation writes the 8 bytes of its slot.
  relative_within :
      (k : ℕ) (m' : Memory) (x : ℕ)
      → k < count
      → Outside x (slot obj (entry m rela k)) 8
      → apply_entry env objs obj hwcap auxv (entry m rela k) m' x ≡ m' x
  unfolding apply_entry
  relative_within k m' x lt out =
      let r = entry m rela k in
      let type = h.relative k lt in
      let hit : (r_type r.r_info == r_aarch64_relative) ≡ true = ground arith in
      rw (hit, apply_entry) (store64_outside m' (slot obj r) (add64 obj.load_base r.r_addend) x out)

  rela_loop_relative :
      (n i : ℕ) (m' : Memory) (k : ℕ)
      → i + n ≤ count
      → SameTable m m' rela count
      → i ≤ k
      → k < i + n
      → load64 (rela_loop n env objs obj hwcap auxv rela i m') (slot obj (entry m rela k))
        ≡ add64 obj.load_base (entry m rela k).r_addend
  unfolding rela_loop
  rela_loop_relative zero i m' k le same lo hi = absurd (omega arith)
  rela_loop_relative (suc n) i m' k le same lo hi = elim (Bool-cases (i == k)) [
    | inl here ↦
        let at : i ≡ k = ground arith in
        subst
          (λ (k : ℕ).
            load64 (rela_loop n env objs obj hwcap auxv rela (i + 1) next)
              (slot obj (entry m rela k))
            ≡ add64 obj.load_base (entry m rela k).r_addend)
          at
          (load64-eq _ next (slot obj (entry m rela i)) (λ x a b.
              rela_loop-Outside env objs obj hwcap auxv m rela count 8 apart relative_within n
                (i + 1) next x (omega arith) kept
                (λ j p q. apart_bytes (h.separate i j (omega arith) (omega arith)) a b))
            ∙ written)
    | inr beyond ↦
        let past : i + 1 ≤ k = ground arith in
        rela_loop_relative n (i + 1) next k (omega arith) kept past (omega arith)
  ]
    where
      next : Memory
      next = apply_entry env objs obj hwcap auxv (entry m' rela i) m'

      kept : SameTable m next rela count
      kept =
          step-SameTable env objs obj hwcap auxv m rela count 8 apart relative_within m' i same
            (omega arith)

      written :
          load64 next (slot obj (entry m rela i)) ≡ add64 obj.load_base (entry m rela i).r_addend
      written =
          let e = entry-SameTable m m' rela count i same (omega arith) in
          rw e (
            relative_entry env objs obj hwcap auxv (entry m rela i) m' (h.relative i (omega arith)))

-- After `apply_rela` on a table of relative relocations, whose slots of 8 bytes overlap neither the
-- table nor each other, the word at the slot of every entry is the load base plus the entry's addend.
pub apply_rela_relative :
    (env : Env) (objs : List Object) (obj : Object) (hwcap auxv rela count : ℕ) (m : Memory) (k : ℕ)
    → ApartBy 8 m obj rela count
    → IsRelative m obj rela count
    → k < count
    → load64 (apply_rela env objs obj hwcap auxv rela count m) (slot obj (entry m rela k))
      ≡ add64 obj.load_base (entry m rela k).r_addend
unfolding apply_rela
apply_rela_relative env objs obj hwcap auxv rela count m k apart h lt =
    rela_loop_relative env objs obj hwcap auxv m rela count apart h count 0 m k (omega arith)
      (λ x lo hi. refl) (omega arith) (omega arith)
