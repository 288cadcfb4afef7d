-- ===== src/Linker/Packed/Table.antt =====
-- Unpacking a relocation table always ends, and visits the relocations one after the other.
use Prim.Native.Nat.{◌≤◌}
use muplar.Base.{ℕ, zero, suc, ◌<◌, ◌≡◌, refl, arith, List, [], ◌∷◌}
use muplar.Base.{
  Bool, true, false, ◌&&◌, ◌||◌, not, ltb, ◌==◌, if◌then◌else◌, length, length-drop, drop, get_or,
}
use muplar.Base.{Bool-cases, ◌⊎◌, inl, inr}
use muplar.Base.Words.{add64}
use muplar.Memory.{Memory, load}
use muplar.Memory.Laws.{length-load}
use muplar.Elf.{Rela}
use muplar.Linker.{Object, Env, Fatal, invalid_signature, Result, ok, fatal, ◌>>=◌}
use muplar.Linker.Reloc.{apply_entry}
use muplar.Linker.Packed.{sleb_loop, pop_front, Unpack, pop_if, unpack_entry, group_loop}
use muplar.Linker.Packed.{
  unpack_group, groups_loop, unpack, continues, apply_android_rela, last_bytes,
}
use muplar.Linker.Packed.{grouped_by_info, grouped_by_offset_delta, grouped_by_addend, has_addend}

-- The run ends, and its result has at most `n` bytes left.
pub data Within {A : Type 0} (left : A → ℕ) (n : ℕ) : Result A → Type 0 where
  done : {a : A} → left a ≤ n → Within left n (ok a)
  ended : {e : Fatal} → Within left n (fatal e)

Within-bind :
    {A B : Type 0} {left : A → ℕ} {n : ℕ} {left' : B → ℕ} {n' : ℕ} {r : Result A} {f : A → Result B}
    → Within left n r
    → ((a : A) → left a ≤ n → Within left' n' (f a))
    → Within left' n' (r >>= f)
Within-bind (done h) next = next _ h
Within-bind ended next = ended

abbrev bytes_left : ℕ × List ℕ → ℕ
bytes_left p = length p.1

sleb_loop-Within :
    (bytes : List ℕ) (value shift n : ℕ)
    → length bytes ≤ suc n
    → Within bytes_left n (sleb_loop bytes value shift)
unfolding sleb_loop
sleb_loop-Within [] value shift n h = ended
sleb_loop-Within (byte ∷ rest) value shift n h = elim (Bool-cases (continues byte)) [
  | inl more ↦ rw more (longer n rest _ (omega arith) (λ m le. sleb_loop-Within rest _ _ m le))
  | inr last ↦ rw last (done (omega arith))
]
  where
    longer :
        (n : ℕ) (rest : List ℕ) (r : Result (ℕ × List ℕ))
        → length rest ≤ n
        → ((m : ℕ) → length rest ≤ suc m → Within bytes_left m r)
        → Within bytes_left n r
    longer zero rest r le w = w zero (omega arith)
    longer (suc n) rest r le w = w (suc n) (omega arith)

-- A number takes a byte at least, or the decoder runs out with the message.
pub pop_front-Within :
    (bytes : List ℕ) (n : ℕ) → length bytes ≤ suc n → Within bytes_left n (pop_front bytes)
unfolding pop_front
pop_front-Within bytes n h = sleb_loop-Within bytes 0 0 n h

-- With no byte left nothing is read.
pop_front_empty :
    (bytes : List ℕ) → length bytes ≤ 0 → Within (λ (p : ℕ × List ℕ). 1) 0 (pop_front bytes)
unfolding pop_front sleb_loop
pop_front_empty [] h = ended
pop_front_empty (b ∷ bs) h = absurd (omega arith)

pop_if-Within :
    (test : Bool) (old : ℕ) (dec : List ℕ) (n : ℕ)
    → length dec ≤ n
    → Within bytes_left n (pop_if test old dec)
pop_if-Within true old dec n h = pop_front-Within dec n (omega arith)
pop_if-Within false old dec n h = done h

module _ {S : Type 0} (visit : Rela → S → S) (reread : S → List ℕ → List ℕ)
    (same_length : (s : S) (dec : List ℕ) → length (reread s dec) ≡ length dec) where
  abbrev table_left : Unpack S → ℕ
  table_left u = length u.dec

  unpack_entry-Within :
      (flags delta : ℕ) (u : Unpack S) (n : ℕ)
      → length u.dec ≤ n
      → Within table_left n (unpack_entry visit reread flags delta u)
  unfolding unpack_entry
  unpack_entry-Within flags delta u n h =
      Within-bind (pop_if-Within (not (grouped_by_offset_delta flags)) delta u.dec n h) λ a ha.
        Within-bind (pop_if-Within (not (grouped_by_info flags)) u.r_info a.1 n ha) λ b hb.
          Within-bind (pop_if-Within (has_addend flags && not (grouped_by_addend flags)) 0 b.1 n hb)
            λ c hc. done (omega (arith, hc, same_length _ c.1))

  group_loop-Within :
      (k flags delta : ℕ) (u : Unpack S) (n : ℕ)
      → length u.dec ≤ n
      → Within table_left n (group_loop visit reread k flags delta u)
  unfolding group_loop
  group_loop-Within zero flags delta u n h = done h
  group_loop-Within (suc k) flags delta u n h =
      Within-bind (unpack_entry-Within flags delta u n h)
        λ u' h'. group_loop-Within k flags delta u' n h'

  -- A group takes a byte at least.
  unpack_group-Within :
      (u : Unpack S) (n : ℕ)
      → length u.dec ≤ suc n
      → Within (λ (g : ℕ × Unpack S). length g.1.dec) n (unpack_group visit reread u)
  unfolding unpack_group
  unpack_group-Within u n h = Within-bind (pop_front-Within u.dec n h) λ a ha.
      Within-bind (pop_front-Within a.1 n (omega arith)) λ b hb.
        Within-bind (pop_if-Within (grouped_by_offset_delta b.0) 0 b.1 n hb) λ c hc.
          Within-bind (pop_if-Within (grouped_by_info b.0) u.r_info c.1 n hc) λ d hd.
            Within-bind (pop_if-Within (has_addend b.0 && grouped_by_addend b.0) 0 d.1 n hd)
              λ e he. Within-bind (group_loop-Within a.0 b.0 c.0 _ n he) λ u' h'. done h'

  unpack_group_empty :
      (u : Unpack S)
      → length u.dec ≤ 0
      → Within (λ (g : ℕ × Unpack S). 1) 0 (unpack_group visit reread u)
  unfolding unpack_group
  unpack_group_empty u h = Within-bind (pop_front_empty u.dec h) λ a ha. absurd (omega arith)

  groups_loop-Within :
      (fuel num_relocs idx : ℕ) (u : Unpack S)
      → length u.dec < fuel
      → Within (λ (s : S). 0) 0 (groups_loop visit reread fuel num_relocs idx u)
  unfolding groups_loop
  groups_loop-Within zero num_relocs idx u h = absurd (omega arith)
  groups_loop-Within (suc zero) num_relocs idx u h =
      let next =
        λ (g : ℕ × Unpack S). groups_loop visit reread zero num_relocs (add64 idx g.0) g.1 in
      elim (ltb idx num_relocs)
        as (λ b.
          Within (λ (s : S). 0) 0
            (elim b [ false ↦ ok u.acc | true ↦ unpack_group visit reread u >>= next ])) [
              | true ↦ Within-bind (unpack_group_empty u (omega arith)) λ g hg. absurd (omega arith)
              | false ↦ done (omega arith)
            ]
  groups_loop-Within (suc (suc fuel)) num_relocs idx u h =
      let next =
        λ (g : ℕ × Unpack S). groups_loop visit reread (suc fuel) num_relocs (add64 idx g.0) g.1 in
      elim (ltb idx num_relocs)
        as (λ b.
          Within (λ (s : S). 0) 0
            (elim b [ false ↦ ok u.acc | true ↦ unpack_group visit reread u >>= next ])) [
              | true ↦
                  Within-bind (unpack_group-Within u fuel (omega arith)) λ g hg.
                    groups_loop-Within (suc fuel) num_relocs (add64 idx g.0) g.1 (omega arith)
              | false ↦ done (omega arith)
            ]

  unpack-Within : (packed : List ℕ) (s : S) → Within (λ (s : S). 0) 0 (unpack visit reread packed s)
  unfolding unpack
  unpack-Within packed s = elim (Bool-cases (ltb (length packed) 4)) [
    | inl short ↦ rw (short, unpack) (done (omega arith))
    | inr long ↦
        rw (long, unpack)
          (signed (
            not (get_or packed 0 0 == b'A')
            || not (get_or packed 1 0 == b'P')
            || not (get_or packed 2 0 == b'S')
            || not (get_or packed 3 0 == b'2')))
  ]
    where
      signed :
          (bad : Bool)
          → Within
              (λ (s : S). 0)
              0
              (if bad then fatal invalid_signature else (do
                (num_relocs, dec) ← pop_front (drop 4 packed)
                (r_offset, dec) ← pop_front dec
                groups_loop visit reread
                    (suc (length packed))
                    num_relocs
                    0
                    (record { dec = dec; r_offset = r_offset; r_info = 0; r_addend = 0; acc = s })))
      signed true = ended
      signed false =
          Within-bind
            (pop_front-Within (drop 4 packed) (length packed) (omega (arith, length-drop 4 packed)))
            λ a ha.
              Within-bind (pop_front-Within a.1 (length packed) (omega arith))
                λ b hb. groups_loop-Within (suc (length packed)) a.0 0 _ (omega arith)

-- `apply_android_rela` ends on every table: it relocates or stops with a message, and neither runs
-- out of rounds nor leaves the table.
pub apply_android_rela-ends :
    (env : Env) (objs : List Object) (obj : Object) (hwcap auxv table size : ℕ) (m : Memory)
    → ((m' : Memory) × (apply_android_rela env objs obj hwcap auxv table size m ≡ ok m'))
      ⊎ ((e : Fatal) × (apply_android_rela env objs obj hwcap auxv table size m ≡ fatal e))
unfolding apply_android_rela
apply_android_rela-ends env objs obj hwcap auxv table size m = outcome (
    unpack-Within (apply_entry env objs obj hwcap auxv) (last_bytes table size)
      (λ m' dec. length-load m' _ (length dec)) (load m table size) m)
  where
    outcome :
        {r : Result Memory}
        → Within (λ (s : Memory). 0) 0 r
        → ((m' : Memory) × (r ≡ ok m')) ⊎ ((e : Fatal) × (r ≡ fatal e))
    outcome (done {a} h) = inl (a, refl)
    outcome (ended {e}) = inr (e, refl)
