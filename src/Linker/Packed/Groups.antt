-- ===== src/Linker/Packed/Groups.antt =====
-- Groups of packed relocations: their bytes as an encoder lays them down, and the relocations that they
-- stand for.
use muplar.Base.{ℕ, ◌+◌, ◌*◌, ◌-◌, ◌^◌, ◌<◌, ◌≡◌, refl, ap, ◌∙◌, arith, List, [], ◌∷◌, ◌++◌}
use muplar.Base.{Bool, not, ◌&&◌}
use muplar.Base.{true, false, ltb, if◌then◌else◌, length, All, Bool-cases, inl, inr, ltb→lt}
use muplar.Base.Int.{ℤ, pos, negsuc}
use muplar.Base.Words.{add64, IsU64}
use muplar.Elf.{Rela}
use muplar.Linker.{ok}
use muplar.Linker.Packed.{
  pop_if, grouped_by_info, grouped_by_offset_delta, grouped_by_addend, has_addend,
}
use muplar.Linker.Packed.{pop_front}
use muplar.Linker.Packed.Sleb.{encode, pop_front-encode}

-- The signed integer of a 64-bit pattern, and its bytes.
pub signed64 : ℕ → ℤ
signed64 v = if ltb v (2 ^ 63) then pos v else negsuc (2 ^ 64 - 1 - v)

unfoldable pub put : ℕ → List ℕ
unfolding signed64
put v = encode (signed64 v)

pub pop_front-put : (v : ℕ) (rest : List ℕ) → IsU64 v → pop_front (put v ++ rest) ≡ ok (v, rest)
unfolding put signed64
pop_front-put v rest h = elim (Bool-cases (ltb v (2 ^ 63))) [
  | inl low ↦ rw low (pop_front-encode (pos v) rest (ltb→lt v (2 ^ 63) low))
  | inr high ↦
      let back : 2 ^ 64 - 1 - (2 ^ 64 - 1 - v) ≡ v = omega arith in
      rw high (
        pop_front-encode (negsuc (2 ^ 64 - 1 - v)) rest (ground arith)
        ∙ ap (λ (t : ℕ). ok (t, rest)) back)
]

-- A number that is there only if the test holds.
abbrev pub put_if : Bool → ℕ → List ℕ → List ℕ
put_if test v rest = if test then put v ++ rest else rest

pub pop_if-put :
    (test : Bool) (old v : ℕ) (rest : List ℕ)
    → IsU64 v
    → pop_if test old (put_if test v rest) ≡ ok (if test then v else old, rest)
pop_if-put true old v rest h = pop_front-put v rest h
pop_if-put false old v rest h = refl

-- What the table holds of one relocation: the step of its offset, its info and the change of its
-- addend.
pub record Entry : Type 0 where
  pub step : ℕ
  pub info : ℕ
  pub change : ℕ

-- A group, of which the step of the offsets, the info or the change of the addend can be shared, and
-- which can have addends or not.
pub record Group : Type 0 where
  pub by_info : Bool
  pub by_offset : Bool
  pub by_addend : Bool
  pub with_addend : Bool
  pub step : ℕ
  pub info : ℕ
  pub change : ℕ
  pub entries : List Entry

abbrev pub bit : Bool → ℕ
bit true = 1
bit false = 0

-- Bit 0 tells a shared info, bit 1 a shared step, bit 2 a shared addend and bit 3 addends.
abbrev pub flags : (by_info by_offset by_addend with_addend : Bool) → ℕ
flags i o a w = bit i + 2 * bit o + 4 * bit a + 8 * bit w

abbrev pub flags_of : Group → ℕ
flags_of g = flags g.by_info g.by_offset g.by_addend g.with_addend

unfoldable pub entries_bytes : Group → List Entry → (rest : List ℕ) → List ℕ
entries_bytes g [] rest = rest
entries_bytes g (e ∷ es) rest = put_if (not g.by_offset) e.step (
    put_if (not g.by_info) e.info
      (put_if (g.with_addend && not g.by_addend) e.change (entries_bytes g es rest)))

-- What the entries share.
abbrev pub head_bytes : Group → (rest : List ℕ) → List ℕ
head_bytes g rest = put_if g.by_offset g.step (
    put_if g.by_info g.info
      (put_if (g.with_addend && g.by_addend) g.change (entries_bytes g g.entries rest)))

unfoldable pub group_bytes : Group → (rest : List ℕ) → List ℕ
group_bytes g rest = put (length g.entries) ++ (put (flags_of g) ++ head_bytes g rest)

unfoldable pub groups_bytes : List Group → List ℕ
groups_bytes [] = []
groups_bytes (g ∷ gs) = group_bytes g (groups_bytes gs)

abbrev pub total : List Group → ℕ
total [] = 0
total (g ∷ gs) = length g.entries + total gs

-- The packed table: its signature, the number of relocations, the first offset and the groups.
unfoldable pub pack : (r_offset : ℕ) → List Group → List ℕ
pack r_offset gs = b'A' ∷ b'P' ∷ b'S' ∷ b'2' ∷ (put (total gs) ++ (put r_offset ++ groups_bytes gs))

-- The relocation of an entry, behind the relocation `r`.
abbrev pub rela_of : Group → Entry → (r : Rela) → Rela
rela_of g e r = record {
  r_offset =
      add64 r.r_offset (if not g.by_offset then e.step else if g.by_offset then g.step else 0);
  r_info = if not g.by_info then e.info else r.r_info;
  r_addend = add64 r.r_addend (if g.with_addend && not g.by_addend then e.change else 0);
}

-- What a group begins with, behind the relocation `r`.
abbrev pub begin : Group → (r : Rela) → Rela
begin g r = record {
  r_offset = r.r_offset;
  r_info = if g.by_info then g.info else r.r_info;
  r_addend =
      if g.with_addend
      then add64 r.r_addend (if g.with_addend && g.by_addend then g.change else 0)
      else 0;
}

unfoldable pub relas_of : Group → (r : Rela) → List Entry → List Rela
relas_of g r [] = []
relas_of g r (e ∷ es) = rela_of g e r ∷ relas_of g (rela_of g e r) es

abbrev pub last_of : Rela → List Rela → Rela
last_of r [] = r
last_of r (x ∷ xs) = last_of x xs

-- The relocations of the groups, behind the relocation `r`.
unfoldable pub relas : (r : Rela) → List Group → List Rela
relas r [] = []
relas r (g ∷ gs) =
    let here = relas_of g (begin g r) g.entries in here ++ relas (last_of (begin g r) here) gs

abbrev pub first_rela : (r_offset : ℕ) → Rela
first_rela r_offset = record { r_offset = r_offset; r_info = 0; r_addend = 0 }

-- Numbers of 64 bits, and at least one entry.
pub record IsEntry (e : Entry) : Type 0 where
  pub step : IsU64 e.step
  pub info : IsU64 e.info
  pub change : IsU64 e.change

pub record IsGroup (g : Group) : Type 0 where
  pub step : IsU64 g.step
  pub info : IsU64 g.info
  pub change : IsU64 g.change
  pub entries : All IsEntry g.entries
  pub ne_nil : 0 < length g.entries

pub flag_bits :
    (i o a w : Bool)
    → (grouped_by_info (flags i o a w) ≡ i)
      × (grouped_by_offset_delta (flags i o a w) ≡ o)
      × (grouped_by_addend (flags i o a w) ≡ a)
      × (has_addend (flags i o a w) ≡ w)
flag_bits true true true true = (refl, refl, refl, refl)
flag_bits true true true false = (refl, refl, refl, refl)
flag_bits true true false true = (refl, refl, refl, refl)
flag_bits true true false false = (refl, refl, refl, refl)
flag_bits true false true true = (refl, refl, refl, refl)
flag_bits true false true false = (refl, refl, refl, refl)
flag_bits true false false true = (refl, refl, refl, refl)
flag_bits true false false false = (refl, refl, refl, refl)
flag_bits false true true true = (refl, refl, refl, refl)
flag_bits false true true false = (refl, refl, refl, refl)
flag_bits false true false true = (refl, refl, refl, refl)
flag_bits false true false false = (refl, refl, refl, refl)
flag_bits false false true true = (refl, refl, refl, refl)
flag_bits false false true false = (refl, refl, refl, refl)
flag_bits false false false true = (refl, refl, refl, refl)
flag_bits false false false false = (refl, refl, refl, refl)
