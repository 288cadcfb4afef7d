-- ===== src/Linker/Packed/RoundTrip.antt =====
-- Unpacking the packed form of groups of relocations applies the relocations that they stand for.
use mathlib.Core.List.{append_assoc}
use muplar.Base.{ℕ, suc, ◌+◌, ◌-◌, ◌<◌, ◌≡◌, refl, sym, ap, ◌∙◌, arith, List, [], ◌∷◌, ◌++◌}
use muplar.Base.{Bool, not, ◌&&◌}
use muplar.Base.{true, false, ltb, if◌then◌else◌, length, All}
use muplar.Base.Words.{add64, IsU64}
use Prim.Native.Nat.{◌≤◌}
use muplar.Base.{zero, ◌⊎◌, drop, length-append}
use muplar.Memory.{Memory, load}
use muplar.Memory.Laws.{length-load, load-eq}
use muplar.Linker.Reloc.Frame.{slot, apply_entry-Outside, table_apart}
use muplar.Elf.{Rela}
use muplar.Linker.{Object, Env, ok}
use muplar.Linker.Reloc.{apply_entry}
use muplar.Linker.Packed.{Unpack, unpack_entry, group_loop, unpack_group, groups_loop}
use muplar.Linker.Packed.{unpack, apply_android_rela, last_bytes}
use muplar.Linker.Packed.Sleb.{length-encode}
use muplar.Linker.Packed.Groups.{
  signed64, put, pop_front-put, put_if, pop_if-put, Entry, Group, bit, flags, flags_of,
  entries_bytes, head_bytes, group_bytes, groups_bytes, total, pack, rela_of, begin, relas_of,
  last_of, relas, first_rela, IsEntry, IsGroup, flag_bits,
}

-- What a visit of each relocation, in order, makes of `s`.
unfoldable pub visit_all : {S : Type 0} → (Rela → S → S) → List Rela → S → S
visit_all visit [] s = s
visit_all visit (r ∷ rs) s = visit_all visit rs (visit r s)

visit_all-append :
    {S : Type 0} (visit : Rela → S → S) (xs ys : List Rela) (s : S)
    → visit_all visit (xs ++ ys) s ≡ visit_all visit ys (visit_all visit xs s)
unfolding visit_all
visit_all-append visit [] ys s = refl
visit_all-append visit (x ∷ xs) ys s = visit_all-append visit xs ys (visit x s)

-- `d` stands at the end of the table.
abbrev IsEnd : (packed d : List ℕ) → Type 0
IsEnd packed d = (before : List ℕ) × (packed ≡ before ++ d)

IsEnd-rest : (packed a d : List ℕ) → IsEnd packed (a ++ d) → IsEnd packed d
IsEnd-rest packed a d (before, e) = (before ++ a, e ∙ sym (append_assoc before a d))

IsEnd-put_if :
    (packed : List ℕ) (test : Bool) (v : ℕ) (d : List ℕ)
    → IsEnd packed (put_if test v d)
    → IsEnd packed d
IsEnd-put_if packed true v d e = IsEnd-rest packed (put v) d e
IsEnd-put_if packed false v d e = e

first_index : (n : ℕ) → IsU64 n → add64 0 n ≡ n
unfolding add64
first_index n h = omega arith

All-split : (P : Rela → Type 0) (xs ys : List Rela) → All P (xs ++ ys) → All P xs × All P ys
All-split P [] ys h = (tt, h)
All-split P (x ∷ xs) ys (p, h) = let rest = All-split P xs ys h in ((p, rest.0), rest.1)

abbrev unpack_at : {S : Type 0} → List ℕ → Rela → S → Unpack S
unpack_at dec r acc = record {
  dec = dec;
  r_offset = r.r_offset;
  r_info = r.r_info;
  r_addend = r.r_addend;
  acc = acc;
}

entry-IsEnd :
    {packed : List ℕ} (g : Group) (e : Entry) (rest : List ℕ)
    → IsEnd packed (
        put_if
          (not g.by_offset)
          e.step
          (put_if (not g.by_info) e.info (put_if (g.with_addend && not g.by_addend) e.change rest)))
    → IsEnd packed rest
entry-IsEnd g e rest end =
    IsEnd-put_if _ (g.with_addend && not g.by_addend) e.change rest
      (IsEnd-put_if _ (not g.by_info) e.info _ (IsEnd-put_if _ (not g.by_offset) e.step _ end))

entries-IsEnd :
    {packed : List ℕ} (g : Group) (es : List Entry) (rest : List ℕ)
    → IsEnd packed (entries_bytes g es rest)
    → IsEnd packed rest
unfolding entries_bytes
entries-IsEnd g [] rest end = end
entries-IsEnd g (e ∷ es) rest end = entries-IsEnd g es rest (entry-IsEnd g e _ end)

length-put_if : (test : Bool) (v : ℕ) (rest : List ℕ) → length rest ≤ length (put_if test v rest)
length-put_if true v rest = omega (arith, length-append (put v) rest)
length-put_if false v rest = omega arith

length-entries :
    (g : Group) (es : List Entry) (rest : List ℕ) → length rest ≤ length (entries_bytes g es rest)
unfolding entries_bytes
length-entries g [] rest = omega arith
length-entries g (e ∷ es) rest =
    let third = put_if (g.with_addend && not g.by_addend) e.change (entries_bytes g es rest) in
    omega (
      arith,
      length-entries g es rest,
      length-put_if (g.with_addend && not g.by_addend) e.change (entries_bytes g es rest),
      length-put_if (not g.by_info) e.info third,
      length-put_if (not g.by_offset) e.step (put_if (not g.by_info) e.info third),
    )

length-head : (g : Group) (rest : List ℕ) → length rest ≤ length (head_bytes g rest)
length-head g rest =
    let es = entries_bytes g g.entries rest in
    let third = put_if (g.with_addend && g.by_addend) g.change es in
    omega (
      arith,
      length-entries g g.entries rest,
      length-put_if (g.with_addend && g.by_addend) g.change es,
      length-put_if g.by_info g.info third,
      length-put_if g.by_offset g.step (put_if g.by_info g.info third),
    )

group-IsEnd :
    {packed : List ℕ} (g : Group) (rest : List ℕ)
    → IsEnd packed (group_bytes g rest)
    → IsEnd packed (entries_bytes g g.entries rest)
unfolding group_bytes
group-IsEnd g rest end = IsEnd-put_if _ (g.with_addend && g.by_addend) g.change _ (
    IsEnd-put_if _ g.by_info g.info _ (
      IsEnd-put_if _ g.by_offset g.step _
        (IsEnd-rest _ (put (flags_of g)) _ (IsEnd-rest _ (put (length g.entries)) _ end))))

flags_small : (i o a w : Bool) → IsU64 (flags i o a w)
flags_small i o a w = omega (arith, bit_small i, bit_small o, bit_small a, bit_small w)
  where
    bit_small : (b : Bool) → bit b < 2
    bit_small true = omega arith
    bit_small false = omega arith

add64_exact : (a b : ℕ) → IsU64 (a + b) → add64 a b ≡ a + b
unfolding add64
add64_exact a b h = omega arith

group_rest :
    {packed : List ℕ} (g : Group) (rest : List ℕ)
    → IsEnd packed (group_bytes g rest)
    → IsEnd packed rest
group_rest g rest end = entries-IsEnd g g.entries rest (group-IsEnd g rest end)

length-groups : (gs : List Group) → length gs ≤ length (groups_bytes gs)
unfolding groups_bytes group_bytes put
length-groups [] = omega arith
length-groups (g ∷ gs) = omega (
  arith,
  length-groups gs,
  length-encode (signed64 (length g.entries)),
  length-append (put (length g.entries)) (put (flags_of g) ++ head_bytes g (groups_bytes gs)),
  length-append (put (flags_of g)) (head_bytes g (groups_bytes gs)),
  length-head g (groups_bytes gs),
)

-- `Holds` is what keeps the table as it is, and good relocations keep it.
module _ {S : Type 0} (visit : Rela → S → S) (reread : S → List ℕ → List ℕ) (packed : List ℕ)
    (Good : Rela → Type 0) (Holds : S → Type 0)
    (keeps : (r : Rela) (s : S) → Good r → Holds s → Holds (visit r s))
    (still : (s : S) (d : List ℕ) → Holds s → IsEnd packed d → reread s d ≡ d) where
  unpack_entry-put :
      (g : Group) (e : Entry) (rest : List ℕ) (r : Rela) (acc : S)
      → IsEntry e
      → Good (rela_of g e r)
      → Holds acc
      → IsEnd packed rest
      → unpack_entry visit reread (flags_of g) (if g.by_offset then g.step else 0) (
          unpack_at
            (put_if (not g.by_offset) e.step (
              put_if
                (not g.by_info)
                e.info
                (put_if (g.with_addend && not g.by_addend) e.change rest)))
            r
            acc)
        ≡ ok (unpack_at rest (rela_of g e r) (visit (rela_of g e r) acc))
  unfolding unpack_entry
  unpack_entry-put g e rest r acc h good holds end =
      let (i, o, a, w) = flag_bits g.by_info g.by_offset g.by_addend g.with_addend in
      let third = put_if (g.with_addend && not g.by_addend) e.change rest in
      rw
        (
          i,
          o,
          a,
          w,
          pop_if-put (not g.by_offset) (if g.by_offset then g.step else 0) e.step
              (put_if (not g.by_info) e.info third) h.step,
          pop_if-put (not g.by_info) r.r_info e.info third h.info,
          pop_if-put (g.with_addend && not g.by_addend) 0 e.change rest h.change,
          still (visit (rela_of g e r) acc) rest (keeps (rela_of g e r) acc good holds) end,
        )
        refl

  visit_all-Holds : (rs : List Rela) (s : S) → All Good rs → Holds s → Holds (visit_all visit rs s)
  unfolding visit_all
  visit_all-Holds [] s good holds = holds
  visit_all-Holds (r ∷ rs) s (g, good) holds =
      visit_all-Holds rs (visit r s) good (keeps r s g holds)

  group_loop-pack :
      (g : Group) (es : List Entry) (rest : List ℕ) (r : Rela) (acc : S)
      → All IsEntry es
      → All Good (relas_of g r es)
      → Holds acc
      → IsEnd packed (entries_bytes g es rest)
      → group_loop visit reread
          (length es)
          (flags_of g)
          (if g.by_offset then g.step else 0)
          (unpack_at (entries_bytes g es rest) r acc)
        ≡ ok (unpack_at rest (last_of r (relas_of g r es)) (visit_all visit (relas_of g r es) acc))
  unfolding group_loop visit_all entries_bytes relas_of
  group_loop-pack g [] rest r acc h good holds end = refl
  group_loop-pack g (e ∷ es) rest r acc (he, hs) (one, good) holds end =
      let more = entry-IsEnd g e (entries_bytes g es rest) end in
      rw (unpack_entry-put g e (entries_bytes g es rest) r acc he one holds more) (
        group_loop-pack g es rest (rela_of g e r) (visit (rela_of g e r) acc) hs good
          (keeps (rela_of g e r) acc one holds) more)

  unpack_group-pack :
      (g : Group) (rest : List ℕ) (r : Rela) (acc : S)
      → IsGroup g
      → IsU64 (length g.entries)
      → All Good (relas_of g (begin g r) g.entries)
      → Holds acc
      → IsEnd packed (group_bytes g rest)
      → (let here = relas_of g (begin g r) g.entries in
          unpack_group visit reread (unpack_at (group_bytes g rest) r acc)
          ≡ ok (
            length g.entries,
            unpack_at rest (last_of (begin g r) here) (visit_all visit here acc),
          ))
  unfolding unpack_group group_bytes
  unpack_group-pack g rest r acc h small good holds end =
      let (i, o, a, w) = flag_bits g.by_info g.by_offset g.by_addend g.with_addend in
      let es = entries_bytes g g.entries rest in
      let third = put_if (g.with_addend && g.by_addend) g.change es in
      let second = put_if g.by_info g.info third in
      let first = put_if g.by_offset g.step second in
      rw
        (
          pop_front-put (length g.entries) (put (flags_of g) ++ first) small,
          pop_front-put (flags_of g) first
              (flags_small g.by_info g.by_offset g.by_addend g.with_addend),
          i,
          o,
          a,
          w,
          pop_if-put g.by_offset 0 g.step second h.step,
          pop_if-put g.by_info r.r_info g.info third h.info,
          pop_if-put (g.with_addend && g.by_addend) 0 g.change es h.change,
          group_loop-pack g g.entries rest (begin g r) acc h.entries good holds
              (group-IsEnd g rest end),
        )
        refl

  -- The outer loop: a round for a group, and the test that ends it.
  next_group :
      (fuel n idx : ℕ) (u : Unpack S) {size : ℕ} {u' : Unpack S}
      → ltb idx n ≡ true
      → unpack_group visit reread u ≡ ok (size, u')
      → groups_loop visit reread (suc fuel) n idx u
        ≡ groups_loop visit reread fuel n (add64 idx size) u'
  unfolding groups_loop
  next_group fuel n idx u more e = rw (more, groups_loop) (rw e refl)

  last_group :
      (fuel n idx : ℕ) (u : Unpack S)
      → ltb idx n ≡ false
      → groups_loop visit reread (suc fuel) n idx u ≡ ok u.acc
  unfolding groups_loop
  last_group fuel n idx u e = rw (e, groups_loop) refl

  groups_loop-pack :
      (gs : List Group) (fuel n idx : ℕ) (r : Rela) (acc : S)
      → length gs < fuel
      → idx + total gs ≡ n
      → IsU64 n
      → All IsGroup gs
      → All Good (relas r gs)
      → Holds acc
      → IsEnd packed (groups_bytes gs)
      → groups_loop visit reread fuel n idx (unpack_at (groups_bytes gs) r acc)
        ≡ ok (visit_all visit (relas r gs) acc)
  unfolding groups_bytes relas visit_all
  groups_loop-pack gs zero n idx r acc enough sum small h good holds end = absurd (omega arith)
  groups_loop-pack [] (suc fuel) n idx r acc enough sum small h good holds end =
      last_group fuel n idx _ (ground arith)
  groups_loop-pack (g ∷ gs) (suc fuel) n idx r acc enough sum small (hg, hs) good holds end =
      let here = relas_of g (begin g r) g.entries in
      let there = relas (last_of (begin g r) here) gs in
      let both = All-split Good here there good in
      let some_entries = hg.ne_nil in
      let step : add64 idx (length g.entries) ≡ idx + length g.entries =
        add64_exact idx (length g.entries) (omega arith) in
      next_group fuel n idx _ (ground arith)
        (unpack_group-pack g (groups_bytes gs) r acc hg (omega arith) both.0 holds end)
      ∙ groups_loop-pack gs fuel n (add64 idx (length g.entries)) (last_of (begin g r) here)
          (visit_all visit here acc) (omega arith) (omega (arith, step)) small hs both.1
          (visit_all-Holds here acc both.0 holds) (group_rest g (groups_bytes gs) end)
      ∙ ap ok (sym (visit_all-append visit here there acc))

  -- Unpacking an encoded table visits its relocations, in order.
  unpack-pack :
      (r_offset : ℕ) (gs : List Group) (s : S)
      → packed ≡ pack r_offset gs
      → IsU64 r_offset
      → IsU64 (total gs)
      → All IsGroup gs
      → All Good (relas (first_rela r_offset) gs)
      → Holds s
      → unpack visit reread (pack r_offset gs) s
        ≡ ok (visit_all visit (relas (first_rela r_offset) gs) s)
  unfolding unpack pack
  unpack-pack r_offset gs s e ho ht h good holds =
      let bytes = put r_offset ++ groups_bytes gs in
      let long : ltb (length (pack r_offset gs)) 4 ≡ false = ground arith in
      let enough : length gs < suc (length (pack r_offset gs)) = omega (
        arith,
        length-groups gs,
        length-append (put (total gs)) bytes,
        length-append (put r_offset) (groups_bytes gs),
      ) in
      let signature = b'A' ∷ b'P' ∷ b'S' ∷ b'2' ∷ [] in
      let end : IsEnd packed (groups_bytes gs) =
        IsEnd-rest packed (put r_offset) (groups_bytes gs)
          (IsEnd-rest packed (put (total gs)) bytes (signature, e)) in
      rw
        (
          long,
          unpack,
          pop_front-put (total gs) bytes ht,
          pop_front-put r_offset (groups_bytes gs) ho,
        )
        (groups_loop-pack gs _ (total gs) 0 (first_rela r_offset) s enough (omega arith) ht h good
          holds end)

-- A relocation whose 16 bytes do not lie in the table.
abbrev pub Beside : Object → (table size : ℕ) → Rela → Type 0
Beside obj table size r = (slot obj r + 16 ≤ table) ⊎ (table + size ≤ slot obj r)

load-end :
    (m : Memory) (a : ℕ) (before d : List ℕ)
    → load m a (length before + length d) ≡ before ++ d
    → load m (a + length before) (length d) ≡ d
unfolding load
load-end m a [] d e =
    ap (λ (x : ℕ). load m x (length d)) (let z : a + 0 ≡ a = omega arith in z)
    ∙ ap (λ (n : ℕ). load m a n) (let z : length d ≡ 0 + length d = omega arith in z)
    ∙ e
load-end m a (b ∷ before) d e =
    let count : suc (length before + length d) ≡ suc (length before) + length d = omega arith in
    let whole : load m a (suc (length before + length d)) ≡ b ∷ (before ++ d) =
      ap (λ (n : ℕ). load m a n) count ∙ e in
    rw (let z : a + suc (length before) ≡ a + 1 + length before = omega arith in z)
      (load-end m (a + 1) before d (ap (drop 1) whole))

-- `apply_android_rela` on memory that holds at `table` the packed form of groups of relocations,
-- whatever they share, with numbers of 64 bits and at least one entry in each group. If no relocation
-- writes into the table, the relocations of the groups are applied one by one, in order: each entry
-- steps on from the offset and the addend of the one before it, by its own numbers or by those that
-- its group shares, and has its own info or the shared one.
pub apply_android_rela-pack :
    (env : Env) (objs : List Object) (obj : Object) (hwcap auxv table size r_offset : ℕ)
    (gs : List Group) (m : Memory)
    → load m table size ≡ pack r_offset gs
    → IsU64 r_offset
    → IsU64 (total gs)
    → All IsGroup gs
    → All (Beside obj table size) (relas (first_rela r_offset) gs)
    → apply_android_rela env objs obj hwcap auxv table size m
      ≡ ok (visit_all (apply_entry env objs obj hwcap auxv) (relas (first_rela r_offset) gs) m)
unfolding apply_android_rela
apply_android_rela-pack env objs obj hwcap auxv table size r_offset gs m holds ho ht h beside =
    ap (λ (l : List ℕ). unpack (apply_entry env objs obj hwcap auxv) (last_bytes table size) l m)
      holds
    ∙ unpack-pack (apply_entry env objs obj hwcap auxv) (last_bytes table size) (pack r_offset gs)
        (Beside obj table size) Same keeps still r_offset gs m refl ho ht h beside (λ x lo hi. refl)
  where
    Same : Memory → Type 0
    Same m' = (x : ℕ) → table ≤ x → x < table + size → m' x ≡ m x

    keeps :
        (r : Rela) (m' : Memory)
        → Beside obj table size r
        → Same m'
        → Same (apply_entry env objs obj hwcap auxv r m')
    keeps r m' b same x lo hi =
        apply_entry-Outside env objs obj hwcap auxv r m' x
          (table_apart 16 (slot obj r) table size x b lo hi)
        ∙ same x lo hi

    still :
        (m' : Memory) (d : List ℕ)
        → Same m'
        → IsEnd (pack r_offset gs) d
        → last_bytes table size m' d ≡ d
    still m' d same (before, e) =
        let whole = holds ∙ e in
        let count : size ≡ length before + length d = omega (
          arith,
          length-load m table size,
          ap (λ (l : List ℕ). length l) whole,
          length-append before d,
        ) in
        let place : table + (size - length d) ≡ table + length before = omega arith in
        load-eq m' m (table + (size - length d)) (length d)
          (λ x lo hi. same x (omega arith) (omega arith))
        ∙ ap (λ (a : ℕ). load m a (length d)) place
        ∙ load-end m table before d (rw (← count) whole)
