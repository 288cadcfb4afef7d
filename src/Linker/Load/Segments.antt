-- ===== src/Linker/Load/Segments.antt =====
-- Where `load_so` maps the segments of a library: inside the range that it reserved.
use Prim.Native.Nat.{bit_or, ◌≤◌}
use mathlib.Core.List.{append_assoc}
use muplar.Base.{
  ℕ, ◌+◌, ◌-◌, ◌*◌, ◌/◌, ◌^◌, ◌<◌, ◌≡◌, refl, sym, ap, ◌∙◌, arith, List, [], ◌∷◌, ◌++◌, All,
}
use muplar.Base.{not, ◌==◌, ltb, if◌then◌else◌, Bool-cases, inl, inr}
use muplar.Base.Words.{add64, sub64}
use muplar.Base.Int.{pos, negsuc}
use muplar.Elf.{Phdr, pt_load}
use muplar.Linker.{Object, page_align_down, page_align_up}
use muplar.Linker.Load.{
  Call, mmap, mprotect, close, Os, Space, sys_mmap, sys_mprotect, load_range, zero_bss, pf_to_prot,
}
use muplar.Linker.Load.{
  map_segment, map_segments, load_segments, map_private, map_fixed, map_anonymous,
}
use muplar.Linker.Load.{prot_none, prot_read, prot_write, long_negative}
use muplar.Linker.Libs.Loads.{Yields, yields, stops, Yields-bind, Yields-if, scan_segments-Named}
use muplar.Linker.Libs.Growth.{Yields-mono}

-- A loadable segment lies between two addresses; other headers may say anything.
abbrev pub Loadable : (lo hi : ℕ) → Phdr → Type 0
Loadable lo hi ph = ph.p_type ≡ pt_load → (lo ≤ ph.p_vaddr) × (ph.p_vaddr + ph.p_memsz ≤ hi)

Loadable-weaken :
    (lo lo' hi hi' : ℕ) (phs : List Phdr)
    → lo' ≤ lo
    → hi ≤ hi'
    → All (Loadable lo hi) phs
    → All (Loadable lo' hi') phs
Loadable-weaken lo lo' hi hi' [] h k all = tt
Loadable-weaken lo lo' hi hi' (ph ∷ phs) h k all = (
  (λ e. let (a, b) = all.0 e in (omega arith, omega arith)),
  Loadable-weaken lo lo' hi hi' phs h k all.1,
)

-- The range covers the segments, and it is no wider than a bound on their ends.
record Covers (a b top : ℕ) (phs : List Phdr) (range : ℕ × ℕ) : Type 0 where
  low : range.0 ≤ a
  high : b ≤ range.1
  below : range.1 ≤ top
  all : All (Loadable range.0 range.1) phs

load_range-Covers :
    (phs : List Phdr) (a b top : ℕ)
    → top < 2 ^ 64
    → b ≤ top
    → All (Loadable 0 top) phs
    → Covers a b top phs (load_range phs a b)
unfolding load_range
load_range-Covers [] a b top small h all = record {
  low = omega arith;
  high = omega arith;
  below = h;
  all = tt;
}
load_range-Covers (ph ∷ phs) a b top small h all = elim (Bool-cases (ph.p_type == pt_load)) [
  | inl load ↦
      let fits = all.0 (ground arith) in
      let end = add64 ph.p_vaddr ph.p_memsz in
      let sum : end ≡ ph.p_vaddr + ph.p_memsz = unfold add64 in omega (arith, fits.1) in
      let a' = if ltb ph.p_vaddr a then ph.p_vaddr else a in
      let b' = if ltb b end then end else b in
      let rest = load_range-Covers phs a' b' top small (ground (arith, fits.1)) all.1 in
      let low = rest.low in
      let high = rest.high in
      rw (load, load_range)
        (record {
          low = ground arith;
          high = ground arith;
          below = rest.below;
          all = ((λ e. (ground arith, ground arith)), rest.all);
        })
  | inr other ↦
      let rest = load_range-Covers phs a b top small h all.1 in
      rw (other, load_range)
        (record {
          low = rest.low;
          high = rest.high;
          below = rest.below;
          all = ((λ e. absurd (ground arith)), rest.all);
        })
]

-- The range that is reserved for the segments between `lo` and `hi`.
abbrev pub reserved_size : (lo hi : ℕ) → ℕ
reserved_size lo hi = sub64 (page_align_up hi) (page_align_down lo)

-- A segment at `vaddr`, placed where its library's range starts at `r`.
module _ (lo hi vaddr memsz r : ℕ) (above : lo ≤ vaddr) (below : vaddr + memsz ≤ hi)
    (small : hi < 2 ^ 62) (room : r + reserved_size lo hi ≤ 2 ^ 63) where
  start : ℕ
  start = add64 (page_align_down vaddr) (sub64 r (page_align_down lo))

  size : ℕ
  size = sub64 (add64 (page_align_up (add64 vaddr memsz)) (sub64 r (page_align_down lo))) start

  range_lem : reserved_size lo hi ≡ (hi + 4095) / 4096 * 4096 - lo / 4096 * 4096
  unfolding sub64 page_align_up page_align_down add64
  range_lem = omega arith

  start_lem : start ≡ r + (vaddr / 4096 * 4096 - lo / 4096 * 4096)
  unfolding start sub64 page_align_down add64
  start_lem = omega (arith, range_lem)

  size_lem : size ≡ (vaddr + memsz + 4095) / 4096 * 4096 - vaddr / 4096 * 4096
  unfolding size start sub64 page_align_up page_align_down add64
  size_lem = omega (arith, range_lem)

  segment_inside : (r ≤ start) × (start + size ≤ r + reserved_size lo hi)
  segment_inside = (omega (arith, start_lem), omega (arith, start_lem, size_lem, range_lem))

-- A call that maps at a fixed address, or sets permissions, stays between `lo` and `hi`.
abbrev pub Inside : (lo hi : ℕ) → Call → Type 0
Inside lo hi (mmap addr len prot flags fd off) =
    flags ≡ bit_or map_private map_fixed → (lo ≤ addr) × (addr + len ≤ hi)
Inside lo hi (mprotect addr len prot) = (lo ≤ addr) × (addr + len ≤ hi)
Inside lo hi (close fd) = Unit {0}

-- The calls that were made between two states of the address space.
pub record Made (P : Call → Type 0) (s s' : Space) : Type 0 where
  pub new : List Call
  pub extends : s'.calls ≡ new ++ s.calls
  pub each : All P new

Made-trans : {P : Call → Type 0} {a b c : Space} → Made P a b → Made P b c → Made P a c
Made-trans {P} {a} g h = record {
  new = h.new ++ g.new;
  extends =
      h.extends
      ∙ ap (λ (l : List Call). h.new ++ l) g.extends
      ∙ sym (append_assoc h.new g.new a.calls);
  each = together h.new g.new h.each g.each;
}
  where
    together : (xs ys : List Call) → All P xs → All P ys → All P (xs ++ ys)
    together [] ys p q = q
    together (x ∷ xs) ys p q = (p.0, together xs ys p.1 q)

module _ {P : Call → Type 0} where
  sys_mmap-Made : (os : Os) (call : Call) (s : Space) → P call → Made P s (sys_mmap os call s).1
  unfolding sys_mmap
  sys_mmap-Made os call s p = record { new = call ∷ []; extends = refl; each = (p, tt) }

  sys_mprotect-Made :
      (addr len prot : ℕ) (s : Space)
      → P (mprotect addr len prot)
      → Made P s (sys_mprotect addr len prot s)
  unfolding sys_mprotect
  sys_mprotect-Made addr len prot s p = record {
    new = mprotect addr len prot ∷ [];
    extends = refl;
    each = (p, tt);
  }

  zero_bss-Made : (base : ℕ) (ph : Phdr) (s : Space) → Made P s (zero_bss base ph s)
  unfolding zero_bss
  zero_bss-Made base ph s = record { new = []; extends = ground arith; each = tt }

module _ (lo hi r : ℕ) (small : hi < 2 ^ 62) (room : r + reserved_size lo hi ≤ 2 ^ 63) where
  abbrev base : ℕ
  base = sub64 r (page_align_down lo)

  abbrev top : ℕ
  top = r + reserved_size lo hi

  map_segment-Inside :
      (os : Os) (fd : ℕ) (ph : Phdr) (s : Space)
      → lo ≤ ph.p_vaddr
      → ph.p_vaddr + ph.p_memsz ≤ hi
      → Yields (Made (Inside r top) s) (map_segment os fd base ph s)
  unfolding map_segment start size
  map_segment-Inside os fd ph s above below =
      let inside = segment_inside lo hi ph.p_vaddr ph.p_memsz r above below small room in
      let final_prot = pf_to_prot ph.p_flags in
      let addr = add64 (page_align_down ph.p_vaddr) base in
      let len = sub64 (add64 (page_align_up (add64 ph.p_vaddr ph.p_memsz)) base) addr in
      let call =
        mmap addr len (bit_or prot_read prot_write) (bit_or map_private map_fixed) (pos fd)
          (page_align_down ph.p_offset) in
      let mapped = sys_mmap os call s in
      let zeroed : Made (Inside r top) s (zero_bss base ph mapped.1) =
        Made-trans (sys_mmap-Made os call s (λ e. inside)) (zero_bss-Made base ph mapped.1) in
      Yields-if (long_negative mapped.0) stops (
        Yields-if (not (final_prot == bit_or prot_read prot_write))
          (yields (
            Made-trans zeroed
              (sys_mprotect-Made addr len final_prot (zero_bss base ph mapped.1) inside)))
          (yields zeroed))

  map_segments-Inside :
      (os : Os) (fd : ℕ) (phs : List Phdr) (s : Space)
      → All (Loadable lo hi) phs
      → Yields (Made (Inside r top) s) (map_segments os fd base phs s)
  unfolding map_segments
  map_segments-Inside os fd [] s all = yields (record { new = []; extends = refl; each = tt })
  map_segments-Inside os fd (ph ∷ phs) s all = elim (Bool-cases (ph.p_type == pt_load)) [
    | inl load ↦
        let fits = all.0 (ground arith) in
        rw (load, map_segments)
          (Yields-bind (map_segment-Inside os fd ph s fits.0 fits.1)
            λ s' g. Yields-mono (map_segments-Inside os fd phs s' all.1) λ s'' h. Made-trans g h)
    | inr other ↦ rw (other, map_segments) (map_segments-Inside os fd phs s all.1)
  ]

-- The range that `load_segments` reserves, and the call that reserves it.
abbrev pub range_of : List Phdr → ℕ × ℕ
range_of phs = load_range phs (2 ^ 64 - 1) 0

abbrev pub range_size : List Phdr → ℕ
range_size phs = reserved_size (range_of phs).0 (range_of phs).1

abbrev pub reservation : List Phdr → Call
reservation phs = mmap 0 (range_size phs) prot_none (bit_or map_private map_anonymous) (negsuc 0) 0

-- Where every loadable segment ends below 2^62 and the kernel reserves the range below 2^63, `load_so`
-- ends after it has read the headers, and if it returns, every mapping at a fixed address and every
-- change of permissions that it made stays inside the range that it reserved.
pub load_segments-Inside :
    (os : Os) (limit fd : ℕ) (phs : List Phdr) (obj : Object) (s : Space)
    → All (Loadable 0 (2 ^ 62 - 1)) phs
    → (os.mmap (reservation phs) s.mem).0 + range_size phs ≤ 2 ^ 63
    → (let r = (os.mmap (reservation phs) s.mem).0 in
        Yields
          (λ (out : Object × Space). Made (Inside r (r + range_size phs)) s out.1)
          (load_segments os limit fd phs obj s))
unfolding load_segments sys_mmap
load_segments-Inside os limit fd phs obj s all room =
    let cover = load_range-Covers phs (2 ^ 64 - 1) 0 (2 ^ 62 - 1) (omega arith) (omega arith) all in
    let range = range_of phs in
    let below : range.1 < 2 ^ 62 = omega (arith, cover.below) in
    let reserved = sys_mmap os (reservation phs) s in
    Yields-if _ stops (
      Yields-bind (map_segments-Inside range.0 range.1 _ below room os fd phs reserved.1 cover.all)
        λ s' g. Yields-bind (scan_segments-Named limit s'.mem phs _ obj.soname refl) λ obj' e.
          yields
            (Made-trans (sys_mmap-Made os (reservation phs) s (λ e. absurd (omega (arith, e)))) g))
