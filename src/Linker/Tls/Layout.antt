-- ===== src/Linker/Tls/Layout.antt =====
-- The static TLS layout: alignment, order, and what the copies of the templates write.
use Prim.Native.Nat.{◌≤◌}
use muplar.Base.{
  ℕ, zero, suc, ◌+◌, ◌*◌, ◌/◌, ◌%◌, ◌^◌, ◌<◌, ◌≡◌, ◌⊎◌, inl, inr, refl, ◌∙◌, arith, List, [], ◌∷◌,
}
use muplar.Base.{Bool, true, false, ◌&&◌, ltb, if◌then◌else◌, Bool-cases, ltb→lt}
use muplar.Base.Words.{add64}
use muplar.Memory.{Memory}
use muplar.Memory.Laws.{store_outside}
use muplar.Linker.{Object}
use muplar.Linker.Tls.{align16, assign_tls, tls_start, tls_block_size, copy_bytes, copy_templates}

-- Room for every segment and the bytes that align it.
unfoldable pub tls_need : List Object → ℕ
tls_need [] = 0
tls_need (o ∷ os) = o.tls_memsz + 15 + tls_need os

-- Where the segments end that are laid out from an offset on, each that is not empty at the next
-- multiple of 16.
unfoldable pub tls_end : (current : ℕ) → List Object → ℕ
tls_end current [] = current
tls_end current (o ∷ os) =
    let skipped = tls_end current os in
    let placed = tls_end ((current + 15) / 16 * 16 + o.tls_memsz) os in
    if ltb 0 o.tls_memsz then placed else skipped

-- From `lo` on, the segments that are not empty stand one behind the other, at multiples of 16.
abbrev pub Laid : ℕ → List Object → Type 0
Laid lo [] = Unit {0}
Laid lo (o ∷ os) =
    (0 < o.tls_memsz → (lo ≤ o.tls_offset) × (o.tls_offset % 16 ≡ 0))
    × Laid (if ltb 0 o.tls_memsz then o.tls_offset + o.tls_memsz else lo) os

-- Every segment ends at `top` or before.
abbrev pub EndsBy : ℕ → List Object → Type 0
EndsBy top [] = Unit {0}
EndsBy top (o ∷ os) = (0 < o.tls_memsz → o.tls_offset + o.tls_memsz ≤ top) × EndsBy top os

align16_bounds :
    (x : ℕ) → x + 15 < 2 ^ 64 → (x ≤ align16 x) × (align16 x ≤ x + 15) × (align16 x % 16 ≡ 0)
unfolding align16
align16_bounds x h = omega arith

add64_small : (a b : ℕ) → a + b < 2 ^ 64 → add64 a b ≡ a + b
unfolding add64
add64_small a b h = omega arith

tls_end-ge : (current : ℕ) (objs : List Object) → current ≤ tls_end current objs
unfolding tls_end
tls_end-ge current [] = omega arith
tls_end-ge current (o ∷ os) = elim (Bool-cases (ltb 0 o.tls_memsz)) [
  | inl placed ↦
      rw (placed, tls_end) (omega (arith, tls_end-ge ((current + 15) / 16 * 16 + o.tls_memsz) os))
  | inr skipped ↦ rw (skipped, tls_end) (tls_end-ge current os)
]

tls_end-need : (current : ℕ) (objs : List Object) → tls_end current objs ≤ current + tls_need objs
unfolding tls_end tls_need
tls_end-need current [] = omega arith
tls_end-need current (o ∷ os) = elim (Bool-cases (ltb 0 o.tls_memsz)) [
  | inl placed ↦
      rw (placed, tls_end) (omega (arith, tls_end-need ((current + 15) / 16 * 16 + o.tls_memsz) os))
  | inr skipped ↦ rw (skipped, tls_end) (omega (arith, tls_end-need current os))
]

align16_exact : (x : ℕ) → x + 15 < 2 ^ 64 → align16 x ≡ (x + 15) / 16 * 16
unfolding align16
align16_exact x h = omega arith

assign_tls-Laid :
    (current top : ℕ) (objs : List Object)
    → tls_end current objs ≤ top
    → top < 2 ^ 64
    → Laid current (assign_tls current objs) × EndsBy top (assign_tls current objs)
unfolding assign_tls tls_end
assign_tls-Laid current top [] h small = (tt, tt)
assign_tls-Laid current top (o ∷ os) h small = elim (Bool-cases (ltb 0 o.tls_memsz)) [
  | inl placed ↦
      let next = (current + 15) / 16 * 16 + o.tls_memsz in
      let h' : tls_end next os ≤ top = rw placed at h in
      let above = tls_end-ge next os in
      let sized : 0 < o.tls_memsz = ltb→lt 0 o.tls_memsz placed in
      let low : current + 15 < 2 ^ 64 = omega arith in
      let exact = align16_exact current low in
      let bounds = align16_bounds current low in
      let sum : add64 (align16 current) o.tls_memsz ≡ next =
        add64_small (align16 current) o.tls_memsz (omega arith) ∙ rw exact refl in
      let rest = assign_tls-Laid next top os h' small in
      rw (placed, assign_tls, sum)
        (
          (λ _. (bounds.0, bounds.2), rw (placed, exact) rest.0),
          (λ _. omega (arith, exact, above, h'), rest.1),
        )
  | inr skipped ↦
      let h' : tls_end current os ≤ top = rw skipped at h in
      let rest = assign_tls-Laid current top os h' small in
      rw (skipped, assign_tls)
        (
          (λ sized. absurd (ground arith), rw skipped rest.0),
          (λ sized. absurd (ground arith), rest.1),
        )
]

-- The segments of a link, from the end of the thread control block on: each at a multiple of 16,
-- behind all before it, and all of them inside the room that was counted, where that is below 2^64.
pub assign_tls_layout :
    (objs : List Object)
    → tls_start + tls_need objs < 2 ^ 64
    → Laid tls_start (assign_tls tls_start objs)
      × EndsBy (tls_start + tls_need objs) (assign_tls tls_start objs)
assign_tls_layout objs h =
    assign_tls-Laid tls_start (tls_start + tls_need objs) objs (tls_end-need tls_start objs) h

-- No template is longer than its segment.
abbrev pub FilesFit : List Object → Type 0
FilesFit [] = Unit {0}
FilesFit (o ∷ os) = (o.tls_filesz ≤ o.tls_memsz) × FilesFit os

pub assign_tls-FilesFit :
    (current : ℕ) (objs : List Object) → FilesFit objs → FilesFit (assign_tls current objs)
unfolding assign_tls
assign_tls-FilesFit current [] h = tt
assign_tls-FilesFit current (o ∷ os) h = elim (Bool-cases (ltb 0 o.tls_memsz)) [
  | inl placed ↦
      rw (placed, assign_tls)
        (h.0, assign_tls-FilesFit (add64 (align16 current) o.tls_memsz) os h.1)
  | inr skipped ↦ rw (skipped, assign_tls) (h.0, assign_tls-FilesFit current os h.1)
]

copy_bytes_outside :
    (n src dst : ℕ) (m : Memory) (x : ℕ)
    → ((x < dst) ⊎ (dst + n ≤ x))
    → copy_bytes n src dst m x ≡ m x
unfolding copy_bytes
copy_bytes_outside zero src dst m x out = refl
copy_bytes_outside (suc n) src dst m x (inl lt) =
    copy_bytes_outside n (src + 1) (dst + 1) _ x (inl (omega arith))
    ∙ store_outside m dst (m src ∷ []) x (inl lt)
copy_bytes_outside (suc n) src dst m x (inr le) =
    copy_bytes_outside n (src + 1) (dst + 1) _ x (inr (omega arith))
    ∙ store_outside m dst (m src ∷ []) x (inr (omega arith))

-- Where the segments lie between `lo` and `top`, copying their templates changes nothing else.
copy_templates_frame :
    (block lo top : ℕ) (objs : List Object) (m : Memory) (x : ℕ)
    → Laid lo objs
    → EndsBy top objs
    → FilesFit objs
    → ((x < block + lo) ⊎ (block + top ≤ x))
    → copy_templates block objs m x ≡ m x
unfolding copy_templates
copy_templates_frame block lo top [] m x laid ends fit out = refl
copy_templates_frame block lo top (o ∷ os) m x laid ends fit out =
    elim (Bool-cases (ltb 0 o.tls_memsz)) [
      | inl sized ↦
          let pos_size : 0 < o.tls_memsz = ltb→lt 0 o.tls_memsz sized in
          let here = laid.0 pos_size in
          let below = ends.0 pos_size in
          let rest : Laid (o.tls_offset + o.tls_memsz) os = rw sized at (laid.1) in
          copy_templates_frame block (o.tls_offset + o.tls_memsz) top os _ x rest ends.1 fit.1
            (outside_rest here.0 out)
          ∙ one_template (ltb 0 o.tls_memsz && ltb 0 o.tls_vaddr) _ (
              copy_bytes_outside o.tls_filesz (add64 o.load_base o.tls_vaddr) (block + o.tls_offset)
                m x (outside_one here.0 below out))
      | inr empty ↦
          let rest : Laid lo os = rw empty at (laid.1) in
          copy_templates_frame block lo top os _ x rest ends.1 fit.1 out ∙ rw empty refl
    ]
  where
    one_template : (b : Bool) (m' : Memory) → m' x ≡ m x → (if b then m' else m) x ≡ m x
    one_template true m' e = e
    one_template false m' e = refl

    outside_rest :
        lo ≤ o.tls_offset
        → ((x < block + lo) ⊎ (block + top ≤ x))
        → ((x < block + (o.tls_offset + o.tls_memsz)) ⊎ (block + top ≤ x))
    outside_rest h (inl lt) = inl (omega arith)
    outside_rest h (inr le) = inr le

    outside_one :
        lo ≤ o.tls_offset
        → o.tls_offset + o.tls_memsz ≤ top
        → ((x < block + lo) ⊎ (block + top ≤ x))
        → ((x < block + o.tls_offset) ⊎ (block + o.tls_offset + o.tls_filesz ≤ x))
    outside_one h k (inl lt) = inl (omega arith)
    outside_one h k (inr le) = inr (omega (arith, fit.0))

-- Where the last segment ends in the TLS block, and no template is longer than its segment, the copies
-- of the templates write only inside the block behind the thread control block: nothing before it and
-- nothing behind the block changes.
pub copy_templates_block :
    (block : ℕ) (objs : List Object) (m : Memory) (x : ℕ)
    → tls_end tls_start objs ≤ tls_block_size
    → FilesFit objs
    → ((x < block + tls_start) ⊎ (block + tls_block_size ≤ x))
    → copy_templates block (assign_tls tls_start objs) m x ≡ m x
copy_templates_block block objs m x room fit out =
    let laid = assign_tls-Laid tls_start tls_block_size objs room (omega arith) in
    copy_templates_frame block tls_start tls_block_size (assign_tls tls_start objs) m x laid.0
      laid.1 (assign_tls-FilesFit tls_start objs fit) out
