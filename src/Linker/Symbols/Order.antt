-- ===== src/Linker/Symbols/Order.antt =====
-- The order in which `lookup_symbol` and `lnk_dl_iterate_phdr` go over the objects.
use muplar.Base.{ℕ, ◌+◌, ◌≡◌, refl, sym, ap, ◌∙◌, arith, List, [], ◌∷◌, ◌++◌, All}
use muplar.Base.{Bool, ◌&&◌, not, ◌==◌, if◌then◌else◌, none, some}
use mathlib.Core.List.{append-nil}
use muplar.Memory.{Memory}
use muplar.Elf.{Sym}
use muplar.Linker.{Object, Env, nonzero}
use muplar.Linker.Symbols.{symbol_address, find_symbol, builtin, lookup_objects, lookup_symbol}
use muplar.Linker.Symbols.{PhdrInfo, has_magic, phdr_info, iterate_loop, dl_iterate_phdr}

-- No object of the list has the symbol.
abbrev pub Lacks : Memory → List ℕ → List Object → Type 0
Lacks m name objs = All (λ obj. find_symbol m obj name ≡ none) objs

lookup_objects_skip :
    (env : Env) (m : Memory) (before after : List Object) (name : List ℕ)
    → Lacks m name before
    → lookup_objects env m (before ++ after) name ≡ lookup_objects env m after name
unfolding lookup_objects
lookup_objects_skip env m [] after name h = refl
lookup_objects_skip env m (o ∷ os) after name h =
    rw (h.0, lookup_objects) (lookup_objects_skip env m os after name h.1)

-- A name that the linker does not provide itself is looked up in the objects in the order in which
-- they were loaded: behind objects that lack it, the first object that has it gives the address; and
-- where all of them lack it, the address is 0.
pub lookup_symbol_order :
    (env : Env) (m : Memory) (before after : List Object) (name : List ℕ)
    → builtin env name ≡ none
    → Lacks m name before
    → ((obj : Object) (s : Sym)
        → find_symbol m obj name ≡ some s
        → lookup_symbol env m (before ++ obj ∷ after) name ≡ symbol_address env obj s)
      × (lookup_symbol env m before name ≡ 0)
unfolding lookup_symbol lookup_objects
lookup_symbol_order env m before after name b h = (
  λ obj s e.
      rw (b, lookup_symbol)
        (lookup_objects_skip env m before (obj ∷ after) name h ∙ rw (e, lookup_objects) refl),
  rw (b, lookup_symbol)
      (ap (λ (l : List Object). lookup_objects env m l name) (sym (append-nil before))
        ∙ lookup_objects_skip env m before [] name h),
)

module _ {S : Type 0} (callback : PhdrInfo → S → ℕ × S) where
  -- The callback on one entry after the other, until it answers a number that is not 0.
  unfoldable pub until : List PhdrInfo → S → ℕ × S
  until [] s = (0, s)
  until (info ∷ infos) s =
      let called = callback info s in
      let rest = until infos called.1 in if nonzero called.0 then called else rest

-- An object with an ELF header in memory; without a load base, only the executable.
abbrev pub visible : Memory → ℕ → Object → Bool
visible m i obj = not (obj.load_base == 0 && nonzero i) && has_magic m obj.load_base

unfoldable pub visible_infos : Memory → ℕ → List Object → List PhdrInfo
visible_infos m i [] = []
visible_infos m i (obj ∷ objs) =
    let rest = visible_infos m (i + 1) objs in
    if visible m i obj then phdr_info m obj ∷ rest else rest

iterate_loop-until :
    {S : Type 0} (callback : PhdrInfo → S → ℕ × S) (m : Memory) (objs : List Object) (i : ℕ) (s : S)
    → iterate_loop callback m objs i s ≡ until callback (visible_infos m i objs) s
unfolding iterate_loop until visible_infos
iterate_loop-until callback m [] i s = refl
iterate_loop-until callback m (obj ∷ objs) i s = ground (
  arith,
  iterate_loop-until callback m objs (i + 1) s,
  iterate_loop-until callback m objs (i + 1) (callback (phdr_info m obj) s).1,
)

-- `lnk_dl_iterate_phdr` calls the callback on the headers of the objects that have an ELF header in
-- memory, in the order in which they were loaded, until it answers a number that is not 0; that
-- number is the result, and 0 if there is none. An object without a load base is left out, except
-- the executable.
pub dl_iterate_phdr-until :
    {S : Type 0} (callback : PhdrInfo → S → ℕ × S) (m : Memory) (objs : List Object) (s : S)
    → dl_iterate_phdr callback m objs s ≡ until callback (visible_infos m 0 objs) s
unfolding dl_iterate_phdr
dl_iterate_phdr-until callback m objs s = iterate_loop-until callback m objs 0 s
