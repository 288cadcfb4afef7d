-- ===== src/Linker/Main/Ends.antt =====
-- `linker_main`: it always ends, and what holds when it jumps to the program.
use Prim.Native.Nat.{◌≤◌}
use muplar.Base.{ℕ, suc, ◌+◌, ◌*◌, ◌≡◌, refl, ap, ◌∙◌, ◌<◌, arith, List, [], ◌∷◌, ◌++◌}
use muplar.Base.{ltb, length, Bool-cases, inl, inr, Option, none, some}
use muplar.Base.Words.{add64, u32}
use muplar.Memory.{Memory, load64, store64}
use muplar.Elf.{Phdr, at_entry, at_hwcap, at_phdr, at_phnum, at_phent}
use muplar.Linker.{Object, Env, Result, ok, ◌>>=◌, max_objects, nonzero}
use muplar.Linker.Dynamic.{auxv_get}
use muplar.Linker.Load.{Os, Space}
use muplar.Linker.Libs.{State, has_soname, load_needed_so}
use muplar.Linker.Libs.Loads.{
  Yields, yields, faults, Yields-bind, Yields-self, Yields-if, Anything, scan_segments-Named,
}
use muplar.Linker.Libs.Growth.{
  Distinct, Grows, Grows-refl, load_list-Grows, load_needed_so-Registers, Yields-mono,
}
use muplar.Linker.Libs.Relocates.{relocate_object-Yields, relocate_all-Yields}
use muplar.Linker.Tls.{align16, assign_tls, tls_start}
use muplar.Linker.Main.{expect_some, Stack, Exe, Jump, parse_stack, read_auxv, exe_object, phdrs_of}
use muplar.Linker.Main.{load_all, relocate_exe, place_tls, relocate_program, linker_main, env_end}

expect_some-bind :
    {B : Type 0} {P : B → Type 0} (o : Option ℕ) {f : ℕ → Result B}
    → ((a : ℕ) → Yields P (f a))
    → Yields P (expect_some o >>= f)
expect_some-bind none next = faults
expect_some-bind (some a) next = next a

parse_stack-Yields : (limit : ℕ) (m : Memory) (sp : ℕ) → Yields Anything (parse_stack limit m sp)
unfolding parse_stack
parse_stack-Yields limit m sp =
    expect_some-bind (env_end limit m (sp + 8 + 8 * (u32 (load64 m sp) + 1))) λ ep. yields tt

read_auxv-Yields :
    (limit : ℕ) (m : Memory) (stack : Stack) → Yields Anything (read_auxv limit m stack)
unfolding read_auxv
read_auxv-Yields limit m stack = expect_some-bind (auxv_get limit m stack.auxv at_hwcap) λ hwcap.
    expect_some-bind (auxv_get limit m stack.auxv at_entry) λ entry.
      expect_some-bind (auxv_get limit m stack.auxv at_phdr) λ phdr.
        expect_some-bind (auxv_get limit m stack.auxv at_phnum)
          λ phnum. expect_some-bind (auxv_get limit m stack.auxv at_phent) λ phent. yields tt

-- The objects that are registered: the executable, as it was read, is the first, there are at most
-- 1024, and no two have the same name.
pub record Linked (limit : ℕ) (exe : Exe) (m : Memory) (objs : List Object) : Type 0 where
  pub executable : Object
  pub libraries : List Object
  pub read : exe_object limit exe m ≡ ok executable
  pub objects : objs ≡ executable ∷ libraries
  pub bounded : length objs ≤ max_objects
  pub distinct : Distinct objs

Grows-Linked :
    (limit : ℕ) (exe : Exe) (m : Memory) (obj : Object) (st st' : State)
    → exe_object limit exe m ≡ ok obj
    → st.objects ≡ obj ∷ []
    → Distinct st.objects
    → Grows st st'
    → Linked limit exe m st'.objects
Grows-Linked limit exe m obj st st' read one d g = record {
  executable = obj;
  libraries = g.new;
  read = read;
  objects = g.extends ∙ ap (λ (l : List Object). l ++ g.new) one;
  bounded = g.bounded;
  distinct = g.distinct d;
}

exe_object-Yields : (limit : ℕ) (exe : Exe) (m : Memory) → Yields Anything (exe_object limit exe m)
unfolding exe_object
exe_object-Yields limit exe m =
    Yields-if _ faults
      (Yields-mono (scan_segments-Named limit m (phdrs_of exe m) _ _ refl) λ obj e. tt)

load_all-Linked :
    (env : Env) (os : Os) (exe : Exe) (s : Space)
    → Yields (λ st. Linked env.limit exe s.mem st.objects) (load_all env os exe s)
unfolding load_all has_soname
load_all-Linked env os exe s =
    Yields-bind (Yields-self (exe_object-Yields env.limit exe s.mem)) λ obj e.
      let st : State = record { objects = obj ∷ []; space = s } in
      Yields-if (nonzero obj.strtab)
        (Yields-mono
          (load_list-Grows (load_needed_so (suc max_objects) env os) 1 env.limit obj.strtab
            obj.needed_off st
            (λ soname st' lo hi.
              load_needed_so-Registers (suc max_objects) env os soname st' (omega arith) hi)
            (omega arith) (omega arith))
          λ st' g. Grows-Linked env.limit exe s.mem obj st st' e.0 refl (refl, tt) g)
        (yields (
          Grows-Linked env.limit exe s.mem obj st st e.0 refl (refl, tt)
            (Grows-refl st (omega arith))))

relocate_exe-Yields :
    (env : Env) (exe : Exe) (phs : List Phdr) (obj : Object) (objs : List Object) (s : Space)
    → Yields Anything (relocate_exe env exe phs obj objs s)
unfolding relocate_exe
relocate_exe-Yields env exe phs obj objs s =
    Yields-bind (relocate_object-Yields env objs obj env.hwcap env.auxv _) λ m h. yields tt

assign_tls-length :
    (current : ℕ) (objs : List Object) → length (assign_tls current objs) ≡ length objs
unfolding assign_tls
assign_tls-length current [] = refl
assign_tls-length current (o ∷ os) = elim (Bool-cases (ltb 0 o.tls_memsz)) [
  | inl placed ↦
      rw (placed, assign_tls) (ap suc (assign_tls-length (add64 (align16 current) o.tls_memsz) os))
  | inr skipped ↦ rw (skipped, assign_tls) (ap suc (assign_tls-length current os))
]

assign_tls-has_soname :
    (name : List ℕ) (current : ℕ) (objs : List Object)
    → has_soname name (assign_tls current objs) ≡ has_soname name objs
unfolding assign_tls has_soname
assign_tls-has_soname name current [] = refl
assign_tls-has_soname name current (o ∷ os) = elim (Bool-cases (ltb 0 o.tls_memsz)) [
  | inl placed ↦
      rw (placed, assign_tls, assign_tls-has_soname name (add64 (align16 current) o.tls_memsz) os)
        refl
  | inr skipped ↦ rw (skipped, assign_tls, assign_tls-has_soname name current os) refl
]

assign_tls-Distinct :
    (current : ℕ) (objs : List Object) → Distinct objs → Distinct (assign_tls current objs)
unfolding assign_tls
assign_tls-Distinct current [] d = tt
assign_tls-Distinct current (o ∷ os) d = elim (Bool-cases (ltb 0 o.tls_memsz)) [
  | inl placed ↦
      let next = add64 (align16 current) o.tls_memsz in
      rw (placed, assign_tls)
        (assign_tls-has_soname o.soname next os ∙ d.0, assign_tls-Distinct next os d.1)
  | inr skipped ↦
      rw (skipped, assign_tls)
        (assign_tls-has_soname o.soname current os ∙ d.0, assign_tls-Distinct current os d.1)
]

-- The objects at the jump: those that were registered, with their static TLS offsets.
pub record Placed (limit : ℕ) (exe : Exe) (m : Memory) (objs : List Object) : Type 0 where
  pub executable : Object
  pub libraries : List Object
  pub read : exe_object limit exe m ≡ ok executable
  pub objects : objs ≡ assign_tls tls_start (executable ∷ libraries)
  pub bounded : length objs ≤ max_objects
  pub distinct : Distinct objs

place_tls-Placed :
    (env : Env) (os : Os) (limit : ℕ) (exe : Exe) (m : Memory) (st : State)
    → Linked limit exe m st.objects
    → Placed limit exe m (place_tls env os st).objects
unfolding place_tls
place_tls-Placed env os limit exe m st h =
    let same = assign_tls-length tls_start st.objects in
    record {
      executable = h.executable;
      libraries = h.libraries;
      read = h.read;
      objects = ap (assign_tls tls_start) h.objects;
      bounded = rw same h.bounded;
      distinct = assign_tls-Distinct tls_start st.objects h.distinct;
    }

-- Relocating leaves the objects as they are.
relocate_program-objects :
    (env : Env) (exe : Exe) (phs : List Phdr) (st : State)
    → (0 < length st.objects)
    → Yields (λ st'. st'.objects ≡ st.objects) (relocate_program env exe phs st)
unfolding relocate_program
relocate_program-objects env exe phs st some_object = go st.objects some_object
  where
    go :
        (objs : List Object)
        → (0 < length objs)
        → Yields
            (λ st'. st'.objects ≡ objs)
            (relocate_program env exe phs (record st { objects = objs }))
    go [] some_object = absurd (omega (arith, some_object))
    go (o ∷ os) some_object =
        Yields-bind (relocate_exe-Yields env exe phs o (o ∷ os) st.space)
          λ s1 t. Yields-bind (relocate_all-Yields env (o ∷ os) os s1) λ s2 t. yields refl

-- The memory with the auxiliary vector in the C library's globals.
abbrev pub with_auxv : Env → Memory → Stack → Memory
with_auxv env m stack = store64 m (env.shared_globals + 0x418) stack.auxv

-- The program starts at the entry point of the auxiliary vector, with the stack pointer as it was and
-- the executable as the first of the linked objects.
pub record Started (env : Env) (sp : ℕ) (s : Space) (j : Jump) : Type 0 where
  pub stack : Stack
  pub exe : Exe
  pub parsed : parse_stack env.limit s.mem sp ≡ ok stack
  pub read : read_auxv env.limit (with_auxv env s.mem stack) stack ≡ ok exe
  pub entry : j.entry ≡ exe.exe_entry
  pub same_sp : j.sp ≡ sp
  pub placed : Placed env.limit exe (with_auxv env s.mem stack) j.state.objects

Placed-nonempty :
    (limit : ℕ) (exe : Exe) (m : Memory) (objs : List Object)
    → Placed limit exe m objs
    → 0 < length objs
Placed-nonempty limit exe m objs h =
    let same = ap (λ (l : List Object). length l) h.objects in
    omega (arith, same, assign_tls-length tls_start (h.executable ∷ h.libraries))

-- `linker_main` ends whatever the stack, the files and the kernel's answers are: it stops with a
-- message, or runs out of a table in memory, or overruns the array of 128 bytes with a name, or
-- jumps. The jump goes to the entry point of the auxiliary vector behind the stack's environment,
-- with the stack pointer that the linker was started with. The first object is then the executable,
-- as its program headers describe it, libraries are behind it, all with the TLS offsets that they
-- are given; they are at most 1024, and no two of them have the same name.
pub linker_main_ends :
    (env : Env) (os : Os) (sp : ℕ) (s : Space) → Yields (Started env sp s) (linker_main env os sp s)
unfolding linker_main
linker_main_ends env os sp s =
    Yields-bind (Yields-self (parse_stack-Yields env.limit s.mem sp)) λ stack parsed.
      Yields-bind (Yields-self (read_auxv-Yields env.limit (with_auxv env s.mem stack) stack))
        λ exe read. Yields-bind (load_all-Linked _ os exe _) λ st h.
          let h' = place_tls-Placed _ os env.limit exe (with_auxv env s.mem stack) st h in
          Yields-bind
            (relocate_program-objects _ exe _ (place_tls _ os st) (Placed-nonempty _ _ _ _ h'))
            λ st' same. yields (record {
              stack = stack;
              exe = exe;
              parsed = parsed.0;
              read = read.0;
              entry = refl;
              same_sp = refl;
              placed = rw same h';
            })
