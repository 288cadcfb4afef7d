-- ===== src/Linker/Libc.antt =====
-- What the linker gives to the C library: `lnk_libc_init` with `lnk_basename`, `lnk_dlclose` and
-- `lnk_dlerror` of linker64/src/linker.c.
use muplar.Base.{
  ℕ, zero, suc, ◌+◌, ◌*◌, ◌<◌, ◌≡◌, arith, List, [], ◌∷◌, Option, none, some, inl, inr,
}
use muplar.Base.{◌||◌, ◌==◌, if◌then◌else◌, length, Bool-cases}
use muplar.Base.Words.{u32}
use muplar.Base.Text.{codes}
use muplar.Memory.{Memory, load64, store64}
use muplar.Cstring.{IsCstring, basename, basename_loop}
use muplar.Linker.{Object, Env}
use muplar.Linker.Symbols.{lookup_symbol}

-- `lnk_basename` on pointers, with rounds left; `none` if they run out.
unfoldable pub basename_at : (limit : ℕ) → Memory → (slash p : ℕ) → Option ℕ
basename_at zero m slash p = none
basename_at (suc limit) m slash p =
    let rest = basename_at limit m (if m p == b'/' then p + 1 else slash) (p + 1) in
    if m p == 0 then some slash else rest

-- The call of `slingshot`, which is the program's `main`, and the memory that it finds. Its result is
-- the status with which the program exits.
pub record MainCall : Type 0 where
  pub argc : ℕ
  pub argv : ℕ
  pub envp : ℕ
  pub mem : Memory

-- `*environ_addr = envp`, if the symbol is there.
unfoldable pub set_environ : (environ_addr envp : ℕ) → Memory → Memory
set_environ environ_addr envp m = if environ_addr == 0 then m else store64 m environ_addr envp

-- `*progname_addr = lnk_basename(argv[0])`, if the symbol and the argument are there.
unfoldable pub set_progname : (limit progname_addr argc argv : ℕ) → Memory → Option Memory
set_progname limit progname_addr argc argv m =
    let argv0 = load64 m argv in
    if progname_addr == 0 || argc == 0 || argv0 == 0
    then some m
    else elim (basename_at limit m argv0 argv0) [
      | none ↦ none
      | some name ↦ some (store64 m progname_addr name)
    ]

-- `lnk_libc_init`, up to the call. `argc` is a count that the kernel wrote, below `2 ^ 31`.
unfoldable pub libc_init : Env → List Object → Memory → (raw_args : ℕ) → Option MainCall
libc_init env objs m raw_args =
    let argc = u32 (load64 m raw_args) in
    let argv = raw_args + 8 in
    let envp = argv + 8 * (argc + 1) in
    let m' = set_environ (lookup_symbol env m objs (codes "environ")) envp m in
    elim (set_progname env.limit (lookup_symbol env m' objs (codes "__progname")) argc argv m') [
      | none ↦ none
      | some m'' ↦ some (record { argc = argc; argv = argv; envp = envp; mem = m'' })
    ]

-- `lnk_dlclose` does nothing and returns 0, and `lnk_dlerror` returns NULL.
abbrev pub dlclose : (handle : ℕ) → ℕ
dlclose handle = 0

abbrev pub dlerror : ℕ
dlerror = 0

basename_at-loop :
    (limit : ℕ) (m : Memory) (slash p : ℕ) (behind path : List ℕ)
    → IsCstring m slash behind
    → IsCstring m p path
    → length path < limit
    → (a : ℕ) × (basename_at limit m slash p ≡ some a) × IsCstring m a (basename_loop behind path)
unfolding basename_at basename_loop
basename_at-loop zero m slash p behind path b s h = absurd (omega arith)
basename_at-loop (suc limit) m slash p behind [] b s h = (slash, ground arith, b)
basename_at-loop (suc limit) m slash p behind (c ∷ path) b (here, n, s) h =
    elim (Bool-cases (c == b'/')) [
      | inl e ↦
          let (a, found, name) =
            basename_at-loop limit m (p + 1) (p + 1) path path s s (omega arith) in
          (a, ground arith, rw e name)
      | inr e ↦
          let (a, found, name) =
            basename_at-loop limit m slash (p + 1) behind path b s (omega arith) in
          (a, ground arith, rw e name)
    ]

-- `lnk_basename` of a string in memory ends, given more rounds than it has bytes, and returns a
-- pointer at which the string `basename` of it stands.
pub basename_at-basename :
    (limit : ℕ) (m : Memory) (p : ℕ) (path : List ℕ)
    → IsCstring m p path
    → length path < limit
    → (a : ℕ) × (basename_at limit m p p ≡ some a) × IsCstring m a (basename path)
unfolding basename
basename_at-basename limit m p path s h = basename_at-loop limit m p p path path s s h
