-- ===== src/Linker/Libs.antt =====
-- `try_dir`, `is_system_lib`, `load_needed_so` and `lnk_dlopen` of linker64/src/linker.c.
pub mod Loads
pub mod Growth
pub mod Relocates
pub mod Opening
use muplar.Base.{ℕ, zero, suc, ◌+◌, List, [], ◌∷◌, ◌++◌, Bool, true, false, ◌||◌, ◌==◌, leb}
use muplar.Base.{if◌then◌else◌, length, drop, Option, none, some}
use muplar.Base.Int.{ℤ, pos, negsuc}
use muplar.Base.Text.{codes}
use muplar.Cstring.{str_eq, basename, read_string}
use muplar.Linker.{
  Object, empty_object, Env, too_many_objects, Result, ok, fatal, fault, stuck, ◌>>=◌,
}
use muplar.Linker.{max_objects, soname_size, nonzero}
use muplar.Linker.Load.{Os, Space, load_so, sys_close}
use muplar.Linker.Packed.{relocate_object}

-- The path that was opened and its descriptor.
unfoldable pub try_dir : Os → List ℕ → List ℕ → Option (List ℕ × ℕ)
try_dir os dir soname =
    let path = dir ++ b'/' ∷ soname in
    elim (os.openat path) [ pos fd ↦ some (path, fd) | negsuc e ↦ none ]

unfoldable pub search_dirs : Os → List (List ℕ) → List ℕ → Option (List ℕ × ℕ)
search_dirs os [] soname = none
search_dirs os (dir ∷ dirs) soname =
    let rest = search_dirs os dirs soname in
    elim (try_dir os dir soname) [ none ↦ rest | some found ↦ some found ]

abbrev pub library_dirs : List (List ℕ)
library_dirs =
    codes "/data/local/tmp"
    ∷ codes "/system/lib64"
    ∷ codes "/apex/com.android.art/lib64"
    ∷ codes "/apex/com.android.runtime/lib64"
    ∷ codes "/apex/com.android.i18n/lib64"
    ∷ codes "/apex/com.android.conscrypt/lib64"
    ∷ codes "/vendor/lib64"
    ∷ codes "/lib"
    ∷ codes "/usr/lib"
    ∷ []

unfoldable pub is_system_lib : List ℕ → Bool
is_system_lib soname =
    if str_eq soname (codes "libdl.so")
    then true
    else if str_eq soname (codes "libdl_android.so")
    then true
    else if str_eq soname (codes "ld-android.so")
    then true
    else false

-- The objects that are registered, and the address space.
pub record State : Type 0 where
  pub objects : List Object
  pub space : Space

unfoldable pub has_soname : List ℕ → List Object → Bool
has_soname soname [] = false
has_soname soname (obj ∷ objs) = str_eq obj.soname soname || has_soname soname objs

-- `g_nobjects++`
abbrev pub register : Object → State → State
register obj st = record st { objects = st.objects ++ obj ∷ [] }

-- The new object after the search and the load; a library that is a system library or is not found
-- has no segments. `lnk_strcpy` into `soname[128]` overruns the array for a longer name: `fault`. A
-- path is then shorter than `path[256]`, since no directory has more than 33 bytes.
unfoldable pub load_object : Env → Os → List ℕ → Space → Result (Object × Space)
load_object env os soname s =
    let obj = record empty_object { soname = soname } in
    let searched : Result (Object × Space) = elim (search_dirs os library_dirs soname) [
      | none ↦ ok (obj, s)
      | some found ↦ (do
        (obj', s') ← load_so os env.limit (record obj { path = found.0 }) found.1 s
        ok (obj', sys_close found.1 s'))
    ] in
    if leb soname_size (length soname)
    then fault
    else if is_system_lib soname
    then ok (obj, s)
    else searched

-- The loop over the needed libraries: each name is read when its turn comes.
unfoldable pub load_list : (List ℕ → State → Result State) → ℕ → ℕ → List ℕ → State → Result State
load_list load limit strtab [] st = ok st
load_list load limit strtab (off ∷ offs) st = do
  st' ← load (read_string limit st.space.mem (strtab + off)) st
  load_list load limit strtab offs st'

unfoldable pub load_needed_so : ℕ → Env → Os → List ℕ → State → Result State
load_needed_so zero env os soname st = stuck
load_needed_so (suc fuel) env os soname st =
    let load : Result State = (do
      (obj, s) ← load_object env os soname st.space
      let st' : State = record { objects = st.objects ++ obj ∷ []; space = s }
      if nonzero obj.strtab
          then load_list (load_needed_so fuel env os) env.limit obj.strtab obj.needed_off st'
          else ok st') in
    if has_soname soname st.objects
    then ok st
    else if leb max_objects (length st.objects)
    then fatal too_many_objects
    else load

-- `relocate_object` on each of the objects, with all that are registered to search.
unfoldable pub relocate_all : Env → List Object → List Object → Space → Result Space
relocate_all env objs [] s = ok s
relocate_all env objs (obj ∷ rest) s = do
  m ← relocate_object env objs obj env.hwcap env.auxv s.mem
  relocate_all env objs rest (record s { mem = m })

-- The index of the first object that passes the test.
unfoldable pub find_object : (Object → Bool) → List Object → ℕ → Option ℕ
find_object test [] i = none
find_object test (obj ∷ objs) i =
    let rest = find_object test objs (i + 1) in if test obj then some i else rest

-- `lnk_dlopen`: the index of the object, `none` for NULL. The file name `none` is NULL.
unfoldable pub dlopen : Env → Os → Option (List ℕ) → State → Result (Option ℕ × State)
dlopen env os none st = ok (some 0, st)
dlopen env os (some filename) st =
    let base_filename = basename filename in
    let known = λ (obj : Object).
      str_eq obj.soname filename || str_eq obj.path filename || str_eq obj.soname base_filename in
    let load : Result (Option ℕ × State) = (do
      st' ← load_needed_so (suc max_objects) env os base_filename st
      s ← relocate_all env st'.objects (drop (length st.objects) st'.objects) st'.space
      ok (
        find_object (λ obj. str_eq obj.soname base_filename) st'.objects 0,
        record st' { space = s },
      )) in
    elim (find_object known st.objects 0) [ some i ↦ ok (some i, st) | none ↦ load ]
