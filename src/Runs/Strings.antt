-- ===== src/Runs/Strings.antt =====
-- Examples of the theorems on the string helpers.
use muplar.Base.{
  ℕ, ◌+◌, ◌≡◌, ◌↔◌, refl, arith, List, ◌∷◌, ◌++◌, some, true, ◌&&◌, leb, ltb, if◌then◌else◌, ◌%◌,
  length, replicate, ◌⊎◌, inr,
}
use Prim.Native.Nat.{◌<◌}
use muplar.Base.Text.{codes}
use muplar.Memory.{Memory, of_bytes}
use muplar.Cstring.{IsCstring, strlen, strcmp_at, is_zero, strcat, memset, basename}
use muplar.Linker.Libc.{basename_at, basename_at-basename}
use muplar.Cstring.Laws.{strlen-length, strcmp_at_iff}
use muplar.Cstring.Copy.{strcat-append, memset_lem, basename_lem}
use muplar.Cstring.Hex.{print_hex, read_hex, read_hex-print_hex}

-- The string "lib" at address 0.
abbrev lib : Memory
lib = of_bytes (codes "lib")

lib-IsCstring : IsCstring lib 0 (codes "lib")
unfolding of_bytes
lib-IsCstring = (
  refl,
  (λ e. absurd (omega (arith, e))),
  (refl, (λ e. absurd (omega (arith, e))), (refl, (λ e. absurd (omega (arith, e))), refl)),
)

strlen-length_example : strlen 4 lib 0 ≡ some 3
strlen-length_example = strlen-length 4 lib 0 (codes "lib") lib-IsCstring (omega arith)

strcmp_at_iff_example :
    (is_zero (strcmp_at lib 0 (codes "lib")) ≡ true) ↔ IsCstring lib 0 (codes "lib")
strcmp_at_iff_example = strcmp_at_iff lib 0 (codes "lib") (
  (λ e. absurd (omega (arith, e))),
  ((λ e. absurd (omega (arith, e))), ((λ e. absurd (omega (arith, e))), tt)),
)

-- The strings "lib" at address 0 and "c" at 16.
abbrev two_strings : Memory
two_strings = of_bytes (codes "lib" ++ replicate 13 0 ++ codes "c")

lib_there : IsCstring two_strings 0 (codes "lib")
unfolding of_bytes
lib_there = (
  refl,
  (λ e. absurd (omega (arith, e))),
  (refl, (λ e. absurd (omega (arith, e))), (refl, (λ e. absurd (omega (arith, e))), refl)),
)

c_there : IsCstring two_strings 16 (codes "c")
unfolding of_bytes
c_there = (refl, (λ e. absurd (omega (arith, e))), refl)

strcat-append_example :
    (m' : Memory) × (strcat 9 two_strings 0 16 ≡ some m')
    × IsCstring m' 0 (codes "lib" ++ codes "c")
    × ((x : ℕ) → (x < 3) ⊎ (4 < x) → m' x ≡ two_strings x)
strcat-append_example =
    strcat-append 9 two_strings 0 16 (codes "lib") (codes "c") lib_there c_there (omega arith)
      (omega arith) (inr (omega arith))

memset_lem_example : memset lib 1 255 2 2 ≡ (if leb 1 2 && ltb 2 (1 + 2) then 255 % 256 else lib 2)
memset_lem_example = memset_lem lib 1 255 2 2

basename_lem_example :
    (basename (codes "/system" ++ b'/' ∷ codes "c") ≡ codes "c")
    × (basename (codes "c") ≡ codes "c")
basename_lem_example =
    basename_lem (codes "/system") (codes "c") ((λ e. absurd (omega (arith, e))), tt)

read_hex-print_hex_example :
    (ds : List ℕ) × (print_hex 0xdeadbeef ≡ b'0' ∷ b'x' ∷ ds)
    × (length ds ≡ 16)
    × (read_hex 0 ds ≡ 0xdeadbeef)
read_hex-print_hex_example = read_hex-print_hex 0xdeadbeef (omega arith)

-- The string "d/a" at address 0.
abbrev program : Memory
program = of_bytes (codes "d/a")

program-IsCstring : IsCstring program 0 (codes "d/a")
unfolding of_bytes
program-IsCstring = (
  refl,
  (λ e. absurd (omega (arith, e))),
  (refl, (λ e. absurd (omega (arith, e))), (refl, (λ e. absurd (omega (arith, e))), refl)),
)

basename_at-basename_example :
    (a : ℕ) × (basename_at 4 program 0 0 ≡ some a) × IsCstring program a (basename (codes "d/a"))
basename_at-basename_example =
    basename_at-basename 4 program 0 (codes "d/a") program-IsCstring (omega arith)
