-- ===== src/Runs/Relr.antt =====
-- An example of the theorem on packed relative relocations.
use muplar.Base.{ℕ, ◌≡◌, inr, refl, arith, List, [], ◌∷◌, All}
use muplar.Base.Words.{add64}
use muplar.Memory.{Memory, load, store, word, bytes, load64, store64}
use muplar.Linker.{Object, empty_object}
use muplar.Linker.Relr.{apply_relr}
use muplar.Linker.Relr.Decode.{window, addresses, patch_all, TableAt, Outside, apply_relr-addresses}
use muplar.Runs.Data.{zeros}

-- A slot at 0x1000, and the two behind it.
abbrev words : List ℕ
words = 0x1000 ∷ 7 ∷ []

abbrev table : Memory
table = store64 (store64 zeros 0x100 0x1000) 0x108 7

table-TableAt : TableAt table 0x100 words
unfolding store64 load64 load store word bytes
table-TableAt = (refl, (refl, tt))

abbrev library : Object
library = record empty_object { load_base = 0x40; relr = 0x100; relr_count = 2 }

words-Outside : All (Outside 0x100 0x110) (addresses 0x40 words 0)
unfolding addresses window add64
words-Outside = (inr (omega arith), (inr (omega arith), (inr (omega arith), tt)))

apply_relr-addresses_example :
    apply_relr library table ≡ patch_all 0x40 (0x1040 ∷ 0x1048 ∷ 0x1050 ∷ []) table
unfolding addresses window add64
apply_relr-addresses_example =
    apply_relr-addresses library words table table-TableAt (omega arith, (omega arith, tt)) refl
      (λ e. absurd (omega (arith, e))) words-Outside
