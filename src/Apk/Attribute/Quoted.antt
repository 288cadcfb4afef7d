-- ===== src/Apk/Attribute/Quoted.antt =====
-- What the readers of attributes return: a quoted part of the text, inside of it.
use muplar.Base.{ℕ, ◌+◌, ◌-◌, ◌<◌, ◌≡◌, ◌⊎◌}
use muplar.Base.{List, Option, none, some, length, get_or}
use muplar.Apk.Find.{substr}
use muplar.Apk.Find.Places.{IsPlace}

-- `v` is the part between a quote, single or double, and the next one of the same kind, both of which
-- are inside of the text.
pub record IsQuoted (s v : List ℕ) : Type 0 where
  pub quote : ℕ
  pub close : ℕ
  pub opens : (get_or s quote 0 ≡ 34) ⊎ (get_or s quote 0 ≡ 39)
  pub inside : quote < length s
  pub closes : IsPlace s (get_or s quote 0) (quote + 1) close
  pub content : v ≡ substr s (quote + 1) (close - quote - 1)

-- What is found, if anything is, has the property.
pub data Finds {A : Type 0} (P : A → Type 0) : Option A → Type 0 where
  nothing : Finds P none
  finds : {a : A} → P a → Finds P (some a)
