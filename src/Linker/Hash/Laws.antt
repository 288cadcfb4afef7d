-- ===== src/Linker/Hash/Laws.antt =====
-- What the two searches of a symbol table find.
use muplar.Base.{ℕ, zero, suc, ◌+◌, ◌*◌, ◌%◌, ◌<◌, ◌≡◌, refl, arith, List}
use muplar.Base.{
  Bool, true, false, ◌&&◌, ◌||◌, not, ◌==◌, ltb, leb, if◌then◌else◌, Bool-cases, inl, inr,
}
use muplar.Base.{Option, none, some, ltb→lt}
use mathlib.Core.Path.{subst}
use muplar.Base.Words.{u32}
use muplar.Memory.{Memory, load32}
use muplar.Elf.{Sym, shn_undef}
use muplar.Cstring.{NoNul, IsCstring, strcmp_at, is_zero}
use muplar.Cstring.Laws.{strcmp_at→IsCstring}
use muplar.Linker.{Object, nonzero}
use muplar.Linker.Hash.{HashTable, hash_table, bloom_passes, gnu_hash, chain_at, symbol_at}
use muplar.Linker.Hash.{name_matches, same_hash, chain_loop, lookup_gnu_hash}
use muplar.Linker.Symbols.{linear_loop, linear_lookup, find_symbol}

-- A symbol of the object's table whose name in the string table is `name`.
pub record IsNamed (m : Memory) (obj : Object) (name : List ℕ) (s : Sym) : Type 0 where
  pub index : ℕ
  pub in_table : s ≡ symbol_at m obj index
  pub in_strings : s.st_name < obj.strsz
  pub same_name : IsCstring m (obj.strtab + s.st_name) name

found_here :
    (m : Memory) (obj : Object) (name : List ℕ) (i : ℕ) (s : Sym)
    → NoNul name
    → symbol_at m obj i ≡ s
    → ltb (symbol_at m obj i).st_name obj.strsz ≡ true
    → is_zero (strcmp_at m (obj.strtab + (symbol_at m obj i).st_name) name) ≡ true
    → IsNamed m obj name s
found_here m obj name i s nn e inside same =
    subst (λ (s : Sym). IsNamed m obj name s) e
      (record {
        index = i;
        in_table = refl;
        in_strings = ltb→lt (symbol_at m obj i).st_name obj.strsz inside;
        same_name = strcmp_at→IsCstring m (obj.strtab + (symbol_at m obj i).st_name) name nn same;
      })

both : (a b : Bool) → (a && b) ≡ true → (a ≡ true) × (b ≡ true)
both true b e = (refl, e)
both false b e = absurd (ground arith)

some_inj : {A : Type 0} {a b : A} → some a ≡ some b → a ≡ b
some_inj e = cc

matches_both :
    (m : Memory) (obj : Object) (x : Sym) (name : List ℕ)
    → name_matches m obj x name ≡ true
    → (ltb x.st_name obj.strsz ≡ true)
      × (is_zero (strcmp_at m (obj.strtab + x.st_name) name) ≡ true)
unfolding name_matches
matches_both m obj x name h = both (ltb x.st_name obj.strsz) _ h

chain_loop-IsNamed :
    (n : ℕ) (m : Memory) (obj : Object) (t : HashTable) (hash : ℕ) (name : List ℕ) (i : ℕ) (s : Sym)
    → NoNul name
    → chain_loop n m obj t hash name i ≡ some s
    → IsNamed m obj name s
unfolding chain_loop
chain_loop-IsNamed zero m obj t hash name i s nn e = absurd (ground arith)
chain_loop-IsNamed (suc n) m obj t hash name i s nn e =
    let sym_i = symbol_at m obj i in
    elim (Bool-cases (same_hash (chain_at m t i) hash && name_matches m obj sym_i name)) [
      | inl hit ↦
          let same : sym_i ≡ s = some_inj (rw (hit, chain_loop) at e) in
          let (_, matches) = both (same_hash (chain_at m t i) hash) _ hit in
          let (inside, equal) = matches_both m obj sym_i name matches in
          found_here m obj name i s nn same inside equal
      | inr miss ↦ elim (Bool-cases (chain_at m t i % 2 == 1)) [
        | inl end ↦ let nothing : none ≡ some s = rw (miss, end, chain_loop) at e in absurd cc
        | inr more ↦
            chain_loop-IsNamed n m obj t hash name (u32 (i + 1)) s nn
              (rw (miss, more, chain_loop) at e)
      ]
    ]

lookup_gnu_hash-IsNamed :
    (m : Memory) (obj : Object) (name : List ℕ) (s : Sym)
    → NoNul name
    → lookup_gnu_hash m obj name ≡ some s
    → IsNamed m obj name s
unfolding lookup_gnu_hash
lookup_gnu_hash-IsNamed m obj name s nn e =
    let t = hash_table m obj.gnu_hash in
    let hash = gnu_hash name in
    let bucket = load32 m (t.buckets + 4 * (hash % t.nbuckets)) in
    guarded (not (nonzero obj.gnu_hash) || not (nonzero obj.symtab) || not (nonzero obj.strtab))
      (λ e1.
        guarded (not (bloom_passes m t hash))
          (λ e2.
            guarded (ltb bucket t.symoffset)
              (λ e3. chain_loop-IsNamed 10000 m obj t hash name bucket s nn e3) e2)
          e1)
      e
  where
    guarded :
        (b : Bool) {o : Option Sym}
        → (o ≡ some s → IsNamed m obj name s)
        → (if b then none else o) ≡ some s
        → IsNamed m obj name s
    guarded true next e = absurd cc
    guarded false next e = next e

linear_loop-IsNamed :
    (n : ℕ) (m : Memory) (obj : Object) (name : List ℕ) (j : ℕ) (s : Sym)
    → NoNul name
    → linear_loop n m obj name j ≡ some s
    → IsNamed m obj name s
unfolding linear_loop
linear_loop-IsNamed zero m obj name j s nn e = absurd cc
linear_loop-IsNamed (suc n) m obj name j s nn e =
    let x = symbol_at m obj j in
    let rest = linear_loop-IsNamed n m obj name (j + 1) s nn in
    elim (Bool-cases (x.st_shndx == shn_undef)) [
      | inl skip ↦ rest (rw (skip, linear_loop) at e)
      | inr defined ↦ elim (Bool-cases (leb obj.strsz x.st_name)) [
        | inl outside ↦
            (let nothing : none ≡ some s = rw (defined, outside, linear_loop) at e in absurd cc)
        | inr inside ↦ elim (Bool-cases (is_zero (strcmp_at m (obj.strtab + x.st_name) name))) [
          | inl hit ↦
              let same : x ≡ s = some_inj (rw (defined, inside, hit, linear_loop) at e) in
              let below : ltb x.st_name obj.strsz ≡ true = ground arith in
              found_here m obj name j s nn same below hit
          | inr miss ↦ rest (rw (defined, inside, miss, linear_loop) at e)
        ]
      ]
    ]

-- A symbol that is found in an object, by its hash table or without one, is an entry of the object's
-- symbol table, and the string at its offset in the string table is the name that was asked for.
pub find_symbol-IsNamed :
    (m : Memory) (obj : Object) (name : List ℕ) (s : Sym)
    → NoNul name
    → find_symbol m obj name ≡ some s
    → IsNamed m obj name s
unfolding find_symbol linear_lookup
find_symbol-IsNamed m obj name s nn e = go (nonzero obj.gnu_hash) e
  where
    linear :
        (b : Bool)
        → (if b then none else linear_loop 4095 m obj name 1) ≡ some s
        → IsNamed m obj name s
    linear true h = absurd cc
    linear false h = linear_loop-IsNamed 4095 m obj name 1 s nn h

    go :
        (b : Bool)
        → (if b then lookup_gnu_hash m obj name else linear_lookup m obj name) ≡ some s
        → IsNamed m obj name s
    go true h = lookup_gnu_hash-IsNamed m obj name s nn h
    go false h = linear (not (nonzero obj.symtab) || not (nonzero obj.strtab)) h
