-- ===== src/Linker/Hash.antt =====
-- `gnu_hash` and `lookup_gnu_hash` of linker64/src/linker.c.
pub mod Laws
use Prim.Native.Nat.{bit_and, bit_or, bit_xor}
use muplar.Base.{
  ℕ, zero, suc, ◌+◌, ◌-◌, ◌*◌, ◌/◌, ◌%◌, ◌^◌, List, [], ◌∷◌, Bool, ◌||◌, ◌&&◌, not, ◌==◌, ltb,
}
use muplar.Base.{if◌then◌else◌, Option, none, some}
use muplar.Base.Words.{u32}
use muplar.Memory.{Memory, load32, load64}
use muplar.Elf.{Sym, sym_at}
use muplar.Cstring.{strcmp_at, is_zero}
use muplar.Linker.{Object, nonzero}

-- `h = (h << 5) + h + c` in 32 bits, for each byte.
unfoldable pub gnu_hash_loop : ℕ → List ℕ → ℕ
gnu_hash_loop h [] = h
gnu_hash_loop h (c ∷ name) = gnu_hash_loop (u32 (u32 (h * 2 ^ 5) + h + c)) name

unfoldable pub gnu_hash : List ℕ → ℕ
unfolding gnu_hash_loop
gnu_hash name = gnu_hash_loop 5381 name

-- The parts of the table at `obj->gnu_hash`: four header words, then `bloom`, `buckets`, `chains`.
pub record HashTable : Type 0 where
  pub nbuckets : ℕ
  pub symoffset : ℕ
  pub bloom_size : ℕ
  pub bloom_shift : ℕ
  pub bloom : ℕ
  pub buckets : ℕ
  pub chains : ℕ

unfoldable pub hash_table : Memory → ℕ → HashTable
hash_table m a =
    let nbuckets = load32 m a in
    let bloom_size = load32 m (a + 8) in
    record {
      nbuckets = nbuckets;
      symoffset = load32 m (a + 4);
      bloom_size = bloom_size;
      bloom_shift = load32 m (a + 12);
      bloom = a + 16;
      buckets = a + 16 + 8 * bloom_size;
      chains = a + 16 + 8 * bloom_size + 4 * nbuckets;
    }

-- The two bits of the Bloom filter that a hash asks for, and the test `(word & mask) == mask`.
unfoldable pub bloom_mask : HashTable → ℕ → ℕ
bloom_mask t hash = bit_or (2 ^ (hash % 64)) (2 ^ (hash / 2 ^ t.bloom_shift % 64))

unfoldable pub bloom_passes : Memory → HashTable → ℕ → Bool
unfolding bloom_mask
bloom_passes m t hash =
    let word = load64 m (t.bloom + 8 * (hash / 64 % t.bloom_size)) in
    let mask = bloom_mask t hash in bit_and word mask == mask

-- `chains[i - symoffset]`, the index in 32 bits.
unfoldable pub chain_at : Memory → HashTable → ℕ → ℕ
chain_at m t i = load32 m (t.chains + 4 * u32 (i + 2 ^ 32 - t.symoffset))

abbrev pub symbol_at : Memory → Object → ℕ → Sym
symbol_at m obj i = sym_at m (obj.symtab + 24 * i)

-- `sym->st_name < obj->strsz && lnk_strcmp(obj->strtab + sym->st_name, name) == 0`
unfoldable pub name_matches : Memory → Object → Sym → List ℕ → Bool
name_matches m obj sym name =
    ltb sym.st_name obj.strsz && is_zero (strcmp_at m (obj.strtab + sym.st_name) name)

-- `((chain_val ^ hash) >> 1) == 0`
unfoldable pub same_hash : ℕ → ℕ → Bool
same_hash chain_val hash = bit_xor chain_val hash / 2 == 0

-- The walk along a chain, of `loop_limit` rounds at most.
unfoldable pub chain_loop : ℕ → Memory → Object → HashTable → ℕ → List ℕ → ℕ → Option Sym
unfolding chain_at name_matches same_hash
chain_loop zero m obj t hash name i = none
chain_loop (suc loop_limit) m obj t hash name i =
    let rest = chain_loop loop_limit m obj t hash name (u32 (i + 1)) in
    let chain_val = chain_at m t i in
    let sym = symbol_at m obj i in
    if same_hash chain_val hash && name_matches m obj sym name
    then some sym
    else if chain_val % 2 == 1
    then none
    else rest

unfoldable pub lookup_gnu_hash : Memory → Object → List ℕ → Option Sym
unfolding gnu_hash hash_table bloom_passes chain_loop
lookup_gnu_hash m obj name =
    if not (nonzero obj.gnu_hash) || not (nonzero obj.symtab) || not (nonzero obj.strtab)
    then none
    else (let hash = gnu_hash name in
        let t = hash_table m obj.gnu_hash in
        let bucket = load32 m (t.buckets + 4 * (hash % t.nbuckets)) in
        if not (bloom_passes m t hash)
        then none
        else if ltb bucket t.symoffset
        then none
        else chain_loop 10000 m obj t hash name bucket)
