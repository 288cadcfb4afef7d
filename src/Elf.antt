-- ===== src/Elf.antt =====
-- linker64/src/elf.h: the ELF64 constants and structures, and each structure's image in memory.
use muplar.Base.{ℕ, ◌+◌, ◌/◌, ◌%◌, ◌^◌, List}
use muplar.Memory.{Memory, load, load16, load32, load64}

-- The names of elf.h in lower case.
abbrev pub ei_nident : ℕ
ei_nident = 16

abbrev pub elfmag0 : ℕ
elfmag0 = 0x7f

abbrev pub elfmag1 : ℕ
elfmag1 = b'E'

abbrev pub elfmag2 : ℕ
elfmag2 = b'L'

abbrev pub elfmag3 : ℕ
elfmag3 = b'F'

abbrev pub pt_load : ℕ
pt_load = 1

abbrev pub pt_dynamic : ℕ
pt_dynamic = 2

abbrev pub pt_phdr : ℕ
pt_phdr = 6

abbrev pub pt_tls : ℕ
pt_tls = 7

abbrev pub dt_null : ℕ
dt_null = 0

abbrev pub dt_needed : ℕ
dt_needed = 1

abbrev pub dt_pltrelsz : ℕ
dt_pltrelsz = 2

abbrev pub dt_strtab : ℕ
dt_strtab = 5

abbrev pub dt_symtab : ℕ
dt_symtab = 6

abbrev pub dt_rela : ℕ
dt_rela = 7

abbrev pub dt_relasz : ℕ
dt_relasz = 8

abbrev pub dt_strsz : ℕ
dt_strsz = 10

abbrev pub dt_jmprel : ℕ
dt_jmprel = 23

abbrev pub dt_android_rela : ℕ
dt_android_rela = 0x60000011

abbrev pub dt_android_relasz : ℕ
dt_android_relasz = 0x60000012

abbrev pub r_aarch64_abs64 : ℕ
r_aarch64_abs64 = 257

abbrev pub r_aarch64_glob_dat : ℕ
r_aarch64_glob_dat = 1025

abbrev pub r_aarch64_jump_slot : ℕ
r_aarch64_jump_slot = 1026

abbrev pub r_aarch64_relative : ℕ
r_aarch64_relative = 1027

abbrev pub r_aarch64_tls_tprel64 : ℕ
r_aarch64_tls_tprel64 = 1030

abbrev pub r_aarch64_tlsdesc : ℕ
r_aarch64_tlsdesc = 1031

abbrev pub r_aarch64_irelative : ℕ
r_aarch64_irelative = 1032

abbrev pub shn_undef : ℕ
shn_undef = 0

abbrev pub stt_gnu_ifunc : ℕ
stt_gnu_ifunc = 10

abbrev pub pf_x : ℕ
pf_x = 1

abbrev pub pf_w : ℕ
pf_w = 2

abbrev pub pf_r : ℕ
pf_r = 4

abbrev pub at_null : ℕ
at_null = 0

abbrev pub at_phdr : ℕ
at_phdr = 3

abbrev pub at_phent : ℕ
at_phent = 4

abbrev pub at_phnum : ℕ
at_phnum = 5

abbrev pub at_entry : ℕ
at_entry = 9

abbrev pub at_hwcap : ℕ
at_hwcap = 16

-- `Elf64_Ehdr`, 64 bytes.
pub record Ehdr : Type 0 where
  pub e_ident : List ℕ
  pub e_type : ℕ
  pub e_machine : ℕ
  pub e_version : ℕ
  pub e_entry : ℕ
  pub e_phoff : ℕ
  pub e_shoff : ℕ
  pub e_flags : ℕ
  pub e_ehsize : ℕ
  pub e_phentsize : ℕ
  pub e_phnum : ℕ
  pub e_shentsize : ℕ
  pub e_shnum : ℕ
  pub e_shstrndx : ℕ

abbrev pub ehdr_at : Memory → ℕ → Ehdr
ehdr_at m a = record {
  e_ident = load m a ei_nident;
  e_type = load16 m (a + 16);
  e_machine = load16 m (a + 18);
  e_version = load32 m (a + 20);
  e_entry = load64 m (a + 24);
  e_phoff = load64 m (a + 32);
  e_shoff = load64 m (a + 40);
  e_flags = load32 m (a + 48);
  e_ehsize = load16 m (a + 52);
  e_phentsize = load16 m (a + 54);
  e_phnum = load16 m (a + 56);
  e_shentsize = load16 m (a + 58);
  e_shnum = load16 m (a + 60);
  e_shstrndx = load16 m (a + 62);
}

-- `Elf64_Phdr`, 56 bytes.
pub record Phdr : Type 0 where
  pub p_type : ℕ
  pub p_flags : ℕ
  pub p_offset : ℕ
  pub p_vaddr : ℕ
  pub p_paddr : ℕ
  pub p_filesz : ℕ
  pub p_memsz : ℕ
  pub p_align : ℕ

abbrev pub phdr_at : Memory → ℕ → Phdr
phdr_at m a = record {
  p_type = load32 m a;
  p_flags = load32 m (a + 4);
  p_offset = load64 m (a + 8);
  p_vaddr = load64 m (a + 16);
  p_paddr = load64 m (a + 24);
  p_filesz = load64 m (a + 32);
  p_memsz = load64 m (a + 40);
  p_align = load64 m (a + 48);
}

-- `Elf64_Dyn`, 16 bytes. The tag is its bit pattern.
pub record Dyn : Type 0 where
  pub d_tag : ℕ
  pub d_val : ℕ

abbrev pub dyn_at : Memory → ℕ → Dyn
dyn_at m a = record { d_tag = load64 m a; d_val = load64 m (a + 8) }

-- `Elf64_Sym`, 24 bytes.
pub record Sym : Type 0 where
  pub st_name : ℕ
  pub st_info : ℕ
  pub st_other : ℕ
  pub st_shndx : ℕ
  pub st_value : ℕ
  pub st_size : ℕ

abbrev pub sym_at : Memory → ℕ → Sym
sym_at m a = record {
  st_name = load32 m a;
  st_info = m (a + 4);
  st_other = m (a + 5);
  st_shndx = load16 m (a + 6);
  st_value = load64 m (a + 8);
  st_size = load64 m (a + 16);
}

-- `Elf64_Rela`, 24 bytes. The addend is its bit pattern, as its uses convert it to `uint64_t`.
pub record Rela : Type 0 where
  pub r_offset : ℕ
  pub r_info : ℕ
  pub r_addend : ℕ

abbrev pub rela_at : Memory → ℕ → Rela
rela_at m a = record {
  r_offset = load64 m a;
  r_info = load64 m (a + 8);
  r_addend = load64 m (a + 16);
}

-- `Elf64_auxv_t`, 16 bytes.
pub record Auxv : Type 0 where
  pub a_type : ℕ
  pub a_val : ℕ

abbrev pub auxv_at : Memory → ℕ → Auxv
auxv_at m a = record { a_type = load64 m a; a_val = load64 m (a + 8) }

-- `ELF64_ST_TYPE`, `ELF64_R_SYM` and `ELF64_R_TYPE`.
abbrev pub st_type : ℕ → ℕ
st_type i = i % 16

abbrev pub r_sym : ℕ → ℕ
r_sym i = i / 2 ^ 32 % 2 ^ 32

abbrev pub r_type : ℕ → ℕ
r_type i = i % 2 ^ 32
