-- ===== src/Elf.antt =====
-- The structures of <elf.h> that lib/bdd_elf.cpp reads (64-bit build), and class ElfFile of
-- include/bdd_elf.hpp. Its functions are in the children: Layout (structures and bytes), Stream and
-- Load (the constructor), Sections (section headers and names), Symbols (functions), Describe.
pub mod Layout
pub mod Stream
pub mod Load
pub mod Describe
pub mod Symbols
pub mod Sections
pub mod Print
use c_bdd.Base.{ℕ, List}

-- Elf64_Ehdr, Elf64_Phdr, Elf64_Shdr and Elf64_Sym.
pub record Ehdr : Type 0 where
  pub e_ident : List ℕ
  pub e_type : ℕ
  pub e_machine : ℕ
  pub e_version : ℕ
  pub e_entry : ℕ
  pub e_phoff : ℕ
  pub e_shoff : ℕ
  pub e_flags : ℕ
  pub e_ehsize : ℕ
  pub e_phentsize : ℕ
  pub e_phnum : ℕ
  pub e_shentsize : ℕ
  pub e_shnum : ℕ
  pub e_shstrndx : ℕ

pub record Phdr : Type 0 where
  pub p_type : ℕ
  pub p_flags : ℕ
  pub p_offset : ℕ
  pub p_vaddr : ℕ
  pub p_paddr : ℕ
  pub p_filesz : ℕ
  pub p_memsz : ℕ
  pub p_align : ℕ

pub record Shdr : Type 0 where
  pub sh_name : ℕ
  pub sh_type : ℕ
  pub sh_flags : ℕ
  pub sh_addr : ℕ
  pub sh_offset : ℕ
  pub sh_size : ℕ
  pub sh_link : ℕ
  pub sh_info : ℕ
  pub sh_addralign : ℕ
  pub sh_entsize : ℕ

pub record Sym : Type 0 where
  pub st_name : ℕ
  pub st_info : ℕ
  pub st_other : ℕ
  pub st_shndx : ℕ
  pub st_value : ℕ
  pub st_size : ℕ

pub record ElfFile : Type 0 where
  pub header : Ehdr
  pub program_headers : List Phdr
  pub sections_headers : List Shdr
  pub sections_data : List (List ℕ)
