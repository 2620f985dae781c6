-- ===== src/Elf/Layout.antt =====
-- How the structures of the ELF-64 format lie in memory: a cast of a byte pointer to a pointer to
-- one of them reads these fields.
pub mod Encode
pub mod RoundTrip
use c_bdd.Base.{ℕ, List, take, drop}
use c_bdd.Base.Bytes.{read_le}
use c_bdd.Elf.{Ehdr, Phdr, Shdr, Sym}

abbrev pub ehdr_size : ℕ
ehdr_size = 64

abbrev pub phdr_size : ℕ
phdr_size = 56

abbrev pub shdr_size : ℕ
shdr_size = 64

abbrev pub sym_size : ℕ
sym_size = 24

unfoldable pub decode_ehdr : List ℕ → Ehdr
decode_ehdr bytes = record {
  e_ident = take 16 bytes;
  e_type = read_le 2 (drop 16 bytes);
  e_machine = read_le 2 (drop 18 bytes);
  e_version = read_le 4 (drop 20 bytes);
  e_entry = read_le 8 (drop 24 bytes);
  e_phoff = read_le 8 (drop 32 bytes);
  e_shoff = read_le 8 (drop 40 bytes);
  e_flags = read_le 4 (drop 48 bytes);
  e_ehsize = read_le 2 (drop 52 bytes);
  e_phentsize = read_le 2 (drop 54 bytes);
  e_phnum = read_le 2 (drop 56 bytes);
  e_shentsize = read_le 2 (drop 58 bytes);
  e_shnum = read_le 2 (drop 60 bytes);
  e_shstrndx = read_le 2 (drop 62 bytes);
}

unfoldable pub decode_phdr : List ℕ → Phdr
decode_phdr bytes = record {
  p_type = read_le 4 (drop 0 bytes);
  p_flags = read_le 4 (drop 4 bytes);
  p_offset = read_le 8 (drop 8 bytes);
  p_vaddr = read_le 8 (drop 16 bytes);
  p_paddr = read_le 8 (drop 24 bytes);
  p_filesz = read_le 8 (drop 32 bytes);
  p_memsz = read_le 8 (drop 40 bytes);
  p_align = read_le 8 (drop 48 bytes);
}

unfoldable pub decode_shdr : List ℕ → Shdr
decode_shdr bytes = record {
  sh_name = read_le 4 (drop 0 bytes);
  sh_type = read_le 4 (drop 4 bytes);
  sh_flags = read_le 8 (drop 8 bytes);
  sh_addr = read_le 8 (drop 16 bytes);
  sh_offset = read_le 8 (drop 24 bytes);
  sh_size = read_le 8 (drop 32 bytes);
  sh_link = read_le 4 (drop 40 bytes);
  sh_info = read_le 4 (drop 44 bytes);
  sh_addralign = read_le 8 (drop 48 bytes);
  sh_entsize = read_le 8 (drop 56 bytes);
}

unfoldable pub decode_sym : List ℕ → Sym
decode_sym bytes = record {
  st_name = read_le 4 (drop 0 bytes);
  st_info = read_le 1 (drop 4 bytes);
  st_other = read_le 1 (drop 5 bytes);
  st_shndx = read_le 2 (drop 6 bytes);
  st_value = read_le 8 (drop 8 bytes);
  st_size = read_le 8 (drop 16 bytes);
}
