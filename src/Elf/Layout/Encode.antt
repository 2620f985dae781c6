-- ===== src/Elf/Layout/Encode.antt =====
-- The ELF-64 structures from the writing side: encoders, and the bounds that the fields need.
use c_bdd.Base.{ℕ, ◌^◌, ◌<◌, ◌≡◌, List, ◌++◌, length}
use c_bdd.Base.Bytes.{write_le}
use c_bdd.Elf.{Ehdr, Phdr, Shdr, Sym}

abbrev pub encode_phdr : Phdr → List ℕ
encode_phdr h =
    write_le 4 h.p_type
    ++ (write_le 4 h.p_flags
        ++ (write_le 8 h.p_offset
            ++ (write_le 8 h.p_vaddr
                ++ (write_le 8 h.p_paddr
                    ++ (write_le 8 h.p_filesz
                        ++ (write_le 8 h.p_memsz ++ (write_le 8 h.p_align)))))))

abbrev pub encode_shdr : Shdr → List ℕ
encode_shdr h =
    write_le 4 h.sh_name
    ++ (write_le 4 h.sh_type
        ++ (write_le 8 h.sh_flags
            ++ (write_le 8 h.sh_addr
                ++ (write_le 8 h.sh_offset
                    ++ (write_le 8 h.sh_size
                        ++ (write_le 4 h.sh_link
                            ++ (write_le 4 h.sh_info
                                ++ (write_le 8 h.sh_addralign ++ (write_le 8 h.sh_entsize)))))))))

abbrev pub encode_sym : Sym → List ℕ
encode_sym h =
    write_le 4 h.st_name
    ++ (write_le 1 h.st_info
        ++ (write_le 1 h.st_other
            ++ (write_le 2 h.st_shndx ++ (write_le 8 h.st_value ++ (write_le 8 h.st_size)))))

pub record FitsPhdr (h : Phdr) : Type 0 where
  pub p_type_lt : h.p_type < 256 ^ 4
  pub p_flags_lt : h.p_flags < 256 ^ 4
  pub p_offset_lt : h.p_offset < 256 ^ 8
  pub p_vaddr_lt : h.p_vaddr < 256 ^ 8
  pub p_paddr_lt : h.p_paddr < 256 ^ 8
  pub p_filesz_lt : h.p_filesz < 256 ^ 8
  pub p_memsz_lt : h.p_memsz < 256 ^ 8
  pub p_align_lt : h.p_align < 256 ^ 8

pub record FitsShdr (h : Shdr) : Type 0 where
  pub sh_name_lt : h.sh_name < 256 ^ 4
  pub sh_type_lt : h.sh_type < 256 ^ 4
  pub sh_flags_lt : h.sh_flags < 256 ^ 8
  pub sh_addr_lt : h.sh_addr < 256 ^ 8
  pub sh_offset_lt : h.sh_offset < 256 ^ 8
  pub sh_size_lt : h.sh_size < 256 ^ 8
  pub sh_link_lt : h.sh_link < 256 ^ 4
  pub sh_info_lt : h.sh_info < 256 ^ 4
  pub sh_addralign_lt : h.sh_addralign < 256 ^ 8
  pub sh_entsize_lt : h.sh_entsize < 256 ^ 8

pub record FitsSym (h : Sym) : Type 0 where
  pub st_name_lt : h.st_name < 256 ^ 4
  pub st_info_lt : h.st_info < 256 ^ 1
  pub st_other_lt : h.st_other < 256 ^ 1
  pub st_shndx_lt : h.st_shndx < 256 ^ 2
  pub st_value_lt : h.st_value < 256 ^ 8
  pub st_size_lt : h.st_size < 256 ^ 8

abbrev pub encode_fields : Ehdr → List ℕ
encode_fields h =
    write_le 2 h.e_type
    ++ (write_le 2 h.e_machine
        ++ (write_le 4 h.e_version
            ++ (write_le 8 h.e_entry
                ++ (write_le 8 h.e_phoff
                    ++ (write_le 8 h.e_shoff
                        ++ (write_le 4 h.e_flags
                            ++ (write_le 2 h.e_ehsize
                                ++ (write_le 2 h.e_phentsize
                                    ++ (write_le 2 h.e_phnum
                                        ++ (write_le 2 h.e_shentsize
                                            ++ (write_le 2 h.e_shnum
                                                ++ (write_le 2 h.e_shstrndx))))))))))))

abbrev pub encode_ehdr : Ehdr → List ℕ
encode_ehdr h = h.e_ident ++ encode_fields h

pub record FitsEhdr (h : Ehdr) : Type 0 where
  pub e_ident_length : length h.e_ident ≡ 16
  pub e_type_lt : h.e_type < 256 ^ 2
  pub e_machine_lt : h.e_machine < 256 ^ 2
  pub e_version_lt : h.e_version < 256 ^ 4
  pub e_entry_lt : h.e_entry < 256 ^ 8
  pub e_phoff_lt : h.e_phoff < 256 ^ 8
  pub e_shoff_lt : h.e_shoff < 256 ^ 8
  pub e_flags_lt : h.e_flags < 256 ^ 4
  pub e_ehsize_lt : h.e_ehsize < 256 ^ 2
  pub e_phentsize_lt : h.e_phentsize < 256 ^ 2
  pub e_phnum_lt : h.e_phnum < 256 ^ 2
  pub e_shentsize_lt : h.e_shentsize < 256 ^ 2
  pub e_shnum_lt : h.e_shnum < 256 ^ 2
  pub e_shstrndx_lt : h.e_shstrndx < 256 ^ 2
