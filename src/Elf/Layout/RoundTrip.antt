-- ===== src/Elf/Layout/RoundTrip.antt =====
-- Each decoder reads back what the encoder wrote.
use mathlib.Core.List.{append_assoc}
use c_bdd.Base.{ℕ, ◌+◌, ◌≡◌, ap, List, ◌++◌, take, drop, ◌∙◌, drop-append_past, take-append_by}
use c_bdd.Base.Bytes.{read_le, write_le, read_le-write_le}
use c_bdd.Elf.{Ehdr, Phdr, Shdr, Sym}
use c_bdd.Elf.Layout.{decode_ehdr, decode_phdr, decode_shdr, decode_sym}
use c_bdd.Elf.Layout.Encode.{
  encode_fields, encode_ehdr, encode_phdr, encode_shdr, encode_sym, FitsEhdr, FitsPhdr, FitsShdr,
  FitsSym,
}

pub decode_phdr-encode_phdr :
    (h : Phdr) (rest : List ℕ) → FitsPhdr h → decode_phdr (encode_phdr h ++ rest) ≡ h
unfolding decode_phdr
decode_phdr-encode_phdr h rest b = λ i. record {
  p_type =
      read_le-write_le 4 h.p_type
        ((write_le 4 h.p_flags
            ++ (write_le 8 h.p_offset
                ++ (write_le 8 h.p_vaddr
                    ++ (write_le 8 h.p_paddr
                        ++ (write_le 8 h.p_filesz
                            ++ (write_le 8 h.p_memsz ++ (write_le 8 h.p_align)))))))
          ++ rest)
        b.p_type_lt i;
  p_flags =
      read_le-write_le 4 h.p_flags
        ((write_le 8 h.p_offset
            ++ (write_le 8 h.p_vaddr
                ++ (write_le 8 h.p_paddr
                    ++ (write_le 8 h.p_filesz
                        ++ (write_le 8 h.p_memsz ++ (write_le 8 h.p_align))))))
          ++ rest)
        b.p_flags_lt i;
  p_offset =
      read_le-write_le 8 h.p_offset
        ((write_le 8 h.p_vaddr
            ++ (write_le 8 h.p_paddr
                ++ (write_le 8 h.p_filesz ++ (write_le 8 h.p_memsz ++ (write_le 8 h.p_align)))))
          ++ rest)
        b.p_offset_lt i;
  p_vaddr =
      read_le-write_le 8 h.p_vaddr
        ((write_le 8 h.p_paddr
            ++ (write_le 8 h.p_filesz ++ (write_le 8 h.p_memsz ++ (write_le 8 h.p_align))))
          ++ rest)
        b.p_vaddr_lt i;
  p_paddr =
      read_le-write_le 8 h.p_paddr
        ((write_le 8 h.p_filesz ++ (write_le 8 h.p_memsz ++ (write_le 8 h.p_align))) ++ rest)
        b.p_paddr_lt i;
  p_filesz =
      read_le-write_le 8 h.p_filesz ((write_le 8 h.p_memsz ++ (write_le 8 h.p_align)) ++ rest)
        b.p_filesz_lt i;
  p_memsz = read_le-write_le 8 h.p_memsz ((write_le 8 h.p_align) ++ rest) b.p_memsz_lt i;
  p_align = read_le-write_le 8 h.p_align (rest) b.p_align_lt i;
}

pub decode_shdr-encode_shdr :
    (h : Shdr) (rest : List ℕ) → FitsShdr h → decode_shdr (encode_shdr h ++ rest) ≡ h
unfolding decode_shdr
decode_shdr-encode_shdr h rest b = λ i. record {
  sh_name =
      read_le-write_le 4 h.sh_name
        ((write_le 4 h.sh_type
            ++ (write_le 8 h.sh_flags
                ++ (write_le 8 h.sh_addr
                    ++ (write_le 8 h.sh_offset
                        ++ (write_le 8 h.sh_size
                            ++ (write_le 4 h.sh_link
                                ++ (write_le 4 h.sh_info
                                    ++ (write_le 8 h.sh_addralign
                                        ++ (write_le 8 h.sh_entsize)))))))))
          ++ rest)
        b.sh_name_lt i;
  sh_type =
      read_le-write_le 4 h.sh_type
        ((write_le 8 h.sh_flags
            ++ (write_le 8 h.sh_addr
                ++ (write_le 8 h.sh_offset
                    ++ (write_le 8 h.sh_size
                        ++ (write_le 4 h.sh_link
                            ++ (write_le 4 h.sh_info
                                ++ (write_le 8 h.sh_addralign ++ (write_le 8 h.sh_entsize))))))))
          ++ rest)
        b.sh_type_lt i;
  sh_flags =
      read_le-write_le 8 h.sh_flags
        ((write_le 8 h.sh_addr
            ++ (write_le 8 h.sh_offset
                ++ (write_le 8 h.sh_size
                    ++ (write_le 4 h.sh_link
                        ++ (write_le 4 h.sh_info
                            ++ (write_le 8 h.sh_addralign ++ (write_le 8 h.sh_entsize)))))))
          ++ rest)
        b.sh_flags_lt i;
  sh_addr =
      read_le-write_le 8 h.sh_addr
        ((write_le 8 h.sh_offset
            ++ (write_le 8 h.sh_size
                ++ (write_le 4 h.sh_link
                    ++ (write_le 4 h.sh_info
                        ++ (write_le 8 h.sh_addralign ++ (write_le 8 h.sh_entsize))))))
          ++ rest)
        b.sh_addr_lt i;
  sh_offset =
      read_le-write_le 8 h.sh_offset
        ((write_le 8 h.sh_size
            ++ (write_le 4 h.sh_link
                ++ (write_le 4 h.sh_info
                    ++ (write_le 8 h.sh_addralign ++ (write_le 8 h.sh_entsize)))))
          ++ rest)
        b.sh_offset_lt i;
  sh_size =
      read_le-write_le 8 h.sh_size
        ((write_le 4 h.sh_link
            ++ (write_le 4 h.sh_info ++ (write_le 8 h.sh_addralign ++ (write_le 8 h.sh_entsize))))
          ++ rest)
        b.sh_size_lt i;
  sh_link =
      read_le-write_le 4 h.sh_link
        ((write_le 4 h.sh_info ++ (write_le 8 h.sh_addralign ++ (write_le 8 h.sh_entsize))) ++ rest)
        b.sh_link_lt i;
  sh_info =
      read_le-write_le 4 h.sh_info
        ((write_le 8 h.sh_addralign ++ (write_le 8 h.sh_entsize)) ++ rest) b.sh_info_lt i;
  sh_addralign =
      read_le-write_le 8 h.sh_addralign ((write_le 8 h.sh_entsize) ++ rest) b.sh_addralign_lt i;
  sh_entsize = read_le-write_le 8 h.sh_entsize (rest) b.sh_entsize_lt i;
}

pub decode_sym-encode_sym :
    (h : Sym) (rest : List ℕ) → FitsSym h → decode_sym (encode_sym h ++ rest) ≡ h
unfolding decode_sym
decode_sym-encode_sym h rest b = λ i. record {
  st_name =
      read_le-write_le 4 h.st_name
        ((write_le 1 h.st_info
            ++ (write_le 1 h.st_other
                ++ (write_le 2 h.st_shndx ++ (write_le 8 h.st_value ++ (write_le 8 h.st_size)))))
          ++ rest)
        b.st_name_lt i;
  st_info =
      read_le-write_le 1 h.st_info
        ((write_le 1 h.st_other
            ++ (write_le 2 h.st_shndx ++ (write_le 8 h.st_value ++ (write_le 8 h.st_size))))
          ++ rest)
        b.st_info_lt i;
  st_other =
      read_le-write_le 1 h.st_other
        ((write_le 2 h.st_shndx ++ (write_le 8 h.st_value ++ (write_le 8 h.st_size))) ++ rest)
        b.st_other_lt i;
  st_shndx =
      read_le-write_le 2 h.st_shndx ((write_le 8 h.st_value ++ (write_le 8 h.st_size)) ++ rest)
        b.st_shndx_lt i;
  st_value = read_le-write_le 8 h.st_value ((write_le 8 h.st_size) ++ rest) b.st_value_lt i;
  st_size = read_le-write_le 8 h.st_size (rest) b.st_size_lt i;
}

-- Decoding the bytes of a written ELF header whose fields fit, with anything behind them, gives the
-- header back.
pub decode_ehdr-encode_ehdr :
    (h : Ehdr) (rest : List ℕ) → FitsEhdr h → decode_ehdr (encode_ehdr h ++ rest) ≡ h
unfolding decode_ehdr
decode_ehdr-encode_ehdr h rest b = rw append_assoc λ i. record {
  e_ident = ident_at i;
  e_type =
      (past 2 0
          ∙ read_le-write_le 2 h.e_type
              ((write_le 2 h.e_machine
                  ++ (write_le 4 h.e_version
                      ++ (write_le 8 h.e_entry
                          ++ (write_le 8 h.e_phoff
                              ++ (write_le 8 h.e_shoff
                                  ++ (write_le 4 h.e_flags
                                      ++ (write_le 2 h.e_ehsize
                                          ++ (write_le 2 h.e_phentsize
                                              ++ (write_le 2 h.e_phnum
                                                  ++ (write_le 2 h.e_shentsize
                                                      ++ (write_le 2 h.e_shnum
                                                          ++ (write_le 2 h.e_shstrndx))))))))))))
                ++ rest)
              b.e_type_lt)
        i;
  e_machine =
      (past 2 2
          ∙ read_le-write_le 2 h.e_machine
              ((write_le 4 h.e_version
                  ++ (write_le 8 h.e_entry
                      ++ (write_le 8 h.e_phoff
                          ++ (write_le 8 h.e_shoff
                              ++ (write_le 4 h.e_flags
                                  ++ (write_le 2 h.e_ehsize
                                      ++ (write_le 2 h.e_phentsize
                                          ++ (write_le 2 h.e_phnum
                                              ++ (write_le 2 h.e_shentsize
                                                  ++ (write_le 2 h.e_shnum
                                                      ++ (write_le 2 h.e_shstrndx)))))))))))
                ++ rest)
              b.e_machine_lt)
        i;
  e_version =
      (past 4 4
          ∙ read_le-write_le 4 h.e_version
              ((write_le 8 h.e_entry
                  ++ (write_le 8 h.e_phoff
                      ++ (write_le 8 h.e_shoff
                          ++ (write_le 4 h.e_flags
                              ++ (write_le 2 h.e_ehsize
                                  ++ (write_le 2 h.e_phentsize
                                      ++ (write_le 2 h.e_phnum
                                          ++ (write_le 2 h.e_shentsize
                                              ++ (write_le 2 h.e_shnum
                                                  ++ (write_le 2 h.e_shstrndx))))))))))
                ++ rest)
              b.e_version_lt)
        i;
  e_entry =
      (past 8 8
          ∙ read_le-write_le 8 h.e_entry
              ((write_le 8 h.e_phoff
                  ++ (write_le 8 h.e_shoff
                      ++ (write_le 4 h.e_flags
                          ++ (write_le 2 h.e_ehsize
                              ++ (write_le 2 h.e_phentsize
                                  ++ (write_le 2 h.e_phnum
                                      ++ (write_le 2 h.e_shentsize
                                          ++ (write_le 2 h.e_shnum
                                              ++ (write_le 2 h.e_shstrndx)))))))))
                ++ rest)
              b.e_entry_lt)
        i;
  e_phoff =
      (past 8 16
          ∙ read_le-write_le 8 h.e_phoff
              ((write_le 8 h.e_shoff
                  ++ (write_le 4 h.e_flags
                      ++ (write_le 2 h.e_ehsize
                          ++ (write_le 2 h.e_phentsize
                              ++ (write_le 2 h.e_phnum
                                  ++ (write_le 2 h.e_shentsize
                                      ++ (write_le 2 h.e_shnum ++ (write_le 2 h.e_shstrndx))))))))
                ++ rest)
              b.e_phoff_lt)
        i;
  e_shoff =
      (past 8 24
          ∙ read_le-write_le 8 h.e_shoff
              ((write_le 4 h.e_flags
                  ++ (write_le 2 h.e_ehsize
                      ++ (write_le 2 h.e_phentsize
                          ++ (write_le 2 h.e_phnum
                              ++ (write_le 2 h.e_shentsize
                                  ++ (write_le 2 h.e_shnum ++ (write_le 2 h.e_shstrndx)))))))
                ++ rest)
              b.e_shoff_lt)
        i;
  e_flags =
      (past 4 32
          ∙ read_le-write_le 4 h.e_flags
              ((write_le 2 h.e_ehsize
                  ++ (write_le 2 h.e_phentsize
                      ++ (write_le 2 h.e_phnum
                          ++ (write_le 2 h.e_shentsize
                              ++ (write_le 2 h.e_shnum ++ (write_le 2 h.e_shstrndx))))))
                ++ rest)
              b.e_flags_lt)
        i;
  e_ehsize =
      (past 2 36
          ∙ read_le-write_le 2 h.e_ehsize
              ((write_le 2 h.e_phentsize
                  ++ (write_le 2 h.e_phnum
                      ++ (write_le 2 h.e_shentsize
                          ++ (write_le 2 h.e_shnum ++ (write_le 2 h.e_shstrndx)))))
                ++ rest)
              b.e_ehsize_lt)
        i;
  e_phentsize =
      (past 2 38
          ∙ read_le-write_le 2 h.e_phentsize
              ((write_le 2 h.e_phnum
                  ++ (write_le 2 h.e_shentsize
                      ++ (write_le 2 h.e_shnum ++ (write_le 2 h.e_shstrndx))))
                ++ rest)
              b.e_phentsize_lt)
        i;
  e_phnum =
      (past 2 40
          ∙ read_le-write_le 2 h.e_phnum
              ((write_le 2 h.e_shentsize ++ (write_le 2 h.e_shnum ++ (write_le 2 h.e_shstrndx)))
                ++ rest)
              b.e_phnum_lt)
        i;
  e_shentsize =
      (past 2 42
          ∙ read_le-write_le 2 h.e_shentsize
              ((write_le 2 h.e_shnum ++ (write_le 2 h.e_shstrndx)) ++ rest) b.e_shentsize_lt)
        i;
  e_shnum =
      (past 2 44 ∙ read_le-write_le 2 h.e_shnum ((write_le 2 h.e_shstrndx) ++ rest) b.e_shnum_lt) i;
  e_shstrndx = (past 2 46 ∙ read_le-write_le 2 h.e_shstrndx (rest) b.e_shstrndx_lt) i;
}
  where
    past :
        (w k : ℕ)
        → read_le w (drop (16 + k) (h.e_ident ++ (encode_fields h ++ rest)))
          ≡ read_le w (drop k (encode_fields h ++ rest))
    past w k = ap (read_le w) (drop-append_past h.e_ident _ k b.e_ident_length)

    ident_at : take 16 (h.e_ident ++ (encode_fields h ++ rest)) ≡ h.e_ident
    ident_at = take-append_by h.e_ident _ b.e_ident_length
