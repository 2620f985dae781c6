-- ===== src/Elf/Print.antt =====
-- The functions of lib/bdd_elf.cpp that print: what each of them writes to its stream.
use c_bdd.Base.{
  ℕ, zero, suc, ◌+◌, ◌*◌, ◌%◌, ◌^◌, ◌||◌, none, some, List, [], ◌∷◌, ◌++◌, codes, length, get_elem?,
  leb, if◌then◌else◌, Outcome, ok, throws, out_of_range, ◌>>=◌,
}
use c_bdd.Text.{to_string, unsigned, hex, newline, line, row}
use c_bdd.Elf.{Phdr, Shdr, Sym, ElfFile}
use c_bdd.Elf.Describe.{
  get_flags_as_string, get_section_type_as_string, get_symbol_type_as_string,
  get_symbol_binding_as_string,
}
use c_bdd.Elf.Sections.{get_section_name, get_symbol_name, get_section_header_indexes_by_type}
use c_bdd.Elf.Symbols.{linker_symbol_table, get_symbol_count, get_symbol_section_at}

unfoldable pub print_header : ElfFile → List ℕ
print_header file =
    let header = file.header in
    line (codes "ELF File Header:")
    ++ line (codes "Header:")
    ++ line (codes "-----------------------------")
    ++ newline ∷ []
    ++ row 1 (codes "Object file typ:                    ") (hex header.e_type)
    ++ row 1 (codes "Architecture:                       ") (hex header.e_machine)
    ++ row 1 (codes "Object file version:                ") (hex header.e_version)
    ++ row 1 (codes "Entry point virtual address:        ") (hex header.e_entry)
    ++ row 1 (codes "Program header table file offset:   ") (unsigned header.e_phoff)
    ++ row 1 (codes "Section header table file offset:   ") (unsigned header.e_shoff)
    ++ row 1 (codes "Processor-specific flags:           ") (unsigned header.e_flags)
    ++ row 1 (codes "ELF header size:                    ") (unsigned header.e_ehsize)
    ++ row 1 (codes "Program header table entry size:    ") (unsigned header.e_phentsize)
    ++ row 1 (codes "Program header table entry count:   ") (unsigned header.e_phnum)
    ++ row 1 (codes "Section header table entry size:    ") (unsigned header.e_shentsize)
    ++ row 1 (codes "Section header table entry count:   ") (unsigned header.e_shnum)
    ++ row 1 (codes "Section header string table index:  ") (unsigned header.e_shstrndx)

-- A number and the text that describes it.
abbrev described : ℕ → List ℕ → List ℕ
described value text = unsigned value ++ codes " (" ++ text ++ codes ")"

-- The rows of one program header.
unfoldable pub program_header_text : (index : ℕ) → Phdr → List ℕ
program_header_text index header =
    newline ∷ 9 ∷ codes "Program header ["
    ++ to_string index
    ++ line (codes "]:")
    ++ row 2 (codes "Segment type:             ") (unsigned header.p_type)
    ++ row 2 (codes "Segment flags:            ")
        (described header.p_flags (get_flags_as_string header.p_flags))
    ++ row 2 (codes "Segment file offset:      ") (hex header.p_offset)
    ++ row 2 (codes "Segment virtual address:  ") (hex header.p_vaddr)
    ++ row 2 (codes "Segment physical address: ") (hex header.p_paddr)
    ++ row 2 (codes "Segment size in file:     ") (unsigned header.p_filesz)
    ++ row 2 (codes "Segment size in memory:   ") (unsigned header.p_memsz)
    ++ row 2 (codes "Segment alignment:        ") (unsigned header.p_align)

unfoldable pub print_program_header_at : ElfFile → (index : ℕ) → Outcome (List ℕ)
unfolding program_header_text
print_program_header_at file index = elim (get_elem? file.program_headers index) [
  | none ↦ throws out_of_range
  | some header ↦ ok (program_header_text index header)
]

-- What a counted loop prints: `rounds` calls, from the index `i` on.
unfoldable pub print_each : (ℕ → Outcome (List ℕ)) → (rounds i : ℕ) → Outcome (List ℕ)
print_each print zero i = ok []
print_each print (suc rounds) i = do
  first ← print i
  others ← print_each print rounds (i + 1)
  ok (first ++ others)

unfoldable pub print_program_headers : ElfFile → Outcome (List ℕ)
unfolding print_each print_program_header_at
print_program_headers file =
    print_each (print_program_header_at file) (length file.program_headers) 0

-- The rows of one section header. The flags are cast to `unsigned`.
unfoldable pub section_header_text : ElfFile → (index : ℕ) → Shdr → Outcome (List ℕ)
section_header_text file index header = do
  name ← get_section_name file header
  ok (
      newline ∷ 9 ∷ codes "Section header ("
      ++ to_string index
      ++ line (codes "):")
      ++ row 2 (codes "Section name:                       ") (described header.sh_name name)
      ++ row 2 (codes "Section type:                       ")
          (described header.sh_type (get_section_type_as_string header))
      ++ row 2 (codes "Section flags:                      ")
          (described header.sh_flags (get_flags_as_string (header.sh_flags % 2 ^ 32)))
      ++ row 2 (codes "Section virtual address:            ") (hex header.sh_addr)
      ++ row 2 (codes "Section file offset:                ") (unsigned header.sh_offset)
      ++ row 2 (codes "Section size in bytes:              ") (unsigned header.sh_size)
      ++ row 2 (codes "Link to another section:            ") (unsigned header.sh_link)
      ++ row 2 (codes "Additional section information:     ") (unsigned header.sh_info)
      ++ row 2 (codes "Section alignment:                  ") (unsigned header.sh_addralign)
      ++ row 2 (codes "Entry size if section holds table:  ") (unsigned header.sh_entsize))

-- The index is an `int`, given by its 32-bit word: from 2 ^ 31 on it is negative.
unfoldable pub print_section_header_at : ElfFile → (index : ℕ) → Outcome (List ℕ)
print_section_header_at file index =
    if leb (2 ^ 31) index || leb (length file.sections_headers) index
    then ok []
    else elim (get_elem? file.sections_headers index) [
      | none ↦ throws out_of_range
      | some header ↦ section_header_text file index header
    ]

unfoldable pub print_sections_headers : ElfFile → Outcome (List ℕ)
unfolding print_each print_section_header_at
print_sections_headers file =
    print_each (print_section_header_at file) (length file.sections_headers) 0

unfoldable pub print_symbol_entry : ElfFile → (index : ℕ) → Sym → Shdr → Outcome (List ℕ)
print_symbol_entry file index sym header = do
  name ← get_symbol_name file header sym
  ok (
      codes "    ### Symbol ("
      ++ unsigned index
      ++ line (codes "):")
      ++ line (codes "    ")
      ++ line (codes "        - Symbol name:                 " ++ described sym.st_name name)
      ++ line (codes "        - Symbol type:                 " ++ get_symbol_type_as_string sym)
      ++ line (codes "        - Symbol bindings:             " ++ get_symbol_binding_as_string sym)
      ++ line (codes "        - Section table index:         " ++ unsigned sym.st_shndx)
      ++ line (codes "        - Symbol value:                " ++ hex sym.st_value)
      ++ line (codes "        - Size of object:              " ++ unsigned sym.st_size)
      ++ line (codes "        - Other:                       " ++ unsigned sym.st_other)
      ++ line (codes "    "))

-- The inner loop of `printSymbolEntries`, over the symbols of the section at `index`.
print_symbols_of : ElfFile → (index : ℕ) → Shdr → Outcome (List ℕ)
print_symbols_of file index header = do
  count ← get_symbol_count header
  print_each
      (λ i. get_symbol_section_at file index (i * header.sh_entsize % 2 ^ 64 % 2 ^ 32) >>= λ sym.
        print_symbol_entry file i sym header)
      count 0

print_tables : ElfFile → (indexes : List ℕ) → Outcome (List ℕ)
unfolding print_symbols_of print_each
print_tables file [] = ok []
print_tables file (index ∷ indexes) = elim (get_elem? file.sections_headers index) [
  | none ↦ throws out_of_range
  | some header ↦ (do
    first ← print_symbols_of file index header
    others ← print_tables file indexes
    ok (first ++ others))
]

unfoldable pub print_symbol_entries : ElfFile → Outcome (List ℕ)
unfolding print_tables
print_symbol_entries file =
    print_tables file (get_section_header_indexes_by_type file linker_symbol_table)
