-- ===== src/Elf/Symbols.antt =====
-- Symbol tables and the functions that they name (lib/bdd_elf.cpp).
pub mod Tables
pub mod Lookup
use c_bdd.Base.{
  ℕ, zero, suc, ◌+◌, ◌*◌, ◌/◌, ◌%◌, ◌^◌, Bool, true, false, Option, none, some, List, [], ◌∷◌, ◌++◌,
  drop, length, get_elem?, leb, ◌==◌, text_eq, if◌then◌else◌, Outcome, ok, throws, out_of_range,
  undefined, ◌>>=◌, bit_and, not,
}
use c_bdd.Elf.{Shdr, Sym, ElfFile}
use c_bdd.Elf.Layout.{decode_sym, sym_size}
use c_bdd.Elf.Sections.{
  get_section_data_ptr_at, get_section_header_indexes_by_type, get_symbol_name,
}

abbrev pub linker_symbol_table : ℕ
linker_symbol_table = 2

abbrev pub function_entry_point : ℕ
function_entry_point = 2

-- `(unsigned) sHdr.sh_size / sHdr.sh_entsize`: the cast comes first, and division by 0 is undefined.
unfoldable pub get_symbol_count : Shdr → Outcome ℕ
get_symbol_count header =
    if header.sh_entsize == 0
    then undefined
    else ok (header.sh_size % 2 ^ 32 / header.sh_entsize % 2 ^ 32)

unfoldable pub get_symbol_section_at : ElfFile → (index offset : ℕ) → Outcome Sym
get_symbol_section_at file index offset = elim (get_section_data_ptr_at file index) [
  | none ↦ undefined
  | some bytes ↦
      if leb (offset + sym_size) (length bytes)
      then ok (decode_sym (drop offset bytes))
      else undefined
]

-- `name.substr(0, name.find('('))`.
abbrev pub before_paren : List ℕ → List ℕ
before_paren [] = []
before_paren (c ∷ text) = if c == b'(' then [] else c ∷ before_paren text

abbrev pub is_empty : List ℕ → Bool
is_empty [] = true
is_empty (c ∷ text) = false

abbrev pub is_function : Sym → Bool
is_function sym = bit_and sym.st_info 0x0F == function_entry_point

-- The body of the inner loop, for the symbol at `i`, with what the later rounds give.
unfoldable pub list_symbol :
    ElfFile
    → (index : ℕ) → Shdr
    → (i : ℕ) → Outcome (List (ℕ × List ℕ))
    → Outcome (List (ℕ × List ℕ))
list_symbol file index header i rest = do
  sym ← get_symbol_section_at file index (i * header.sh_entsize % 2 ^ 64 % 2 ^ 32)
  if not (is_function sym) then rest else (do
    name ← get_symbol_name file header sym
    functions ← rest
    ok (if is_empty name then functions else (sym.st_value, before_paren name) ∷ functions))

-- `remaining` rounds of the inner loop, from the symbol at `i` on.
unfoldable pub list_symbols :
    ElfFile → (index : ℕ) → Shdr → (remaining i : ℕ) → Outcome (List (ℕ × List ℕ))
unfolding list_symbol
list_symbols file index header zero i = ok []
list_symbols file index header (suc remaining) i =
    list_symbol file index header i (list_symbols file index header remaining (i + 1))

unfoldable pub list_sections : ElfFile → List ℕ → Outcome (List (ℕ × List ℕ))
unfolding list_symbols get_symbol_count
list_sections file [] = ok []
list_sections file (index ∷ indexes) = elim (get_elem? file.sections_headers index) [
  | none ↦ throws out_of_range
  | some header ↦ (do
    count ← get_symbol_count header
    functions ← list_symbols file index header count 0
    others ← list_sections file indexes
    ok (functions ++ others))
]

unfoldable pub get_functions_list : ElfFile → Outcome (List (ℕ × List ℕ))
unfolding list_sections
get_functions_list file =
    list_sections file (get_section_header_indexes_by_type file linker_symbol_table)

-- `std::find_if(…)->first`: undefined where no function has the name.
unfoldable pub find_function : List ℕ → List (ℕ × List ℕ) → Outcome ℕ
find_function wanted [] = undefined
find_function wanted ((address, name) ∷ functions) =
    let rest = find_function wanted functions in if text_eq name wanted then ok address else rest

unfoldable pub get_function_address : ElfFile → List ℕ → Outcome ℕ
unfolding get_functions_list find_function
get_function_address file name = do list ← get_functions_list file; find_function name list
