-- ===== src/Elf/Sections.antt =====
-- Section headers by type, section data, and names from string tables (lib/bdd_elf.cpp).
pub mod ByType
pub mod Names
use c_bdd.Base.{
  ℕ, zero, suc, ◌+◌, ◌≡◌, refl, ap, Bool, true, false, Option, none, some, List, [], ◌∷◌, ◌++◌,
  codes, drop, length, get_elem?, ◌==◌, if◌then◌else◌, Outcome, ok, undefined, ◌>>=◌, arith,
}
use c_bdd.Elf.{Shdr, Sym, ElfFile}
use c_bdd.Elf.Describe.{get_section_type_as_string}

-- `*std::find_if(…)`, which is undefined where no header is of the type.
find_by_type : ℕ → List Shdr → Outcome Shdr
find_by_type type [] = undefined
find_by_type type (each ∷ headers) =
    let rest = find_by_type type headers in if each.sh_type == type then ok each else rest

unfoldable pub get_section_header_by_type : ElfFile → ℕ → Outcome Shdr
unfolding find_by_type
get_section_header_by_type file type = find_by_type type file.sections_headers

indexes_from : ℕ → (current : ℕ) → List Shdr → List ℕ
indexes_from type current [] = []
indexes_from type current (each ∷ headers) =
    let rest = indexes_from type (current + 1) headers in
    if each.sh_type == type then current ∷ rest else rest

unfoldable pub get_section_header_indexes_by_type : ElfFile → ℕ → List ℕ
unfolding indexes_from
get_section_header_indexes_by_type file type = indexes_from type 0 file.sections_headers

headers_of_type : ℕ → List Shdr → List Shdr
headers_of_type type [] = []
headers_of_type type (each ∷ headers) =
    let rest = headers_of_type type headers in if each.sh_type == type then each ∷ rest else rest

unfoldable pub get_sections_header_by_type : ElfFile → ℕ → List Shdr
unfolding headers_of_type
get_sections_header_by_type file type = headers_of_type type file.sections_headers

-- `data()` of a vector that may not exist: the null pointer also if it is empty, as the standard
-- library of GCC gives it.
abbrev pub data_ptr : Option (List ℕ) → Option (List ℕ)
data_ptr none = none
data_ptr (some []) = none
data_ptr (some (byte ∷ bytes)) = some (byte ∷ bytes)

-- `none` is the null pointer; a pointer is the bytes from where it points to the section's end.
abbrev pub get_section_data_ptr_at : ElfFile → ℕ → Option (List ℕ)
get_section_data_ptr_at file index = data_ptr (get_elem? file.sections_data index)

-- A `std::string` from a C string: undefined where the bytes end without a NUL.
unfoldable pub c_string : List ℕ → Outcome (List ℕ)
c_string [] = undefined
c_string (c ∷ bytes) =
    let rest = c_string bytes in if c == 0 then ok [] else (do text ← rest; ok (c ∷ text))

-- What `c_str()` of a string shows to a reader of C strings.
abbrev pub until_nul : List ℕ → List ℕ
until_nul [] = []
until_nul (c ∷ text) = if c == 0 then [] else c ∷ until_nul text

unfoldable pub get_name_from_string_table : ElfFile → (table offset : ℕ) → Outcome (List ℕ)
unfolding c_string
get_name_from_string_table file table offset = elim (get_section_data_ptr_at file table) [
  | none ↦ ok (codes "Unnamed")
  | some bytes ↦ c_string (drop offset bytes)
]

unfoldable pub get_section_name : ElfFile → Shdr → Outcome (List ℕ)
unfolding get_name_from_string_table
get_section_name file header = get_name_from_string_table file file.header.e_shstrndx header.sh_name

unfoldable pub get_symbol_name : ElfFile → Shdr → Sym → Outcome (List ℕ)
unfolding get_name_from_string_table
get_symbol_name file header sym = do
  raw_name ← get_name_from_string_table file header.sh_link sym.st_name
  ok (until_nul raw_name)

-- The loop of `getSymbolsNames`, which lists sections: their types and their names, as texts.
unfoldable pub names_of : ElfFile → List Shdr → Outcome (List (List ℕ × List ℕ))
names_of file [] = ok []
names_of file (each ∷ headers) = do
  name ← get_section_name file each
  names ← names_of file headers
  ok ((get_section_type_as_string each, name) ∷ names)

unfoldable pub get_symbols_names : ElfFile → Outcome (List (List ℕ × List ℕ))
unfolding names_of
get_symbols_names file = names_of file file.sections_headers
