-- ===== src/Elf/Sections/Names.antt =====
-- `getSymbolsNames` lists every section.
use c_bdd.Base.{
  ◌≡◌, refl, List, [], ◌∷◌, length, IfOk, IfOk-bind_any, IfOk-bind, ok, ◌>>=◌, suc, ap, ℕ, zero,
  some, get_elem?, IfOk-bind_eq,
}
use c_bdd.Elf.{Shdr, ElfFile}
use c_bdd.Elf.Describe.{get_section_type_as_string}
use c_bdd.Elf.Sections.{names_of, get_section_name, get_symbols_names}

abbrev AsMany : ℕ → List (List ℕ × List ℕ) → Type 0
AsMany n names = length names ≡ n

length-names_of :
    (file : ElfFile) (headers : List Shdr) → IfOk (AsMany (length headers)) (names_of file headers)
unfolding names_of
length-names_of file [] = refl
length-names_of file (each ∷ headers) =
    IfOk-bind_any (AsMany (suc (length headers))) (get_section_name file each)
      (λ name.
        names_of file headers >>= λ names. ok ((get_section_type_as_string each, name) ∷ names))
      λ name.
        IfOk-bind (AsMany (length headers)) (AsMany (suc (length headers))) (names_of file headers)
          (λ names. ok ((get_section_type_as_string each, name) ∷ names))
          (length-names_of file headers) λ names e. ap suc e

-- Where a section has its name in the list.
abbrev pub NamedAt : ElfFile → ℕ → Shdr → List (List ℕ × List ℕ) → Type 0
NamedAt file i header names =
    (name : List ℕ) × (get_section_name file header ≡ ok name)
    × (get_elem? names i ≡ some (get_section_type_as_string header, name))

get_elem?-names_of :
    (file : ElfFile) (headers : List Shdr) (i : ℕ) (header : Shdr)
    → get_elem? headers i ≡ some header
    → IfOk (NamedAt file i header) (names_of file headers)
unfolding names_of
get_elem?-names_of file [] i header e = cc
get_elem?-names_of file (each ∷ headers) zero header e =
    IfOk-bind_eq (NamedAt file zero header) (get_section_name file each)
      (λ name.
        names_of file headers >>= λ names. ok ((get_section_type_as_string each, name) ∷ names))
      λ name named.
        IfOk-bind_any (NamedAt file zero header) (names_of file headers)
          (λ names. ok ((get_section_type_as_string each, name) ∷ names))
          λ names. let same : header ≡ each = cc in (name, rw same named, rw same refl)
get_elem?-names_of file (each ∷ headers) (suc i) header e =
    IfOk-bind_any (NamedAt file (suc i) header) (get_section_name file each)
      (λ name.
        names_of file headers >>= λ names. ok ((get_section_type_as_string each, name) ∷ names))
      λ name.
        IfOk-bind (NamedAt file i header) (NamedAt file (suc i) header) (names_of file headers)
          (λ names. ok ((get_section_type_as_string each, name) ∷ names))
          (get_elem?-names_of file headers i header e) λ names found. found

-- The list has the name of each section at its place.
pub get_elem?-get_symbols_names :
    (file : ElfFile) (i : ℕ) (header : Shdr)
    → get_elem? file.sections_headers i ≡ some header
    → IfOk (NamedAt file i header) (get_symbols_names file)
unfolding get_symbols_names
get_elem?-get_symbols_names file i header e =
    get_elem?-names_of file file.sections_headers i header e

-- There are as many names as section headers.
pub length-get_symbols_names :
    (file : ElfFile)
    → IfOk (λ names. length names ≡ length file.sections_headers) (get_symbols_names file)
unfolding get_symbols_names
length-get_symbols_names file = length-names_of file file.sections_headers
