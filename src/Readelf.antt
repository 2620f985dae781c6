-- ===== src/Readelf.antt =====
-- The program readelf (apps/readelf.cpp), and what its loop over the program headers prints.
use c_bdd.Base.{
  ℕ, zero, suc, ◌+◌, ◌≡◌, refl, Option, some, List, [], ◌∷◌, ◌++◌, codes, length, get_elem?, drop,
  Outcome, ok, ◌>>=◌, arith,
}
use c_bdd.Text.{line}
use c_bdd.Elf.{Phdr, ElfFile}
use c_bdd.Elf.Load.{load}
use c_bdd.Elf.Print.{
  print_header, print_program_headers, print_program_header_at, print_each, program_header_text,
  print_sections_headers,
}

-- The exit code, and what the program wrote to its standard output and its error output. `file` is
-- what is found at a path.
unfoldable pub readelf :
    (file : List ℕ → Option (List ℕ)) (name : List ℕ) (arguments : List (List ℕ))
    → Outcome (ℕ × List ℕ × List ℕ)
unfolding load print_program_headers print_sections_headers print_header
readelf file name [] =
    ok (1, [], codes "Usage: " ++ name ++ line (codes " <elf-file|compiled-prog>"))
readelf file name (path ∷ arguments) = do
  elf_file ← load (file path)
  program_headers ← print_program_headers elf_file
  sections ← print_sections_headers elf_file
  ok (0, print_header elf_file ++ program_headers ++ sections, [])

-- The rows of all program headers, from the number `index` on.
abbrev pub all_program_headers : (index : ℕ) → List Phdr → List ℕ
all_program_headers index [] = []
all_program_headers index (header ∷ headers) =
    program_header_text index header ++ all_program_headers (index + 1) headers

module _ {A : Type 0} where
  get_elem?-drop :
      (n : ℕ) (xs : List A) {x : A} {rest : List A}
      → drop n xs ≡ x ∷ rest
      → (get_elem? xs n ≡ some x) × (drop (suc n) xs ≡ rest)
  get_elem?-drop zero [] e = cc
  get_elem?-drop zero (y ∷ xs) e = (cc, cc)
  get_elem?-drop (suc n) [] e = cc
  get_elem?-drop (suc n) (y ∷ xs) e = get_elem?-drop n xs e

print_program_header_at-some :
    (file : ElfFile) (index : ℕ) (header : Phdr)
    → get_elem? file.program_headers index ≡ some header
    → print_program_header_at file index ≡ ok (program_header_text index header)
unfolding print_program_header_at
print_program_header_at-some file index header e = rw (e, print_program_header_at) refl

-- The headers before the one at `index` have been printed.
print_each-all_program_headers :
    (file : ElfFile) (index : ℕ) (headers : List Phdr)
    → drop index file.program_headers ≡ headers
    → print_each (print_program_header_at file) (length headers) index
      ≡ ok (all_program_headers index headers)
unfolding print_each
print_each-all_program_headers file index [] e = refl
print_each-all_program_headers file index (header ∷ headers) e =
    let (here, next) = get_elem?-drop index file.program_headers e in
    let one_more : index + 1 ≡ suc index = omega arith in
    let after : drop (index + 1) file.program_headers ≡ headers = rw one_more next in
    rw
      (
        print_program_header_at-some file index header here,
        print_each-all_program_headers file (index + 1) headers after,
      )
      refl

-- `printProgramHeaders` always succeeds: its loop over the numbers prints the rows of every program
-- header, in order, each under its own number.
pub print_program_headers-all :
    (file : ElfFile) → print_program_headers file ≡ ok (all_program_headers 0 file.program_headers)
unfolding print_program_headers
print_program_headers-all file = print_each-all_program_headers file 0 file.program_headers refl
