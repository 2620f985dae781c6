-- ===== src/Elf/Symbols/Tables.antt =====
-- The loops of `getFunctionsList` against a description of the symbol tables.
use c_bdd.Base.{
  ℕ, suc, ◌+◌, ◌*◌, ◌%◌, ◌^◌, ◌<◌, ◌≡◌, refl, ap, sym, true, some, List, [], ◌∷◌, ◌++◌, length,
  get_elem?, drop, leb, if◌then◌else◌, ok, arith, ◌&&◌, not, length-append, drop-append,
  append_assoc,
}
use c_bdd.Elf.{Shdr, Sym, ElfFile}
use c_bdd.Elf.Layout.{sym_size}
use c_bdd.Elf.Layout.Encode.{encode_sym, FitsSym}
use c_bdd.Elf.Layout.RoundTrip.{decode_sym-encode_sym}
use c_bdd.Elf.Load.Images.{encode_all}
use c_bdd.Elf.Sections.{data_ptr, get_symbol_name, get_section_header_indexes_by_type}
use c_bdd.Elf.Symbols.{
  linker_symbol_table, get_symbol_count, get_symbol_section_at, before_paren, is_empty, is_function,
  list_symbols, list_sections, get_functions_list,
}

-- A symbol with its name.
abbrev pub Entry : Type 0
Entry = Sym × List ℕ

-- The functions among the symbols: those of the function type with a name, which is cut at the
-- first parenthesis.
abbrev pub functions_of : List Entry → List (ℕ × List ℕ)
functions_of [] = []
functions_of ((sym, name) ∷ entries) =
    if is_function sym && not (is_empty name)
    then (sym.st_value, before_paren name) ∷ functions_of entries
    else functions_of entries

abbrev pub symbols_of : List Entry → List Sym
symbols_of [] = []
symbols_of ((sym, name) ∷ entries) = sym ∷ symbols_of entries

-- Every symbol fits its format and has the name that stands beside it.
abbrev pub AreNamed : ElfFile → Shdr → List Entry → Type 0
AreNamed file header [] = Unit
AreNamed file header ((sym, name) ∷ entries) =
    FitsSym sym × (get_symbol_name file header sym ≡ ok name) × AreNamed file header entries

-- The section at `index` has `header` and holds the symbols of `entries`, each by its 24 bytes.
pub record IsSymbolTable (file : ElfFile) (index : ℕ) (header : Shdr) (entries : List Entry)
    : Type 0 where
  pub header_at : get_elem? file.sections_headers index ≡ some header
  pub bytes_at :
      get_elem? file.sections_data index ≡ some (encode_all encode_sym (symbols_of entries))
  pub entry_size : header.sh_entsize ≡ sym_size
  pub size : header.sh_size ≡ sym_size * length entries
  pub size_small : header.sh_size < 2 ^ 32
  pub named : AreNamed file header entries

length-encode_all_syms :
    (syms : List Sym) → length (encode_all encode_sym syms) ≡ sym_size * length syms
length-encode_all_syms [] = refl
length-encode_all_syms (s ∷ syms) =
    omega (
      arith,
      length-append (encode_sym s) (encode_all encode_sym syms),
      length-encode_all_syms syms,
    )

encode_all-append :
    (xs ys : List Sym)
    → encode_all encode_sym (xs ++ ys) ≡ encode_all encode_sym xs ++ encode_all encode_sym ys
encode_all-append [] ys = refl
encode_all-append (x ∷ xs) ys =
    rw (encode_all-append xs ys)
      (sym (append_assoc (encode_sym x) (encode_all encode_sym xs) (encode_all encode_sym ys)))

data_ptr_lem : (bytes : List ℕ) → 0 < length bytes → data_ptr (some bytes) ≡ some bytes
data_ptr_lem [] h = absurd (omega (arith, h))
data_ptr_lem (byte ∷ bytes) h = refl

-- Symbol `length before` of a table.
get_symbol_section_at_lem :
    (file : ElfFile) (index : ℕ) (before after : List Sym) (s : Sym)
    → get_elem? file.sections_data index ≡ some (encode_all encode_sym (before ++ s ∷ after))
    → FitsSym s
    → get_symbol_section_at file index (sym_size * length before) ≡ ok s
unfolding get_symbol_section_at
get_symbol_section_at_lem file index before after s e fit =
    let start = length-encode_all_syms before in
    let enough : leb (sym_size * length before + sym_size)
          (length (encode_all encode_sym (before ++ s ∷ after)))
        ≡ true =
      ground
        (arith, length-encode_all_syms (before ++ s ∷ after), length-append before (s ∷ after)) in
    let here : drop (sym_size * length before) (encode_all encode_sym (before ++ s ∷ after))
        ≡ encode_sym s ++ encode_all encode_sym after =
      rw (encode_all-append before (s ∷ after), ← start)
        (drop-append (encode_all encode_sym before) (encode_all encode_sym (s ∷ after))) in
    let long = length-encode_all_syms (before ++ s ∷ after) in
    let whole =
      data_ptr_lem (encode_all encode_sym (before ++ s ∷ after))
        (omega (arith, long, length-append before (s ∷ after))) in
    rw (e, get_symbol_section_at)
      (rw (whole, enough, here) (ap ok (decode_sym-encode_sym s (encode_all encode_sym after) fit)))

length-symbols_of : (entries : List Entry) → length (symbols_of entries) ≡ length entries
length-symbols_of [] = refl
length-symbols_of ((s, name) ∷ entries) = ap suc (length-symbols_of entries)

-- The inner loop from the symbol behind `before` on.
list_symbols-functions_of :
    (file : ElfFile) (index : ℕ) (header : Shdr) (before : List Sym) (entries : List Entry)
    → get_elem? file.sections_data index
      ≡ some (encode_all encode_sym (before ++ symbols_of entries))
    → header.sh_entsize ≡ sym_size
    → sym_size * (length before + length entries) < 2 ^ 32
    → AreNamed file header entries
    → list_symbols file index header (length entries) (length before) ≡ ok (functions_of entries)
unfolding list_symbols
list_symbols-functions_of file index header before [] e size small named = refl
list_symbols-functions_of file index header before ((s, name) ∷ entries) e size small
      (fit, called, named) =
    let offset : length before * header.sh_entsize % 2 ^ 64 % 2 ^ 32 ≡ sym_size * length before =
      rw size (omega arith) in
    let extended : get_elem? file.sections_data index
        ≡ some (encode_all encode_sym ((before ++ s ∷ []) ++ symbols_of entries)) =
      rw (append_assoc before (s ∷ []) (symbols_of entries)) e in
    let later : list_symbols file index header (length entries) (length before + 1)
        ≡ ok (functions_of entries) =
      rw (length-append before (s ∷ [])) at (
        list_symbols-functions_of file index header (before ++ s ∷ []) entries extended size
          (omega (arith, length-append before (s ∷ []))) named) in
    rw (offset, get_symbol_section_at_lem file index before (symbols_of entries) s e fit)
      (ground (arith, called, later))

get_symbol_count_lem :
    (header : Shdr) (n : ℕ)
    → header.sh_entsize ≡ sym_size
    → header.sh_size ≡ sym_size * n
    → header.sh_size < 2 ^ 32
    → get_symbol_count header ≡ ok n
unfolding get_symbol_count
get_symbol_count_lem header n entry size small = rw (entry, size) (ap ok (omega arith))

abbrev pub Table : Type 0
Table = ℕ × Shdr × List Entry

abbrev pub AreTables : ElfFile → List Table → Type 0
AreTables file [] = Unit
AreTables file ((index, header, entries) ∷ tables) =
    IsSymbolTable file index header entries × AreTables file tables

abbrev pub indexes_of : List Table → List ℕ
indexes_of [] = []
indexes_of ((index, header, entries) ∷ tables) = index ∷ indexes_of tables

abbrev pub all_functions : List Table → List (ℕ × List ℕ)
all_functions [] = []
all_functions ((index, header, entries) ∷ tables) = functions_of entries ++ all_functions tables

list_sections-all_functions :
    (file : ElfFile) (tables : List Table)
    → AreTables file tables
    → list_sections file (indexes_of tables) ≡ ok (all_functions tables)
unfolding list_sections
list_sections-all_functions file [] are = refl
list_sections-all_functions file ((index, header, entries) ∷ tables) (is, are) =
    rw (is.header_at, list_sections)
      (rw (
        get_symbol_count_lem header (length entries) is.entry_size is.size is.size_small,
        list_symbols-functions_of file index header [] entries is.bytes_at is.entry_size
            (omega (arith, is.size, is.size_small)) is.named,
        list_sections-all_functions file tables are,
      ))

-- For a file whose symbol table sections are the given ones, in their order, `getFunctionsList`
-- neither fails nor reads out of bounds, and lists exactly the named function symbols of the tables,
-- table by table in the order of the symbols, each with its value and its name up to a parenthesis.
pub get_functions_list-all_functions :
    (file : ElfFile) (tables : List Table)
    → get_section_header_indexes_by_type file linker_symbol_table ≡ indexes_of tables
    → AreTables file tables
    → get_functions_list file ≡ ok (all_functions tables)
unfolding get_functions_list
get_functions_list-all_functions file tables e are =
    rw e (list_sections-all_functions file tables are)
