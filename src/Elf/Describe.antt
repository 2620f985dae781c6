-- ===== src/Elf/Describe.antt =====
-- The texts that lib/bdd_elf.cpp gives for flags, section types, symbol types and bindings.
use c_bdd.Base.{
  ℕ, ◌+◌, ◌*◌, ◌≤◌, ◌≡◌, Bool, ◌&&◌, List, [], ◌∷◌, codes, arith, bit_and, ◌==◌, not, if◌then◌else◌,
}
use c_bdd.Elf.{Shdr, Sym}

abbrev pub execute_flag : ℕ
execute_flag = 1

abbrev pub write_flag : ℕ
write_flag = 2

abbrev pub read_flag : ℕ
read_flag = 4

-- `flags & flag` as a condition.
abbrev pub has_flag : ℕ → ℕ → Bool
has_flag flags flag = not (bit_and flags flag == 0)

unfoldable pub get_flags_as_string : ℕ → List ℕ
get_flags_as_string flags =
    if has_flag flags read_flag && has_flag flags write_flag && has_flag flags execute_flag
    then codes "rwx"
    else (if has_flag flags read_flag && has_flag flags write_flag
        then codes "rw-"
        else (if has_flag flags read_flag && has_flag flags execute_flag
            then codes "r-x"
            else (if has_flag flags write_flag && has_flag flags execute_flag
                then codes "-wx"
                else (if has_flag flags read_flag
                    then codes "r--"
                    else (if has_flag flags write_flag
                        then codes "-w-"
                        else (if has_flag flags execute_flag then codes "--x" else codes "---"))))))

-- The `SHT_` constants are those of <elf.h>.
unfoldable pub get_section_type_as_string : Shdr → List ℕ
get_section_type_as_string header =
    let t = header.sh_type in
    if t == 1
    then codes "Program data"
    else (if t == 2
        then codes "Symbol table"
        else (if t == 3
            then codes "String table"
            else (if t == 4
                then codes "Relocation entries with addends"
                else (if t == 5
                    then codes "Symbol hash table"
                    else (if t == 6
                        then codes "Dynamic linking information"
                        else (if t == 7
                            then codes "Notes"
                            else (if t == 8
                                then codes "Program space with no data (bss)"
                                else (if t == 9
                                    then codes "Relocation entries, no addends"
                                    else (if t == 11
                                        then codes "Dynamic linker symbol table"
                                        else codes "Unused")))))))))

unfoldable pub get_symbol_type_as_string : Sym → List ℕ
get_symbol_type_as_string sym =
    let t = bit_and sym.st_info 0x0F in
    if t == 0
    then codes "No type specified"
    else (if t == 1
        then codes "Data object"
        else (if t == 2
            then codes "Function entry point"
            else (if t == 3
                then codes "Symbol associated with a section"
                else (if t == 4
                    then codes "Source file associated with the object file"
                    else codes "NULL"))))

-- The switch is on the whole of `st_info`.
unfoldable pub get_symbol_binding_as_string : Sym → List ℕ
get_symbol_binding_as_string sym =
    let b = sym.st_info in
    if b == 0
    then codes "Local"
    else (if b == 1 then codes "Global" else (if b == 2 then codes "Weak" else codes "NULL"))

-- The ladder of tests writes the three permissions independently: `r`, `w` and `x` in this order,
-- each where its flag is set and `-` where it is not, whatever other flags there are.
pub get_flags_as_string_lem :
    (flags : ℕ)
    → get_flags_as_string flags
      ≡ (if has_flag flags read_flag then b'r' else b'-')
        ∷ (if has_flag flags write_flag then b'w' else b'-')
        ∷ (if has_flag flags execute_flag then b'x' else b'-')
        ∷ []
unfolding get_flags_as_string
get_flags_as_string_lem flags = ground arith

-- In the ELF format `st_info` is `16 * binding + type`. For a symbol whose binding is not local the
-- text is "NULL", whatever its type: no global or weak symbol is shown as such.
pub get_symbol_binding_as_string-null :
    (sym : Sym) (binding type : ℕ)
    → sym.st_info ≡ 16 * binding + type
    → 1 ≤ binding
    → get_symbol_binding_as_string sym ≡ codes "NULL"
unfolding get_symbol_binding_as_string
get_symbol_binding_as_string-null sym binding type e h = ground arith
