-- ===== src/Tracer/Elf/Choice.antt =====
-- A number of the menu reads back as the section that the menu showed with it.
use c_bdd.Base.{
  ℕ, zero, suc, ◌+◌, ◌-◌, ◌%◌, ◌^◌, ◌<◌, ◌≡◌, refl, ap, sym, ◌∙◌, true, false, Bool-cases, inl, inr,
  ◌||◌, some, List, [], ◌∷◌, codes, length, get_elem?, text_eq, text_eq_iff, leb, arith, ok, ◌>>=◌,
  IfOk-ok, ◌++◌, take, drop, append_assoc,
}
use native.Mathlib.Nat.{add-zero}
use c_bdd.Number.{strtoul}
use c_bdd.Text.{to_string, decimal, line}
use c_bdd.Text.Decimals.{strtoul-to_string}
use c_bdd.Elf.{ElfFile, Shdr}
use c_bdd.Elf.Describe.{get_section_type_as_string}
use c_bdd.Elf.Sections.{get_symbols_names, get_section_name}
use c_bdd.Elf.Sections.Names.{length-get_symbols_names, NamedAt, get_elem?-get_symbols_names}
use c_bdd.Elf.Print.{section_header_text, print_section_header_at}
use c_bdd.Tracer.Elf.{possible_indexes, is_listed, chosen_text, menu_rows, elf_menu}

-- Two numbers that print alike are the same.
to_string-injective :
    (a b : ℕ) → 0 < a → a < 2 ^ 31 → 0 < b → b < 2 ^ 31 → to_string a ≡ to_string b → a ≡ b
to_string-injective a b p h q k e =
    sym (strtoul-to_string a p h) ∙ ap strtoul e ∙ strtoul-to_string b q k

is_listed-possible_indexes :
    (start i n : ℕ) (names : List (List ℕ × List ℕ))
    → i < length names
    → n ≡ start + i
    → is_listed (to_string n) (possible_indexes start names) ≡ true
unfolding is_listed possible_indexes
is_listed-possible_indexes start i n [] h e = absurd (omega arith)
is_listed-possible_indexes start zero n (name ∷ names) h e =
    ground (arith, (text_eq_iff (to_string start) (to_string n)).1 (ap to_string (omega arith)))
is_listed-possible_indexes start (suc i) n (name ∷ names) h e =
    ground (arith, is_listed-possible_indexes (start + 1) i n names (omega arith) (omega arith))

not_the_header : (n : ℕ) → 1 < n → n < 2 ^ 31 → text_eq (to_string n) (codes "1") ≡ false
unfolding to_string decimal
not_the_header n h k = elim (Bool-cases (text_eq (to_string n) (codes "1"))) [
  | inr different ↦ different
  | inl same ↦
      let e =
        to_string-injective n 1 (omega arith) k (omega arith) (omega arith)
          ((text_eq_iff (to_string n) (codes "1")).0 same) in
      absurd (omega (arith, e))
]

get_elem?-length :
    {A : Type 0} (xs : List A) (i : ℕ) {x : A} → get_elem? xs i ≡ some x → i < length xs
get_elem?-length [] i e = cc
get_elem?-length (x ∷ xs) zero e = omega arith
get_elem?-length (x ∷ xs) (suc i) e = omega (arith, get_elem?-length xs i e)

print_section_header_at_lem :
    (file : ElfFile) (i : ℕ) (header : Shdr)
    → get_elem? file.sections_headers i ≡ some header
    → i < 2 ^ 31
    → print_section_header_at file i ≡ section_header_text file i header
unfolding print_section_header_at
print_section_header_at_lem file i header e h =
    let below : (leb (2 ^ 31) i || leb (length file.sections_headers) i) ≡ false =
      ground (arith, get_elem?-length file.sections_headers i e) in
    rw (below, e) refl

back_to : (i : ℕ) → i + 2 < 2 ^ 31 → ((i + 2) % 2 ^ 32 + 2 ^ 32 - 2) % 2 ^ 32 ≡ i
back_to i h = omega arith

-- The rows of the menu around the one at `i`.
menu_rows-at :
    (start i : ℕ) (names : List (List ℕ × List ℕ)) (type name : List ℕ)
    → get_elem? names i ≡ some (type, name)
    → menu_rows start names
      ≡ menu_rows start (take i names)
        ++ (to_string (start + i)
            ++ codes ". Section <"
            ++ name
            ++ line (codes ">")
            ++ menu_rows (start + i + 1) (drop (suc i) names))
unfolding menu_rows
menu_rows-at start i [] type name e = cc
menu_rows-at start zero ((type', name') ∷ names) type name e =
    let same : name' ≡ name = cc in rw (same, add-zero) refl
menu_rows-at start (suc i) ((type', name') ∷ names) type name e =
    let next : start + suc i ≡ start + 1 + i = omega arith in
    rw (next, menu_rows-at (start + 1) i names type name e) (simp append_assoc)

-- The number that the menu shows with a section chooses that section. The menu has `i` rows of
-- sections before the one that begins with the number `i + 2` and has the name of the section header
-- `i`; typing that number as it is written there prints the rows of that header and of no other. The
-- section exists, every section has a name, and the number fits an `int`.
pub chosen_text-section :
    (file : ElfFile) (names : List (List ℕ × List ℕ)) (i : ℕ) (header : Shdr)
    → get_symbols_names file ≡ ok names
    → get_elem? file.sections_headers i ≡ some header
    → i + 2 < 2 ^ 31
    → ((name : List ℕ) × (get_section_name file header ≡ ok name)
        × (elf_menu names
            ≡ line (codes "Elf available informations:")
              ++ line (codes "1. Program header")
              ++ menu_rows 2 (take i names)
              ++ (to_string (i + 2)
                  ++ codes ". Section <"
                  ++ name
                  ++ line (codes ">")
                  ++ menu_rows (i + 3) (drop (suc i) names))))
      × (chosen_text file names (to_string (i + 2))
          ≡ (section_header_text file i header >>= λ text. ok (some text)))
unfolding chosen_text
chosen_text-section file names i header listed e h =
    let many =
      IfOk-ok (λ names. length names ≡ length file.sections_headers) (get_symbols_names file) listed
        (length-get_symbols_names file) in
    let (name, named, shown) =
      IfOk-ok (NamedAt file i header) (get_symbols_names file) listed
        (get_elem?-get_symbols_names file i header e) in
    let there =
      ap
        (λ rows.
          line (codes "Elf available informations:") ++ line (codes "1. Program header") ++ rows)
        (menu_rows-at 2 i names (get_section_type_as_string header) name shown) in
    let order : 2 + i ≡ i + 2 = omega arith in
    let after : i + 2 + 1 ≡ i + 3 = omega arith in
    (
      (name, named, rw (order, after) at there),
      rw
          (
            not_the_header (i + 2) (omega arith) h,
            is_listed-possible_indexes 2 i (i + 2) names
                (omega (arith, many, get_elem?-length file.sections_headers i e)) (omega arith),
            strtoul-to_string (i + 2) (omega arith) h,
            back_to i h,
            print_section_header_at_lem file i header e (omega arith),
          )
          refl,
    )
