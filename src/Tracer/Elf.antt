-- ===== src/Tracer/Elf.antt =====
-- `elfCommand`: a menu of the sections, and what is printed for the number that the user types.
pub mod Choice
use c_bdd.Base.{
  ℕ, zero, suc, ◌+◌, ◌-◌, ◌%◌, ◌^◌, Bool, true, false, ◌||◌, Option, none, some, List, [], ◌∷◌,
  ◌++◌, codes, text_eq, if◌then◌else◌, Outcome, ok, ◌>>=◌, Attempt, and_then,
}
use c_bdd.Os.{Os}
use c_bdd.Io.{bypassed}
use c_bdd.Number.{strtoul}
use c_bdd.Text.{to_string, line}
use c_bdd.Elf.{ElfFile}
use c_bdd.Elf.Sections.{get_symbols_names}
use c_bdd.Elf.Print.{print_header, print_section_header_at}
use c_bdd.Program.{Machine}
use c_bdd.Program.Control.{show_status}
use c_bdd.Tracer.Queries.{tell_high, tell_error}
use c_bdd.Tracer.Session.{Session, ask, in_session}

-- The loop over the sections: the rows of the menu and the numbers that may be typed.
unfoldable pub menu_rows : (index : ℕ) → List (List ℕ × List ℕ) → List ℕ
menu_rows index [] = []
menu_rows index ((type, name) ∷ names) =
    to_string index
    ++ codes ". Section <"
    ++ name
    ++ line (codes ">")
    ++ menu_rows (index + 1) names

unfoldable pub possible_indexes : (index : ℕ) → List (List ℕ × List ℕ) → List (List ℕ)
possible_indexes index [] = []
possible_indexes index (name ∷ names) = to_string index ∷ possible_indexes (index + 1) names

-- `std::find(…) != cend()`.
unfoldable pub is_listed : List ℕ → List (List ℕ) → Bool
is_listed selected [] = false
is_listed selected (text ∷ texts) = text_eq text selected || is_listed selected texts

-- What is printed for the typed text, or `none` for an unknown index. The subtraction is one of
-- `int`s.
unfoldable pub chosen_text :
    ElfFile → (names : List (List ℕ × List ℕ)) → (selected : List ℕ) → Outcome (Option (List ℕ))
unfolding possible_indexes is_listed
chosen_text file names selected =
    if text_eq selected (codes "1")
    then ok (some (print_header file))
    else (if is_listed selected (possible_indexes 2 names)
        then (do
          text ← print_section_header_at file ((strtoul selected % 2 ^ 32 + 2 ^ 32 - 2) % 2 ^ 32)
          ok (some text))
        else ok none)

-- `fprintf` to the standard output does not go through class ExclusiveIO.
abbrev pub show_chosen : {W : Type 0} → Option (List ℕ) → Machine W → Outcome (Machine W)
show_chosen none m = tell_error (line (codes "Unknown index.")) m
show_chosen (some text) m = ok (record m { trace = m.trace ++ bypassed text ∷ [] })

abbrev pub elf_menu : (names : List (List ℕ × List ℕ)) → List ℕ
elf_menu names =
    line (codes "Elf available informations:")
    ++ line (codes "1. Program header")
    ++ menu_rows 2 names

module _ {W : Type 0} (os : Os W) where
  -- The lines behind the typed index, for that text and the session behind it.
  unfoldable pub show_choice :
      (names : List (List ℕ × List ℕ)) → List ℕ × Session W → Attempt (Session W)
  unfolding chosen_text
  show_choice names (selected, asked) = in_session asked (
      chosen_text asked.machine.program.elf_file names selected >>= λ chosen.
      show_chosen chosen asked.machine >>= λ shown. show_status os shown)

  unfoldable pub elf_command : Session W → Attempt (Session W)
  unfolding menu_rows ask show_choice
  elf_command s = and_then (get_symbols_names s.machine.program.elf_file) λ names.
      let menu = tell_high (elf_menu names) s.machine in
      let prompt = tell_high (codes "Type the index that you want to display: ") menu in
      show_choice names (ask (record s { machine = prompt }))
