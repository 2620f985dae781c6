-- ===== src/Program/Show.antt =====
-- `printBreakpointsMap` (lib/bdd_ptrace_breakpoint.cpp). Each row is printed into a buffer of 256
-- bytes, and the whole buffer is appended to the message.
pub mod FirstRow
use c_bdd.Base.{
  ℕ, zero, ◌+◌, ◌-◌, Bool, true, false, ◌&&◌, List, [], ◌∷◌, ◌++◌, codes, length, take, replicate,
  if◌then◌else◌, Outcome, ok, ◌>>=◌,
}
use c_bdd.Text.{hex, line}
use c_bdd.Io.{Event, hint_f}
use c_bdd.Breakpoint.{Breakpoint}
use c_bdd.Elf.Sections.{until_nul}
use c_bdd.Program.{Program, Machine}

-- The text of a row: the mark, the name and the address.
abbrev pub row_text : (mark : List ℕ) → Breakpoint → List ℕ
row_text mark bp =
    codes "["
    ++ mark
    ++ codes "]: "
    ++ until_nul bp.name
    ++ codes " ("
    ++ hex bp.address
    ++ line (codes ")")

-- `snprintf` into a string of `size` bytes, which are 0 behind the text.
abbrev pub snprintf : (size : ℕ) (text : List ℕ) → List ℕ
snprintf size text = let kept = take (size - 1) text in kept ++ replicate (size - length kept) 0

abbrev pub placed_row : Breakpoint → List ℕ
placed_row bp = snprintf 256 (row_text (if bp.enabled then codes "X " else codes " ") bp)

abbrev pub pending_row : Breakpoint → List ℕ
pending_row bp = snprintf 256 (row_text (codes "PENDING") bp)

unfoldable pub placed_rows : List (ℕ × Breakpoint) → List ℕ
placed_rows [] = []
placed_rows ((address, bp) ∷ entries) = placed_row bp ++ placed_rows entries

unfoldable pub pending_rows : List Breakpoint → List ℕ
pending_rows [] = []
pending_rows (bp ∷ pending) = pending_row bp ++ pending_rows pending

abbrev pub is_none_left {ℓ} : {A : Type ℓ} → List A → Bool
is_none_left [] = true
is_none_left (x ∷ xs) = false

abbrev pub title : List ℕ
title = line (codes "== Breakpoints ==")

unfoldable pub print_table :
    List (ℕ × Breakpoint) → List Breakpoint → List Event → Outcome (List Event)
unfolding placed_rows pending_rows
print_table entries pending trace =
    let message = title ++ placed_rows entries ++ pending_rows pending in
    hint_f (title ++ codes "%s") (title ++ until_nul message) trace

-- A `hint_f` of a text without arguments.
unfoldable pub hint : (text : List ℕ) → List Event → Outcome (List Event)
hint text trace = hint_f text text trace

-- The lines behind the early return.
unfoldable pub print_all :
    List (ℕ × Breakpoint) → List Breakpoint → List Event → Outcome (List Event)
unfolding print_table hint
print_all entries pending trace = do
  shown ← print_table entries pending trace
  trace' ←
      if is_none_left pending
      then ok shown
      else hint (line (codes "* PENDING breakpoints are placed after the first 'run'")) shown
  hint (line (codes "== =========== ==")) trace'

unfoldable pub print_breakpoints_map : {W : Type 0} → Machine W → Outcome (Machine W)
unfolding print_all hint
print_breakpoints_map m =
    let entries = m.program.breakpoints_map in
    let pending = m.program.pending_breakpoints in
    (if is_none_left entries && is_none_left pending
      then hint (line (codes "No breakpoints yet.")) m.trace
      else print_all entries pending m.trace)
    >>= λ trace. ok (record m { trace = trace })
