-- ===== src/Tracer/Usage.antt =====
-- The usage table and the pages that show it.
use c_bdd.Base.{
  ℕ, Option, none, some, List, [], ◌∷◌, ◌++◌, codes, replicate, text_eq, if◌then◌else◌, Outcome, ok,
  throws, out_of_range, ◌>>=◌,
}
use c_bdd.Text.{tab, newline, line}
use c_bdd.Io.{Event, error_f, error_nf, info_high_nf, info_nf}

abbrev pub usage_map : List (List ℕ × List ℕ)
usage_map =
    (codes "r", codes "Run the traced program.")
    ∷ (codes "run", codes "Run the traced program.")
    ∷ (codes "r / run <parameters>", codes "Run the traced program.")
    ∷ (codes "restart", codes "Restart the traced program.")
    ∷ (codes "s", codes "Run one assembly instruction in the traced-program.")
    ∷ (codes "step", codes "Run one assembly instruction in the traced-program.")
    ∷ (codes "s / step", codes "Run one assembly instruction in the traced-program.")
    ∷ (codes "stop", codes "Force the traced program to stop (SIGKILL). Memory leaks may occur.")
    ∷ (codes "kill", codes "Force the traced program to stop (SIGKILL). Memory leaks may occur.")
    ∷ (
      codes "status",
      codes "Display the current state of the traced program (exited/segfault/...).",
    )
    ∷ (codes "functions", codes "Display every functions in the traced program.")
    ∷ (codes "functions <full>", codes "Display every functions in the traced program.")
    ∷ (codes "reg", codes "Display every registers values (as %llu only).")
    ∷ (codes "registers", codes "Display every registers values (as %llu only).")
    ∷ (codes "reg / registers", codes "Display every registers values (as %llu only).")
    ∷ (
      codes "d",
      codes "Display the program (assembly & C) with the next n lines from the current location.",
    )
    ∷ (
      codes "dump",
      codes "Display the program (assembly & C) with the next n lines from the current location.",
    )
    ∷ (
      codes "d / dump <n>",
      codes "Display the program (assembly & C) with the next n lines from the current location.",
    )
    ∷ (codes "bp", codes "Creates a breakpoint at the specified location.")
    ∷ (codes "bp <address|function-name>", codes "Creates a breakpoint at the specified location.")
    ∷ (codes "bp off", codes "Removes a breakpoint from the specified location.")
    ∷ (
      codes "bp off <address|function-name>",
      codes "Removes a breakpoint from the specified location.",
    )
    ∷ (codes "bp show", codes "Display every breakpoints.")
    ∷ (codes "bt", codes "Show the current stack.")
    ∷ (codes "backtrace", codes "Show the current stack.")
    ∷ (codes "bt / backtrace", codes "Show the current stack.")
    ∷ (codes "elf", codes "Show elf information about the traced program.")
    ∷ (codes "help", codes "Show this page.")
    ∷ (codes "man", codes "Show this page.")
    ∷ (codes "help / man", codes "Show this page.")
    ∷ (codes "version", codes "Show the debugger version.")
    ∷ []

-- `usage_map.find`.
unfoldable pub find_usage : List ℕ → List (List ℕ × List ℕ) → Option (List ℕ)
find_usage command [] = none
find_usage command ((key, usage) ∷ entries) =
    let rest = find_usage command entries in if text_eq key command then some usage else rest

unfoldable pub print_unknown_command : List Event → Outcome (List Event)
print_unknown_command trace =
    let text =
      newline ∷ [] ++ line (codes "Unknown command. Use 'man' to view every available commands.") in
    error_f text text trace

unfoldable pub show_usage_for : (command : List ℕ) → List Event → Outcome (List Event)
unfolding print_unknown_command find_usage
show_usage_for command trace = elim (find_usage command usage_map) [
  | none ↦ print_unknown_command trace
  | some usage ↦ ok (
      error_nf
        (line (codes "Usage:")
          ++ command
          ++ replicate 2 tab
          ++ codes " "
          ++ usage
          ++ newline ∷ newline ∷ [])
        trace)
]

-- The lines of the manual: how a command is shown, and its key in the table.
abbrev pub manual : List (List ℕ × List ℕ)
manual =
    (codes "r, run " ++ replicate 7 tab ++ codes " ", codes "r")
    ∷ (codes "s, step " ++ replicate 6 tab ++ codes " ", codes "s")
    ∷ (codes "restart" ++ replicate 7 tab ++ codes " ", codes "restart")
    ∷ (codes "stop   " ++ replicate 7 tab ++ codes " ", codes "stop")
    ∷ (codes "kill   " ++ replicate 7 tab ++ codes " ", codes "kill")
    ∷ (codes "status " ++ replicate 7 tab ++ codes " ", codes "status")
    ∷ (codes "functions <full>" ++ replicate 4 tab ++ codes " ", codes "functions")
    ∷ (codes "reg, registers" ++ replicate 5 tab ++ codes " ", codes "reg")
    ∷ (codes "d, dump <n> " ++ replicate 5 tab ++ codes " ", codes "d")
    ∷ (codes "bp <address|function-name> " ++ replicate 2 tab ++ codes " ", codes "bp")
    ∷ (codes "bp off <address|function-name> " ++ replicate 1 tab ++ codes " ", codes "bp off")
    ∷ (codes "bp show " ++ replicate 6 tab ++ codes " ", codes "bp show")
    ∷ (codes "bt, backtrace " ++ replicate 5 tab ++ codes " ", codes "bt")
    ∷ (codes "elf " ++ replicate 7 tab ++ codes " ", codes "elf")
    ∷ (codes "help, man " ++ replicate 6 tab ++ codes " ", codes "man")
    ∷ (codes "version " ++ replicate 6 tab ++ codes " ", codes "version")
    ∷ []

-- `usage_map.at`, for each line.
unfoldable pub manual_text : List (List ℕ × List ℕ) → Outcome (List ℕ)
manual_text [] = ok (newline ∷ [])
manual_text ((shown, key) ∷ entries) = elim (find_usage key usage_map) [
  | none ↦ throws out_of_range
  | some usage ↦ (do rest ← manual_text entries; ok (shown ++ line usage ++ rest))
]

unfoldable pub man_command : List Event → Outcome (List Event)
unfolding manual_text find_usage
man_command trace = do
  text ← manual_text manual
  ok (info_high_nf (newline ∷ newline ∷ line (codes "Commands:") ++ text) trace)

abbrev pub bdd_version : List ℕ
bdd_version = codes "1.0b"

unfoldable pub version_command : List Event → List Event
version_command trace = info_nf (codes "Current version: " ++ bdd_version ++ newline ∷ []) trace
