-- ===== src/Program/Dump.antt =====
-- `dumpAt`, `dumpAtCurrent` and `getOutputFromExec` (lib/bdd_ptrace.cpp), and the argument vector
-- that `initChild` builds.
pub mod Whole
pub mod Arguments
use c_bdd.Base.{
  ℕ, zero, suc, ◌+◌, Bool, true, false, ◌||◌, Option, none, some, List, [], ◌∷◌, ◌++◌, codes,
  length, ltb, leb, ◌==◌, if◌then◌else◌, Outcome, ok, throws, undefined, popen_failed, ◌>>=◌,
}
use c_bdd.Os.{Os}
use c_bdd.Text.{hex}
use c_bdd.Elf.Sections.{until_nul}
use c_bdd.Program.{Program, add_addr, sub_addr, get_elf_ip}

-- `fgets` with room for `room` bytes: up to and with the first newline. What it read, and what is
-- left.
unfoldable pub fgets : (room : ℕ) → List ℕ → List ℕ × List ℕ
fgets zero stream = ([], stream)
fgets (suc room) [] = ([], [])
fgets (suc room) (c ∷ stream) =
    let rest = fgets room stream in if c == 10 then (c ∷ [], stream) else (c ∷ rest.0, rest.1)

-- The loop of `getOutputFromExec`, which appends each piece as a C string. Each round but the last
-- reads a byte at least, so a round more than there are bytes is enough.
unfoldable pub read_output : (fuel : ℕ) → List ℕ → List ℕ
unfolding fgets
read_output zero stream = []
read_output (suc fuel) [] = []
read_output (suc fuel) (c ∷ stream) =
    let (piece, rest) = fgets 255 (c ∷ stream) in until_nul piece ++ read_output fuel rest

-- `objdump_cmd_format` with its arguments.
abbrev pub dump_command : (start stop : ℕ) (path : List ℕ) → List ℕ
dump_command start stop path =
    codes "objdump -C -D -S -l -w --start-address="
    ++ hex start
    ++ codes " --stop-address="
    ++ hex stop
    ++ codes " "
    ++ until_nul path
    ++ codes " | tail -n+6"

module _ {W : Type 0} (os : Os W) where
  unfoldable pub get_output_from_exec : (command : List ℕ) → W → Outcome (List ℕ)
  unfolding read_output
  get_output_from_exec command w = elim (os.shell command w) [
    | none ↦ throws popen_failed
    | some output ↦ ok (read_output (suc (length output)) output)
  ]

  -- The command is printed into a string of 256 bytes.
  unfoldable pub dump_at : (address offset : ℕ) → Program → W → Outcome (List ℕ)
  unfolding get_output_from_exec
  dump_at address offset p w =
      let command = dump_command (sub_addr address 2) (add_addr address offset) p.elf_file_path in
      if leb (length command) 256 then get_output_from_exec command w else undefined

  unfoldable pub dump_at_current : (offset : ℕ) → Program → W → Outcome (List ℕ)
  unfolding dump_at get_elf_ip
  dump_at_current offset p w = dump_at (get_elf_ip os p w) offset p w

-- The writes of `initChild` into its array of 32 pointers, where an element that is not written is
-- `none`: the path, the null pointer behind the parameters, and the parameters from element 1 on.
unfoldable pub put_at {ℓ} : {A : Type ℓ} → (index : ℕ) → A → List A → Outcome (List A)
put_at index value [] = undefined
put_at zero value (x ∷ xs) = ok (value ∷ xs)
put_at (suc index) value (x ∷ xs) = do xs' ← put_at index value xs; ok (x ∷ xs')

abbrev pub Slot : Type 0
Slot = Option (Option (List ℕ))

unfoldable pub put_parameters : (index : ℕ) → List (List ℕ) → List Slot → Outcome (List Slot)
unfolding put_at
put_parameters index [] args = ok args
put_parameters index (parameter ∷ parameters) args = do
  args' ← put_at index (some (some parameter)) args
  put_parameters (index + 1) parameters args'

abbrev pub unwritten : ℕ → List Slot
unwritten zero = []
unwritten (suc n) = none ∷ unwritten n

unfoldable pub child_arguments : (path : List ℕ) (parameters : List (List ℕ)) → Outcome (List Slot)
unfolding put_parameters put_at
child_arguments path parameters = do
  with_path ← put_at 0 (some (some path)) (unwritten 32)
  with_end ← put_at (length parameters + 1) (some none) with_path
  put_parameters 1 parameters with_end
