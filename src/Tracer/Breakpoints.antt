-- ===== src/Tracer/Breakpoints.antt =====
-- `bp`, `bp off` and `bp show`. The messages of a failure have a `%s` and no argument for it, which
-- is undefined.
use c_bdd.Base.{
  ℕ, Bool, true, false, List, [], ◌∷◌, ◌++◌, codes, starts_with, if◌then◌else◌, Outcome, ok,
  undefined, ◌>>=◌,
}
use c_bdd.Os.{Os}
use c_bdd.Text.{line}
use c_bdd.Elf.Sections.{until_nul}
use c_bdd.Program.{Machine}
use c_bdd.Program.Show.{print_breakpoints_map}
use c_bdd.Program.Breakpoints.{
  breakpoint_at_text, breakpoint_at_function, disable_breakpoint_at_address,
  disable_breakpoint_at_function,
}
use c_bdd.Tracer.Usage.{show_usage_for}
use c_bdd.Tracer.Queries.{tell_with}

module _ {W : Type 0} where
  unfoldable pub bp_show_command : Machine W → Outcome (Machine W)
  bp_show_command m = print_breakpoints_map m

  unfoldable pub usage_command : (command : List ℕ) → Machine W → Outcome (Machine W)
  usage_command command m = do
    trace ← show_usage_for command m.trace
    ok (record m { trace = trace })

  -- The message behind an attempt, and the table.
  unfoldable pub report : (ending choice : List ℕ) → Bool × Machine W → Outcome (Machine W)
  unfolding tell_with bp_show_command
  report ending choice (true, m) = do
    told ←
        tell_with (codes "Breakpoint[%s] " ++ line ending)
          (codes "Breakpoint[" ++ until_nul choice ++ codes "] " ++ line ending) m
    bp_show_command told
  report ending choice (false, m) = undefined

module _ {W : Type 0} (os : Os W) where
  unfoldable pub bp_command : (arguments : List (List ℕ)) → Machine W → Outcome (Machine W)
  unfolding usage_command report
  bp_command [] m = usage_command (codes "bp off <address|function-name>") m
  bp_command (choice ∷ arguments) m =
      if starts_with choice (codes "0x")
      then report (codes "placed.") choice (breakpoint_at_text os choice m)
      else (breakpoint_at_function os choice m >>= report (codes "placed.") choice)

  -- The words behind `bp`, the first of which is `off`: it is also the choice.
  unfoldable pub bp_off_command : (arguments : List (List ℕ)) → Machine W → Outcome (Machine W)
  unfolding usage_command report
  bp_off_command [] m = usage_command (codes "bp <address|function-name>") m
  bp_off_command (choice ∷ arguments) m =
      if starts_with choice (codes "0x")
      then report (codes "disabled.") choice (disable_breakpoint_at_address os choice m)
      else (disable_breakpoint_at_function os choice m >>= report (codes "disabled.") choice)
