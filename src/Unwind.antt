-- ===== src/Unwind.antt =====
-- The backtrace of lib/bdd_unwind.cpp. libunwind is not in the repository, so its cursors and what
-- it answers about them are a parameter.
pub mod Frames
use c_bdd.Base.{
  ℕ, zero, suc, ◌+◌, Bool, true, false, ◌&&◌, not, Option, none, some, List, [], ◌∷◌, ◌++◌, length,
  ltb, if◌then◌else◌, Outcome, ok, throws, and_then, Attempt, no_unwind_cursor,
}

-- `W` is the world and `C` the type of cursors.
pub record Unwinder (W C : Type 0) : Type 0 where
  -- `unw_init_remote` on the traced process, or `none` where it fails
  pub attach : (pid : ℕ) → W → Option C
  -- whether `unw_get_reg` can read the program counter
  pub has_ip : C → Bool
  -- `unw_get_proc_name` into 256 bytes: the offset in the function and its name
  pub proc_name : C → Option (ℕ × List ℕ)
  -- `unw_step`, and whether its result is positive
  pub step : C → C × Bool

abbrev pub max_stack_size : ℕ
max_stack_size = 256

abbrev pub Frame : Type 0
Frame = ℕ × List ℕ

-- `queue.push`, where the frame has a name.
abbrev pub push_named : Option Frame → List Frame → List Frame
push_named none queue = queue
push_named (some frame) queue = queue ++ frame ∷ []

-- What `backtrace` returns, or `none` where the loop ran out of fuel.
abbrev pub returned : Option (List Frame) → Attempt (List Frame)
returned none = none
returned (some queue) = some (ok queue)

module _ {W C : Type 0} (unwinder : Unwinder W C) where
  -- The loop, with fuel for its rounds: `none` means that it ran out.
  unfoldable pub frames : (fuel : ℕ) → C → (queue : List Frame) → Option (List Frame)
  frames zero cursor queue = none
  frames (suc fuel) cursor queue =
      let pushed = push_named (unwinder.proc_name cursor) queue in
      let (next, more) = unwinder.step cursor in
      let rest = frames fuel next pushed in
      if not (unwinder.has_ip cursor)
      then some queue
      else (if more && ltb (length pushed) max_stack_size then rest else some pushed)

  -- `attachUnwind`, which throws where libunwind has no cursor for the process.
  unfoldable pub attach_unwind : (pid : ℕ) → W → Outcome C
  attach_unwind pid w = elim (unwinder.attach pid w) [
    | none ↦ throws no_unwind_cursor
    | some cursor ↦ ok cursor
  ]

  unfoldable pub backtrace : (fuel pid : ℕ) → W → Option (Outcome (List Frame))
  unfolding frames attach_unwind
  backtrace fuel pid w = and_then (attach_unwind pid w) λ cursor. returned (frames fuel cursor [])
