-- ===== src/Io/Discipline.antt =====
-- The mutex is not recursive: a process that locks it twice waits for itself for ever.
use c_bdd.Base.{
  ℕ, ◌≡◌, Bool, true, false, Option, none, some, List, [], ◌∷◌, ◌++◌, ok, arith, undefined, ◌≤◌,
  ◌+◌, length, ◌<◌,
}
use c_bdd.Io.{
  format_args, Channel, Event, locked, unlocked, wrote, asked, bypassed, lock_print, unlock_print,
  generic_format_print, generic_not_format_print, input, decorate,
}

-- Whether the process holds the mutex after a trace; `none` where it locked it twice, gave back
-- what it did not hold, or used a stream through the class without it.
abbrev pub holds_after : Bool → List Event → Option Bool
holds_after held [] = some held
holds_after true (locked ∷ trace) = none
holds_after false (locked ∷ trace) = holds_after true trace
holds_after true (unlocked ∷ trace) = holds_after false trace
holds_after false (unlocked ∷ trace) = none
holds_after true (wrote channel text ∷ trace) = holds_after true trace
holds_after false (wrote channel text ∷ trace) = none
holds_after true (asked ∷ trace) = holds_after true trace
holds_after false (asked ∷ trace) = none
holds_after held (bypassed text ∷ trace) = holds_after held trace

-- The process has kept to the discipline and holds the mutex, or does not.
abbrev pub Holding : Bool → List Event → Type 0
Holding held trace = holds_after false trace ≡ some held

pub holds_after-append :
    (start middle : Bool) (before after : List Event)
    → holds_after start before ≡ some middle
    → holds_after start (before ++ after) ≡ holds_after middle after
holds_after-append start middle [] after h = ground arith
holds_after-append true middle (locked ∷ before) after h = cc
holds_after-append false middle (locked ∷ before) after h =
    holds_after-append true middle before after h
holds_after-append true middle (unlocked ∷ before) after h =
    holds_after-append false middle before after h
holds_after-append false middle (unlocked ∷ before) after h = cc
holds_after-append true middle (wrote c t ∷ before) after h =
    holds_after-append true middle before after h
holds_after-append false middle (wrote c t ∷ before) after h = cc
holds_after-append true middle (asked ∷ before) after h =
    holds_after-append true middle before after h
holds_after-append false middle (asked ∷ before) after h = cc
holds_after-append start middle (bypassed t ∷ before) after h =
    holds_after-append start middle before after h

module _ (trace : List Event) where
  pub lock_print-Holding : Holding false trace → Holding true (lock_print trace)
  lock_print-Holding h = holds_after-append false false trace (locked ∷ []) h

  pub unlock_print-Holding : Holding true trace → Holding false (unlock_print trace)
  unlock_print-Holding h = holds_after-append false true trace (unlocked ∷ []) h

  pub wrote-Holding :
      (channel : Channel) (text : List ℕ)
      → Holding true trace
      → Holding true (trace ++ wrote channel text ∷ [])
  wrote-Holding channel text h = holds_after-append false true trace (wrote channel text ∷ []) h

  asked-Holding : Holding true trace → Holding true (trace ++ asked ∷ [])
  asked-Holding h = holds_after-append false true trace (asked ∷ []) h

pub bypassed-Holding :
    (held : Bool) (text : List ℕ) (trace : List Event)
    → Holding held trace
    → Holding held (trace ++ bypassed text ∷ [])
bypassed-Holding held text trace h = holds_after-append false held trace (bypassed text ∷ []) h

-- `input` and the prints without a format take the mutex once, use the stream under it and give it
-- back, from a process that does not hold it.
pub input-Holding : (trace : List Event) → Holding false trace → Holding false (input trace)
unfolding input
input-Holding trace h =
    unlock_print-Holding (lock_print trace ++ asked ∷ [])
      (asked-Holding (lock_print trace) (lock_print-Holding trace h))

pub generic_not_format_print-Holding :
    (channel : Channel) (color text : List ℕ) (trace : List Event)
    → Holding false trace
    → Holding false (generic_not_format_print channel color text trace)
unfolding generic_not_format_print
generic_not_format_print-Holding channel color text trace h =
    unlock_print-Holding (lock_print trace ++ wrote channel (decorate color text) ∷ [])
      (wrote-Holding (lock_print trace) channel (decorate color text) (lock_print-Holding trace h))

-- A formatted print keeps to the discipline too, and it has a result exactly where the text is at
-- most 132 bytes longer than its format: otherwise it writes past its buffer.
pub generic_format_print_lem :
    (channel : Channel) (color format text : List ℕ) (trace : List Event)
    → Holding false trace
    → (length text ≤ length format + 132
        → (trace' : List Event) × (generic_format_print channel color format text trace ≡ ok trace')
          × Holding false trace')
      × (length format + 132 < length text
          → generic_format_print channel color format text trace ≡ undefined)
unfolding generic_format_print format_args generic_not_format_print
generic_format_print_lem channel color format text trace h = (
  λ fits. (
    generic_not_format_print channel color text trace,
    ground arith,
    generic_not_format_print-Holding channel color text trace h,
  ),
  λ long. ground arith,
)

pub generic_format_print-Holding :
    (channel : Channel) (color format text : List ℕ) (trace trace' : List Event)
    → Holding false trace
    → generic_format_print channel color format text trace ≡ ok trace'
    → Holding false trace'
unfolding generic_format_print format_args generic_not_format_print
generic_format_print-Holding channel color format text trace trace' h e =
    ground (arith, generic_not_format_print-Holding channel color text trace h)
