-- ===== src/Unwind/Frames.antt =====
-- How many frames there are, and when the loop ends.
use c_bdd.Base.{
  ℕ, zero, suc, ◌+◌, ◌≤◌, ◌<◌, ◌≡◌, ◌≢◌, refl, true, Option-cases, inl, inr, Option, none, some,
  List, [], ◌∷◌, length, length-append, arith, Outcome, ok, throws, no_unwind_cursor, IfOk,
}
use c_bdd.Unwind.{Unwinder, Frame, max_stack_size, push_named, frames, attach_unwind, backtrace}

length-push_named :
    (frame : Option Frame) (queue : List Frame) → length (push_named frame queue) ≤ length queue + 1
length-push_named none queue = omega arith
length-push_named (some frame) queue = omega (arith, length-append queue (frame ∷ []))

pushed_longer :
    (frame : Option Frame) (queue : List Frame)
    → frame ≢ none
    → length (push_named frame queue) ≡ length queue + 1
pushed_longer none queue h = absurd (h refl)
pushed_longer (some frame) queue h = length-append queue (frame ∷ [])

module _ {W C : Type 0} (unwinder : Unwinder W C) where
  frames-bounded :
      (fuel : ℕ) (cursor : C) (queue result : List Frame)
      → length queue < max_stack_size
      → frames unwinder fuel cursor queue ≡ some result
      → length result ≤ max_stack_size
  unfolding frames
  frames-bounded zero cursor queue result h e = cc
  frames-bounded (suc fuel) cursor queue result h e = ground (
    arith,
    length-push_named (unwinder.proc_name cursor) queue,
    frames-bounded fuel (unwinder.step cursor).0 (push_named (unwinder.proc_name cursor) queue)
        result,
  )

  -- With names for all frames, a round for each frame that there is still room for is enough.
  frames-named :
      ((cursor : C) → unwinder.proc_name cursor ≢ none)
      → (fuel : ℕ) (cursor : C) (queue : List Frame) → length queue < max_stack_size
      → max_stack_size ≤ length queue + fuel
      → frames unwinder fuel cursor queue ≢ none
  unfolding frames
  frames-named named zero cursor queue room enough = absurd (omega arith)
  frames-named named (suc fuel) cursor queue room enough = ground (
    arith,
    pushed_longer (unwinder.proc_name cursor) queue (named cursor),
    frames-named named fuel (unwinder.step cursor).0 (push_named (unwinder.proc_name cursor) queue),
  )

  frames-unnamed :
      ((cursor : C) → unwinder.proc_name cursor ≡ none)
      → ((cursor : C) → unwinder.has_ip cursor ≡ true)
      → ((cursor : C) → (unwinder.step cursor).1 ≡ true)
      → (fuel : ℕ) (cursor : C) → frames unwinder fuel cursor [] ≡ none
  unfolding frames
  frames-unnamed unnamed readable more zero cursor = refl
  frames-unnamed unnamed readable more (suc fuel) cursor = ground (
    arith,
    unnamed cursor,
    readable cursor,
    more cursor,
    frames-unnamed unnamed readable more fuel (unwinder.step cursor).0,
  )

  attach_failed :
      (pid : ℕ) (w : W)
      → unwinder.attach pid w ≡ none
      → attach_unwind unwinder pid w ≡ throws no_unwind_cursor
  unfolding attach_unwind
  attach_failed pid w failed = rw (failed, attach_unwind) refl

  attach_done :
      (pid : ℕ) (w : W) (cursor : C)
      → unwinder.attach pid w ≡ some cursor
      → attach_unwind unwinder pid w ≡ ok cursor
  unfolding attach_unwind
  attach_done pid w cursor attached = rw (attached, attach_unwind) refl

  -- Where libunwind names all frames, 256 rounds of the loop are enough, and the backtrace has at most
  -- `max_stack_size` frames.
  pub backtrace-named :
      ((cursor : C) → unwinder.proc_name cursor ≢ none)
      → (pid : ℕ) (w : W)
      → (result : Outcome (List Frame)) × (backtrace unwinder 256 pid w ≡ some result)
        × IfOk (λ (queue : List Frame). length queue ≤ max_stack_size) result
  unfolding backtrace
  backtrace-named named pid w = elim (Option-cases (unwinder.attach pid w)) [
    | inl failed ↦ (throws no_unwind_cursor, rw (attach_failed pid w failed) refl, tt)
    | inr (cursor, attached) ↦ elim (Option-cases (frames unwinder 256 cursor [])) [
      | inl ended ↦ absurd (frames-named named 256 cursor [] (omega arith) (omega arith) ended)
      | inr (queue, e) ↦ (
        ok queue,
        rw (attach_done pid w cursor attached) (rw e refl),
        frames-bounded 256 cursor [] queue (omega arith) e,
      )
    ]
  ]

  -- Frames without a name do not count: where libunwind names none and always finds one more, no
  -- number of rounds is enough.
  pub backtrace-unnamed :
      ((cursor : C) → unwinder.proc_name cursor ≡ none)
      → ((cursor : C) → unwinder.has_ip cursor ≡ true)
      → ((cursor : C) → (unwinder.step cursor).1 ≡ true)
      → (fuel pid : ℕ) (w : W) (cursor : C) → unwinder.attach pid w ≡ some cursor
      → backtrace unwinder fuel pid w ≡ none
  unfolding backtrace
  backtrace-unnamed unnamed readable more fuel pid w cursor attached =
      rw (attach_done pid w cursor attached)
        (rw (frames-unnamed unnamed readable more fuel cursor) refl)
