-- ===== src/Tracer/Loop/Ending.antt =====
-- The end of the input does not end the loop.
use c_bdd.Base.{ℕ, zero, suc, ◌≡◌, refl, false, none, some, [], codes, ◌∙◌, ok, bind_attempt-some}
use c_bdd.Os.{Os}
use c_bdd.Text.{line}
use c_bdd.Tracer.Loop.Prompt.{traced, say-ok, round-dispatch}
use c_bdd.Unwind.{Unwinder}
use c_bdd.Tracer.Console.{read_input, get_line, words_of, split_words}
use c_bdd.Tracer.Session.{Session, say}
use c_bdd.Tracer.Loop.{dispatch, round, rounds, command_loop}

-- Nothing is left to read, and no command has asked for the end.
abbrev pub IsDrained : {W : Type 0} → Session W → Type 0
IsDrained s = (s.console ≡ []) × (s.force_end ≡ false)

module _ {W C : Type 0} (os : Os W) (unwinder : Unwinder W C) (budget : ℕ) where
  round-IsDrained :
      (s : Session W)
      → IsDrained s
      → (t : Session W) × (round os unwinder budget s ≡ some (ok t)) × IsDrained t
  unfolding dispatch read_input get_line words_of split_words
  round-IsDrained s (drained, going) =
      let (trace, e) = round-dispatch os unwinder budget s in
      (record (traced trace s) { console = [] }, e ∙ rw drained refl, (refl, going))

  rounds-drained :
      (fuel : ℕ) (s : Session W) → IsDrained s → rounds os unwinder budget fuel s ≡ none
  unfolding rounds
  rounds-drained zero s h = refl
  rounds-drained (suc fuel) s h =
      let (t, e, (drained, going)) = round-IsDrained s h in
      let again = rounds-drained fuel t (drained, going) in rw e (rw (going, again) refl)

  -- When the input has ended before a command has asked for the end of the debug, the loop never ends,
  -- whatever the status of the traced program: no number of rounds is enough.
  pub command_loop-drained :
      (fuel : ℕ) (s : Session W) → IsDrained s → command_loop os unwinder budget fuel s ≡ none
  unfolding command_loop
  command_loop-drained fuel s (drained, going) =
      let (trace, e) = say-ok (line (codes "Debug ready.")) s in
      bind_attempt-some (say (line (codes "Debug ready.")) s) _ e
        (rw (rounds-drained fuel (traced trace s) (drained, going)) refl)
