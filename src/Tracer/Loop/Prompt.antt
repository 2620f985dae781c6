-- ===== src/Tracer/Loop/Prompt.antt =====
-- What the loop says before each command always fits its buffer, and changes nothing but the trace.
use c_bdd.Base.{
  ℕ, ◌≤◌, ◌+◌, ◌≡◌, refl, Bool-cases, inl, inr, Option, none, some, List, ◌++◌, codes, length,
  length-append, arith, ok, bind_attempt-some,
}
use c_bdd.Os.{Os}
use c_bdd.Text.{line, hex}
use c_bdd.Number.Digits.{length-hex}
use c_bdd.Io.{Event, generic_format_print, generic_not_format_print, format_args, cout, fg_blue}
use c_bdd.Status.{is_exiting, is_segfault}
use c_bdd.Status.Segfaults.Short.{get_segfault_code_as_string-short}
use c_bdd.Program.{Machine, is_trapped_at_breakpoint}
use c_bdd.Unwind.{Unwinder}
use c_bdd.Tracer.Console.{read_input}
use c_bdd.Tracer.Queries.{on_ip_stopped, tell, tell_with, get_segfault_data, segfault_data}
use c_bdd.Tracer.Session.{Session, in_session, say}
use c_bdd.Tracer.Loop.{dispatch, round}

segfault_data-short : (signal : Option (ℕ × ℕ × ℕ)) → length (segfault_data signal).0 ≤ 60
unfolding segfault_data
segfault_data-short none = omega arith
segfault_data-short (some (signo, code, address)) = get_segfault_code_as_string-short signo code

-- A text of at most 60 characters and an address, within their sentence.
segfault_sentence :
    (text address ending : List ℕ)
    → length text ≤ 60
    → length address ≤ 18
    → length (codes "The program has a segfault: " ++ text ++ codes " (at " ++ address ++ ending)
      ≤ 93 + length ending + 18
segfault_sentence text address ending h k = omega (
  arith,
  length-append (text ++ codes " (at " ++ address) ending,
  length-append (text ++ codes " (at ") address,
  length-append text (codes " (at "),
)

module _ {W : Type 0} where
  tell_with-ok :
      (format text : List ℕ) (m : Machine W)
      → length text ≤ length format + 132
      → (trace : List Event) × (tell_with format text m ≡ ok (record m { trace = trace }))
  unfolding tell_with generic_format_print format_args
  tell_with-ok format text m fits = (
    generic_not_format_print cout fg_blue text m.trace,
    unfold generic_not_format_print in ground arith,
  )

  tell-ok :
      (text : List ℕ) (m : Machine W)
      → (trace : List Event) × (tell text m ≡ ok (record m { trace = trace }))
  unfolding tell
  tell-ok text m = tell_with-ok text text m (omega arith)

  -- A session with another trace.
  abbrev pub traced : List Event → Session W → Session W
  traced trace s = record s { machine = record s.machine { trace = trace } }

  pub say-ok :
      (text : List ℕ) (s : Session W)
      → (trace : List Event) × (say text s ≡ some (ok (traced trace s)))
  unfolding say
  say-ok text s = let (trace, e) = tell-ok text s.machine in (trace, rw e refl)

module _ {W : Type 0} (os : Os W) where
  get_segfault_data-short : (m : Machine W) → length (get_segfault_data os m).0 ≤ 60
  unfolding get_segfault_data
  get_segfault_data-short m = segfault_data-short (os.siginfo m.program.traced_pid m.world)

  -- What `onIPStopped` has to say always fits its buffer.
  on_ip_stopped-ok :
      (m : Machine W)
      → (trace : List Event) × (on_ip_stopped os m ≡ ok (record m { trace = trace }))
  unfolding on_ip_stopped
  on_ip_stopped-ok m = elim (Bool-cases (is_exiting m.program.cached_status)) [
    | inl exiting ↦
        let (trace, e) = tell-ok (line (codes "The program exited normally.")) m in
        (trace, rw (exiting, e) refl)
    | inr running ↦ elim (Bool-cases (is_trapped_at_breakpoint os m.program m.world)) [
      | inl trapped ↦
          let (trace, e) = tell-ok (line (codes "The program hit a breakpoint.")) m in
          (trace, rw (running, trapped, e) refl)
      | inr free ↦ elim (Bool-cases (is_segfault m.program.cached_status)) [
        | inl segfault ↦
            let (text, address) = get_segfault_data os m in
            let (trace, e) =
              tell_with-ok (line (codes "The program has a segfault: %s (at 0x%016lX)"))
                (codes "The program has a segfault: "
                  ++ text
                  ++ codes " (at "
                  ++ hex address
                  ++ line (codes ")"))
                m
                (omega (
                  arith,
                  segfault_sentence text (hex address) (line (codes ")"))
                      (get_segfault_data-short m) (omega (arith, length-hex address)),
                )) in
            (trace, rw (running, free, segfault, e) refl)
        | inr fine ↦ (m.trace, rw (running, free, fine) refl)
      ]
    ]
  ]

module _ {W C : Type 0} (os : Os W) (unwinder : Unwinder W C) (budget : ℕ) where
  -- A round comes to the command of the next line.
  pub round-dispatch :
      (s : Session W)
      → (trace : List Event) × (round os unwinder budget s
          ≡ dispatch os unwinder budget
              (read_input s.console).0
              (record (traced trace s) { console = (read_input s.console).1 }))
  unfolding round
  round-dispatch s =
      let (before, e) = on_ip_stopped-ok os s.machine in
      let (trace, f) = say-ok (codes "$ : ") (traced before s) in
      (
        trace,
        bind_attempt-some (in_session s (on_ip_stopped os s.machine)) _ (rw e refl)
            (bind_attempt-some (say (codes "$ : ") (traced before s)) _ f refl),
      )
