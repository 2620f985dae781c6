-- ===== src/Tests/Values.antt =====
-- Numbers, texts, status words and traces.
use c_bdd.Io.Processes.{debugger, held, act, System, step, Reaches, start, next, begin, init_child}
use c_bdd.Io.Processes.Child.{child-exclusion}
use c_bdd.Base.{◌≡◌, refl, true, false, List, [], ◌∷◌, ◌++◌, codes, arith}
use c_bdd.Status.{is_dead, is_stopped, is_segfault, is_trapped, is_exiting}
use c_bdd.Status.Words.{stopped, status_word_predicates}
use c_bdd.Status.Segfaults.{get_segfault_code_as_string}
use c_bdd.Io.{Event, locked, wrote, unlocked, cout}
use c_bdd.Number.{strtoul, upper_digit, hex_digits}
use c_bdd.Number.RoundTrip.{upper-IsDigits, strtoul-hex_digits}

-- Stopped by a trap with the exit event.
status_word_predicates_example :
    (is_dead 0x6057F ≡ false)
    × (is_stopped 0x6057F ≡ true)
    × (is_segfault 0x6057F ≡ false)
    × (is_trapped 0x6057F ≡ true)
    × (is_exiting 0x6057F ≡ true)
status_word_predicates_example = status_word_predicates (stopped 5 6) (omega arith, omega arith)

strtoul-hex_digits_example : strtoul (codes "0x" ++ hex_digits upper_digit 6 0x40101F) ≡ 0x40101F
strtoul-hex_digits_example =
    strtoul-hex_digits upper-IsDigits 5 0x40101F (omega arith) (omega arith)

get_segfault_code_as_string-known :
    get_segfault_code_as_string 11 1 ≡ codes "SEGV_MAPERR: Address not mapped"
unfolding get_segfault_code_as_string
get_segfault_code_as_string-known = refl

-- The code -6 of `tkill`.
get_segfault_code_as_string-unknown :
    get_segfault_code_as_string 8 0xFFFF_FFFA ≡ codes "SIGFPE: Unknown code -6"
unfolding get_segfault_code_as_string
get_segfault_code_as_string-unknown = refl

get_segfault_code_as_string-signal : get_segfault_code_as_string 19 0 ≡ codes "[SIGNAL 19]: Unknown"
unfolding get_segfault_code_as_string
get_segfault_code_as_string-signal = refl

-- The debugger has locked the mutex for a print; the child has not begun.
abbrev of_print : List Event
of_print = locked ∷ wrote cout (codes "ready.") ∷ unlocked ∷ []

abbrev printing : System
printing = record {
  mutex = held debugger;
  debugger_left = wrote cout (codes "ready.") ∷ unlocked ∷ [];
  child_left = init_child 7 true;
}

printing-Reaches : Reaches (begin of_print (init_child 7 true)) printing
unfolding act
printing-Reaches = next start (step debugger locked refl refl)

child-exclusion_example : printing.mutex ≡ held debugger
child-exclusion_example =
    child-exclusion of_print 7 true refl printing printing-Reaches debugger
      (wrote cout (codes "ready.")) (unlocked ∷ []) refl refl
