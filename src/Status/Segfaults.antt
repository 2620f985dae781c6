-- ===== src/Status/Segfaults.antt =====
-- The texts of `getSegfaultCodeAsString` (lib/bdd_signals.cpp). The numbers are those of the Linux
-- headers; an `int` is its 32-bit word.
pub mod Short
use c_bdd.Base.{ℕ, List, [], ◌∷◌, ◌++◌, codes, ◌==◌, if◌then◌else◌}
use c_bdd.Text.{to_string}

-- A `switch` whose cases return.
unfoldable pub switch_on : ℕ → List (ℕ × List ℕ) → (otherwise : List ℕ) → List ℕ
switch_on value [] otherwise = otherwise
switch_on value ((label, text) ∷ cases) otherwise =
    let rest = switch_on value cases otherwise in if value == label then text else rest

abbrev pub segv_texts : List (ℕ × List ℕ)
segv_texts =
    (1, codes "SEGV_MAPERR: Address not mapped")
    ∷ (2, codes "SEGV_ACCERR: Invalid permissions")
    ∷ (3, codes "SEGV_BNDERR: Bounds checking failure")
    ∷ (4, codes "SEGV_PKUERR: Protection key checking failure")
    ∷ (5, codes "SEGV_ACCADI: ADI not enabled for mapped object")
    ∷ (6, codes "SEGV_ADIDERR: Disrupting MCD error")
    ∷ (7, codes "SEGV_ADIPERR: Precise MCD exception")
    ∷ []

abbrev pub fpe_texts : List (ℕ × List ℕ)
fpe_texts =
    (1, codes "FPE_INTDIV: Integer divide-by-zero")
    ∷ (2, codes "FPE_INTOVF: Integer overflow")
    ∷ (3, codes "FPE_FLTDIV: Floating point divide-by-zero")
    ∷ (4, codes "FPE_FLTOVF: Floating point overflow")
    ∷ (5, codes "FPE_FLTUND: Floating point underflow")
    ∷ (6, codes "FPE_FLTRES: Floating point inexact result")
    ∷ (7, codes "FPE_FLTINV: Invalid floating point operation")
    ∷ (8, codes "FPE_FLTSUB: Subscript out of range")
    ∷ []

abbrev pub ill_texts : List (ℕ × List ℕ)
ill_texts =
    (1, codes "ILL_ILLOPC: Illegal opcode")
    ∷ (2, codes "ILL_ILLOPN: Illegal operand")
    ∷ (3, codes "ILL_ILLADR: Illegal addressing mode")
    ∷ (4, codes "ILL_ILLTRP: Illegal trap")
    ∷ (5, codes "ILL_PRVOPC: Privileged opcode")
    ∷ (6, codes "ILL_PRVREG: Privileged register")
    ∷ (7, codes "ILL_COPROC: Coprocessor error")
    ∷ (8, codes "ILL_BADSTK: Internal stack error")
    ∷ []

abbrev pub bus_texts : List (ℕ × List ℕ)
bus_texts =
    (1, codes "BUS_ADRALN: Invalid address alignment")
    ∷ (2, codes "BUS_ADRERR: Non-existent physical address")
    ∷ (3, codes "BUS_OBJERR: Object-specific hardware error")
    ∷ []

-- SIGSEGV is 11, SIGFPE 8, SIGILL 4 and SIGBUS 7.
unfoldable pub signal_texts : (si_code : ℕ) → List (ℕ × List ℕ)
unfolding switch_on to_string
signal_texts si_code =
    (11, switch_on si_code segv_texts (codes "SIGSEGV: Unknown code " ++ to_string si_code))
    ∷ (8, switch_on si_code fpe_texts (codes "SIGFPE: Unknown code " ++ to_string si_code))
    ∷ (4, switch_on si_code ill_texts (codes "SIGILL: Unknown code " ++ to_string si_code))
    ∷ (7, switch_on si_code bus_texts (codes "SIGBUS: Unknown code " ++ to_string si_code))
    ∷ []

unfoldable pub get_segfault_code_as_string : (si_signo si_code : ℕ) → List ℕ
unfolding to_string switch_on signal_texts
get_segfault_code_as_string si_signo si_code =
    switch_on si_signo (signal_texts si_code)
      (codes "[SIGNAL " ++ to_string si_signo ++ codes "]: Unknown")
