-- ===== src/Status/Segfaults/Short.antt =====
-- The texts of a signal are short.
use c_bdd.Base.{
  ℕ, ◌≤◌, ◌≡◌, refl, Bool, true, ◌&&◌, List, [], ◌∷◌, ◌++◌, codes, length, length-append, leb,
  arith,
}
use c_bdd.Text.{to_string}
use c_bdd.Text.Decimals.{length-to_string}
use c_bdd.Status.Segfaults.{
  switch_on, segv_texts, fpe_texts, ill_texts, bus_texts, signal_texts, get_segfault_code_as_string,
}

abbrev IsShort : List ℕ → Type 0
IsShort text = length text ≤ 60

abbrev AreShort : List (ℕ × List ℕ) → Type 0
AreShort [] = Unit
AreShort ((label, text) ∷ cases) = IsShort text × AreShort cases

switch_on-IsShort :
    (value : ℕ) (cases : List (ℕ × List ℕ)) (otherwise : List ℕ)
    → AreShort cases
    → IsShort otherwise
    → IsShort (switch_on value cases otherwise)
unfolding switch_on
switch_on-IsShort value [] otherwise all h = h
switch_on-IsShort value ((label, text) ∷ cases) otherwise (first, all) h =
    ground (arith, first, switch_on-IsShort value cases otherwise all h)

-- A text of at most 30 characters before a number.
before_number : (text : List ℕ) (value : ℕ) → length text ≤ 30 → IsShort (text ++ to_string value)
before_number text value h =
    omega (arith, length-append text (to_string value), length-to_string value)

abbrev are_short : List (ℕ × List ℕ) → Bool
are_short [] = true
are_short ((label, text) ∷ cases) = leb (length text) 60 && are_short cases

are_short-AreShort : (cases : List (ℕ × List ℕ)) → are_short cases ≡ true → AreShort cases
are_short-AreShort [] h = tt
are_short-AreShort ((label, text) ∷ cases) h =
    (ground arith, are_short-AreShort cases (ground arith))

number-IsShort :
    (value : ℕ) (cases : List (ℕ × List ℕ)) (text : List ℕ)
    → are_short cases ≡ true
    → length text ≤ 30
    → IsShort (switch_on value cases (text ++ to_string value))
number-IsShort value cases text h k =
    switch_on-IsShort value cases (text ++ to_string value) (are_short-AreShort cases h)
      (before_number text value k)

signal_texts-short : (si_code : ℕ) → AreShort (signal_texts si_code)
unfolding signal_texts
signal_texts-short si_code = (
  number-IsShort si_code segv_texts (codes "SIGSEGV: Unknown code ") refl (omega arith),
  (
    number-IsShort si_code fpe_texts (codes "SIGFPE: Unknown code ") refl (omega arith),
    (
      number-IsShort si_code ill_texts (codes "SIGILL: Unknown code ") refl (omega arith),
      (number-IsShort si_code bus_texts (codes "SIGBUS: Unknown code ") refl (omega arith), tt),
    ),
  ),
)

-- No text of a signal has more than 60 characters.
pub get_segfault_code_as_string-short :
    (si_signo si_code : ℕ) → length (get_segfault_code_as_string si_signo si_code) ≤ 60
unfolding get_segfault_code_as_string
get_segfault_code_as_string-short si_signo si_code =
    switch_on-IsShort si_signo (signal_texts si_code)
      (codes "[SIGNAL " ++ to_string si_signo ++ codes "]: Unknown") (signal_texts-short si_code)
      (omega
        (arith, length-append (to_string si_signo) (codes "]: Unknown"), length-to_string si_signo))
