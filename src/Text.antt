-- ===== src/Text.antt =====
-- Numbers as `printf` and `std::to_string` write them.
pub mod Decimals
use c_bdd.Base.{
  ℕ, zero, suc, ◌+◌, ◌-◌, ◌/◌, ◌%◌, ◌^◌, List, [], ◌∷◌, ◌++◌, codes, ltb, if◌then◌else◌, replicate,
}
use c_bdd.Number.{upper_digit, hex_digits}

-- The decimal digits of a number below 10 ^ width, before the given text.
unfoldable pub decimal : (width value : ℕ) → List ℕ → List ℕ
decimal zero value text = text
decimal (suc width) value text =
    let rest = decimal width (value / 10) ((b'0' + value % 10) ∷ text) in
    if ltb value 10 then (b'0' + value) ∷ text else rest

-- `std::to_string` of an `int`, given by its 32-bit word; also `%d`.
unfoldable pub to_string : ℕ → List ℕ
unfolding decimal
to_string value =
    if ltb value (2 ^ 31) then decimal 10 value [] else b'-' ∷ decimal 10 (2 ^ 32 - value) []

-- `%lu`, `%llu`, `%u`, `%hu` and `%hhu`: a 64-bit number has at most 20 digits.
unfoldable pub unsigned : ℕ → List ℕ
unfolding decimal
unsigned value = decimal 20 value []

-- `0x%016lX`, `0x%016X` and `0x%016hX`.
abbrev pub hex : ℕ → List ℕ
hex value = codes "0x" ++ hex_digits upper_digit 16 value

abbrev pub tab : ℕ
tab = 9

abbrev pub newline : ℕ
newline = 10

-- A text and the end of its line.
abbrev pub line : List ℕ → List ℕ
line text = text ++ newline ∷ []

-- A row of a listing: tabs, a label and a value.
abbrev pub row : (tabs : ℕ) (label value : List ℕ) → List ℕ
row tabs label value = line (replicate tabs tab ++ codes "- " ++ label ++ value)
