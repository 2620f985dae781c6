-- ===== src/Number/Digits.antt =====
-- How many digits a number in base 16 is written with.
use c_bdd.Base.{
  ℕ, zero, suc, ◌/◌, ◌%◌, ◌≡◌, refl, List, [], ◌∷◌, ◌++◌, codes, length, length-append, arith,
}
use c_bdd.Number.{hex_digits, upper_digit}

length-hex_digits : (width value : ℕ) → length (hex_digits upper_digit width value) ≡ width
length-hex_digits zero value = refl
length-hex_digits (suc width) value = omega (
  arith,
  length-append (hex_digits upper_digit width (value / 16)) (upper_digit (value % 16) ∷ []),
  length-hex_digits width (value / 16),
)

length-prefixed : (digits : List ℕ) → length digits ≡ 16 → length (codes "0x" ++ digits) ≡ 18
length-prefixed digits h = omega arith

-- An address with its prefix has 18 characters.
pub length-hex : (value : ℕ) → length (codes "0x" ++ hex_digits upper_digit 16 value) ≡ 18
length-hex value = length-prefixed (hex_digits upper_digit 16 value) (length-hex_digits 16 value)
