-- ===== src/Text/Decimals.antt =====
-- The decimal digits of a number: how many there are, and how they are read. A decimal number that
-- `std::to_string` wrote reads back by `strtoul`.
use c_bdd.Base.{
  length, ◌-◌, ℕ, zero, suc, ◌+◌, ◌*◌, ◌/◌, ◌%◌, ◌^◌, ◌<◌, ◌≤◌, ◌≡◌, List, [], ◌∷◌, arith, ltb,
  lt→ltb, Bool-cases, inl, inr, ◌∙◌, ap,
}
use native.Mathlib.Nat.{pow-suc}
use c_bdd.Number.{digit_value, digits, magnitude, strtoul, ulong_max}
use c_bdd.Text.{decimal, to_string}

digits-decimal_digit :
    (acc d : ℕ) (text : List ℕ)
    → d < 10
    → digits 10 acc ((b'0' + d) ∷ text) ≡ digits 10 (acc * 10 + d) text
unfolding digits digit_value
digits-decimal_digit acc d text h = ground arith

-- The digits of a number, read on from nothing, are that number before the rest of the text.
pub digits-decimal :
    (width value : ℕ) (text : List ℕ)
    → value < 10 ^ suc width
    → digits 10 0 (decimal (suc width) value text) ≡ digits 10 value text
unfolding decimal
digits-decimal zero value text h =
    rw (lt→ltb value 10 (omega arith))
      (digits-decimal_digit 0 value text (omega arith) ∙ ap (λ n. digits 10 n text) (omega arith))
digits-decimal (suc width) value text h = elim (Bool-cases (ltb value 10)) [
  | inl small ↦
      rw small (
        digits-decimal_digit 0 value text (ground arith) ∙ ap (λ n. digits 10 n text) (omega arith))
  | inr large ↦ rw large (
      digits-decimal width (value / 10) ((b'0' + value % 10) ∷ text)
        (omega (arith, pow-suc 10 (suc width)))
      ∙ digits-decimal_digit (value / 10) (value % 10) text (omega arith)
      ∙ ap (λ n. digits 10 n text) (omega arith))
]

-- The first digit of a positive number is not 0.
decimal-head :
    (width value : ℕ) (text : List ℕ)
    → value < 10 ^ suc width
    → 0 < value
    → (d : ℕ) × (rest : List ℕ) × (0 < d)
      × (d < 10)
      × (decimal (suc width) value text ≡ (b'0' + d) ∷ rest)
unfolding decimal
decimal-head zero value text h p = (value, text, p, omega arith, rw (lt→ltb value 10 (omega arith)))
decimal-head (suc width) value text h p = elim (Bool-cases (ltb value 10)) [
  | inl small ↦ (value, text, p, ground arith, rw small)
  | inr large ↦
      let (d, rest, positive, low, e) =
        decimal-head width (value / 10) ((b'0' + value % 10) ∷ text)
          (omega (arith, pow-suc 10 (suc width))) (ground arith) in
      (d, rest, positive, low, rw (large, decimal) e)
]

-- A text that begins with a digit other than 0 is read in base 10.
strtoul-digits :
    (d : ℕ) (rest : List ℕ)
    → 0 < d
    → d < 10
    → digits 10 0 ((b'0' + d) ∷ rest) ≤ ulong_max
    → strtoul ((b'0' + d) ∷ rest) ≡ digits 10 0 ((b'0' + d) ∷ rest)
unfolding strtoul magnitude
strtoul-digits d [] p q h = ground arith
strtoul-digits d (x ∷ []) p q h = ground arith
strtoul-digits d (x ∷ y ∷ rest) p q h = ground arith

-- A positive `int` that `std::to_string` wrote is what `strtoul` reads from it.
pub strtoul-to_string : (value : ℕ) → 0 < value → value < 2 ^ 31 → strtoul (to_string value) ≡ value
unfolding to_string
strtoul-to_string value p h =
    let (d, rest, positive, low, e) = decimal-head 9 value [] (omega arith) p in
    let back : digits 10 0 (decimal 10 value []) ≡ value =
      unfold digits in digits-decimal 9 value [] (omega arith) in
    let read : digits 10 0 ((b'0' + d) ∷ rest) ≡ value = rw e at back in
    rw (lt→ltb value (2 ^ 31) h, e)
      (strtoul-digits d rest positive low (omega (arith, read)) ∙ read)

length-decimal :
    (width value : ℕ) (text : List ℕ) → length (decimal width value text) ≤ length text + width
unfolding decimal
length-decimal zero value text = omega arith
length-decimal (suc width) value text =
    ground (arith, length-decimal width (value / 10) ((b'0' + value % 10) ∷ text))

-- An `int` has at most ten digits and a sign.
pub length-to_string : (value : ℕ) → length (to_string value) ≤ 11
unfolding to_string
length-to_string value =
    ground (arith, length-decimal 10 value [], length-decimal 10 (2 ^ 32 - value) [])
