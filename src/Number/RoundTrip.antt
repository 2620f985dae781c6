-- ===== src/Number/RoundTrip.antt =====
-- An address that was printed in hexadecimal reads back as itself.
use c_bdd.Base.{
  ℕ, zero, suc, ◌+◌, ◌*◌, ◌/◌, ◌%◌, ◌^◌, ◌<◌, ◌≤◌, ◌≡◌, refl, ap, ◌∙◌, List, [], ◌∷◌, ◌++◌, All,
  arith, ltb, ◌==◌, true, false, append_assoc, append-nil, subst, All-append,
}
use native.Mathlib.Nat.{pow-suc}
use c_bdd.Number.{
  digit_value, digits, strtoul, before_dash, upper_digit, lower_digit, hex_digits, ulong_max,
}

-- A way to write digits that `strtoul` reads back, and that uses neither `-` nor a space.
pub record IsDigits (digit : ℕ → ℕ) : Type 0 where
  pub value : (d : ℕ) → d < 16 → digit_value (digit d) ≡ d
  pub no_dash : (d : ℕ) → d < 16 → (digit d == b'-') ≡ false

pub upper-IsDigits : IsDigits upper_digit
unfolding digit_value
upper-IsDigits = record { value = λ d h. ground arith; no_dash = λ d h. ground arith }

pub lower-IsDigits : IsDigits lower_digit
unfolding digit_value
lower-IsDigits = record { value = λ d h. ground arith; no_dash = λ d h. ground arith }

module _ {digit : ℕ → ℕ} (is : IsDigits digit) where
  digits-one :
      (acc d : ℕ) (rest : List ℕ)
      → d < 16
      → digits 16 acc (digit d ∷ rest) ≡ digits 16 (acc * 16 + d) rest
  unfolding digits
  digits-one acc d rest h = let low : ltb d 16 ≡ true = ground arith in rw (is.value d h, low)

  digits-hex_digits :
      (width value acc : ℕ) (rest : List ℕ)
      → value < 16 ^ width
      → digits 16 acc (hex_digits digit width value ++ rest)
        ≡ digits 16 (acc * 16 ^ width + value) rest
  digits-hex_digits zero value acc rest h = ap (λ n. digits 16 n rest) (omega arith)
  digits-hex_digits (suc width) value acc rest h =
      rw
        (
          append_assoc (hex_digits digit width (value / 16)) (digit (value % 16) ∷ []) rest,
          digits-hex_digits width (value / 16) acc (digit (value % 16) ∷ rest)
              (omega (arith, pow-suc 16 width)),
          digits-one (acc * 16 ^ width + value / 16) (value % 16) rest (omega arith),
        )
        (ap (λ n. digits 16 n rest) (rw (pow-suc 16 width) (omega arith)))

  hex_digits-cons :
      (width value : ℕ)
      → (d : ℕ) × (rest : List ℕ) × (d < 16) × (hex_digits digit (suc width) value ≡ digit d ∷ rest)
  hex_digits-cons zero value = (value % 16, [], omega arith, refl)
  hex_digits-cons (suc width) value =
      let (d, rest, h, e) = hex_digits-cons width (value / 16) in
      (d, rest ++ digit (value % 16) ∷ [], h, ap (λ (xs : List ℕ). xs ++ digit (value % 16) ∷ []) e)

  -- `strtoul` reads "0x" with the hexadecimal digits of an address, at least one of them and as many
  -- as there may be, as that address.
  pub strtoul-hex_digits :
      (width value : ℕ)
      → value < 16 ^ suc width
      → value ≤ ulong_max
      → strtoul (b'0' ∷ b'x' ∷ hex_digits digit (suc width) value) ≡ value
  unfolding strtoul
  strtoul-hex_digits width value h small =
      let (d, rest, low, e) = hex_digits-cons width value in
      let all : digits 16 0 (digit d ∷ rest) ≡ value =
        subst (λ xs. digits 16 0 xs ≡ value) e
          (rw append-nil at (digits-hex_digits (suc width) value 0 [] h)
            ∙ unfold digits in omega arith) in
      let hexadecimal : ltb (digit_value (digit d)) 16 ≡ true = ground (arith, is.value d low) in
      rw e (rw (hexadecimal, all) (ground arith))

  before_dash-no_dash :
      (xs ys : List ℕ)
      → All (λ c. (c == b'-') ≡ false) xs
      → before_dash (xs ++ ys) ≡ xs ++ before_dash ys
  before_dash-no_dash [] ys all = refl
  before_dash-no_dash (x ∷ xs) ys all = rw (all.0, before_dash-no_dash xs ys all.1)

  no_dash-hex_digits :
      (width value : ℕ) → All (λ c. (c == b'-') ≡ false) (hex_digits digit width value)
  no_dash-hex_digits zero value = tt
  no_dash-hex_digits (suc width) value =
      All-append _ (hex_digits digit width (value / 16)) (digit (value % 16) ∷ [])
        (no_dash-hex_digits width (value / 16)) (is.no_dash (value % 16) (omega arith), tt)

  -- What stands before the dash of a line that begins with an address.
  pub before_dash-hex_digits :
      (width value : ℕ) (rest : List ℕ)
      → before_dash (hex_digits digit width value ++ b'-' ∷ rest) ≡ hex_digits digit width value
  before_dash-hex_digits width value rest =
      before_dash-no_dash (hex_digits digit width value) (b'-' ∷ rest)
        (no_dash-hex_digits width value)
      ∙ append-nil (hex_digits digit width value)
