-- ===== src/Number.antt =====
-- `strtoul(text, nullptr, 0)`, by which class TracedProgram reads the addresses that a user types and
-- the start of a line of `/proc/<pid>/maps`, and the digits that `%lX` and the kernel print.
pub mod RoundTrip
pub mod Digits
use c_bdd.Base.{
  ℕ, zero, suc, ◌+◌, ◌-◌, ◌*◌, ◌/◌, ◌%◌, ◌^◌, Bool, true, false, ◌&&◌, ◌||◌, List, [], ◌∷◌, ◌++◌,
  ltb, leb, ◌==◌, if◌then◌else◌,
}

abbrev pub ulong_max : ℕ
ulong_max = 0xFFFF_FFFF_FFFF_FFFF

-- 99 is above every base.
unfoldable pub digit_value : ℕ → ℕ
digit_value c =
    if leb b'0' c && leb c b'9'
    then c - b'0'
    else (if leb b'a' c && leb c b'z'
        then c - b'a' + 10
        else (if leb b'A' c && leb c b'Z' then c - b'A' + 10 else 99))

unfoldable pub digits : (base acc : ℕ) → List ℕ → ℕ
digits base acc [] = acc
digits base acc (c ∷ text) =
    let rest = digits base (acc * base + digit_value c) text in
    if ltb (digit_value c) base then rest else acc

-- The number behind the sign, by its prefix: `0x` before a hexadecimal digit, `0`, or neither.
unfoldable pub magnitude : List ℕ → ℕ
magnitude (c ∷ x ∷ d ∷ text) =
    if c == b'0' && (x == b'x' || x == b'X') && ltb (digit_value d) 16
    then digits 16 0 (d ∷ text)
    else (if c == b'0' then digits 8 0 (c ∷ x ∷ d ∷ text) else digits 10 0 (c ∷ x ∷ d ∷ text))
magnitude (c ∷ text) = if c == b'0' then digits 8 0 (c ∷ text) else digits 10 0 (c ∷ text)
magnitude [] = 0

abbrev pub is_space : ℕ → Bool
is_space c = c == 32 || (leb 9 c && leb c 13)

unfoldable pub skip_spaces : List ℕ → List ℕ
skip_spaces [] = []
skip_spaces (c ∷ text) = let rest = skip_spaces text in if is_space c then rest else c ∷ text

abbrev clamp : Bool → ℕ → ℕ
clamp negative value =
    if ltb ulong_max value
    then ulong_max
    else (if negative then (2 ^ 64 - value) % 2 ^ 64 else value)

signed : List ℕ → ℕ
unfolding magnitude
signed [] = 0
signed (c ∷ text) =
    if c == b'-'
    then clamp true (magnitude text)
    else (if c == b'+' then clamp false (magnitude text) else clamp false (magnitude (c ∷ text)))

unfoldable pub strtoul : List ℕ → ℕ
unfolding signed skip_spaces
strtoul text = signed (skip_spaces text)

-- `buffer.substr(0, buffer.find('-'))`.
abbrev pub before_dash : List ℕ → List ℕ
before_dash [] = []
before_dash (c ∷ text) = if c == b'-' then [] else c ∷ before_dash text

abbrev pub upper_digit : ℕ → ℕ
upper_digit d = if ltb d 10 then b'0' + d else b'A' + (d - 10)

abbrev pub lower_digit : ℕ → ℕ
lower_digit d = if ltb d 10 then b'0' + d else b'a' + (d - 10)

-- The `width` hexadecimal digits of a number below 16 ^ width, the highest first.
abbrev pub hex_digits : (digit : ℕ → ℕ) (width value : ℕ) → List ℕ
hex_digits digit zero value = []
hex_digits digit (suc width) value = hex_digits digit width (value / 16) ++ digit (value % 16) ∷ []
