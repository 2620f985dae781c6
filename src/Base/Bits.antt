-- ===== src/Base/Bits.antt =====
-- The bit operations at variables: one equation for the lowest digit, and what the masks compute.
use Prim.Native.Nat.{
  ℕ, zero, suc, ◌+◌, ◌-◌, ◌*◌, ◌/◌, ◌%◌, ◌^◌, ◌≤◌, ◌<◌, min, max, bit_and, bit_or, digits, bitwise,
  bit_and-bitwise, bit_or-bitwise,
}
use mathlib.Core.Path.{◌≡◌, refl, ap, ◌∙◌, ◌≡⟨◌⟩◌, ◌∎}
use native.Mathlib.Nat.{le_refl, pow-suc, mul_comm, div-div-eq-div-mul}
use native.Mathlib.Omega.{arith}

-- `digits` does not use fuel beyond its first number.
module _ (tail : ℕ → ℕ) (digit : ℕ → ℕ → ℕ) where
  spare_fuel :
      (fuel x y : ℕ) → x ≤ fuel → digits tail digit (suc fuel) x y ≡ digits tail digit fuel x y
  spare_fuel zero zero y h = refl
  spare_fuel zero (suc x) y h = absurd (omega arith)
  spare_fuel (suc fuel) zero y h = refl
  spare_fuel (suc fuel) (suc x) y h = rw (spare_fuel fuel (suc x / 2) (y / 2) (omega arith))

  much_fuel : (spare x y : ℕ) → digits tail digit (x + spare) x y ≡ digits tail digit x x y
  much_fuel zero x y = ap (λ fuel. digits tail digit fuel x y) (omega arith)
  much_fuel (suc spare) x y =
      let moved : x + suc spare ≡ suc (x + spare) = omega arith in
      ap (λ fuel. digits tail digit fuel x y) moved
      ∙ spare_fuel (x + spare) x y (omega arith)
      ∙ much_fuel spare x y

  enough_fuel : (fuel x y : ℕ) → x ≤ fuel → digits tail digit fuel x y ≡ bitwise tail digit x y
  enough_fuel fuel x y h =
      let split : fuel ≡ x + (fuel - x) = omega arith in
      ap (λ n. digits tail digit n x y) split ∙ much_fuel (fuel - x) x y

  lowest :
      (x y : ℕ)
      → bitwise tail digit (suc x) y
        ≡ digit (suc x % 2) (y % 2) + 2 * bitwise tail digit (suc x / 2) (y / 2)
  lowest x y = omega (arith, enough_fuel x (suc x / 2) (y / 2) (omega arith))

pub bit_or_step : (x y : ℕ) → bit_or x y ≡ bit_or (x / 2) (y / 2) * 2 + max (x % 2) (y % 2)
bit_or_step (suc x) y = simp bit_or-bitwise (omega (arith, lowest (λ rest. rest) max x y))
bit_or_step zero y = simp bit_or-bitwise (omega arith)

pub bit_and_step : (x y : ℕ) → bit_and x y ≡ bit_and (x / 2) (y / 2) * 2 + min (x % 2) (y % 2)
bit_and_step (suc x) y = simp bit_and-bitwise (omega (arith, lowest (λ rest. 0) min x y))
bit_and_step zero y = simp bit_and-bitwise (omega arith)

one-le_pow : (k : ℕ) → 1 ≤ 2 ^ k
one-le_pow zero = omega arith
one-le_pow (suc k) = omega (arith, pow-suc 2 k, one-le_pow k)

pub bit_or-zero : (n a : ℕ) → a ≤ n → bit_or a 0 ≡ a
bit_or-zero n zero h = refl
bit_or-zero zero (suc a) h = absurd (omega arith)
bit_or-zero (suc n) (suc a) h =
    omega (arith, bit_or_step (suc a) 0, bit_or-zero n (suc a / 2) (omega arith))

bit_and-zero : (n a : ℕ) → a ≤ n → bit_and a 0 ≡ 0
bit_and-zero n zero h = refl
bit_and-zero zero (suc a) h = absurd (omega arith)
bit_and-zero (suc n) (suc a) h =
    omega (arith, bit_and_step (suc a) 0, bit_and-zero n (suc a / 2) (omega arith))

-- The steps with the rest of the mask named.
bit_and_by : (a b q : ℕ) → b / 2 ≡ q → bit_and a b ≡ bit_and (a / 2) q * 2 + min (a % 2) (b % 2)
bit_and_by a b q e = rw (← e) (bit_and_step a b)

bit_or_by :
    (a b p q : ℕ) → a / 2 ≡ p → b / 2 ≡ q → bit_or a b ≡ bit_or p q * 2 + max (a % 2) (b % 2)
bit_or_by a b p q d e = rw (← d, ← e) (bit_or_step a b)

-- A mask of `k` ones keeps a number of `k` bits.
pub bit_and_ones : (k a : ℕ) → a < 2 ^ k → bit_and a (2 ^ k - 1) ≡ a
bit_and_ones zero a h = omega (arith, bit_and-zero a a (le_refl a))
bit_and_ones (suc k) a h =
    let half : (2 ^ suc k - 1) / 2 ≡ 2 ^ k - 1 = omega (arith, pow-suc 2 k, one-le_pow k) in
    omega (
      arith,
      bit_and_by a (2 ^ suc k - 1) (2 ^ k - 1) half,
      pow-suc 2 k,
      one-le_pow k,
      bit_and_ones k (a / 2) (omega (arith, pow-suc 2 k)),
    )

-- A mask with a low zero.
bit_and_double : (a m : ℕ) → bit_and a (2 * m) ≡ 2 * bit_and (a / 2) m
bit_and_double a m = omega (arith, bit_and_by a (2 * m) m (omega arith))

bit_and_cong : {a b c d : ℕ} → a ≡ c → b ≡ d → bit_and a b ≡ bit_and c d
bit_and_cong p q = cc

bit_and-shift : (k a m : ℕ) → bit_and a (2 ^ k * m) ≡ 2 ^ k * bit_and (a / 2 ^ k) m
bit_and-shift zero a m =
    omega
      (arith, bit_and_cong {a = a} {b = 2 ^ 0 * m} {c = a / 1} {d = m} (omega arith) (omega arith))
bit_and-shift (suc k) a m =
    bit_and a (2 ^ suc k * m)
    ≡⟨ bit_and_cong refl (rw (pow-suc 2 k) (omega arith)) ⟩ bit_and a (2 * (2 ^ k * m))
    ≡⟨ bit_and_double a (2 ^ k * m) ⟩ 2 * bit_and (a / 2) (2 ^ k * m)
    ≡⟨ ap (λ x. 2 * x) (bit_and-shift k (a / 2) m) ⟩ 2 * (2 ^ k * bit_and (a / 2 / 2 ^ k) m)
    ≡⟨ (rw (div-div-eq-div-mul a 2 (2 ^ k)) (omega arith)) ⟩ 2 * 2 ^ k * bit_and (a / (2 * 2 ^ k)) m
    ≡⟨ (rw (pow-suc 2 k, mul_comm (2 ^ k) 2)) ⟩ 2 ^ suc k * bit_and (a / 2 ^ suc k) m ∎

-- The high bytes of a word, by the mask that clears the low one.
pub bit_and_high : (a : ℕ) → a < 2 ^ 64 → bit_and a 0xFFFF_FFFF_FFFF_FF00 ≡ 256 * (a / 256)
bit_and_high a h =
    omega (arith, bit_and-shift 8 a (2 ^ 56 - 1), bit_and_ones 56 (a / 256) (omega arith))

bit_or_double : (a b q : ℕ) → b / 2 ≡ q → bit_or (2 * a) b ≡ 2 * bit_or a q + b % 2
bit_or_double a b q e = omega (arith, bit_or_by (2 * a) b a q (omega arith) e)

-- A low byte put into a word that has none.
pub bit_or_low : (a : ℕ) → bit_or (256 * a) 0xCC ≡ 256 * a + 0xCC
bit_or_low a = rw widen (
    omega (
      arith,
      bit_or_double (2 * (2 * (2 * (2 * (2 * (2 * (2 * a))))))) 0xCC 0x66 refl,
      bit_or_double (2 * (2 * (2 * (2 * (2 * (2 * a)))))) 0x66 0x33 refl,
      bit_or_double (2 * (2 * (2 * (2 * (2 * a))))) 0x33 0x19 refl,
      bit_or_double (2 * (2 * (2 * (2 * a)))) 0x19 0xC refl,
      bit_or_double (2 * (2 * (2 * a))) 0xC 6 refl,
      bit_or_double (2 * (2 * a)) 6 3 refl,
      bit_or_double (2 * a) 3 1 refl,
      bit_or_double a 1 0 refl,
      bit_or-zero a a (le_refl a),
    ))
  where
    widen : 256 * a ≡ 2 * (2 * (2 * (2 * (2 * (2 * (2 * (2 * a)))))))
    widen = omega arith
