-- ===== src/Base/Bytes.antt =====
-- Little-endian numbers in byte lists: reading, writing, and their round trip.
use c_bdd.Base.Lists.{length}
use Prim.Native.Nat.{ℕ, zero, suc, ◌+◌, ◌*◌, ◌/◌, ◌%◌, ◌^◌, ◌<◌}
use mathlib.Core.Path.{◌≡◌, refl}
use mathlib.Core.List.{List, [], ◌∷◌, ◌++◌}
use native.Mathlib.Nat.{pow-suc}
use native.Mathlib.Omega.{arith}

-- A missing byte reads as 0; the callers check the bounds.
unfoldable pub read_le : ℕ → List ℕ → ℕ
read_le zero xs = 0
read_le (suc w) [] = 0
read_le (suc w) (x ∷ xs) = x + 256 * read_le w xs

abbrev pub write_le : ℕ → ℕ → List ℕ
write_le zero v = []
write_le (suc w) v = v % 256 ∷ write_le w (v / 256)

pub length-write_le : (w v : ℕ) → length (write_le w v) ≡ w
length-write_le zero v = refl
length-write_le (suc w) v = omega (arith, length-write_le w (v / 256))

pub read_le-write_le :
    (w v : ℕ) (rest : List ℕ) → v < 256 ^ w → read_le w (write_le w v ++ rest) ≡ v
unfolding read_le
read_le-write_le zero v rest h = omega arith
read_le-write_le (suc w) v rest h =
    omega (arith, read_le-write_le w (v / 256) rest (omega (arith, pow-suc 256 w)))
