-- ===== src/AddressMap.antt =====
-- `std::map<addr_t, T>` as class TracedProgram uses it: a list of entries by rising keys.
pub mod Laws
use c_bdd.Base.{ℕ, Bool, true, false, Option, none, some, List, [], ◌∷◌, ltb, ◌==◌, if◌then◌else◌}

module _ {V : Type 0} where
  unfoldable pub find : ℕ → List (ℕ × V) → Option V
  find k [] = none
  find k ((j, v) ∷ entries) = let rest = find k entries in if j == k then some v else rest

  unfoldable pub contains : ℕ → List (ℕ × V) → Bool
  unfolding find
  contains k entries = elim (find k entries) [ none ↦ false | some v ↦ true ]

  -- An entry that is there stays as it is.
  unfoldable pub try_emplace : ℕ → V → List (ℕ × V) → List (ℕ × V)
  try_emplace k v [] = (k, v) ∷ []
  try_emplace k v ((j, w) ∷ entries) =
      let rest = try_emplace k v entries in
      if j == k
      then (j, w) ∷ entries
      else (if ltb k j then (k, v) ∷ (j, w) ∷ entries else (j, w) ∷ rest)
