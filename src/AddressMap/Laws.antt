-- ===== src/AddressMap/Laws.antt =====
-- Lookup after insertion, order of keys, and predicates over the entries.
use c_bdd.Base.{
  Bool, true, false, ℕ, ◌<◌, ◌≤◌, ◌+◌, ◌≡◌, refl, Option, none, some, List, [], ◌∷◌, All, ◌==◌,
  ◌||◌, if◌then◌else◌, arith,
}
use c_bdd.AddressMap.{find, contains, try_emplace}

module _ {V : Type 0} where
  -- Strictly rising keys from `low` on.
  abbrev pub Ordered : ℕ → List (ℕ × V) → Type 0
  Ordered low [] = Unit
  Ordered low ((k, v) ∷ entries) = (low ≤ k) × Ordered (k + 1) entries

  abbrev pub or_else : Option V → V → V
  or_else none v = v
  or_else (some w) v = w

  find-below :
      (low k : ℕ) (entries : List (ℕ × V)) → Ordered low entries → k < low → find k entries ≡ none
  unfolding find
  find-below low k [] o h = refl
  find-below low k ((j, v) ∷ entries) o h = ground (arith, find-below (j + 1) k entries o.1)

  -- After `try_emplace` the key has its old value, or the new one if it had none; other keys are as
  -- before.
  pub find-try_emplace :
      (low k j : ℕ) (v : V) (entries : List (ℕ × V))
      → Ordered low entries
      → find j (try_emplace k v entries)
        ≡ (if j == k then some (or_else (find k entries) v) else find j entries)
  unfolding find try_emplace
  find-try_emplace low k j v [] o = ground arith
  find-try_emplace low k j v ((i, w) ∷ entries) o =
      ground (arith, find-try_emplace (i + 1) k j v entries o.1, find-below (i + 1) k entries o.1)

  pub try_emplace-Ordered :
      (low k : ℕ) (v : V) (entries : List (ℕ × V))
      → low ≤ k
      → Ordered low entries
      → Ordered low (try_emplace k v entries)
  unfolding try_emplace
  try_emplace-Ordered low k v [] h o = ground arith
  try_emplace-Ordered low k v ((i, w) ∷ entries) h o =
      ground (arith, try_emplace-Ordered (i + 1) k v entries)

  pub try_emplace-All :
      (P : ℕ × V → Type 0) (k : ℕ) (v : V) (entries : List (ℕ × V))
      → P (k, v)
      → All P entries
      → All P (try_emplace k v entries)
  unfolding try_emplace
  try_emplace-All P k v [] p all = (p, tt)
  try_emplace-All P k v ((i, w) ∷ entries) p (q, all) =
      ground (arith, try_emplace-All P k v entries p all)

  abbrev pub is_some : Option V → Bool
  is_some none = false
  is_some (some v) = true

  pub contains-is_some :
      (k : ℕ) (entries : List (ℕ × V)) → contains k entries ≡ is_some (find k entries)
  unfolding contains
  contains-is_some k entries =
      elim (find k entries) as (λ r. elim r [ none ↦ false | some v ↦ true ] ≡ is_some r) [
        | none ↦ refl
        | some v ↦ refl
      ]

  pub contains-try_emplace :
      (low k j : ℕ) (v : V) (entries : List (ℕ × V))
      → Ordered low entries
      → contains j (try_emplace k v entries) ≡ (j == k) || contains j entries
  contains-try_emplace low k j v entries o = ground (
    arith,
    contains-is_some j (try_emplace k v entries),
    contains-is_some j entries,
    find-try_emplace low k j v entries o,
  )
