-- ===== src/Program/Dump/Arguments.antt =====
-- The array of `initChild` has room for 30 parameters.
use c_bdd.Base.{
  ℕ, zero, suc, ◌+◌, ◌-◌, ◌<◌, ◌≤◌, ◌≡◌, refl, ap, ◌∙◌, none, some, List, [], ◌∷◌, ◌++◌, map,
  length, length-append, append_assoc, arith, ok, undefined, ◌>>=◌,
}
use c_bdd.Program.Dump.{put_at, put_parameters, Slot, unwritten, child_arguments}

abbrev pub written : List ℕ → Slot
written parameter = some (some parameter)

put_at-append :
    (before rest : List Slot) (old new : Slot)
    → put_at (length before) new (before ++ old ∷ rest) ≡ ok (before ++ new ∷ rest)
unfolding put_at
put_at-append [] rest old new = refl
put_at-append (x ∷ before) rest old new = rw (put_at-append before rest old new)

put_at-past :
    (index : ℕ) (value : Slot) (slots : List Slot)
    → length slots ≤ index
    → put_at index value slots ≡ undefined
unfolding put_at
put_at-past index value [] h = refl
put_at-past zero value (x ∷ slots) h = absurd (omega arith)
put_at-past (suc index) value (x ∷ slots) h = rw (put_at-past index value slots (omega arith))

length-unwritten : (n : ℕ) → length (unwritten n) ≡ n
length-unwritten zero = refl
length-unwritten (suc n) = ap suc (length-unwritten n)

unwritten_split : (n r : ℕ) → unwritten (n + suc r) ≡ unwritten n ++ none ∷ unwritten r
unwritten_split zero r = let e : 0 + suc r ≡ suc r = omega arith in ap unwritten e
unwritten_split (suc n) r =
    let e : suc n + suc r ≡ suc (n + suc r) = omega arith in
    ap unwritten e ∙ ap (◌∷◌ none) (unwritten_split n r)

put_parameters-map :
    (before : List Slot) (parameters : List (List ℕ)) (rest : List Slot)
    → put_parameters (length before) parameters (before ++ (unwritten (length parameters) ++ rest))
      ≡ ok (before ++ (map written parameters ++ rest))
unfolding put_parameters
put_parameters-map before [] rest = refl
put_parameters-map before (parameter ∷ parameters) rest =
    let others = unwritten (length parameters) ++ rest in
    let longer = before ++ written parameter ∷ [] in
    let counted : length before + 1 ≡ length longer =
      omega (arith, length-append before (written parameter ∷ [])) in
    let step : put_parameters (length before + 1) parameters (before ++ written parameter ∷ others)
        ≡ ok (before ++ written parameter ∷ (map written parameters ++ rest)) =
      rw (counted, ← append_assoc before (written parameter ∷ []) others)
        (put_parameters-map longer parameters rest
          ∙ ap ok
              (append_assoc before (written parameter ∷ []) (map written parameters ++ rest))) in
    rw (put_at-append before others none (written parameter)) step

-- The rest of the function, on an array with an element for each parameter and one for the end.
filled :
    (path : List ℕ) (parameters : List (List ℕ)) (slots rest : List Slot)
    → slots ≡ unwritten (length parameters) ++ none ∷ rest
    → (put_at (length parameters + 1) (some none) (written path ∷ slots)
        >>= put_parameters 1 parameters)
      ≡ ok (written path ∷ (map written parameters ++ some none ∷ rest))
filled path parameters slots rest e =
    let before = written path ∷ unwritten (length parameters) in
    let index : length parameters + 1 ≡ length before =
      omega (arith, length-unwritten (length parameters)) in
    let put : put_at (length parameters + 1) (some none) (written path ∷ slots)
        ≡ ok (written path ∷ (unwritten (length parameters) ++ some none ∷ rest)) =
      rw (index, e) (put_at-append before rest none (some none)) in
    rw put (put_parameters-map (written path ∷ []) parameters (some none ∷ rest))

-- With at most 30 parameters the vector is the path, the parameters in order, the null pointer, and
-- elements that are not written; with more, the child writes past its array.
pub child_arguments_lem :
    (path : List ℕ) (parameters : List (List ℕ))
    → (length parameters ≤ 30
        → child_arguments path parameters
          ≡ ok (
              written path
              ∷ (map written parameters ++ some none ∷ unwritten (30 - length parameters))))
      × (30 < length parameters → child_arguments path parameters ≡ undefined)
unfolding child_arguments
child_arguments_lem path parameters = (
  λ fits.
      let count : 31 ≡ length parameters + suc (30 - length parameters) = omega arith in
      filled path parameters (unwritten 31) (unwritten (30 - length parameters))
        (ap unwritten count ∙ unwritten_split (length parameters) (30 - length parameters)),
  λ long.
      rw (
        put_at-past (length parameters + 1) (some none) (written path ∷ unwritten 31)
          (omega arith)),
)
