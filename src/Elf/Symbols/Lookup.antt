-- ===== src/Elf/Symbols/Lookup.antt =====
-- Looking a function up by its name.
use c_bdd.Base.{ℕ, ◌≡◌, refl, List, [], ◌∷◌, ◌++◌, All, text_eq_iff, arith, ok, undefined, ◌≢◌}
use c_bdd.Elf.{ElfFile}
use c_bdd.Elf.Symbols.{find_function, get_functions_list, get_function_address}

-- No function of the list has the name.
abbrev pub Unnamed : List ℕ → List (ℕ × List ℕ) → Type 0
Unnamed wanted = All (λ (f : ℕ × List ℕ). f.1 ≢ wanted)

find_function-first :
    (wanted : List ℕ) (before after : List (ℕ × List ℕ)) (address : ℕ)
    → Unnamed wanted before
    → find_function wanted (before ++ (address, wanted) ∷ after) ≡ ok address
unfolding find_function
find_function-first wanted [] after address none_before = ground (arith, text_eq_iff wanted wanted)
find_function-first wanted ((other, name) ∷ before) after address (differs, none_before) =
    ground
      (arith, text_eq_iff name wanted, find_function-first wanted before after address none_before)

find_function-none :
    (wanted : List ℕ) (functions : List (ℕ × List ℕ))
    → Unnamed wanted functions
    → find_function wanted functions ≡ undefined
unfolding find_function
find_function-none wanted [] none_has = refl
find_function-none wanted ((other, name) ∷ functions) (differs, none_has) =
    ground (arith, text_eq_iff name wanted, find_function-none wanted functions none_has)

module _ (file : ElfFile) (wanted : List ℕ) where
  -- With several functions of one name, `getFunctionAddress` gives the address of the first.
  pub get_function_address-first :
      (before after : List (ℕ × List ℕ)) (address : ℕ)
      → get_functions_list file ≡ ok (before ++ (address, wanted) ∷ after)
      → Unnamed wanted before
      → get_function_address file wanted ≡ ok address
  unfolding get_function_address
  get_function_address-first before after address e none_before =
      rw e (find_function-first wanted before after address none_before)

  -- With no function of the name, `getFunctionAddress` reads through the end iterator: there is no
  -- result at all, in particular not the 0 that its callers test for.
  pub get_function_address-undefined :
      (functions : List (ℕ × List ℕ))
      → get_functions_list file ≡ ok functions
      → Unnamed wanted functions
      → get_function_address file wanted ≡ undefined
  unfolding get_function_address
  get_function_address-undefined functions e none_has =
      rw e (find_function-none wanted functions none_has)
