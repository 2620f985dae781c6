-- ===== src/Elf/Sections/ByType.antt =====
-- The three searches by section type agree.
use mathlib.Core.Path.{ap₂}
use c_bdd.Base.{
  ℕ, ◌+◌, ◌≤◌, ◌≡◌, refl, some, List, [], ◌∷◌, ◌++◌, map, All, length, get_elem?, ◌==◌,
  if◌then◌else◌, Outcome, ok, undefined, arith, length-append, append_assoc, Bool-cases, inl, inr,
}
use c_bdd.Elf.{Shdr, ElfFile}
use c_bdd.Elf.Sections.{
  find_by_type, indexes_from, headers_of_type, get_section_header_by_type,
  get_section_header_indexes_by_type, get_sections_header_by_type,
}

get_elem?-append_length :
    {A : Type 0} (before : List A) (x : A) (after : List A)
    → get_elem? (before ++ x ∷ after) (length before) ≡ some x
get_elem?-append_length [] x after = refl
get_elem?-append_length (y ∷ before) x after = get_elem?-append_length before x after

-- At position `length before` of the list `before ++ headers`.
indexes_from-headers_of_type :
    (type : ℕ) (before headers : List Shdr)
    → map (get_elem? (before ++ headers)) (indexes_from type (length before) headers)
      ≡ map some (headers_of_type type headers)
unfolding indexes_from headers_of_type
indexes_from-headers_of_type type before [] = refl
indexes_from-headers_of_type type before (each ∷ headers) =
    let rest =
      rw (append_assoc before (each ∷ []) headers, length-append before (each ∷ [])) at
        (indexes_from-headers_of_type type (before ++ each ∷ []) headers) in
    elim (Bool-cases (each.sh_type == type)) [
      | inl same ↦ rw same (ap₂ ◌∷◌ (get_elem?-append_length before each headers) rest)
      | inr other ↦ rw other rest
    ]

-- Each index lies at or above `low` and above the ones before it.
abbrev pub Increasing : ℕ → List ℕ → Type 0
Increasing low [] = Unit
Increasing low (i ∷ is) = (low ≤ i) × Increasing (i + 1) is

Increasing-mono : (low high : ℕ) (is : List ℕ) → low ≤ high → Increasing high is → Increasing low is
Increasing-mono low high [] h inc = tt
Increasing-mono low high (i ∷ is) h inc = (omega arith, inc.1)

indexes_from-Increasing :
    (type current : ℕ) (headers : List Shdr)
    → Increasing current (indexes_from type current headers)
unfolding indexes_from
indexes_from-Increasing type current [] = tt
indexes_from-Increasing type current (each ∷ headers) = ground (
  arith,
  indexes_from-Increasing type (current + 1) headers,
  Increasing-mono current (current + 1) (indexes_from type (current + 1) headers),
)

-- The indexes that `getSectionHeaderIndexesByType` finds are in strictly rising order, and the
-- headers at them, in this order, are all that `getSectionsHeaderByType` finds.
pub indexes-headers_by_type :
    (file : ElfFile) (type : ℕ)
    → Increasing 0 (get_section_header_indexes_by_type file type)
      × (map (get_elem? file.sections_headers) (get_section_header_indexes_by_type file type)
          ≡ map some (get_sections_header_by_type file type))
unfolding get_section_header_indexes_by_type get_sections_header_by_type
indexes-headers_by_type file type = (
  indexes_from-Increasing type 0 file.sections_headers,
  indexes_from-headers_of_type type [] file.sections_headers,
)

-- Every header found has the type, and the headers left out do not.
abbrev pub count_of_type : ℕ → List Shdr → ℕ
count_of_type type [] = 0
count_of_type type (each ∷ headers) =
    (if each.sh_type == type then 1 else 0) + count_of_type type headers

headers_of_type-All :
    (type : ℕ) (headers : List Shdr)
    → All (λ (h : Shdr). h.sh_type ≡ type) (headers_of_type type headers)
      × (length (headers_of_type type headers) ≡ count_of_type type headers)
unfolding headers_of_type
headers_of_type-All type [] = (tt, refl)
headers_of_type-All type (each ∷ headers) = ground (arith, headers_of_type-All type headers)

abbrev pub first_or_undefined : List Shdr → Outcome Shdr
first_or_undefined [] = undefined
first_or_undefined (h ∷ hs) = ok h

find_by_type-first :
    (type : ℕ) (headers : List Shdr)
    → find_by_type type headers ≡ first_or_undefined (headers_of_type type headers)
unfolding find_by_type headers_of_type
find_by_type-first type [] = refl
find_by_type-first type (each ∷ headers) = ground (arith, find_by_type-first type headers)

-- `getSectionHeaderByType` is the first of `getSectionsHeaderByType`, and is undefined where that
-- list is empty. The list holds headers of the type only, as many as the file has.
pub header_by_type-first :
    (file : ElfFile) (type : ℕ)
    → (get_section_header_by_type file type
        ≡ first_or_undefined (get_sections_header_by_type file type))
      × All (λ (h : Shdr). h.sh_type ≡ type) (get_sections_header_by_type file type)
      × (length (get_sections_header_by_type file type) ≡ count_of_type type file.sections_headers)
unfolding get_section_header_by_type get_sections_header_by_type
header_by_type-first file type =
    let (right, count) = headers_of_type-All type file.sections_headers in
    (find_by_type-first type file.sections_headers, right, count)
