-- ===== src/Program/Show/FirstRow.antt =====
-- What of the table reaches the user.
use c_bdd.Base.{
  ℕ, ◌*◌, min, ◌+◌, false, zero, suc, ◌-◌, ◌/◌, ◌%◌, ◌<◌, ◌≡◌, refl, ap, ◌∙◌, List, [], ◌∷◌, ◌++◌,
  All, All-append, codes, length, length-take, take, replicate, append_assoc, arith, ◌==◌,
  if◌then◌else◌, if-then, Bool-cases, inl, inr, leb, ok, undefined, ◌≤◌, length-append,
}
use c_bdd.Number.{upper_digit, hex_digits}
use c_bdd.Text.{hex, line}
use c_bdd.Io.{
  Event, hint_f, cout, fg_cyan, generic_format_print, format_args, generic_not_format_print,
}
use c_bdd.Breakpoint.{Breakpoint}
use c_bdd.Elf.Sections.{until_nul}
use c_bdd.Program.Show.{row_text, snprintf, placed_rows, pending_rows, title, print_table}

abbrev NoNul : List ℕ → Type 0
NoNul = All (λ c. 0 < c)

until_nul-NoNul : (text : List ℕ) → NoNul (until_nul text)
until_nul-NoNul [] = tt
until_nul-NoNul (c ∷ text) = elim (Bool-cases (c == 0)) [
  | inl end ↦ rw end tt
  | inr more ↦ rw more ((ground arith, until_nul-NoNul text))
]

take-NoNul : (n : ℕ) (text : List ℕ) → NoNul text → NoNul (take n text)
take-NoNul zero text h = tt
take-NoNul (suc n) [] h = tt
take-NoNul (suc n) (c ∷ text) (first, others) = (first, take-NoNul n text others)

hex_digits-NoNul : (width value : ℕ) → NoNul (hex_digits upper_digit width value)
hex_digits-NoNul zero value = tt
hex_digits-NoNul (suc width) value =
    All-append (λ c. 0 < c) (hex_digits upper_digit width (value / 16))
      (upper_digit (value % 16) ∷ []) (hex_digits-NoNul width (value / 16)) (ground arith, tt)

-- A C string ends at the first NUL.
until_nul-append : (text rest : List ℕ) → NoNul text → until_nul (text ++ 0 ∷ rest) ≡ text
until_nul-append [] rest h = refl
until_nul-append (c ∷ text) rest (first, others) = ground (arith, until_nul-append text rest others)

joined-NoNul : (text rest : List ℕ) → NoNul text → NoNul rest → NoNul (text ++ rest)
joined-NoNul = All-append (λ c. 0 < c)

row_text-NoNul : (mark : List ℕ) (bp : Breakpoint) → NoNul mark → NoNul (row_text mark bp)
row_text-NoNul mark bp h =
    let head = codes "[" ++ mark ++ codes "]: " in
    let named = head ++ until_nul bp.name in
    joined-NoNul (named ++ codes " (" ++ hex bp.address) (line (codes ")"))
      (joined-NoNul (named ++ codes " (") (hex bp.address)
        (joined-NoNul named (codes " (")
          (joined-NoNul head (until_nul bp.name)
            (joined-NoNul (codes "[" ++ mark) (codes "]: ") (omega arith, h) (omega arith))
            (until_nul-NoNul bp.name))
          (omega arith))
        (omega arith, (omega arith, hex_digits-NoNul 16 bp.address)))
      (omega arith)

padded-ends :
    (kept rest : List ℕ) (n : ℕ)
    → NoNul kept
    → until_nul (kept ++ replicate (suc n) 0 ++ rest) ≡ kept
padded-ends kept rest n h = rw append_assoc (until_nul-append kept (replicate n 0 ++ rest) h)

snprintf-ends :
    (text rest : List ℕ) → NoNul text → until_nul (snprintf 256 text ++ rest) ≡ take 255 text
snprintf-ends text rest h =
    let kept = take 255 text in
    let room : 256 - length kept ≡ suc (255 - length kept) = omega (arith, length-take 255 text) in
    rw room (padded-ends kept rest (255 - length kept) (take-NoNul 255 text h))

rows-end :
    (text placed pending : List ℕ)
    → NoNul text
    → until_nul (snprintf 256 text ++ placed ++ pending) ≡ take 255 text
rows-end text placed pending h =
    ap until_nul (append_assoc (snprintf 256 text) placed pending)
    ∙ snprintf-ends text (placed ++ pending) h

-- What fits the buffer of the print is not cut before it.
short-take : {A : Type 0} (n : ℕ) (xs : List A) → length xs ≤ n → take n xs ≡ xs
short-take zero [] h = refl
short-take zero (x ∷ xs) h = absurd (omega arith)
short-take (suc n) [] h = refl
short-take (suc n) (x ∷ xs) h = ap (◌∷◌ x) (short-take n xs (omega arith))

-- How much the titles take of the buffer.
row_fits :
    (row : List ℕ)
    → leb (length (title ++ (title ++ row))) (length (title ++ codes "%s") + 132)
      ≡ leb (length row) 116
row_fits row =
    let sum : length (title ++ (title ++ row)) ≡ length row + 2 * length title =
      omega (arith, length-append title (title ++ row), length-append title row) in
    rw sum (shifted (length row))
  where
    shifted : (n : ℕ) → leb (n + 2 * length title) (length (title ++ codes "%s") + 132) ≡ leb n 116
    shifted n = ground arith

still_long : (row : List ℕ) → leb (length row) 116 ≡ false → leb (length (take 255 row)) 116 ≡ false
still_long row long = rw (length-take 255 row) (cut (length row) long)
  where
    cut : (n : ℕ) → leb n 116 ≡ false → leb (min 255 n) 116 ≡ false
    cut n h = ground arith

-- The print of the rows up to the first NUL.
hint_f-cut :
    (row : List ℕ) (trace : List Event)
    → hint_f (title ++ codes "%s") (title ++ (title ++ take 255 row)) trace ≡ (
        if leb (length row) 116
        then ok (generic_not_format_print cout fg_cyan (title ++ (title ++ row)) trace)
        else undefined)
unfolding generic_format_print format_args generic_not_format_print
hint_f-cut row trace = elim (Bool-cases (leb (length row) 116)) [
  | inl short ↦
      let whole : take 255 row ≡ row = short-take 255 row (ground arith) in
      rw (whole, short, row_fits row, short) refl
  | inr long ↦ rw (long, row_fits (take 255 row), still_long row long) refl
]

-- Of a table with a breakpoint in the map the user sees the title twice and the row of the first
-- breakpoint, if that row has at most 116 bytes: no other breakpoint, placed or pending, has any
-- effect. A longer row overflows the buffer of the print, which is undefined behaviour.
pub print_table-first :
    (address : ℕ) (bp : Breakpoint) (entries : List (ℕ × Breakpoint)) (pending : List Breakpoint)
    (trace : List Event)
    → let row = row_text (if bp.enabled then codes "X " else codes " ") bp in
      print_table ((address, bp) ∷ entries) pending trace ≡ (
        if leb (length row) 116
        then ok (generic_not_format_print cout fg_cyan (title ++ (title ++ row)) trace)
        else undefined)
unfolding print_table placed_rows
print_table-first address bp entries pending trace =
    let mark = if bp.enabled then codes "X " else codes " " in
    let text = row_text mark bp in
    let first : until_nul (snprintf 256 text ++ placed_rows entries ++ pending_rows pending)
        ≡ take 255 text =
      rows-end text (placed_rows entries) (pending_rows pending)
        (row_text-NoNul mark bp (if-then NoNul bp.enabled (omega arith) (omega arith))) in
    ap (λ shown. hint_f (title ++ codes "%s") (title ++ (title ++ shown)) trace) first
    ∙ hint_f-cut text trace
