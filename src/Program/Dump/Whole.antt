-- ===== src/Program/Dump/Whole.antt =====
-- The pieces that `fgets` cuts a command's output into, put together again.
use c_bdd.Base.{
  ℕ, zero, suc, ◌<◌, ◌≤◌, ◌≡◌, refl, ap, ◌∙◌, some, List, [], ◌∷◌, ◌++◌, All, length, ◌==◌,
  Bool-cases, inl, inr, arith, ok,
}
use c_bdd.Os.{Os}
use c_bdd.Elf.Sections.{until_nul}
use c_bdd.Program.Dump.{fgets, read_output, get_output_from_exec}

abbrev pub NoNul : List ℕ → Type 0
NoNul = All (λ c. 0 < c)

until_nul-whole : (text : List ℕ) → NoNul text → until_nul text ≡ text
until_nul-whole [] h = refl
until_nul-whole (c ∷ text) (first, others) = ground (arith, until_nul-whole text others)

-- A piece and what is left are the stream, without a NUL if it has none, and a piece that has room
-- takes something.
record Splits (stream piece rest : List ℕ) : Type 0 where
  whole : piece ++ rest ≡ stream
  piece_clean : NoNul piece
  rest_clean : NoNul rest
  shorter : length rest ≤ length stream

fgets-Splits :
    (room : ℕ) (stream : List ℕ)
    → NoNul stream
    → Splits stream (fgets room stream).0 (fgets room stream).1
unfolding fgets
fgets-Splits zero stream h = record {
  whole = refl;
  piece_clean = tt;
  rest_clean = h;
  shorter = omega arith;
}
fgets-Splits (suc room) [] h = record {
  whole = refl;
  piece_clean = tt;
  rest_clean = tt;
  shorter = omega arith;
}
fgets-Splits (suc room) (c ∷ stream) (first, others) = elim (Bool-cases (c == 10)) [
  | inl end ↦ rw end (record {
    whole = refl;
    piece_clean = (first, tt);
    rest_clean = others;
    shorter = omega arith;
  })
  | inr more ↦
      let s = fgets-Splits room stream others in
      rw more (record {
        whole = ap (◌∷◌ c) s.whole;
        piece_clean = (first, s.piece_clean);
        rest_clean = s.rest_clean;
        shorter = omega (arith, s.shorter);
      })
]

fgets-shorter :
    (room c : ℕ) (stream : List ℕ)
    → NoNul (c ∷ stream)
    → length (fgets (suc room) (c ∷ stream)).1 ≤ length stream
unfolding fgets
fgets-shorter room c stream (first, others) = elim (Bool-cases (c == 10)) [
  | inl end ↦ rw end (omega arith)
  | inr more ↦ rw more (fgets-Splits room stream others).shorter
]

less_fuel : {left bytes fuel : ℕ} → left ≤ bytes → suc bytes < suc fuel → left < fuel
less_fuel p q = omega arith

-- With a round more than there are bytes, the pieces of a text without NUL are the text.
read_output-whole :
    (fuel : ℕ) (stream : List ℕ)
    → NoNul stream
    → length stream < fuel
    → read_output fuel stream ≡ stream
unfolding read_output
read_output-whole zero stream h enough = absurd (omega arith)
read_output-whole (suc fuel) [] h enough = refl
read_output-whole (suc fuel) (c ∷ stream) h enough =
    let s = fgets-Splits 255 (c ∷ stream) h in
    let (piece, rest) = fgets 255 (c ∷ stream) in
    ap (λ text. text ++ read_output fuel rest) (until_nul-whole piece s.piece_clean)
    ∙ ap (◌++◌ piece)
        (read_output-whole fuel rest s.rest_clean (less_fuel (fgets-shorter 254 c stream h) enough))
    ∙ s.whole

-- What a command writes comes back whole, however long its lines are, if it has no NUL.
pub get_output_from_exec-whole :
    {W : Type 0} (os : Os W) (command : List ℕ) (w : W) (output : List ℕ)
    → os.shell command w ≡ some output
    → NoNul output
    → get_output_from_exec os command w ≡ ok output
unfolding get_output_from_exec
get_output_from_exec-whole os command w output e h =
    rw (e, get_output_from_exec)
      (ap ok (read_output-whole (suc (length output)) output h (omega arith)))
