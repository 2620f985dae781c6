-- ===== src/Tracer/Console.antt =====
-- `std::cin` as the bytes that are still to be read: `readInput` and the `>>` of a word. At the end
-- of the bytes both give nothing, whether or not the stream has failed by then.
use c_bdd.Base.{ℕ, List, [], ◌∷◌, ◌==◌, if◌then◌else◌}
use c_bdd.Number.{is_space}

-- `std::getline`: the line and what is left behind its newline.
unfoldable pub get_line : List ℕ → List ℕ × List ℕ
get_line [] = ([], [])
get_line (c ∷ console) =
    let rest = get_line console in if c == 10 then ([], console) else (c ∷ rest.0, rest.1)

-- A word that is being read, put before the words behind it; an empty one is none.
abbrev pub with_word : (word : List ℕ) → List (List ℕ) → List (List ℕ)
with_word [] words = words
with_word (c ∷ word) words = (c ∷ word) ∷ words

-- The word at the start of a sentence, which may be empty, and the words behind it.
unfoldable pub split_words : List ℕ → List ℕ × List (List ℕ)
split_words [] = ([], [])
split_words (c ∷ sentence) =
    let rest = split_words sentence in
    if is_space c then ([], with_word rest.0 rest.1) else (c ∷ rest.0, rest.1)

-- `while (iss >> word) words.push_back(word);`
unfoldable pub words_of : List ℕ → List (List ℕ)
unfolding split_words
words_of sentence = let (word, words) = split_words sentence in with_word word words

unfoldable pub read_input : List ℕ → List (List ℕ) × List ℕ
unfolding get_line words_of
read_input console = let (sentence, rest) = get_line console in (words_of sentence, rest)

-- The bytes up to the next space.
unfoldable pub take_word : List ℕ → List ℕ × List ℕ
take_word [] = ([], [])
take_word (c ∷ console) =
    let rest = take_word console in if is_space c then ([], c ∷ console) else (c ∷ rest.0, rest.1)

unfoldable pub skip_space : List ℕ → List ℕ
skip_space [] = []
skip_space (c ∷ console) = let rest = skip_space console in if is_space c then rest else c ∷ console

-- `std::cin >> buf`: the space behind the word stays.
unfoldable pub read_word : List ℕ → List ℕ × List ℕ
unfolding take_word skip_space
read_word console = take_word (skip_space console)
