-- ===== src/Elf/Stream.antt =====
-- `std::ifstream` as ElfFile::ElfFile of lib/bdd_elf.cpp uses it: `seekg` from the beginning, and
-- `read` into a buffer. A read that comes short sets the fail bit, and from then on neither call
-- does anything.
use c_bdd.Base.{
  ℕ, ◌+◌, ◌-◌, ◌%◌, ◌^◌, ◌≤◌, ◌<◌, ◌≡◌, Bool, true, false, ◌||◌, List, ◌++◌, length, take, drop,
  min, replicate, ltb, leb, if◌then◌else◌, arith, append-nil, drop-length, length-take, length-drop,
}

pub record Stream : Type 0 where
  pub content : List ℕ
  pub position : ℕ
  pub failed : Bool

abbrev pub open_stream : List ℕ → Stream
open_stream content = record { content = content; position = 0; failed = false }

-- `input.seekg((long) offset, beg)`: the cast makes an offset from 2 ^ 63 on negative, which fails.
unfoldable pub seekg : ℕ → Stream → Stream
seekg offset s =
    if s.failed
    then s
    else (if ltb offset (2 ^ 63)
        then record s { position = offset }
        else record s { failed = true })

-- `input.read(buffer.data(), (int) buffer.size())`: the cast wraps, and a negative count reads
-- nothing and fails. What is not read of the buffer keeps its old bytes.
unfoldable pub read : List ℕ → Stream → List ℕ × Stream
read buffer s =
    let count = length buffer % 2 ^ 32 in
    let got = take count (drop s.position s.content) in
    if s.failed || leb (2 ^ 31) count then (buffer, record s { failed = true }) else (
      got ++ drop (length got) buffer,
      record s { position = s.position + length got; failed = ltb (length got) count },
    )

-- `buffer.resize(n)`: new bytes are 0.
abbrev pub resize : ℕ → List ℕ → List ℕ
resize n buffer = take n buffer ++ replicate (n - length buffer) 0

-- A stream in good state.
abbrev pub stream_at : List ℕ → ℕ → Stream
stream_at content position = record { content = content; position = position; failed = false }

module _ (buffer content : List ℕ) (offset : ℕ) (small : length buffer < 2 ^ 31) where
  count-length : length buffer % 2 ^ 32 ≡ length buffer
  count-length = omega arith

  length-got :
      length (take (length buffer) (drop offset content))
      ≡ min (length buffer) (length content - offset)
  length-got = rw (length-take (length buffer) (drop offset content), length-drop offset content)

  -- A read within the file fills the buffer with the bytes at the position.
  pub read-within :
      length buffer ≤ length content - offset
      → read buffer (stream_at content offset)
        ≡ (take (length buffer) (drop offset content), stream_at content (offset + length buffer))
  unfolding read
  read-within h =
      let full : length (take (length buffer) (drop offset content)) ≡ length buffer =
        omega (arith, length-got) in
      rw (count-length) (
        ground (
          arith,
          full,
          drop-length (length buffer) buffer (omega arith),
          append-nil (take (length buffer) (drop offset content)),
        ))

  -- A read past the end of the file leaves the stream failed.
  pub read-past :
      length content - offset < length buffer
      → (read buffer (stream_at content offset)).1.failed ≡ true
  unfolding read
  read-past h = rw count-length (ground (arith, length-got))

pub read-failed : (buffer : List ℕ) (s : Stream) → s.failed ≡ true → read buffer s ≡ (buffer, s)
unfolding read
read-failed buffer s h = ground arith

pub seekg-failed : (offset : ℕ) (s : Stream) → s.failed ≡ true → seekg offset s ≡ s
unfolding seekg
seekg-failed offset s h = ground arith
