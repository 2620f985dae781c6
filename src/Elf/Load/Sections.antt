-- ===== src/Elf/Load/Sections.antt =====
-- What the last region of the constructor reads: the bytes of every section while the file holds
-- them, and bytes of earlier sections after the first read that came short.
use c_bdd.Base.{
  ℕ, ◌+◌, ◌-◌, ◌^◌, ◌≤◌, ◌<◌, ◌≡◌, refl, ap, true, List, [], ◌∷◌, map, All, length, take, drop,
  replicate, arith, length-append, length-take, length-replicate, lt→ltb,
}
use c_bdd.Elf.{Shdr}
use c_bdd.Elf.Stream.{
  Stream, stream_at, seekg, read, resize, read-within, read-past, read-failed, seekg-failed,
}
use c_bdd.Elf.Load.{load_sections}

-- The bytes that a section header stands for.
abbrev pub section_bytes : List ℕ → Shdr → List ℕ
section_bytes content header = take header.sh_size (drop header.sh_offset content)

-- The section lies in the file, and its size and offset survive the casts.
abbrev pub IsInFile : List ℕ → Shdr → Type 0
IsInFile content header =
    (header.sh_offset + header.sh_size ≤ length content)
    × (header.sh_size < 2 ^ 31)
    × (header.sh_offset < 2 ^ 63)

pub length-resize : (n : ℕ) (buffer : List ℕ) → length (resize n buffer) ≡ n
length-resize n buffer = omega (
  arith,
  length-append (take n buffer) (replicate (n - length buffer) 0),
  length-take n buffer,
  length-replicate {A = ℕ} (n - length buffer) 0,
)

-- Seeking to a section and reading it, while the stream is good.
read-section :
    (content buffer : List ℕ) (position : ℕ) (header : Shdr)
    → IsInFile content header
    → read (resize header.sh_size buffer) (seekg header.sh_offset (stream_at content position))
      ≡ (section_bytes content header, stream_at content (header.sh_offset + header.sh_size))
unfolding seekg
read-section content buffer position header (inside, small, near) =
    let size = length-resize header.sh_size buffer in
    rw (lt→ltb _ _ near) (
      rw size at (
        read-within (resize header.sh_size buffer) content header.sh_offset (omega (arith, size))
          (omega (arith, size))))

-- While every section lies in the file, each section's data is its own slice of the file.
pub load_sections-in_file :
    (content : List ℕ) (headers : List Shdr) (buffer : List ℕ) (position : ℕ)
    → All (IsInFile content) headers
    → load_sections headers buffer (stream_at content position)
      ≡ map (section_bytes content) headers
unfolding load_sections
load_sections-in_file content [] buffer position inside = refl
load_sections-in_file content (header ∷ headers) buffer position (first, others) =
    rw (read-section content buffer position header first)
      (ap (◌∷◌ (section_bytes content header)) (load_sections-in_file content headers _ _ others))

-- What the buffer becomes where nothing is read any more.
pub stale_sections : List Shdr → List ℕ → List (List ℕ)
stale_sections [] buffer = []
stale_sections (header ∷ headers) buffer =
    let filled = resize header.sh_size buffer in filled ∷ stale_sections headers filled

load_sections-failed :
    (headers : List Shdr) (buffer : List ℕ) (s : Stream)
    → s.failed ≡ true
    → load_sections headers buffer s ≡ stale_sections headers buffer
unfolding load_sections stale_sections
load_sections-failed [] buffer s h = refl
load_sections-failed (header ∷ headers) buffer s h =
    rw (seekg-failed header.sh_offset s h, read-failed (resize header.sh_size buffer) s h)
      (ap (◌∷◌ (resize header.sh_size buffer))
        (load_sections-failed headers (resize header.sh_size buffer) s h))

-- Once a section reaches past the end of the file, no later section is read from the file, also one
-- that lies in it: its data is what the buffer still holds.
pub load_sections-past_end :
    (content : List ℕ) (header : Shdr) (headers : List Shdr) (buffer : List ℕ) (position : ℕ)
    → length content < header.sh_offset + header.sh_size
    → 0 < header.sh_size
    → header.sh_size < 2 ^ 31
    → header.sh_offset < 2 ^ 63
    → (filled : List ℕ) × (load_sections (header ∷ headers) buffer (stream_at content position)
        ≡ filled ∷ stale_sections headers filled)
unfolding load_sections seekg
load_sections-past_end content header headers buffer position past some_bytes small near =
    let size = length-resize header.sh_size buffer in
    let target = resize header.sh_size buffer in
    let failed =
      read-past target content header.sh_offset (omega (arith, size)) (omega (arith, size)) in
    let (filled, s') = read target (stream_at content header.sh_offset) in
    (filled, rw (lt→ltb _ _ near) (ap (◌∷◌ filled) (load_sections-failed headers filled s' failed)))
