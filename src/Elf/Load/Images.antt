-- ===== src/Elf/Load/Images.antt =====
-- The constructor against an independent description of the files it is meant for.
use c_bdd.Base.{
  ℕ, ◌+◌, ◌-◌, ◌*◌, ◌^◌, ◌≤◌, ◌<◌, ◌≡◌, refl, ap, true, false, some, List, [], ◌∷◌, ◌++◌, map, All,
  length, take, drop, replicate, arith, length-append, length-replicate, ok, leb, take-append_by,
  append-nil, drop-append, ◌∙◌, lt→ltb, length-drop,
}
use c_bdd.Elf.{Ehdr, Phdr, Shdr}
use c_bdd.Elf.Layout.{decode_ehdr, decode_phdr, decode_shdr, ehdr_size, phdr_size, shdr_size}
use c_bdd.Elf.Layout.Encode.{
  encode_fields, encode_ehdr, encode_phdr, encode_shdr, FitsEhdr, FitsPhdr, FitsShdr,
}
use c_bdd.Elf.Layout.RoundTrip.{
  decode_ehdr-encode_ehdr, decode_phdr-encode_phdr, decode_shdr-encode_shdr,
}
use c_bdd.Elf.Stream.{Stream, stream_at, seekg, read, read-within}
use c_bdd.Elf.Load.{is_elf_file, read_table, load_table, load}
use c_bdd.Elf.Load.Sections.{IsInFile, section_bytes, load_sections-in_file}

abbrev pub encode_all {ℓ} : {A : Type ℓ} → (A → List ℕ) → List A → List ℕ
encode_all encode [] = []
encode_all encode (x ∷ xs) = encode x ++ encode_all encode xs

-- The format of a table's entries: their size, and that they read back.
record IsFormat {A : Type 0} (size : ℕ) (decode : List ℕ → A) (encode : A → List ℕ)
    (Fits : A → Type 0) : Type 0 where
  sized : (a : A) → length (encode a) ≡ size
  back : (a : A) (rest : List ℕ) → Fits a → decode (encode a ++ rest) ≡ a

phdr_format : IsFormat phdr_size decode_phdr encode_phdr FitsPhdr
phdr_format = record { sized = λ h. refl; back = decode_phdr-encode_phdr }

shdr_format : IsFormat shdr_size decode_shdr encode_shdr FitsShdr
shdr_format = record { sized = λ h. refl; back = decode_shdr-encode_shdr }

module _ {A : Type 0} {size : ℕ} {decode : List ℕ → A} {encode : A → List ℕ} {Fits : A → Type 0}
    (format : IsFormat size decode encode Fits) where
  open format use {sized, back}

  length-encode_all : (xs : List A) → length (encode_all encode xs) ≡ size * length xs
  length-encode_all [] = omega arith
  length-encode_all (x ∷ xs) =
      omega (arith, length-append (encode x) (encode_all encode xs), sized x, length-encode_all xs)

  read_table-encode_all :
      (xs : List A)
      → All Fits xs
      → read_table size decode (length xs) (encode_all encode xs) ≡ ok xs
  unfolding read_table
  read_table-encode_all [] fits = refl
  read_table-encode_all (x ∷ xs) (fit, fits) =
      let rest = encode_all encode xs in
      let enough : leb size (length (encode x ++ rest)) ≡ true =
        ground (arith, length-append (encode x) rest, sized x) in
      let past : drop size (encode x ++ rest) ≡ rest =
        rw (← sized x) (drop-append (encode x) rest) in
      rw (enough, past, read_table-encode_all xs fits, back x rest fit)

  load_table-encode_all :
      (content rest : List ℕ) (xs : List A) (offset position : ℕ)
      → All Fits xs
      → drop offset content ≡ encode_all encode xs ++ rest
      → offset < 2 ^ 63
      → size * length xs < 2 ^ 31
      → load_table size decode size (length xs) offset (stream_at content position)
        ≡ ok (xs, stream_at content (offset + size * length xs))
  unfolding load_table seekg
  load_table-encode_all content rest xs offset position fits here near small =
      rw (not_big, lt→ltb _ _ near, reading, read_table-encode_all xs fits)
    where
      buffer : List ℕ
      buffer = replicate (size * length xs) 0

      length-buffer : length buffer ≡ size * length xs
      length-buffer = length-replicate {A = ℕ} (size * length xs) 0

      not_big : leb (2 ^ 31) (size * length xs) ≡ false
      not_big = ground arith

      within : length buffer ≤ length content - offset
      within = omega (
        arith,
        length-buffer,
        length-drop offset content,
        ap length here,
        length-append (encode_all encode xs) rest,
        length-encode_all xs,
      )

      reading :
          read buffer (stream_at content offset)
          ≡ (encode_all encode xs, stream_at content (offset + size * length xs))
      reading =
          rw
            (length-buffer, here, take-append_by (encode_all encode xs) rest (length-encode_all xs))
            at (read-within buffer content offset (omega (arith, length-buffer)) within)

-- Of the size of an entry only its product with the number of entries matters.
load_table-sized :
    {A : Type 0} (size : ℕ) (decode : List ℕ → A) (count offset : ℕ) (s : Stream) (a b : ℕ)
    → a * count ≡ b * count
    → load_table size decode a count offset s ≡ load_table size decode b count offset s
unfolding load_table
load_table-sized size decode count offset s a b e = rw e refl

-- A file that holds an ELF-64 image: the header at its start, the two tables where the header
-- says, each entry of the size of the format where the table has entries, and, of every section, the
-- range of bytes that its header gives within the file, also of one that needs no bytes there
-- (`SHT_NOBITS`).
pub record IsImage (content : List ℕ) (header : Ehdr) (programs : List Phdr) (sections : List Shdr)
    : Type 0 where
  pub magic : is_elf_file header ≡ true
  pub fits_header : FitsEhdr header
  pub fits_programs : All FitsPhdr programs
  pub fits_sections : All FitsShdr sections
  pub after_header : List ℕ
  pub header_here : content ≡ encode_ehdr header ++ after_header
  pub after_programs : List ℕ
  pub programs_here :
      drop header.e_phoff content ≡ encode_all encode_phdr programs ++ after_programs
  pub after_sections : List ℕ
  pub sections_here :
      drop header.e_shoff content ≡ encode_all encode_shdr sections ++ after_sections
  pub programs_near : header.e_phoff < 2 ^ 63
  pub sections_near : header.e_shoff < 2 ^ 63
  pub program_size : header.e_phentsize * length programs ≡ phdr_size * length programs
  pub section_size : header.e_shentsize * length sections ≡ shdr_size * length sections
  pub program_count : header.e_phnum ≡ length programs
  pub section_count : header.e_shnum ≡ length sections
  pub sections_inside : All (IsInFile content) sections

module _ {content : List ℕ} {header : Ehdr} {programs : List Phdr} {sections : List Shdr}
    (image : IsImage content header programs sections) where
  length-encode_ehdr : length (encode_ehdr header) ≡ ehdr_size
  length-encode_ehdr =
      omega (
        arith,
        length-append header.e_ident (encode_fields header),
        image.fits_header.e_ident_length,
      )

  header_bytes : take ehdr_size content ≡ encode_ehdr header
  header_bytes =
      ap (take ehdr_size) image.header_here
      ∙ take-append_by (encode_ehdr header) image.after_header length-encode_ehdr

  read_header :
      read (replicate ehdr_size 0) (stream_at content 0)
      ≡ (encode_ehdr header, stream_at content ehdr_size)
  read_header = rw header_bytes at (
      read-within (replicate ehdr_size 0) content 0 (omega arith) (
        omega (
          arith,
          ap length image.header_here,
          length-append (encode_ehdr header) image.after_header,
          length-encode_ehdr,
        )))

  load_programs :
      load_table phdr_size decode_phdr header.e_phentsize header.e_phnum header.e_phoff
        (stream_at content ehdr_size)
      ≡ ok (programs, stream_at content (header.e_phoff + phdr_size * length programs))
  load_programs = rw image.program_count (
      load_table-sized phdr_size decode_phdr (length programs) header.e_phoff _ _ _
        image.program_size
      ∙ load_table-encode_all phdr_format content image.after_programs programs header.e_phoff
          ehdr_size image.fits_programs image.programs_here image.programs_near
          (omega (arith, image.program_count, image.fits_header.e_phnum_lt)))

  load_headers :
      (position : ℕ)
      → load_table shdr_size decode_shdr header.e_shentsize header.e_shnum header.e_shoff
          (stream_at content position)
        ≡ ok (sections, stream_at content (header.e_shoff + shdr_size * length sections))
  load_headers position = rw image.section_count (
      load_table-sized shdr_size decode_shdr (length sections) header.e_shoff _ _ _
        image.section_size
      ∙ load_table-encode_all shdr_format content image.after_sections sections header.e_shoff
          position image.fits_sections image.sections_here image.sections_near
          (omega (arith, image.section_count, image.fits_header.e_shnum_lt)))

  decoded : decode_ehdr (encode_ehdr header) ≡ header
  decoded =
      rw (append-nil (encode_ehdr header)) at (decode_ehdr-encode_ehdr header [] image.fits_header)

  -- The constructor accepts an ELF-64 file of which the entries of both tables have the size of
  -- the format (an empty table may give any size) and the bytes of every section, those of
  -- `SHT_NOBITS` included, are within the file. All numbers fit their fields, the offsets of the
  -- tables and of the sections are below 2 ^ 63, and a section has less than 2 ^ 31 bytes. It
  -- finds in the file exactly the header, the two tables, and for each section its slice of the
  -- file.
  pub load-IsImage :
      load (some content)
      ≡ ok (record {
        header = header;
        program_headers = programs;
        sections_headers = sections;
        sections_data = map (section_bytes content) sections;
      })
  unfolding load
  load-IsImage = rw (
    read_header,
    decoded,
    image.magic,
    load_programs,
    load_headers _,
    load_sections-in_file content sections [] _ image.sections_inside,
  )
