-- ===== src/Elf/Load.antt =====
-- The constructor ElfFile::ElfFile of lib/bdd_elf.cpp, with `isElfFile`. The argument is what the
-- path names: the bytes of a file, or `none` where it cannot be opened. The checks for null pointers
-- are left out, since `data()` of a string is never null, and so is a failure to get memory.
pub mod Sections
pub mod Images
use c_bdd.Base.{
  ℕ, zero, suc, ◌+◌, ◌*◌, ◌^◌, Bool, true, false, ◌&&◌, Option, none, some, List, [], ◌∷◌, length,
  take, drop, replicate, get_or, leb, ltb, ◌==◌, if◌then◌else◌, Outcome, ok, throws, undefined,
  ◌>>=◌, ◌>>◌, bad_input, not_an_elf_file,
}
use c_bdd.Elf.{Ehdr, Phdr, Shdr, ElfFile}
use c_bdd.Elf.Layout.{decode_ehdr, decode_phdr, decode_shdr, ehdr_size, phdr_size, shdr_size}
use c_bdd.Elf.Stream.{Stream, open_stream, seekg, read, resize}

unfoldable pub is_elf_file : Ehdr → Bool
is_elf_file header =
    get_or header.e_ident 0 0 == 0x7F
    && get_or header.e_ident 1 0 == b'E'
    && get_or header.e_ident 2 0 == b'L'
    && get_or header.e_ident 3 0 == b'F'

-- `std::vector<T>((T *) data, (T *) data + count)`: undefined where it leaves the buffer.
unfoldable pub read_table {ℓ} :
    {A : Type ℓ} (size : ℕ) (decode : List ℕ → A) (count : ℕ) → List ℕ → Outcome (List A)
read_table size decode zero bytes = ok []
read_table size decode (suc count) bytes =
    let rest = read_table size decode count (drop size bytes) in
    if leb size (length bytes) then (do entries ← rest; ok (decode bytes ∷ entries)) else undefined

-- The two regions that read a header table. The product of the two 16-bit fields is an `int`.
unfoldable pub load_table {ℓ} :
    {A : Type ℓ} (size : ℕ) (decode : List ℕ → A) (entry_size count offset : ℕ)
    → Stream
    → Outcome (List A × Stream)
load_table size decode entry_size count offset s =
    if leb (2 ^ 31) (entry_size * count) then undefined else do
      let (bytes, s') = read (replicate (entry_size * count) 0) (seekg offset s)
      entries ← read_table size decode count bytes
      ok (entries, s')

-- The last region: one buffer serves every section.
unfoldable pub load_sections : List Shdr → (buffer : List ℕ) → Stream → List (List ℕ)
load_sections [] buffer s = []
load_sections (header ∷ headers) buffer s =
    let (filled, s') = read (resize header.sh_size buffer) (seekg header.sh_offset s) in
    filled ∷ load_sections headers filled s'

-- The regions behind the check of the header.
unfoldable pub load_rest : Ehdr → Stream → Outcome ElfFile
load_rest header s = do
  (program_headers, s) ←
      load_table phdr_size decode_phdr header.e_phentsize header.e_phnum header.e_phoff s
  (sections_headers, s) ←
      load_table shdr_size decode_shdr header.e_shentsize header.e_shnum header.e_shoff s
  ok (record {
    header = header;
    program_headers = program_headers;
    sections_headers = sections_headers;
    sections_data = load_sections sections_headers [] s;
  })

unfoldable pub load : Option (List ℕ) → Outcome ElfFile
unfolding load_rest
load none = throws bad_input
load (some content) =
    let (header_data, s) = read (replicate ehdr_size 0) (open_stream content) in
    let header = decode_ehdr header_data in
    if is_elf_file header then load_rest header s else throws not_an_elf_file
