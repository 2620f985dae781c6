-- ===== src/Tests/Files.antt =====
-- A file of 248 bytes, its headers and its functions.
use c_bdd.Base.{
  ℕ, ◌≡◌, refl, ap, some, List, [], ◌∷◌, ◌++◌, map, All, codes, length, get_elem?, arith, ok,
  undefined,
}
use c_bdd.Elf.{Phdr, Shdr}
use c_bdd.Elf.Layout.Encode.{encode_ehdr, encode_phdr, encode_shdr, FitsEhdr, FitsPhdr, FitsShdr}
use c_bdd.Elf.Stream.{stream_at}
use c_bdd.Elf.Load.{load, load_sections, is_elf_file}
use c_bdd.Elf.Load.Sections.{IsInFile, section_bytes, stale_sections, load_sections-past_end}
use c_bdd.Elf.Print.{print_program_headers}
use c_bdd.Readelf.{all_program_headers, print_program_headers-all}
use c_bdd.Elf.Load.Images.{IsImage, encode_all, load-IsImage}
use c_bdd.Elf.Sections.{
  get_section_header_indexes_by_type, get_sections_header_by_type, get_symbol_name,
}
use c_bdd.Elf.Sections.ByType.{Increasing, indexes-headers_by_type}
use c_bdd.Elf.Symbols.{get_functions_list, get_function_address}
use c_bdd.Elf.Symbols.Tables.{Table, AreTables, get_functions_list-all_functions}
use c_bdd.Elf.Symbols.Lookup.{get_function_address-undefined}
use c_bdd.Tests.Samples.{
  sample_header, symbols_header, strings_header, no_symbol, main_symbol, sample_file,
}

sample_header-Fits : FitsEhdr sample_header
sample_header-Fits = record {
  e_ident_length = refl;
  e_type_lt = omega arith;
  e_machine_lt = omega arith;
  e_version_lt = omega arith;
  e_entry_lt = omega arith;
  e_phoff_lt = omega arith;
  e_shoff_lt = omega arith;
  e_flags_lt = omega arith;
  e_ehsize_lt = omega arith;
  e_phentsize_lt = omega arith;
  e_phnum_lt = omega arith;
  e_shentsize_lt = omega arith;
  e_shnum_lt = omega arith;
  e_shstrndx_lt = omega arith;
}

abbrev sample_phdr : Phdr
sample_phdr = record {
  p_type = 1;
  p_flags = 5;
  p_offset = 0;
  p_vaddr = 0;
  p_paddr = 0;
  p_filesz = 248;
  p_memsz = 248;
  p_align = 4096;
}

abbrev sample_sections : List Shdr
sample_sections = symbols_header ∷ strings_header ∷ []

abbrev pub sample_content : List ℕ
sample_content =
    encode_ehdr sample_header
    ++ (encode_phdr sample_phdr ++ (encode_all encode_shdr sample_sections))

symbols_header-Fits : FitsShdr symbols_header
symbols_header-Fits = record {
  sh_name_lt = omega arith;
  sh_type_lt = omega arith;
  sh_flags_lt = omega arith;
  sh_addr_lt = omega arith;
  sh_offset_lt = omega arith;
  sh_size_lt = omega arith;
  sh_link_lt = omega arith;
  sh_info_lt = omega arith;
  sh_addralign_lt = omega arith;
  sh_entsize_lt = omega arith;
}

strings_header-Fits : FitsShdr strings_header
strings_header-Fits = record {
  sh_name_lt = omega arith;
  sh_type_lt = omega arith;
  sh_flags_lt = omega arith;
  sh_addr_lt = omega arith;
  sh_offset_lt = omega arith;
  sh_size_lt = omega arith;
  sh_link_lt = omega arith;
  sh_info_lt = omega arith;
  sh_addralign_lt = omega arith;
  sh_entsize_lt = omega arith;
}

sample_phdr-Fits : FitsPhdr sample_phdr
sample_phdr-Fits = record {
  p_type_lt = omega arith;
  p_flags_lt = omega arith;
  p_offset_lt = omega arith;
  p_vaddr_lt = omega arith;
  p_paddr_lt = omega arith;
  p_filesz_lt = omega arith;
  p_memsz_lt = omega arith;
  p_align_lt = omega arith;
}

length-sample_content : length sample_content ≡ 248
length-sample_content = refl

sample-inside : All (IsInFile sample_content) sample_sections
sample-inside = (
  (omega (arith, length-sample_content), omega arith, omega arith),
  ((omega (arith, length-sample_content), omega arith, omega arith), tt),
)

sample_content-IsImage : IsImage sample_content sample_header (sample_phdr ∷ []) sample_sections
unfolding is_elf_file
sample_content-IsImage = record {
  magic = refl;
  fits_header = sample_header-Fits;
  fits_programs = (sample_phdr-Fits, tt);
  fits_sections = (symbols_header-Fits, (strings_header-Fits, tt));
  after_header = encode_phdr sample_phdr ++ encode_all encode_shdr sample_sections;
  header_here = refl;
  after_programs = encode_all encode_shdr sample_sections;
  programs_here = refl;
  after_sections = [];
  sections_here = refl;
  programs_near = omega arith;
  sections_near = omega arith;
  program_size = refl;
  section_size = refl;
  program_count = refl;
  section_count = refl;
  sections_inside = sample-inside;
}

load-IsImage_example :
    load (some sample_content)
    ≡ ok (record {
      header = sample_header;
      program_headers = sample_phdr ∷ [];
      sections_headers = sample_sections;
      sections_data = map (section_bytes sample_content) sample_sections;
    })
load-IsImage_example = load-IsImage sample_content-IsImage

load_sections-past_end_example :
    (filled : List ℕ) × (load_sections
        (record strings_header { sh_offset = 2; sh_size = 32 }
          ∷ record strings_header { sh_offset = 0; sh_size = 4 }
          ∷ [])
        []
        (stream_at (1 ∷ 2 ∷ 3 ∷ 4 ∷ []) 0)
      ≡ filled ∷ stale_sections (record strings_header { sh_offset = 0; sh_size = 4 } ∷ []) filled)
load_sections-past_end_example =
    load_sections-past_end (1 ∷ 2 ∷ 3 ∷ 4 ∷ [])
      (record strings_header { sh_offset = 2; sh_size = 32 })
      (record strings_header { sh_offset = 0; sh_size = 4 } ∷ []) [] 0 (omega arith) (omega arith)
      (omega arith) (omega arith)

indexes-headers_by_type_example :
    Increasing 0 (get_section_header_indexes_by_type sample_file 3)
    × (map (get_elem? sample_sections) (get_section_header_indexes_by_type sample_file 3)
        ≡ map some (get_sections_header_by_type sample_file 3))
indexes-headers_by_type_example = indexes-headers_by_type sample_file 3

print_program_headers-all_example :
    print_program_headers (record sample_file { program_headers = sample_phdr ∷ [] })
    ≡ ok (all_program_headers 0 (sample_phdr ∷ []))
print_program_headers-all_example =
    print_program_headers-all (record sample_file { program_headers = sample_phdr ∷ [] })

abbrev sample_tables : List Table
sample_tables = (0, symbols_header, (no_symbol, []) ∷ (main_symbol, codes "main(int)") ∷ []) ∷ []

sample_file-AreTables : AreTables sample_file sample_tables
unfolding get_symbol_name
sample_file-AreTables = (
  record {
    header_at = refl;
    bytes_at = refl;
    entry_size = refl;
    size = refl;
    size_small = omega arith;
    named = (
      record {
        st_name_lt = omega arith;
        st_info_lt = omega arith;
        st_other_lt = omega arith;
        st_shndx_lt = omega arith;
        st_value_lt = omega arith;
        st_size_lt = omega arith;
      },
      refl,
      (
        record {
          st_name_lt = omega arith;
          st_info_lt = omega arith;
          st_other_lt = omega arith;
          st_shndx_lt = omega arith;
          st_value_lt = omega arith;
          st_size_lt = omega arith;
        },
        refl,
        tt,
      ),
    );
  },
  tt,
)

pub get_functions_list-sample : get_functions_list sample_file ≡ ok ((0x1000, codes "main") ∷ [])
unfolding get_section_header_indexes_by_type
get_functions_list-sample =
    get_functions_list-all_functions sample_file sample_tables refl sample_file-AreTables

get_functions_list-all_functions_example :
    get_functions_list sample_file ≡ ok ((0x1000, codes "main") ∷ [])
unfolding get_section_header_indexes_by_type
get_functions_list-all_functions_example =
    get_functions_list-all_functions sample_file sample_tables refl sample_file-AreTables

get_function_address-undefined_example :
    get_function_address sample_file (codes "start") ≡ undefined
get_function_address-undefined_example =
    get_function_address-undefined sample_file (codes "start") ((0x1000, codes "main") ∷ [])
      get_functions_list-sample ((λ h. omega (arith, ap length h)), tt)
