-- ===== src/Tests/Samples.antt =====
-- What the tests share: a small operating system with one traced process, an ELF file with one
-- function, and the debugger before and during a run.
use c_bdd.Base.{
  ℕ, zero, suc, ◌+◌, ◌-◌, ◌/◌, ◌%◌, ◌≡◌, refl, true, none, some, [], ◌∷◌, ◌++◌, codes, arith, ltb,
  if◌then◌else◌, replicate,
}
use c_bdd.Os.{Os, Fork, forked, fork_failed, TextMemory, byte_of, gather, overwrite}
use c_bdd.Io.Shared.{SharedCalls}
use c_bdd.Elf.{Ehdr, Shdr, Sym, ElfFile}
use c_bdd.Elf.Layout.Encode.{encode_sym}
use c_bdd.Breakpoint.{Breakpoint, new_breakpoint}
use c_bdd.Program.{Program, Machine, new_program}

-- One process: its memory, its instruction pointer, and how many forks fail before one works.
pub record World : Type 0 where
  pub memory : ℕ → ℕ
  pub ip : ℕ
  pub failures : ℕ

byte_of_lt : (i v : ℕ) → byte_of i v % 256 ≡ byte_of i v
byte_of_lt zero v = omega arith
byte_of_lt (suc i) v = byte_of_lt i (v / 256)

pub overwrite_byte :
    (f : ℕ → ℕ) (a v b : ℕ) → overwrite f a v b % 256 ≡ overwrite (λ c. f c % 256) a v b
unfolding overwrite
overwrite_byte f a v b = ground (arith, byte_of_lt (b - a) v)

abbrev fork_sample : World → Fork × World
fork_sample w =
    if ltb 0 w.failures
    then (fork_failed true, record w { failures = w.failures - 1 })
    else (forked 7, w)

abbrev pub sample_os : Os World
sample_os = record {
  peek_text = λ pid a w. gather 8 (λ b. w.memory b % 256) a;
  poke_text = λ pid a v w. (true, record w { memory = overwrite w.memory a v });
  peek_ip = λ pid w. w.ip;
  poke_ip = λ pid value w. record w { ip = value };
  single_step = λ pid w. record w { ip = w.ip + 1 };
  resume = λ pid w. record w { ip = w.ip + 16 };
  attach = λ pid w. w;
  detach = λ pid w. w;
  set_options = λ pid w. w;
  wait = λ pid w. (some 0x057F, w);
  kill = λ pid signal w. w;
  sleep = λ microseconds w. w;
  fork = fork_sample;
  maps_line = λ pid w. some (codes "400000-401000 r-xp");
  siginfo = λ pid w. some (11, 1, 0);
  registers = λ pid w. none;
  shell = λ command w. some (codes "nop");
}

-- The calls on the shared mutex, all of which succeed.
abbrev pub sample_calls : SharedCalls World
sample_calls = record {
  unlink = λ name w. w;
  open_file = λ name w. (some 3, w);
  truncate = λ file size w. w;
  map_file = λ file size w. (some 0x7000, w);
  unmap = λ address size w. w;
  init_attribute = λ w. (0, w);
  share_attribute = λ w. (0, w);
  init_mutex = λ address w. (0, w);
}

abbrev pub sample_memory : TextMemory sample_os
sample_memory = record {
  byte = λ pid w a. w.memory a % 256;
  byte_lt = λ pid w a. omega arith;
  peeked = λ pid a w. refl;
  poked = λ pid a v w h b. overwrite_byte w.memory a v b;
}

abbrev pub sample_world : World
sample_world = record { memory = λ a. a + 3; ip = 0x401001; failures = 1 }

abbrev pub sample_breakpoint : Breakpoint
sample_breakpoint = new_breakpoint 7 0x401000 (codes "main")

abbrev pub sample_header : Ehdr
sample_header = record {
  e_ident = 0x7F ∷ codes "ELF" ++ replicate 12 0;
  e_type = 2;
  e_machine = 62;
  e_version = 1;
  e_entry = 0x1000;
  e_phoff = 64;
  e_shoff = 120;
  e_flags = 0;
  e_ehsize = 64;
  e_phentsize = 56;
  e_phnum = 1;
  e_shentsize = 64;
  e_shnum = 2;
  e_shstrndx = 1;
}

-- The section of the symbols: their names are in section 1.
abbrev pub symbols_header : Shdr
symbols_header = record {
  sh_name = 0;
  sh_type = 2;
  sh_flags = 0;
  sh_addr = 0;
  sh_offset = 0;
  sh_size = 48;
  sh_link = 1;
  sh_info = 0;
  sh_addralign = 8;
  sh_entsize = 24;
}

abbrev pub strings_header : Shdr
strings_header = record {
  sh_name = 0;
  sh_type = 3;
  sh_flags = 0;
  sh_addr = 0;
  sh_offset = 48;
  sh_size = 11;
  sh_link = 0;
  sh_info = 0;
  sh_addralign = 1;
  sh_entsize = 0;
}

abbrev pub no_symbol : Sym
no_symbol = record {
  st_name = 0;
  st_info = 0;
  st_other = 0;
  st_shndx = 0;
  st_value = 0;
  st_size = 0;
}

abbrev pub main_symbol : Sym
main_symbol = record {
  st_name = 1;
  st_info = 18;
  st_other = 0;
  st_shndx = 1;
  st_value = 0x1000;
  st_size = 32;
}

-- A file with a symbol without a name and the function `main(int)`.
abbrev pub sample_file : ElfFile
sample_file = record {
  header = sample_header;
  program_headers = [];
  sections_headers = symbols_header ∷ strings_header ∷ [];
  sections_data =
      (encode_sym no_symbol ++ encode_sym main_symbol) ∷ (0 ∷ codes "main(int)" ++ 0 ∷ []) ∷ [];
}

-- Before the first run.
abbrev pub fresh_machine : Machine World
fresh_machine = record {
  program = new_program (codes "a.out") sample_file;
  world = sample_world;
  trace = [];
}

-- Stopped by a trap during a run, with a breakpoint in place.
abbrev pub running_program : Program
running_program = record {
  ram_start_address = 0x400000;
  elf_file_path = codes "a.out";
  elf_file = sample_file;
  traced_pid = 7;
  cached_status = 0x057F;
  breakpoints_map =
      (0x401000, record sample_breakpoint { enabled = true; original = 0x0706050403020100 }) ∷ [];
  pending_breakpoints = [];
}

abbrev pub running_machine : Machine World
running_machine = record { program = running_program; world = sample_world; trace = [] }
