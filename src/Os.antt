-- ===== src/Os.antt =====
-- What the debugger asks of the operating system: `ptrace`, `waitpid`, `kill`, `fork`, `usleep`,
-- the first line of `/proc/<pid>/maps` and the output of a shell command. None of it is in the
-- repository, so it is a parameter: a type of worlds with these operations, and the documented
-- behaviour of the calls as separate laws.
use c_bdd.Base.{
  ℕ, zero, suc, ◌+◌, ◌-◌, ◌*◌, ◌/◌, ◌%◌, ◌<◌, ◌≡◌, refl, ◌⊎◌, inl, inr, Bool, true, false, ◌&&◌,
  Option, List, ltb, leb, if◌then◌else◌,
}

-- What `fork` returns in the debugger: -1 with or without `errno == EAGAIN`, or the child's pid.
pub data Fork : Type 0 where
  fork_failed : (again : Bool) → Fork
  forked : (pid : ℕ) → Fork

pub Fork-cases :
    (f : Fork) → ((pid : ℕ) × (f ≡ forked pid)) ⊎ (f ≡ fork_failed true) ⊎ (f ≡ fork_failed false)
Fork-cases (forked pid) = inl (pid, refl)
Fork-cases (fork_failed true) = inr (inl refl)
Fork-cases (fork_failed false) = inr (inr refl)

-- The registers of `user_regs_struct` that the debugger shows.
pub record Registers : Type 0 where
  pub rsi : ℕ
  pub rdi : ℕ
  pub rip : ℕ
  pub rax : ℕ
  pub rbx : ℕ
  pub rcx : ℕ
  pub rdx : ℕ
  pub r8 : ℕ
  pub r9 : ℕ
  pub r10 : ℕ
  pub r11 : ℕ
  pub r12 : ℕ
  pub r13 : ℕ
  pub r14 : ℕ
  pub r15 : ℕ

pub record Os (W : Type 0) : Type 0 where
  pub peek_text : (pid address : ℕ) → W → ℕ
  -- `false` when the call returns -1
  pub poke_text : (pid address word : ℕ) → W → Bool × W
  -- the instruction pointer, read and written through `PTRACE_PEEKUSER` and `PTRACE_POKEUSER`
  pub peek_ip : (pid : ℕ) → W → ℕ
  pub poke_ip : (pid value : ℕ) → W → W
  pub single_step : (pid : ℕ) → W → W
  pub resume : (pid : ℕ) → W → W
  pub attach : (pid : ℕ) → W → W
  pub detach : (pid : ℕ) → W → W
  pub set_options : (pid : ℕ) → W → W
  -- `waitpid`, with the status word if it wrote one
  pub wait : (pid : ℕ) → W → Option ℕ × W
  pub kill : (pid signal : ℕ) → W → W
  pub sleep : (microseconds : ℕ) → W → W
  pub fork : W → Fork × W
  -- `none` if the file cannot be opened
  pub maps_line : (pid : ℕ) → W → Option (List ℕ)
  -- PTRACE_GETSIGINFO: the signal, its code and its address, or `none` where the call fails
  pub siginfo : (pid : ℕ) → W → Option (ℕ × ℕ × ℕ)
  -- PTRACE_GETREGS
  pub registers : (pid : ℕ) → W → Option Registers
  -- what a shell command writes, or `none` where the pipe cannot be opened
  pub shell : (command : List ℕ) → W → Option (List ℕ)

-- Byte `i` of a word.
abbrev pub byte_of : ℕ → ℕ → ℕ
byte_of zero v = v % 256
byte_of (suc i) v = byte_of i (v / 256)

-- The little-endian number in `n` bytes of a memory from address `a`.
unfoldable pub gather : ℕ → (ℕ → ℕ) → ℕ → ℕ
gather zero f a = 0
gather (suc n) f a = f a + 256 * gather n f (a + 1)

-- A memory after the word `v` was written at `a`.
unfoldable pub overwrite : (ℕ → ℕ) → ℕ → ℕ → ℕ → ℕ
overwrite f a v b = if leb a b && ltb b (a + 8) then byte_of (b - a) v else f b

-- The text of a traced process is a memory of bytes, which `PTRACE_PEEKTEXT` and
-- `PTRACE_POKETEXT` read and write in little-endian words of eight.
pub record TextMemory {W : Type 0} (os : Os W) : Type 0 where
  pub byte : (pid : ℕ) → W → ℕ → ℕ
  pub byte_lt : (pid : ℕ) (w : W) (a : ℕ) → byte pid w a < 256
  pub peeked : (pid a : ℕ) (w : W) → os.peek_text pid a w ≡ gather 8 (byte pid w) a
  pub poked :
      (pid a v : ℕ) (w : W)
      → (os.poke_text pid a v w).0 ≡ true
      → (b : ℕ) → byte pid (os.poke_text pid a v w).1 b ≡ overwrite (byte pid w) a v b
