-- ===== src/Io/Shared.antt =====
-- The mutex that the debugger shares with its child: lib/bdd_exclusive_io.cpp.
pub mod Files
pub mod Opening
pub mod Isolation
use c_bdd.Base.{
  ℕ, Bool, Option, none, some, List, codes, ◌==◌, not, if◌then◌else◌, Outcome, ok, throws,
  undefined, bad_mutex,
}

-- The calls on the file and on the mutex: `unlink`, `open` (the descriptor, or `none` for -1),
-- `ftruncate`, `mmap` (the address, or `none` for MAP_FAILED), `munmap`, `pthread_mutexattr_init`,
-- `pthread_mutexattr_setpshared` and `pthread_mutex_init`, which return 0 for success.
pub record SharedCalls (W : Type 0) : Type 0 where
  pub unlink : (name : List ℕ) → W → W
  pub open_file : (name : List ℕ) → W → Option ℕ × W
  pub truncate : (file : Option ℕ) (size : ℕ) → W → W
  pub map_file : (file : Option ℕ) (size : ℕ) → W → Option ℕ × W
  pub unmap : (address : Option ℕ) (size : ℕ) → W → W
  pub init_attribute : W → ℕ × W
  pub share_attribute : W → ℕ × W
  pub init_mutex : (address : ℕ) → W → ℕ × W

-- EXCLUSIVE_IO_MMAP_NAME
abbrev pub mmap_name : List ℕ
mmap_name = codes "/tmp/mmap_bdd_stdoutmutex"

-- The size of `pthread_mutex_t`.
abbrev pub mutex_size : ℕ
mutex_size = 40

-- The static members.
pub record Shared : Type 0 where
  pub parent_pid : ℕ
  pub synchronisation_map : Option ℕ

module _ {W : Type 0} (calls : SharedCalls W) where
  -- What `mmapExclusionStructure` does behind its `unlink`.
  unfoldable pub open_structure : Shared → W → Shared × W
  open_structure shared w =
      let (file, opened) = calls.open_file mmap_name w in
      let (address, mapped) =
        calls.map_file file mutex_size (calls.truncate file mutex_size opened) in
      (record shared { synchronisation_map = address }, mapped)

  unfoldable pub mmap_exclusion_structure : Shared → W → Shared × W
  unfolding open_structure
  mmap_exclusion_structure shared w = open_structure shared (calls.unlink mmap_name w)

  -- `pthread_mutex_init` of the member at the mapped address, which may be MAP_FAILED.
  unfoldable pub init_print_mutex : Shared → W → Outcome (Shared × W)
  init_print_mutex shared w = elim shared.synchronisation_map [
    | none ↦ undefined
    | some address ↦
        let (failed, w') = calls.init_mutex address w in
        if not (failed == 0) then throws bad_mutex else ok (shared, w')
  ]

  unfoldable pub initialize : (parent_pid : ℕ) → Shared → W → Outcome (Shared × W)
  unfolding mmap_exclusion_structure init_print_mutex
  initialize parent_pid shared w =
      let (mapped, w1) = mmap_exclusion_structure (record shared { parent_pid = parent_pid }) w in
      let (attribute, w2) = calls.init_attribute w1 in
      if not (attribute == 0)
      then throws bad_mutex
      else (let (share, w3) = calls.share_attribute w2 in
          if not (share == 0) then throws bad_mutex else init_print_mutex mapped w3)

  -- `terminate`: each print has been flushed where it was made.
  unfoldable pub terminate : Shared → W → W
  terminate shared w = calls.unmap shared.synchronisation_map mutex_size w
