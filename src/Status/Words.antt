-- ===== src/Status/Words.antt =====
-- The predicates against the states of a process that a status word stands for.
use c_bdd.Base.{
  ℕ, ◌+◌, ◌*◌, ◌^◌, ◌<◌, ◌≤◌, ◌≡◌, Bool, true, false, ◌&&◌, arith, ◌==◌, if◌then◌else◌,
}
use c_bdd.Status.{
  sigsegv, sigtrap, ptrace_event_exit, is_dead, is_alive, is_stopped, is_segfault, is_trapped,
  is_exiting,
}

-- What `waitpid` tells of a child, as the Linux manual pages list it.
pub data ChildState : Type 0 where
  exited : (code : ℕ) → ChildState
  killed : (signal : ℕ) (core_dumped : Bool) → ChildState
  stopped : (signal event : ℕ) → ChildState

-- The status word of a state.
abbrev pub status_word : ChildState → ℕ
status_word (exited code) = code * 2 ^ 8
status_word (killed signal core_dumped) = signal + (if core_dumped then 2 ^ 7 else 0)
status_word (stopped signal event) = 0x7F + signal * 2 ^ 8 + event * 2 ^ 16

-- The ranges of the numbers in it.
abbrev pub IsState : ChildState → Type 0
IsState (exited code) = code < 2 ^ 8
IsState (killed signal core_dumped) = (1 ≤ signal) × (signal < 0x7F)
IsState (stopped signal event) = (signal < 2 ^ 8) × (event < 2 ^ 15)

-- What each predicate is to say of a state.
abbrev pub has_stopped_by : ℕ → ChildState → Bool
has_stopped_by wanted (exited code) = false
has_stopped_by wanted (killed signal core_dumped) = false
has_stopped_by wanted (stopped signal event) = signal == wanted

abbrev pub has_exited : ChildState → Bool
has_exited (exited code) = true
has_exited _ = false

abbrev pub has_stopped : ChildState → Bool
has_stopped (stopped signal event) = true
has_stopped _ = false

abbrev pub is_at_exit : ChildState → Bool
is_at_exit (stopped signal event) = signal == sigtrap && event == ptrace_event_exit
is_at_exit _ = false

-- On the status word of any state, `isDead` says whether the process exited, `isStopped` whether it
-- stopped, `isSegfault` and `isTrapped` whether it stopped by that signal, and `isExiting` whether
-- it stopped by a trap with the exit event.
pub status_word_predicates :
    (s : ChildState)
    → IsState s
    → (is_dead (status_word s) ≡ has_exited s)
      × (is_stopped (status_word s) ≡ has_stopped s)
      × (is_segfault (status_word s) ≡ has_stopped_by sigsegv s)
      × (is_trapped (status_word s) ≡ has_stopped_by sigtrap s)
      × (is_exiting (status_word s) ≡ is_at_exit s)
unfolding is_dead is_segfault is_exiting
status_word_predicates (exited code) h = ground arith
status_word_predicates (killed signal core_dumped) h = ground arith
status_word_predicates (stopped signal event) h = ground arith

-- A process that a signal killed, SIGKILL among them, counts as alive, and as neither stopped nor
-- exiting.
pub killed-is_alive :
    (signal : ℕ) (core_dumped : Bool)
    → IsState (killed signal core_dumped)
    → let status = status_word (killed signal core_dumped) in
      (is_alive status ≡ true) × (is_stopped status ≡ false) × (is_exiting status ≡ false)
unfolding is_alive is_exiting
killed-is_alive signal core_dumped h = ground arith
