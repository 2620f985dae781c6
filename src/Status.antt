-- ===== src/Status.antt =====
-- The predicates of lib/bdd_signals.cpp on the cached status word of `waitpid`. The macros WIFEXITED,
-- WIFSTOPPED and WSTOPSIG are those of <sys/wait.h> on Linux, their masks written as remainders and
-- quotients by powers of 2.
pub mod Words
pub mod Segfaults
use c_bdd.Base.{ℕ, ◌/◌, ◌%◌, ◌^◌, Bool, false, not, ◌==◌, if◌then◌else◌}

abbrev pub sigint : ℕ
sigint = 2

abbrev pub sigtrap : ℕ
sigtrap = 5

abbrev pub sigkill : ℕ
sigkill = 9

abbrev pub sigsegv : ℕ
sigsegv = 11

abbrev pub ptrace_event_exit : ℕ
ptrace_event_exit = 6

-- `(status & 0x7f) == 0`.
abbrev pub wifexited : ℕ → Bool
wifexited status = status % 2 ^ 7 == 0

-- `(status & 0xff) == 0x7f`.
abbrev pub wifstopped : ℕ → Bool
wifstopped status = status % 2 ^ 8 == 0x7F

-- `(status & 0xff00) >> 8`.
abbrev pub wstopsig : ℕ → ℕ
wstopsig status = status / 2 ^ 8 % 2 ^ 8

unfoldable pub is_dead : (cached_status : ℕ) → Bool
is_dead cached_status = wifexited cached_status

unfoldable pub is_alive : (cached_status : ℕ) → Bool
unfolding is_dead
is_alive cached_status = not (is_dead cached_status)

unfoldable pub is_stopped : (cached_status : ℕ) → Bool
is_stopped cached_status = wifstopped cached_status

unfoldable pub is_segfault : (cached_status : ℕ) → Bool
unfolding is_stopped
is_segfault cached_status =
    if not (is_stopped cached_status) then false else wstopsig cached_status == sigsegv

unfoldable pub is_trapped : (cached_status : ℕ) → Bool
unfolding is_stopped
is_trapped cached_status =
    if not (is_stopped cached_status) then false else wstopsig cached_status == sigtrap

unfoldable pub is_exiting : (cached_status : ℕ) → Bool
unfolding is_trapped
is_exiting cached_status =
    if not (is_trapped cached_status)
    then false
    else cached_status / 2 ^ 16 % 2 ^ 16 == ptrace_event_exit
