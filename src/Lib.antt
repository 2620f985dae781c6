-- ===== src/Lib.antt =====
-- C_BDD is a debugger for Linux programs: it loads the ELF file of a program, runs the program in a
-- child process under ptrace, and sets breakpoints in it by address or by function name. This
-- library models the debugger's own process, and what its child does before it becomes the program.
--
-- The parts and where they are modelled:
--   Elf          class ElfFile (include/bdd_elf.hpp, lib/bdd_elf.cpp). Layout decodes the structures
--                of <elf.h>, Stream is `std::ifstream`, Load the constructor, Sections and Symbols
--                the searches (getSectionHeaderByType, getFunctionsList, getFunctionAddress, …),
--                Describe the texts of flags, section types, symbol types and bindings, and Print
--                the functions that print.
--   Breakpoint   class Breakpoint (include/bdd_ptrace.hpp, lib/bdd_ptrace_breakpoint.cpp):
--                `enable` and `disable`.
--   Program      class TracedProgram (include/bdd_ptrace.hpp): its members are the record Program,
--                and Machine adds the world outside and the trace of prints. Breakpoints holds the
--                operations of lib/bdd_ptrace_breakpoint.cpp and placeEveryPendingBreakpoints of
--                lib/bdd_signals.cpp, Control those of lib/bdd_ptrace.cpp, Show printBreakpointsMap,
--                Dump the calls of objdump and the arguments of the child, and Child initChild. Traps
--                is the view of the breakpoints as a set of addresses, over single operations
--                (Refinement, Stepping, Functions, Close, Off) and over whole sessions (Armed, Calls,
--                History, Whole). Names are those of the code in lower case: ptraceContinue is
--                `ptrace_continue`.
--   Status       the predicates on the status word and the texts of getSegfaultCodeAsString
--                (lib/bdd_signals.cpp).
--   Tracer       apps/tracer.cpp. Console reads words from the standard input, Usage holds the usage
--                table and its pages, Queries the commands that only show something, Breakpoints
--                `bp`, Elf `elf`, Session those that ask, start or end something, Loop the chain of
--                tests and the loop, and Main the function `main`. A Session is a Machine, the bytes
--                that are still to be read, and the flag `force_end`.
--   Unwind       lib/bdd_unwind.cpp, over libunwind as a record of operations on its cursors.
--   Readelf      apps/readelf.cpp.
--   Io           class ExclusiveIO (include/bdd_exclusive_io.hpp): prints as events under a mutex.
--                Processes is the debugger beside its child (initChild of lib/bdd_ptrace.cpp), as
--                steps of a system in which their events come in any order; in Attach the debugger
--                also stops the child, lets it go on and waits for it (attachPtrace and
--                ptraceContinue, at a breakpoint of the map and elsewhere); Program/Attaching ties these
--                actions to the operations. Shared is the file behind the mutex (lib/bdd_exclusive_io.cpp).
--   Text         numbers and rows as `printf` writes them.
--   AddressMap   `std::map<addr_t, Breakpoint>`, and Number the `strtoul` of addresses.
--   Os           the operating system: `ptrace`, `waitpid`, `kill`, `fork`, /proc and the shell, a
--                record of operations on a type of worlds, with the laws of the program's memory in TextMemory.
--   Base         shared names and lemmas. An Outcome is a value, an exception, a failed `assert`, or
--                undefined behaviour; Tests holds the theorems at concrete inputs.
--
-- A run goes through all parts: `run` forks and calls `init_bdd`, which attaches, reads the start
-- address, and places the breakpoints that were set before, each found by Elf and written by
-- Breakpoint. `ptrace_continue` and `ptrace_step` first step over a breakpoint that has been hit. The
-- command loop reads a line, finds the command of its first word, and calls these operations.
--
-- Bounds: words have 64 bits and addresses wrap; the sums that wrap have `% 2 ^ 64`, and the casts to
-- `int` and `unsigned` in lib/bdd_elf.cpp `% 2 ^ 32`. Decimal digits have a width of 10 for an `int`
-- and of 20 for a word, which hold 2 ^ 32 and 2 ^ 64. Three loops have fuel, since they may not end:
-- the attempts of `run` to fork, the frames of `backtrace`, and the rounds of the command loop; the
-- commands get one budget for the first two. `none` is a run out of fuel, and what is shown of the
-- loops holds for every fuel. The fuel of `read_output` is one more than the bytes there are, of which
-- each round but the last reads one.
--
-- Not modelled: what ptrace and execv do in the child (it is of the operating system here, with what
-- the debugger sees of it), how a child whose execv fails goes on beside the debugger, the waits for
-- the traced program as events of their own once the program runs, output that is compiled out
-- (debug_f, and the segfault data that showStatus fetches for it alone), the failure of `std::cin`
-- itself, and running out of memory.
mod Base
pub mod Os
pub mod Breakpoint
pub mod Elf
pub mod Status
pub mod Io
pub mod AddressMap
pub mod Program
pub mod Number
pub mod Text
pub mod Unwind
pub mod Tracer
pub mod Readelf
mod Tests
