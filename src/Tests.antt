-- ===== src/Tests.antt =====
-- The theorems at concrete inputs: a small operating system with one traced process (Machines,
-- Traps), small ELF files (Files), values for the parts that need neither (Values), and the
-- debugger with a user (Sessions).
mod Samples
mod Machines
mod Traps
mod Files
mod Values
mod Processes
mod Sessions
