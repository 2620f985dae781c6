-- ===== src/Tracer.antt =====
-- apps/tracer.cpp: the console, the commands and the loop that reads them.
pub mod Console
pub mod Usage
pub mod Queries
pub mod Breakpoints
pub mod Elf
pub mod Session
pub mod Loop
pub mod Commands
pub mod Good
pub mod Main
