-- ===== src/Console.antt =====
-- The console of src/console.c.
pub mod Printf
pub mod Vga
pub mod Ansi
pub mod Flush
pub mod Print
pub mod Setup
