-- ===== src/Memory.antt =====
-- Memory management: src/memmgnt.c.
pub mod Bytes
pub mod Words
pub mod Immortal
pub mod Pages
