-- ===== src/Libc.antt =====
-- The kernel's C library: libc/src.
pub mod Ctype
pub mod Itoa
pub mod Memset
pub mod Strings
pub mod Strtok
