-- ===== src/Proc.antt =====
-- Processes: kernel/include/proc and kernel/src/proc.
pub mod Scheduler
pub mod Elf
