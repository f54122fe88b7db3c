-- ===== src/Mem.antt =====
-- Memory of the kernel: kernel/include/mem, kernel/src/arch/i386/mem.
pub mod Frames
pub mod PageEntry
pub mod Mmu
