-- ===== src/Cpu.antt =====
-- The processor: kernel/src/arch/i386/cpu.
pub mod DescriptorTable
pub mod RealTimeClock
