-- ===== src/Fs.antt =====
-- The ISO 9660 file system of the kernel: kernel/src/fs/iso9660.

pub mod IsoRecord
pub mod IsoFileStream
pub mod IsoDirectory
pub mod IsoVolume
