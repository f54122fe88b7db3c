-- ===== src/Text.antt =====
-- Text that the kernel takes apart: libsys/src/util and libsys/src/fs.
pub mod BasicString
pub mod StringStorage
pub mod StringTokenizer
pub mod Path
