-- ===== src/Io.antt =====
-- Streams of bytes and the reader of files: the parts of libsys that stand between the file system
-- and the loader of programs.
pub mod InputStream
pub mod FileReader
