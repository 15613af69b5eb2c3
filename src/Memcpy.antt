-- ===== src/Memcpy.antt =====
-- standalone/memcpy/client.c: the copy routines that are measured against memcpy.
pub mod Client
pub mod Cursor
pub mod Chunks
pub mod Avx2
pub mod Tuned
pub mod Blocks
pub mod Examples
