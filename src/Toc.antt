-- ===== src/Toc.antt =====
-- internal/db/postgres/toc: the table of contents of a dump (toc.dat), read and written.
pub mod Version
pub mod Types
pub mod Encoding
pub mod Reader
pub mod Writer
pub mod Persisted
pub mod RoundTrip
mod Tests
