-- ===== src/PgCopy.antt =====
-- internal/db/postgres/pgcopy: values and rows in the text format of PostgreSQL's COPY.
pub mod Value
pub mod Encoder
pub mod Decoder
pub mod RoundTrip
pub mod Row
mod Tests
