-- ===== src/Psql.antt =====
-- cmd/psql: the PostgreSQL pot.
pub mod Words
pub mod ReadBuf
pub mod WriteBuf
pub mod RoundTrip
pub mod Bounds
pub mod Handler
mod Tests
