-- ===== src/Reads.antt =====
-- Reading the archive page by page: src/application/reads.ts.
pub mod Requests
pub mod Cursors
pub mod Codec
pub mod Authentic
pub mod Plain
pub mod RoundTrip
pub mod Pages
pub mod Walk
pub mod Keyset
pub mod Rows
pub mod Services
pub mod Events
pub mod Messages
pub mod Search
mod Tests
