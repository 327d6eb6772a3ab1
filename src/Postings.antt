-- ===== src/Postings.antt =====
-- pkg/postings/postings.go: the encoding of term positions. `Varint` has the two functions of
-- encoding/binary that it calls.
pub mod Varint
pub mod Positions
pub mod VarintRoundTrip
pub mod RoundTrip
pub mod Totality
mod Tests
