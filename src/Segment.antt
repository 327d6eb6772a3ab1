-- ===== src/Segment.antt =====
-- pkg/segment: the files of a segment. `Footer` is format.go, `Hotcache` hotcache.go, `Accumulator` and
-- `Build` are writer.go, `Reader` is reader.go.
pub mod Footer
pub mod Hotcache
mod HotcacheRoundTrip
pub mod Accumulator
pub mod Build
mod Placed
pub mod Reader
mod Found
pub mod Ranges
mod FieldInput
mod Inputs
mod Served
pub mod Plain
mod ServedTests
mod Tests
