-- ===== src/Compactor.antt =====
-- pkg/index/compactor.go: `Garbage` is the deletion of segment files that no manifest uses, `Mark` the new
-- lists of segments that a merge, a merge without documents and a delete by query publish, and `Pick` the
-- choice of the segments of a merge. `Kept`, `Replaced` and `Candidates` are about the three.
pub mod Garbage
pub mod Mark
pub mod Pick
mod Kept
mod Replaced
mod Tiers
mod Smallest
mod Candidates
mod Tests
