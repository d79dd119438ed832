-- ===== src/Crush.antt =====
-- kernel-modules/src/libceph/crush: the placement of objects on devices.
pub mod Outcome
pub mod Hash
pub mod LnTables
pub mod Ln
pub mod Map
pub mod Bucket
pub mod Fits
pub mod Firstn
pub mod Indep
pub mod Rule
mod Tests
