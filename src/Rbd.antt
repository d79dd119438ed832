-- ===== src/Rbd.antt =====
-- kernel-modules/src/rbd/rbd.c: the requests of the block device. A result is 0 or more, or the
-- negative number of an error.
pub mod Pending
pub mod Extents
pub mod Read
pub mod ObjectMap
pub mod Copyup
pub mod Write
pub mod Lock
pub mod Image
mod Tests
