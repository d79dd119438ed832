-- ===== src/Striper.antt =====
-- kernel-modules/src/libceph/striper.c: the mapping between file extents and object extents.
pub mod Layout
pub mod Extents
pub mod FileExtents
pub mod Objects
mod Tests
