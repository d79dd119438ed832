-- ===== src/MsgrV2.antt =====
-- kernel-modules/src/libceph/messenger_v2.c: the layout of frames. An int is its 32-bit pattern. The
-- checksum crc32c of the kernel is the parameter `crc32c`, with its seed and the bytes.
pub mod Frame
pub mod OnWire
pub mod Scatter
pub mod Plain
pub mod Control
mod Tests
