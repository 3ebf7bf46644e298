-- ===== src/EasyFs.antt =====
-- easy-fs: the block cache, the bitmaps and the layout of the disk.
pub mod Cache
pub mod Entry
pub mod Areas
pub mod Layout
pub mod Bitmap
