-- ===== src/Storage.antt =====
-- src/storage: the slotted page and the allocation bitmap.
pub mod Page
pub mod Bitmap
mod Examples
