-- ===== src/Index.antt =====
-- src/index: the keys of the indexes and the codec of property values.
pub mod Key
pub mod ValueCodec
pub mod Property
pub mod Prefix
mod Examples
