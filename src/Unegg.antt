-- ===== src/Unegg.antt =====
-- crates/zipmania-archive/src/backend/unegg: the backend for the EGG and ALZ formats.
pub mod Crypto
pub mod Codec
pub mod Reader
pub mod Alz
pub mod Egg
pub mod Times
pub mod Items
pub mod Extract
