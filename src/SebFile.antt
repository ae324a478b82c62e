-- ===== src/SebFile.antt =====
-- exam-env/proto/src/seb_file.rs: `.seb` settings, the Config Key and the binary container.
pub mod Values
pub mod Hex
pub mod Json
pub mod Settings
pub mod Keys
pub mod Container
