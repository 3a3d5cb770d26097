-- ===== src/CommandLine.antt =====
-- src-tauri/src/cmdline.rs: the command line of the archiver.
pub mod Sizes
pub mod Options
pub mod Args
