-- ===== src/Tests.antt =====
-- Runs of the modelled code, and the theorems at concrete inputs.
mod Checksum
mod Cipher
mod Alz
mod Jobs
mod Paths
mod Volumes
mod Codec
mod CommandLine
mod Egg
mod Items
mod Backend
mod Formats
mod OutFile
mod Extract
mod Commit
