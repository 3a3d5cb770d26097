-- ===== src/Lib.antt =====
-- ZipMania, an archive manager: the parts of its Rust code that parse, check and name what an
-- archive holds, and that keep track of the jobs that work on it.
--
-- The program's own crates are crates/zipmania-archive, the archive engine, and src-tauri, the
-- window. The engine's backends read the containers; the backend unegg reads EGG and ALZ in code of
-- its own, and is modelled down to its bytes. What an archive says is not trusted: a parser may not
-- read past the end, and a name may not lead out of the output directory. The window starts one job
-- at a time and cancels it from other threads.
--
-- Prelude     lists, words of bytes and Boolean tests over native numbers
-- Errors      crates/zipmania-archive/src/error.rs: the codes, the result type, the classifications
-- Crc32       crates/zipmania-archive/src/crc32.rs: the table-driven checksum
-- Paths       crates/zipmania-archive/src/paths.rs: names of entries as relative paths
-- Unegg       crates/zipmania-archive/src/backend/unegg: reader.rs, crypto.rs, codec.rs, alz.rs,
--             egg.rs, times.rs, mod.rs (Items) and extract.rs (Extract)
-- Formats     crates/zipmania-archive/src/formats.rs: formats, extensions and free names
-- Backend     crates/zipmania-archive/src/backend/mod.rs: results, conflicts, the router
-- Volumes     crates/zipmania-archive/src/volumes.rs: the reader over split volumes
-- OutFile     crates/zipmania-archive/src/outfile.rs: the writer of volume sets
-- Jobs        src-tauri/src/jobs.rs: the job manager and the limit on progress events
-- CommandLine src-tauri/src/cmdline.rs: commands, options, arguments and the sizes of volumes
-- Tests       runs at concrete inputs
--
-- A function of the source has its name here, with the receiver as an argument and the changed
-- receiver in the result; a method that changes its receiver and can fail is a function into Result
-- of a pair. Paths, Unegg.Reader and Unegg.Alz follow the order of the source's statements by do
-- blocks. The manager's calls hold one lock each, so an interleaving of threads is a sequence of
-- calls (Jobs.Invariant.Steps).
--
-- Numbers are native; a sum that can leave its machine word is reduced by the word's size. A byte
-- is a number below 256 where a theorem says so. Loops are recursion on the list they walk; the
-- loop over the files of an ALZ volume recurses on the room that is left under the limit of a
-- million files, so it needs no other bound, and so do the loops over the files, the blocks and the
-- fields of an EGG volume, and the digits of a job's number are computed with
-- one more round than the number, which is enough since it falls by division. The loop that opens
-- volumes has no bound in the code: it is given a number of rounds, and any number above that of
-- the volumes is enough. So is the loop of the decompression, where the bytes of the input and
-- those that may come out bound the rounds.
--
-- Parameters stand for what the code calls and does not contain: what the operating system grants
-- of a read (Volumes.Whole.Grants says what is relied on), the files of a disk, whether it opens,
-- resizes and writes them, what a rename does (OutFile.Commit.Placed.Renames), the inflate engine of
-- miniz_oxide (Unegg.Codec.Inflate.Ends.Consumes) and the sink of the caller; the
-- decodings of names and the civil time of a second; the versions that the engines report; the links
-- of the file system as `canonicalize` resolves them, and the current directory.
--
-- Not modelled: the messages of errors; the decoding of names in old code pages, which are tables of a
-- library; the names and the making of temporary files, which are random; the walk over the inputs on
-- the disk (inputs.rs); the runs of the commands, which call the engine and print; the ZIP backend and
-- the COM calls of 7z.dll; the window, its settings and its calls of Windows; the translations, which
-- are texts; the front end.
pub mod Prelude
pub mod Errors
pub mod Crc32
pub mod CommandLine
pub mod Formats
pub mod Backend
pub mod OutFile
pub mod Jobs
pub mod Paths
pub mod Unegg
pub mod Volumes
pub mod Tests
