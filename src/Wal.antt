-- ===== src/Wal.antt =====
-- wal/format.h, wal/writer.{h,cc}, wal/reader.{h,cc} and util/crc32c.h: entries of any size in a log of
-- fixed-size blocks.
pub mod Format
pub mod Writer
pub mod Reader
pub mod Entries
pub mod Ends
pub mod Parse
pub mod Place
pub mod Collect
pub mod Fragments
pub mod RoundTrip
pub mod Logs
pub mod Manager
