-- ===== src/Wal.antt =====
-- wal.go and wal_entry.go: the write-ahead log. The file system is a directory of segments in
-- ascending order, each with its bytes; the names of the files are not modelled.
pub mod Frame
pub mod Log
pub mod Reading
pub mod Scanning
pub mod Recovery
pub mod Pruning
pub mod Reader
pub mod Tailing
pub mod Draining
mod Tests
