-- ===== src/Encoding.antt =====
-- encoding.go and the key helpers of label.go: big-endian integers, the keys and values of the
-- storage buckets, and the frames of properties and edges with their checksums.
pub mod Ints
pub mod Keys
pub mod Scan
pub mod Frames
mod Tests
