-- ===== src/Md5.antt =====
-- md5.hh and md5.cc: the digest of a file.
pub mod Transform
pub mod Ops
pub mod Encoding
pub mod Absorb
pub mod Stream
pub mod Count
pub mod Digest
pub mod Reads
