-- ===== src/Util.antt =====
-- be/util: MD5 digests in hexadecimal, deferred calls, and the download of a file with its checksum.
pub mod Md5
pub mod Download
mod Tests
