-- ===== src/Smb1.antt =====
-- internal/smb1: the SMB1 message format.
pub mod Header
pub mod Packet
pub mod Trans2
pub mod FileInfo
pub mod Values
pub mod Directory
pub mod FileOps
