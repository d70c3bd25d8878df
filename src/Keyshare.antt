-- ===== src/Keyshare.antt =====
-- src/lcsas/keyshare: the SLIP-0039 splitting of a repository password into share cards.
pub mod Errors
pub mod Codec
pub mod Feistel
pub mod Radix
pub mod Rs1024
pub mod Share
pub mod Gf256
pub mod Shamir
pub mod Words
pub mod Group
pub mod Combine
pub mod Generate
