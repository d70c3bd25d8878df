-- ===== src/Restore.antt =====
-- src/lcsas/restore: the readers in pure Python that a restore falls back on.
pub mod Aes
pub mod Crypt
pub mod Keys
pub mod Repo
pub mod Zstd
