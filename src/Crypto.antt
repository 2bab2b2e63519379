-- ===== src/Crypto.antt =====
-- kernel/src/crypto: the arithmetic of signature checks.
pub mod Bigint
