-- ===== src/Crypto.antt =====
-- crypto/: sealing of secrets between agent and control.
pub mod FieldContext
pub mod Aead
pub mod Seal
pub mod Tests
