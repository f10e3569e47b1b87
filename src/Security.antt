-- ===== src/Security.antt =====
-- pkg/security/access_control.go: the nonce manager in `Nonces`, the IP whitelist and API keys in
-- `Access`.
pub mod Nonces
pub mod Access
pub mod Encryption
