-- ===== src/Auth.antt =====
-- Signing up and in: tokens, passwords, mails, the guards of a request.
pub mod Redis
pub mod Tokens
pub mod Cache
pub mod Sessions
pub mod Memory
pub mod Hash
pub mod Mail
pub mod Server
pub mod Service
pub mod Accounts
pub mod SigningIn
pub mod Verifying
pub mod Verified
pub mod Registering
