-- ===== src/Session.antt =====
-- Browser sessions (src/sessions.ts): issue, authentication, rotation and revocation.
pub mod Schema
pub mod Load
pub mod Membership
pub mod Lookup
pub mod Insert
pub mod Rotate
pub mod Issue
pub mod Revoke
pub mod Intents
pub mod Cookie
pub mod Browser
pub mod Routes
pub mod Family
pub mod Samples
