-- ===== src/Invitation.antt =====
-- Invitations (src/convites.ts): issue, validation at the gate, revocation.
pub mod Schema
mod Sample
pub mod Token
pub mod Issue
pub mod Create
pub mod Revoke
pub mod Access
