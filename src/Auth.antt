-- ===== src/Auth.antt =====
-- ms-auth: users, roles, clients, tokens and their sessions.
pub mod Types
pub mod Names
pub mod Sessions
pub mod Tokens
pub mod Rotation
pub mod Users
pub mod Admin
pub mod Accounts
pub mod Clients
pub mod Login
