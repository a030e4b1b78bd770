-- ===== src/Auth.antt =====
-- internal/auth: the shape of the credentials, and the management tokens.
pub mod KeyText
pub mod Scopes
pub mod Tokens
mod Examples
