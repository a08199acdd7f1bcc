-- ===== src/Database/Accounts.antt =====
-- `resolveUser` of internal/bot/bot.go and the callback of internal/auth/oidc.go on the tables.
pub mod Rows
pub mod Resolution
pub mod Shared
