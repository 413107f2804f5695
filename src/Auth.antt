-- ===== src/Auth.antt =====
-- The accounts and their tokens.
pub mod AuthService
