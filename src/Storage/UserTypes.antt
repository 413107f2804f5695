-- ===== src/Storage/UserTypes.antt =====
-- include/storage/types/UserTypes.h and include/storage/UserSessionRepo.h: what is stored of an
-- account and of its tokens.
use project_chat.Common.{ℕ, String, Bool, Option}

pub record UserAuthInfo : Type 0 where
  pub user_id : ℕ
  pub account_id : String
  pub username : String
  pub password_hash : String
  pub password_salt : String
  pub status : ℕ

pub record StoredUserSession : Type 0 where
  pub user_id : ℕ
  pub account_id : String
  pub username : String
  pub token_hash : String
  pub expire_at_ms : ℕ
  pub create_at_ms : ℕ
  pub last_seen_at_ms : ℕ
  pub revoked : Bool
  pub revoked_at_ms : Option ℕ
