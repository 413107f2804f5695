-- ===== src/Storage/FriendTypes.antt =====
-- include/storage/types/FriendTypes.h: what is stored of a request to be friends.
use project_chat.Common.{ℕ, String, Option}

pub data FriendRequestStatus : Type 0 where
  pending accepted rejected cancelled : FriendRequestStatus

pub record FriendRequest : Type 0 where
  pub request_id : ℕ
  pub request_account_id : String
  pub receive_account_id : String
  pub status : FriendRequestStatus
  pub created_at_ms : ℕ
  pub handled_at_ms : Option ℕ
