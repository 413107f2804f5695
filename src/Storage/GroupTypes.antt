-- ===== src/Storage/GroupTypes.antt =====
-- include/storage/types/GroupTypes.h and include/storage/types/UserTypes.h: what is stored of a
-- group and of a user.
use project_chat.Common.{ℕ, String, Bool, List}

pub data GroupStatus : Type 0 where
  active dissolved : GroupStatus

pub record GroupSnapshot : Type 0 where
  pub group_id : String
  pub group_name : String
  pub owner_account_id : String
  pub status : GroupStatus
  pub dissolved_at_ms : ℕ

-- Less the fields that are not read here.
pub record GroupMemberRecord : Type 0 where
  pub account_id : String
  pub role : ℕ

pub record GroupDissolveRecord : Type 0 where
  pub changed : Bool
  pub already_dissolved : Bool
  pub member_account_ids : List String

pub record GroupSearchResult : Type 0 where
  pub group_id : String
  pub group_name : String
  pub owner_account_id : String
  pub member_count : ℕ
  pub already_member : Bool

-- Less the fields that are not read here.
pub record UserProfile : Type 0 where
  pub account_id : String
  pub username : String
  pub nickname : String
  pub avatar_url : String

pub data GroupJoinRequestStatus : Type 0 where
  pending approved_request rejected_request : GroupJoinRequestStatus

pub record GroupJoinRequestRecord : Type 0 where
  pub request_id : ℕ
  pub group_id : String
  pub applicant_account_id : String
  pub status : GroupJoinRequestStatus
  pub request_message : String
  pub reviewer_account_id : String
  pub created_at_ms : ℕ
  pub reviewed_at_ms : ℕ

pub record GroupJoinApplyResult : Type 0 where
  pub submitted : Bool
  pub already_pending : Bool
  pub already_in : Bool
  pub group_id : String
  pub applicant_account_id : String

pub record GroupJoinReviewResult : Type 0 where
  pub approved : Bool
  pub rejected : Bool
  pub member_added : Bool
  pub already_handled : Bool
  pub group_id : String
  pub applicant_account_id : String
