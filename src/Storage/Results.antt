-- ===== src/Storage/Results.antt =====
-- include/storage/RepoResult.h and include/storage/RepoValueResult.h: what a repository answers.
use project_chat.Common.{String, Bool, true, false, Option, none, if◌then◌else◌}

pub data RepoStatus : Type 0 where
  ok already_exists not_found invalid_argument conflict sql_error user_not_found : RepoStatus
  join_request_not_found group_not_found cannot_add_yourself already_friends : RepoStatus
  already_handled forbidden not_friends no_permission target_not_in_group : RepoStatus
  owner_cannot_leave owner_cannot_be_kicked invalid_group_role group_dissolved : RepoStatus
  cannot_invite_self invite_requests_friend group_member_limit_reach : RepoStatus
  message_not_found internal : RepoStatus

abbrev pub is_ok : RepoStatus → Bool
is_ok ok = true
is_ok _ = false

abbrev pub is_already_exists : RepoStatus → Bool
is_already_exists already_exists = true
is_already_exists _ = false

pub record RepoResult : Type 0 where
  pub status : RepoStatus
  pub message : String

pub record RepoValueResult (T : Type 0) : Type 0 where
  pub status : RepoStatus
  pub message : String
  pub value : Option T

-- `ok()&&value.has_value()`, with the value.
abbrev pub found : {T : Type 0} → RepoValueResult T → Option T
found r = if is_ok r.status then r.value else none
