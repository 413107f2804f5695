-- ===== src/Storage/Repos.antt =====
-- include/storage/: the abstract repositories as their clients see them, over a database of any
-- kind. A method that writes returns the database beside its answer. The methods without a client
-- here are left out.
use project_chat.Common.{ℕ, String, Bool, Option, List}
use project_chat.Storage.Results.{RepoResult, RepoValueResult}
use project_chat.Storage.UserTypes.{UserAuthInfo, StoredUserSession}
use project_chat.Storage.FriendTypes.{FriendRequest}
use project_chat.Storage.GroupTypes.{
  GroupJoinApplyResult, GroupJoinReviewResult, GroupJoinRequestRecord, GroupSnapshot,
  GroupMemberRecord, GroupDissolveRecord, UserProfile,
}

pub record GroupRepo (D : Type 0) : Type 0 where
  pub group_exists : D → String → Bool
  pub is_member : D → String → String → Bool
  pub add_member : D → String → String → ℕ → RepoResult × D
  pub remove_member : D → String → String → RepoResult × D
  pub get_member_role : D → String → String → RepoValueResult ℕ
  pub update_member_role : D → String → String → ℕ → RepoResult × D
  pub transfer_owner : D → String → String → String → RepoResult × D
  pub list_member_records : D → String → List GroupMemberRecord
  pub create_group_with_owner : D → String → String → String → RepoResult × D
  pub find_groups_by_ids : D → List String → List GroupSnapshot
  pub find_group_by_id : D → String → RepoValueResult GroupSnapshot
  pub count_members : D → String → RepoValueResult ℕ
  pub dissolve_group : D → String → String → ℕ → RepoValueResult GroupDissolveRecord × D

pub record UserProfileRepo (D : Type 0) : Type 0 where
  pub find_by_account_id : D → String → Option UserProfile
  pub find_by_account_ids : D → List String → List UserProfile
  pub create_default_profile : D → ℕ → String → String → RepoResult × D

pub record FriendRepo (D : Type 0) : Type 0 where
  pub are_friends : D → String → String → Bool
  pub remove_friend_pair : D → String → String → RepoResult × D
  pub list_friend_account_ids : D → String → List String

pub record FriendRequestRepo (D : Type 0) : Type 0 where
  pub create_pending_request : D → String → String → ℕ → RepoValueResult ℕ × D
  pub list_pending_incoming : D → String → RepoValueResult (List FriendRequest)
  pub reject_pending : D → ℕ → String → ℕ → RepoValueResult FriendRequest × D
  pub accept_pending_and_create_friend_pair : D → ℕ → String → ℕ → RepoValueResult FriendRequest × D

pub record GroupJoinRequestRepo (D : Type 0) : Type 0 where
  pub submit : D → String → String → String → ℕ → RepoValueResult GroupJoinApplyResult × D
  pub list_pending : D → String → ℕ → RepoValueResult (List GroupJoinRequestRecord)
  pub review :
      D → String → String → String → Bool → ℕ → ℕ → RepoValueResult GroupJoinReviewResult × D

pub record UserRepo (D : Type 0) : Type 0 where
  pub create_user : D → String → String → String → String → RepoResult × D
  pub find_auth_info_by_account_id : D → String → Option UserAuthInfo

pub record UserSessionRepo (D : Type 0) : Type 0 where
  pub create_session : D → StoredUserSession → RepoResult × D
  pub find_by_token_hash : D → String → Option StoredUserSession
  pub touch_session : D → String → ℕ → RepoResult × D
  pub revoke_session : D → String → ℕ → RepoResult × D
