-- ===== src/Im/GroupService.antt =====
-- src/im/GroupService.cpp: the operations on groups, which write the database first and the groups
-- in memory after it. The constructor refuses a null `groupRepo` and `userProfileRepo`, so the
-- later tests for them have no branch here; `LOG_ERROR` and `LOG_WARN` are left out.
pub mod Membership
pub mod Lifecycle
pub mod Ending
pub mod Invariant
pub mod Stored
pub mod Kick
pub mod Invitation
pub mod Ownership
use project_chat.Common.{
  ℕ, String, Bool, true, false, ◌&&◌, ◌||◌, Option, none, some, List, [], ◌∷◌, eqb, if◌then◌else◌,
  ◌==◌, string_key,
}
use project_chat.Common.Map.{Map, find, assign, has}
use project_chat.Storage.Results.{RepoStatus, ok, RepoResult, RepoValueResult, found}
use project_chat.Storage.GroupTypes.{GroupStatus, dissolved, UserProfile}
use project_chat.Storage.Repos.{GroupRepo, UserProfileRepo, FriendRepo}
use project_chat.Id.SnowflakeIdGenerator.{SnowflakeIdGenerator}
use project_chat.Im.Group.{GroupRole, member, admin, owner, role_from_uint, role_to_uint}
use project_chat.Im.GroupManager
use project_chat.Im.GroupManager.{GroupManager, GroupMemberInfo}

pub record GroupService (D : Type 0) : Type 0 where
  pub group_repo : GroupRepo D
  pub user_profile_repo : UserProfileRepo D
  pub friend_repo : Option (FriendRepo D)
  pub require_friend_for_invite : Bool
  pub max_group_members : ℕ

-- What the operations change: the database, and the two objects the service refers to.
pub record World (D : Type 0) : Type 0 where
  pub database : D
  pub memory : GroupManager
  pub ids : SnowflakeIdGenerator

abbrev pub answer : RepoStatus → String → RepoResult
answer status message = record { status = status; message = message }

-- An answer without a value.
abbrev pub refused : {T : Type 0} → RepoStatus → String → RepoValueResult T
refused status message = record { status = status; message = message; value = none }

abbrev pub answered : {T : Type 0} → T → RepoValueResult T
answered value = record { status = ok; message = ""; value = some value }

abbrev is_role : GroupRole → Option GroupRole → Bool
is_role r none = false
is_role r (some s) = eqb (role_to_uint s) (role_to_uint r)

-- The test of a kick, on the stored roles.
pub may_kick : ℕ → ℕ → Bool
may_kick operator target =
    is_role owner (role_from_uint operator)
    || (is_role admin (role_from_uint operator) && is_role member (role_from_uint target))

pub is_owner_number : ℕ → Bool
is_owner_number role = is_role owner (role_from_uint role)

abbrev pub is_dissolved : GroupStatus → Bool
is_dissolved dissolved = true
is_dissolved _ = false

pub record GroupMemberView : Type 0 where
  pub account_id : String
  pub username : String
  pub nickname : String
  pub avatar_url : String
  pub role : GroupRole

pub record GroupInviteResult : Type 0 where
  pub joined : Bool
  pub already_in : Bool
  pub group_id : String
  pub target_account_id : String

pub record GroupDissolveResult : Type 0 where
  pub dissolved : Bool
  pub already_dissolved : Bool
  pub group_id : String
  pub affected_account_ids : List String

pub record GroupCreateResult : Type 0 where
  pub group_id : String
  pub group_name : String
  pub owner_account_id : String

-- `emplace` keeps the first profile of an account.
pub by_account_id : List UserProfile → Map String UserProfile → Map String UserProfile
by_account_id [] found = found
by_account_id (p ∷ ps) found =
    by_account_id ps (if has p.account_id found then found else assign p.account_id p found)

pub merge_profile : Map String UserProfile → GroupMemberInfo → GroupMemberView
merge_profile profiles i = elim (find i.account_id profiles) [
  | none ↦ record {
    account_id = i.account_id;
    username = "";
    nickname = "";
    avatar_url = "";
    role = i.role;
  }
  | some p ↦ record {
    account_id = i.account_id;
    username = p.username;
    nickname = p.nickname;
    avatar_url = p.avatar_url;
    role = i.role;
  }
]
