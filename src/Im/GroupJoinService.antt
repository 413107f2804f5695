-- ===== src/Im/GroupJoinService.antt =====
-- src/im/GroupJoinService.cpp: requests to join a group, and their review. Its `reloadGroup` is that
-- of src/im/GroupService.cpp word for word. The constructor refuses a null repository.
pub mod Review
use project_chat.Common.{
  ℕ, String, Bool, true, false, ◌&&◌, ◌||◌, Option, none, some, List, if◌then◌else◌, is_empty,
}
use project_chat.Storage.Results.{
  invalid_argument, internal, no_permission, user_not_found, is_ok, RepoValueResult,
}
use project_chat.Storage.GroupTypes.{
  GroupJoinApplyResult, GroupJoinReviewResult, GroupJoinRequestRecord,
}
use project_chat.Storage.Repos.{GroupRepo, UserProfileRepo, GroupJoinRequestRepo}
use project_chat.Im.Group.{GroupRole, owner, admin, role_from_uint}
use project_chat.Im.GroupManager
use project_chat.Im.GroupService.{GroupService, World, refused}
use project_chat.Im.GroupService.Membership.{reload_group}
use project_chat.Im.GroupService.Lifecycle.{is_joined}

pub record GroupJoinService (D : Type 0) : Type 0 where
  pub group_repo : GroupRepo D
  pub user_profile_repo : UserProfileRepo D
  pub join_request_repo : GroupJoinRequestRepo D
  pub max_group_members : ℕ

-- `role!=Owner&&role!=Admin`, denied.
abbrev pub is_manager : Option GroupRole → Bool
is_manager (some owner) = true
is_manager (some admin) = true
is_manager _ = false

-- The members that `reloadGroup` reads.
abbrev pub reloading : {D : Type 0} → GroupJoinService D → GroupService D
reloading j = record {
  group_repo = j.group_repo;
  user_profile_repo = j.user_profile_repo;
  friend_repo = none;
  require_friend_for_invite = false;
  max_group_members = j.max_group_members;
}

module _ {D : Type 0} (j : GroupJoinService D) where
  unfoldable pub apply_to_join :
      World D → String → String → String → ℕ → RepoValueResult GroupJoinApplyResult × World D
  apply_to_join w group_id applicant_account_id message now_ms =
      let (submitted, database) =
        j.join_request_repo.submit w.database group_id applicant_account_id message now_ms in
      if is_empty group_id || is_empty applicant_account_id
      then (refused invalid_argument "", w)
      else elim (j.user_profile_repo.find_by_account_id w.database applicant_account_id) [
        | none ↦ (refused user_not_found "", w)
        | some _ ↦ (submitted, record w { database = database })
      ]

  pub list_pending_requests :
      World D → String → String → ℕ → RepoValueResult (List GroupJoinRequestRecord)
  list_pending_requests w group_id operator_account_id limit =
      let role = j.group_repo.get_member_role w.database group_id operator_account_id in
      if is_empty group_id || is_empty operator_account_id
      then refused invalid_argument ""
      else if is_ok role.status
      then elim role.value [
        | none ↦ refused internal "value invalid"
        | some r ↦
            if is_manager (role_from_uint r)
            then j.join_request_repo.list_pending w.database group_id limit
            else refused no_permission ""
      ]
      else refused role.status role.message

  -- Memory after a review that has added a member.
  pub synchronise_added :
      World D
      → String
      → String
      → RepoValueResult GroupJoinReviewResult
      → RepoValueResult GroupJoinReviewResult × World D
  synchronise_added w group_id applicant_account_id reviewed =
      let (joined, memory) = GroupManager.join_group w.memory group_id applicant_account_id in
      let w' : World D = record w { memory = memory } in
      let (reloaded, after) = reload_group (reloading j) w' group_id in
      if is_joined joined
      then (reviewed, w')
      else if is_ok reloaded.status
      then (reviewed, after)
      else (refused internal "database invite the member but memory reload failed", after)

  unfoldable pub review_request :
      World D
      → String
      → String
      → String
      → Bool
      → ℕ
      → RepoValueResult GroupJoinReviewResult × World D
  unfolding synchronise_added
  review_request w group_id applicant_account_id reviewer_account_id approve now_ms =
      let (reviewed, database) =
        j.join_request_repo.review w.database group_id applicant_account_id reviewer_account_id
          approve j.max_group_members now_ms in
      let w' : World D = record w { database = database } in
      if is_empty group_id || (is_empty applicant_account_id || is_empty reviewer_account_id)
      then (refused invalid_argument "", w)
      else if is_ok reviewed.status
      then elim reviewed.value [
        | none ↦ (refused internal "", w')
        | some v ↦
            if v.approved && v.member_added
            then synchronise_added w' group_id applicant_account_id reviewed
            else (reviewed, w')
      ]
      else (reviewed, w')
