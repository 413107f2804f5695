-- ===== src/Im/GroupService/Lifecycle.antt =====
-- src/im/GroupService.cpp: a group from its creation to its end, the invitation, and the queries.
use project_chat.Common.{
  ℕ, String, Bool, true, false, not, ◌||◌, Option, none, some, List, leb, if◌then◌else◌, ◌==◌,
  string_key, is_empty,
}
use project_chat.Storage.Results.{
  not_found, invalid_argument, internal, target_not_in_group, user_not_found, group_dissolved,
  cannot_invite_self, invite_requests_friend, group_member_limit_reach, is_ok, is_already_exists,
  RepoValueResult,
}
use project_chat.Id.SnowflakeIdGenerator.{next_string_id}
use project_chat.Im.GroupManager
use project_chat.Im.GroupManager.{JoinResult, ok_joined}
use project_chat.Im.GroupService.{
  GroupService, World, answered, refused, is_dissolved, GroupInviteResult, GroupCreateResult,
}
use project_chat.Im.GroupService.Membership.{reload_group}

abbrev pub is_joined : JoinResult → Bool
is_joined ok_joined = true
is_joined _ = false

module _ {D : Type 0} (s : GroupService D) where
  -- The end of a creation and of an invitation: what memory refuses is loaded again.
  unfoldable pub reload_unless :
      {T : Type 0} → Bool → World D → String → T → RepoValueResult T × World D
  reload_unless changed w group_id value =
      let (reloaded, after) = reload_group s w group_id in
      if changed
      then (answered value, w)
      else if is_ok reloaded.status
      then (answered value, after)
      else (refused internal "database invite the member but memory reload failed", after)

  -- From the id on.
  unfoldable pub create_with_id :
      World D → String → String → String → RepoValueResult GroupCreateResult × World D
  unfolding reload_unless
  create_with_id w group_id owner_account_id group_name =
      let (written, database) =
        s.group_repo.create_group_with_owner w.database group_id group_name owner_account_id in
      let (created, memory) =
        GroupManager.create_group w.memory group_id owner_account_id group_name in
      if is_empty group_id
      then (refused internal "Failed to generator groupId", w)
      else if is_ok written.status
      then reload_unless created (record w { database = database; memory = memory }) group_id
          (record {
            group_id = group_id;
            group_name = group_name;
            owner_account_id = owner_account_id;
          })
      else (refused written.status written.message, record w { database = database })

  -- `none` is an exception of the generator, which the service lets through.
  unfoldable pub create_group :
      (ℕ → String)
      → World D
      → String
      → String
      → List ℕ
      → Option (RepoValueResult GroupCreateResult) × World D
  unfolding create_with_id
  create_group to_string w owner_account_id group_name readings =
      let (id, ids) = next_string_id to_string "G" w.ids readings in
      let w' : World D = record w { ids = ids } in
      if is_empty owner_account_id then (some (refused invalid_argument ""), w) else elim id [
        | none ↦ (none, w')
        | some group_id ↦
            let (created, after) = create_with_id w' group_id owner_account_id group_name in
            (some created, after)
      ]

  -- From the addition to the database on.
  unfoldable pub add_invited :
      World D → String → String → RepoValueResult GroupInviteResult × World D
  unfolding reload_unless
  add_invited w group_id target_account_id =
      let (added, database) = s.group_repo.add_member w.database group_id target_account_id 0 in
      let (joined, memory) = GroupManager.join_group w.memory group_id target_account_id in
      if is_ok added.status
      then reload_unless (is_joined joined) (record w { database = database; memory = memory })
          group_id
          (record {
            joined = true;
            already_in = false;
            group_id = group_id;
            target_account_id = target_account_id;
          })
      else if is_already_exists added.status
      then (
        answered
            (record { joined = false; already_in = false; group_id = ""; target_account_id = "" }),
        record w { database = database },
      )
      else (refused added.status added.message, record w { database = database })

  -- The restriction to friends: `none` lets the invitation pass.
  unfoldable pub friend_refusal : D → String → String → Option (RepoValueResult GroupInviteResult)
  friend_refusal d inviter_account_id target_account_id =
      if s.require_friend_for_invite
      then elim s.friend_repo [
        | none ↦ some (refused internal "friendRepo is not avaiable")
        | some friends ↦
            if friends.are_friends d inviter_account_id target_account_id
            then none
            else some (refused invite_requests_friend "only can invite your friend into the group")
      ]
      else none

  -- From the test for friends on.
  unfoldable pub invite_within_limit :
      World D → String → String → String → RepoValueResult GroupInviteResult × World D
  unfolding friend_refusal add_invited
  invite_within_limit w group_id inviter_account_id target_account_id =
      let count = s.group_repo.count_members w.database group_id in
      elim (friend_refusal w.database inviter_account_id target_account_id) [
        | some refusal ↦ (refusal, w)
        | none ↦
            if is_ok count.status
            then elim count.value [
              | none ↦ (refused internal "", w)
              | some n ↦
                  if leb s.max_group_members n
                  then (refused group_member_limit_reach "", w)
                  else add_invited w group_id target_account_id
            ]
            else (refused count.status count.message, w)
      ]

  unfoldable pub invite_member :
      World D → String → String → String → RepoValueResult GroupInviteResult × World D
  unfolding invite_within_limit
  invite_member w group_id inviter_account_id target_account_id =
      let repo = s.group_repo in
      let d = w.database in
      let group = repo.find_group_by_id d group_id in
      if is_empty group_id || (is_empty inviter_account_id || is_empty target_account_id)
      then (refused invalid_argument "", w)
      else if inviter_account_id == target_account_id
      then (refused cannot_invite_self "can not invite yourself", w)
      else if is_ok group.status
      then elim group.value [
        | none ↦ (refused not_found "", w)
        | some g ↦
            if is_dissolved g.status
            then (refused group_dissolved "The group has been dissolved", w)
            else if not (repo.is_member d group_id inviter_account_id)
            then (refused target_not_in_group "", w)
            else elim (s.user_profile_repo.find_by_account_id d target_account_id) [
              | none ↦ (refused user_not_found "", w)
              | some _ ↦
                  if repo.is_member d group_id target_account_id
                  then (
                    answered (record {
                      joined = false;
                      already_in = true;
                      group_id = group_id;
                      target_account_id = target_account_id;
                    }),
                    w,
                  )
                  else invite_within_limit w group_id inviter_account_id target_account_id
            ]
      ]
      else (refused group.status group.message, w)
