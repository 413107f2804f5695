-- ===== src/Im/GroupService/Membership.antt =====
-- src/im/GroupService.cpp: the operations on the members of a group, and the reload.
use project_chat.Common.{
  String, Bool, not, ◌||◌, none, some, List, [], ◌∷◌, eqb, if◌then◌else◌, ◌==◌, string_key,
  is_empty,
}
use project_chat.Storage.Results.{
  ok, not_found, invalid_argument, internal, no_permission, target_not_in_group, invalid_group_role,
  is_ok, RepoResult, found,
}
use project_chat.Storage.GroupTypes.{GroupSnapshot}
use project_chat.Im.Group.{member, admin}
use project_chat.Im.GroupManager
use project_chat.Im.GroupManager.{GroupManager}
use project_chat.Im.GroupService.{GroupService, World, answer, may_kick, is_owner_number}

module _ {D : Type 0} (s : GroupService D) where
  -- From the answer of `findGroupsByIds` on.
  unfoldable pub reload_from : World D → String → List GroupSnapshot → RepoResult × World D
  reload_from w group_id [] = (
    answer not_found "groupId not found",
    record w { memory = (GroupManager.remove_group w.memory group_id).1 },
  )
  reload_from w group_id (g ∷ _) =
      let (restored, memory) =
        GroupManager.restore_group w.memory g.group_id g.group_name g.owner_account_id
          (s.group_repo.list_member_records w.database group_id) in
      (
        if restored then answer ok "" else answer internal "failed to restore group into memory",
        record w { memory = memory },
      )

  unfoldable pub reload_group : World D → String → RepoResult × World D
  unfolding reload_from
  reload_group w group_id =
      if is_empty group_id
      then (answer invalid_argument "", w)
      else reload_from w group_id (s.group_repo.find_groups_by_ids w.database (group_id ∷ []))

  -- The end of three operations: memory makes the change, or is loaded again if it refuses.
  unfoldable pub synchronise : World D → String → Bool × GroupManager → RepoResult × World D
  unfolding reload_group
  synchronise w group_id (changed, memory) =
      let (reloaded, after) = reload_group (record w { memory = memory }) group_id in
      if changed
      then (answer ok "", record w { memory = memory })
      else if is_ok reloaded.status
      then (answer ok "", after)
      else (answer internal "database updated but memory reload failed", after)

  -- The same end, after what the database answers.
  unfoldable pub write_through :
      World D
      → String
      → RepoResult × D
      → (GroupManager → Bool × GroupManager)
      → RepoResult × World D
  unfolding synchronise
  write_through w group_id (written, database) change =
      if is_ok written.status
      then synchronise (record w { database = database }) group_id (change w.memory)
      else (written, record w { database = database })

  unfoldable pub kick_member : World D → String → String → String → RepoResult × World D
  unfolding write_through
  kick_member w group_id operator_account_id target_account_id =
      let repo = s.group_repo in
      let d = w.database in
      let role_of_operator = repo.get_member_role d group_id operator_account_id in
      let role_of_target = repo.get_member_role d group_id target_account_id in
      if is_empty group_id || (is_empty operator_account_id || is_empty target_account_id)
      then (answer invalid_argument "", w)
      else if not (repo.group_exists d group_id)
      then (answer not_found "Group is not exist", w)
      else if not (repo.is_member d group_id target_account_id)
          || not (repo.is_member d group_id operator_account_id)
      then (answer target_not_in_group "Member is not in the group", w)
      else elim (found role_of_operator) [
        | none ↦ (answer role_of_operator.status role_of_operator.message, w)
        | some o ↦ elim (found role_of_target) [
          | none ↦ (answer role_of_target.status role_of_target.message, w)
          | some t ↦
              if may_kick o t
              then write_through w group_id (repo.remove_member d group_id target_account_id)
                  (λ m. GroupManager.remove_member m group_id target_account_id)
              else (answer no_permission "not authority to kick the member", w)
        ]
      ]

  unfoldable pub set_admin : World D → String → String → String → Bool → RepoResult × World D
  unfolding write_through
  set_admin w group_id operator_account_id target_account_id enable =
      let repo = s.group_repo in
      let d = w.database in
      let role_of_operator = repo.get_member_role d group_id operator_account_id in
      if is_empty group_id || (is_empty operator_account_id || is_empty target_account_id)
      then (answer invalid_argument "", w)
      else if operator_account_id == target_account_id
      then (answer invalid_group_role "Can not set the owner to admin", w)
      else elim (found role_of_operator) [
        | none ↦ (answer role_of_operator.status role_of_operator.message, w)
        | some o ↦
            if not (is_owner_number o)
            then (answer no_permission "Only the owener can set admin", w)
            else if not (repo.is_member d group_id target_account_id)
            then (answer target_not_in_group "TargetaccountId is not in the group", w)
            else if enable
            then write_through w group_id (repo.update_member_role d group_id target_account_id 1)
                (λ m. GroupManager.set_member_role m group_id target_account_id admin)
            else write_through w group_id (repo.update_member_role d group_id target_account_id 0)
                (λ m. GroupManager.set_member_role m group_id target_account_id member)
      ]

  unfoldable pub transfer_owner : World D → String → String → String → RepoResult × World D
  unfolding write_through
  transfer_owner w group_id old_owner new_owner =
      let repo = s.group_repo in
      let d = w.database in
      let role_of_operator = repo.get_member_role d group_id old_owner in
      if is_empty group_id || (is_empty old_owner || is_empty new_owner)
      then (answer invalid_argument "", w)
      else if old_owner == new_owner
      then (answer invalid_argument "Can not transfer to self", w)
      else elim (found role_of_operator) [
        | none ↦ (answer role_of_operator.status role_of_operator.message, w)
        | some o ↦
            if not (eqb o 2)
            then (answer no_permission "Only the owener can transfer", w)
            else if not (repo.is_member d group_id new_owner)
            then (answer target_not_in_group "TargetaccountId is not in the group", w)
            else write_through w group_id (repo.transfer_owner d group_id old_owner new_owner)
                (λ m. GroupManager.transfer_owner m group_id old_owner new_owner)
      ]
