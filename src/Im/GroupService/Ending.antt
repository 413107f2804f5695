-- ===== src/Im/GroupService/Ending.antt =====
-- src/im/GroupService.cpp: the end of a group, the search for one, and the views of its members.
use project_chat.Common.{
  ℕ, String, true, false, not, ◌||◌, none, some, List, [], map, if◌then◌else◌, ◌==◌, string_key,
  is_empty,
}
use project_chat.Storage.Results.{
  ok, not_found, invalid_argument, internal, no_permission, group_dissolved, is_ok, RepoValueResult,
}
use project_chat.Storage.GroupTypes.{GroupSearchResult}
use project_chat.Im.GroupManager
use project_chat.Im.GroupService.{
  GroupService, World, answered, refused, is_dissolved, GroupMemberView, GroupDissolveResult,
  by_account_id, merge_profile,
}

abbrev pub already_dissolved_result : String → GroupDissolveResult
already_dissolved_result group_id = record {
  dissolved = false;
  already_dissolved = true;
  group_id = group_id;
  affected_account_ids = [];
}

module _ {D : Type 0} (s : GroupService D) where
  -- From the call of the repository on.
  unfoldable pub dissolve_stored :
      World D → String → String → ℕ → RepoValueResult GroupDissolveResult × World D
  dissolve_stored w group_id operator_account_id now_ms =
      let (written, database) =
        s.group_repo.dissolve_group w.database group_id operator_account_id now_ms in
      let after : World D = record w { database = database } in
      if is_ok written.status
      then elim written.value [
        | none ↦ (refused internal "", after)
        | some r ↦
            if r.already_dissolved then (answered (already_dissolved_result group_id), after) else (
              answered (record {
                dissolved = true;
                already_dissolved = false;
                group_id = group_id;
                affected_account_ids = r.member_account_ids;
              }),
              record after { memory = (GroupManager.remove_group w.memory group_id).1 },
            )
      ]
      else (refused written.status written.message, after)

  unfoldable pub dissolve_group :
      World D → String → String → ℕ → RepoValueResult GroupDissolveResult × World D
  unfolding dissolve_stored
  dissolve_group w group_id operator_account_id now_ms =
      let group = s.group_repo.find_group_by_id w.database group_id in
      if is_empty group_id || is_empty operator_account_id
      then (refused invalid_argument "", w)
      else if is_ok group.status
      then elim group.value [
        | none ↦ (refused not_found "", w)
        | some g ↦
            if is_dissolved g.status
            then (
              record {
                status = ok;
                message = "The group has been dissolved";
                value = some (already_dissolved_result group_id);
              },
              w,
            )
            else if not (g.owner_account_id == operator_account_id)
            then (refused no_permission "", w)
            else dissolve_stored w group_id operator_account_id now_ms
      ]
      else (refused group.status group.message, w)

  unfoldable pub search_group_by_id : World D → String → String → RepoValueResult GroupSearchResult
  search_group_by_id w group_id requester_account_id =
      let repo = s.group_repo in
      let group = repo.find_group_by_id w.database group_id in
      let count = repo.count_members w.database group_id in
      if is_empty group_id || is_empty requester_account_id
      then refused invalid_argument ""
      else if is_ok group.status
      then elim group.value [
        | none ↦ refused not_found ""
        | some g ↦
            if is_dissolved g.status
            then refused group_dissolved ""
            else if is_ok count.status
            then elim count.value [
              | none ↦ refused internal ""
              | some n ↦ answered (record {
                group_id = group_id;
                group_name = g.group_name;
                owner_account_id = g.owner_account_id;
                member_count = n;
                already_member = repo.is_member w.database group_id requester_account_id;
              })
            ]
            else refused count.status count.message
      ]
      else refused group.status group.message

  unfoldable pub list_member_views : World D → String → List GroupMemberView
  list_member_views w group_id =
      let members = GroupManager.member_infos w.memory group_id in
      let profiles =
        s.user_profile_repo.find_by_account_ids w.database (map (λ i. i.account_id) members) in
      if is_empty group_id then [] else map (merge_profile (by_account_id profiles [])) members
