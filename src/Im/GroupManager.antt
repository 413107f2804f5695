-- ===== src/Im/GroupManager.antt =====
-- src/im/GroupManager.cpp: the groups in memory, and the index from an account to its groups. A
-- method that changes the manager returns it beside its result. `LOG_ERROR` is left out.
pub mod Index
pub mod Consistent
pub mod Restore
pub mod History
pub mod Absent
use project_chat.Common.{
  String, Bool, true, false, not, ◌&&◌, ◌||◌, Option, none, some, List, [], ◌∷◌, map, if◌then◌else◌,
  ◌==◌, string_key, is_empty,
}
use project_chat.Common.Map
use project_chat.Common.Map.{Map, find, assign, has}
use project_chat.Common.KeySet
use project_chat.Common.KeySet.{KeySet, insert, empty}
use project_chat.Storage.GroupTypes.{GroupMemberRecord}
use project_chat.Im.Group
use project_chat.Im.Group.{Group, GroupRole, member, admin, owner, role_from_uint}

pub data JoinResult : Type 0 where
  ok_joined ok_already_in err_no_such_group : JoinResult

pub data QuitResult : Type 0 where
  ok_left err_not_in_group err_no_such_group : QuitResult

pub record GroupMemberInfo : Type 0 where
  pub account_id : String
  pub role : GroupRole

-- From an account to its groups.
abbrev pub Index : Type 0
Index = Map String (KeySet String)

pub record GroupManager : Type 0 where
  pub account_id_groups : Index
  pub groups_by_id : Map String Group

abbrev pub groups_or_none : Option (KeySet String) → KeySet String
groups_or_none none = []
groups_or_none (some s) = s

-- `accountIdGroups_[a].insert(g)`
pub index_insert : String → String → Index → Index
index_insert a g index = assign a (insert g (groups_or_none (find a index))) index

-- The group is taken out of the account's set, and an empty set out of the index.
pub index_remove : String → String → Index → Index
index_remove a g index = elim (find a index) [
  | none ↦ index
  | some s ↦
      if empty (KeySet.erase g s) then Map.erase a index else assign a (KeySet.erase g s) index
]

unfoldable pub is_member : GroupManager → String → String → Bool
is_member m group_id account_id = elim (find group_id m.groups_by_id) [
  | none ↦ false
  | some g ↦ Group.has_member g account_id
]

pub exists : GroupManager → String → Bool
exists m group_id = has group_id m.groups_by_id

pub create_group : GroupManager → String → String → String → Bool × GroupManager
unfolding index_insert
create_group m group_id owner_account_id name =
    if is_empty group_id || (is_empty owner_account_id || is_empty name)
    then (false, m)
    else (let (added, g) =
          Group.add_member (Group.new group_id name owner_account_id) owner_account_id owner in
        if not added then (false, m) else if has group_id m.groups_by_id then (false, m) else (
          true,
          record {
            account_id_groups = index_insert owner_account_id group_id m.account_id_groups;
            groups_by_id = assign group_id g m.groups_by_id;
          },
        ))

-- What is found is changed in place.
pub add_to : GroupManager → String → String → Group → JoinResult × GroupManager
add_to m group_id account_id g =
    let (added, g') = Group.add_member g account_id member in
    if not added then (ok_already_in, m) else (
      ok_joined,
      record {
        account_id_groups = index_insert account_id group_id m.account_id_groups;
        groups_by_id = assign group_id g' m.groups_by_id;
      },
    )

pub join_group : GroupManager → String → String → JoinResult × GroupManager
unfolding add_to is_member
join_group m group_id account_id = elim (find group_id m.groups_by_id) [
  | none ↦ (JoinResult.err_no_such_group, m)
  | some g ↦
      if is_member m group_id account_id then (ok_already_in, m) else add_to m group_id account_id g
]

-- A member's removal from a group that is found, with the index.
pub remove_from : GroupManager → String → String → Group → Bool × GroupManager
remove_from m group_id account_id g =
    let (removed, g') = Group.remove_member g account_id in
    if not removed then (false, m) else (
      true,
      record {
        account_id_groups = index_remove account_id group_id m.account_id_groups;
        groups_by_id = assign group_id g' m.groups_by_id;
      },
    )

unfoldable pub leave_group : GroupManager → String → String → QuitResult × GroupManager
unfolding remove_from
leave_group m group_id account_id = elim (find group_id m.groups_by_id) [
  | none ↦ (QuitResult.err_no_such_group, m)
  | some g ↦
      let (removed, m') = remove_from m group_id account_id g in
      if removed then (ok_left, m') else (err_not_in_group, m)
]

pub remove_member : GroupManager → String → String → Bool × GroupManager
unfolding remove_from
remove_member m group_id account_id =
    if is_empty group_id || is_empty account_id
    then (false, m)
    else elim (find group_id m.groups_by_id) [
      | none ↦ (false, m)
      | some g ↦ remove_from m group_id account_id g
    ]

-- The loops over the members of a group, as the index goes through them.
pub unindex : String → Map String GroupRole → Index → Index
unindex group_id [] index = index
unindex group_id ((a, r) ∷ members) index = unindex group_id members (index_remove a group_id index)

pub reindex : String → Map String GroupRole → Index → Index
reindex group_id [] index = index
reindex group_id ((a, r) ∷ members) index = reindex group_id members (index_insert a group_id index)

-- A group of that id is put out, with its part of the index.
pub put_out : GroupManager → String → Option Group → GroupManager
unfolding unindex
put_out m group_id none = m
put_out m group_id (some g) = record {
  account_id_groups = unindex group_id g.members m.account_id_groups;
  groups_by_id = Map.erase group_id m.groups_by_id;
}

pub remove_group : GroupManager → String → Bool × GroupManager
unfolding put_out
remove_group m group_id = elim (find group_id m.groups_by_id) [
  | none ↦ (false, m)
  | some g ↦ (true, put_out m group_id (some g))
]

pub groups_of_user : GroupManager → String → List String
groups_of_user m account_id = groups_or_none (find account_id m.account_id_groups)

-- The records of a stored group, added one by one. `none` is a role that cannot be; the flag says
-- whether the owner has been among them.
pub restore_members : Group → String → Bool → List GroupMemberRecord → Option (Group × Bool)
restore_members g owner_account_id has_owner [] = some (g, has_owner)
restore_members g owner_account_id has_owner (r ∷ rs) =
    if is_empty r.account_id
    then restore_members g owner_account_id has_owner rs
    else elim (role_from_uint r.role) [
      | none ↦ none
      | some role ↦
          let with_owner =
            restore_members (Group.add_member g r.account_id owner).1 owner_account_id true rs in
          let with_member =
            restore_members (Group.add_member g r.account_id role).1 owner_account_id has_owner
              rs in
          if r.account_id == owner_account_id
          then with_owner
          else if Group.is_owner_role role
          then none
          else with_member
    ]

-- And the new one is put in.
pub replace_group : GroupManager → String → Group → GroupManager
unfolding put_out reindex
replace_group m group_id g =
    let old = put_out m group_id (find group_id m.groups_by_id) in
    record {
      account_id_groups = reindex group_id g.members old.account_id_groups;
      groups_by_id = assign group_id g old.groups_by_id;
    }

pub restore_group :
    GroupManager → String → String → String → List GroupMemberRecord → Bool × GroupManager
unfolding restore_members replace_group
restore_group m group_id group_name owner_account_id members =
    if is_empty group_id || (is_empty group_name || is_empty owner_account_id)
    then (false, m)
    else elim (restore_members (Group.new group_id group_name owner_account_id) owner_account_id
        false members) [
          | none ↦ (false, m)
          | some (g, has_owner) ↦ (
            true,
            replace_group m group_id
                (if has_owner then g else (Group.add_member g owner_account_id owner).1),
          )
        ]

pub role_of : GroupManager → String → String → Option GroupRole
role_of m group_id account_id = elim (find group_id m.groups_by_id) [
  | none ↦ none
  | some g ↦ Group.role_of g account_id
]

pub is_owner : GroupManager → String → String → Bool
unfolding role_of
is_owner m group_id account_id = elim (role_of m group_id account_id) [
  | none ↦ false
  | some r ↦ Group.is_owner_role r
]

may_manage : GroupRole → GroupRole → Bool
may_manage owner target = true
may_manage admin member = true
may_manage _ _ = false

pub can_manage_member : GroupManager → String → String → String → Bool
unfolding may_manage role_of
can_manage_member m group_id operator_account_id target_account_id =
    elim (role_of m group_id operator_account_id) [
      | none ↦ false
      | some o ↦ elim (role_of m group_id target_account_id) [
        | none ↦ false
        | some t ↦ may_manage o t
      ]
    ]

pub set_member_role : GroupManager → String → String → GroupRole → Bool × GroupManager
unfolding is_member
set_member_role m group_id account_id role =
    if is_member m group_id account_id
    then elim (find group_id m.groups_by_id) [
      | none ↦ (false, m)
      | some g ↦
          let (changed, g') = Group.set_role g account_id role in
          (changed, record m { groups_by_id = assign group_id g' m.groups_by_id })
    ]
    else (false, m)

unfoldable pub member_info : String × GroupRole → GroupMemberInfo
member_info (a, r) = record { account_id = a; role = r }

unfoldable pub member_infos : GroupManager → String → List GroupMemberInfo
unfolding member_info
member_infos m group_id = elim (find group_id m.groups_by_id) [
  | none ↦ []
  | some g ↦ map member_info g.members
]

pub transfer_owner : GroupManager → String → String → String → Bool × GroupManager
transfer_owner m group_id old_owner new_owner = elim (find group_id m.groups_by_id) [
  | none ↦ (false, m)
  | some g ↦
      if Group.is_owner g old_owner
      then (let (changed, g') = Group.transfer_owner g old_owner new_owner in
          (changed, record m { groups_by_id = assign group_id g' m.groups_by_id }))
      else (false, m)
]
