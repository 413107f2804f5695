-- ===== src/Im/Group.antt =====
-- src/im/Group.cpp and include/im/GroupRole.h: one group, its members and their roles. The time of
-- creation, which nothing reads, is left out. A method that changes the group returns it beside
-- its result.
pub mod Owner
pub mod Members
pub mod Restored
use project_chat.Common.{
  ℕ, zero, suc, String, Bool, true, false, ◌&&◌, ◌||◌, Option, none, some, [], length,
  if◌then◌else◌, ◌==◌, string_key, is_empty,
}
use project_chat.Common.Map.{Map, find, assign, erase, has}

pub data GroupRole : Type 0 where
  member admin owner : GroupRole

unfoldable pub role_from_uint : ℕ → Option GroupRole
role_from_uint zero = some member
role_from_uint (suc zero) = some admin
role_from_uint (suc (suc zero)) = some owner
role_from_uint _ = none

-- The value of the enumerator.
unfoldable pub role_to_uint : GroupRole → ℕ
role_to_uint member = 0
role_to_uint admin = 1
role_to_uint owner = 2

pub role_to_string : GroupRole → String
role_to_string member = "member"
role_to_string admin = "admin"
role_to_string owner = "owner"

pub record Group : Type 0 where
  pub group_id : String
  pub name : String
  pub owner_account_id : String
  pub members : Map String GroupRole

unfoldable pub new : String → String → String → Group
new group_id name owner_account_id = record {
  group_id = group_id;
  name = name;
  owner_account_id = owner_account_id;
  members = [];
}

unfoldable pub has_member : Group → String → Bool
has_member g account_id = has account_id g.members

pub add_member : Group → String → GroupRole → Bool × Group
unfolding has_member
add_member g account_id role =
    if is_empty account_id
    then (false, g)
    else if has_member g account_id
    then (false, g)
    else (true, record g { members = assign account_id role g.members })

pub remove_member : Group → String → Bool × Group
unfolding has_member
remove_member g account_id =
    if has_member g account_id
    then (if account_id == g.owner_account_id
        then (false, g)
        else (true, record g { members = erase account_id g.members }))
    else (false, g)

pub member_count : Group → ℕ
member_count g = length g.members

pub role_of : Group → String → Option GroupRole
role_of g account_id = find account_id g.members

pub is_owner : Group → String → Bool
is_owner g account_id = account_id == g.owner_account_id

pub is_admin_or_owner : Group → String → Bool
is_admin_or_owner g account_id = elim (find account_id g.members) [
  | none ↦ false
  | some role ↦ elim role [ member ↦ false | _ ↦ true ]
]

abbrev pub is_owner_role : GroupRole → Bool
is_owner_role owner = true
is_owner_role _ = false

pub set_role : Group → String → GroupRole → Bool × Group
set_role g account_id role =
    if (account_id == g.owner_account_id) || is_owner_role role
    then (false, g)
    else elim (find account_id g.members) [
      | none ↦ (false, g)
      | some _ ↦ (true, record g { members = assign account_id role g.members })
    ]

pub transfer_owner : Group → String → String → Bool × Group
transfer_owner g old_owner new_owner =
    if old_owner == new_owner
    then (false, g)
    else if g.owner_account_id == old_owner
    then elim (find old_owner g.members) [
      | none ↦ (false, g)
      | some _ ↦ elim (find new_owner g.members) [
        | none ↦ (false, g)
        | some _ ↦ (
          true,
          record g {
            owner_account_id = new_owner;
            members = assign new_owner owner (assign old_owner member g.members);
          },
        )
      ]
    ]
    else (false, g)
