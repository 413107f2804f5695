-- ===== src/Storage/MemoryGroupRepo.antt =====
-- src/storage/memory/MemoryGroupRepo.cpp, the methods that use its map, with their status and
-- less the message.
pub mod Creation
use project_chat.Common.{
  String, Bool, false, ◌||◌, none, some, List, ◌∷◌, map, if◌then◌else◌, string_key, is_empty,
}
use project_chat.Common.Map.{Map, find, assign, is_some}
use project_chat.Common.KeySet
use project_chat.Common.KeySet.{KeySet, contains, insert}
use project_chat.Storage.Results.{RepoStatus, ok, already_exists, not_found, invalid_argument}
use project_chat.Storage.GroupTypes.{GroupSnapshot, active}

pub record GroupRecord : Type 0 where
  pub group_id : String
  pub group_name : String
  pub owner : String
  pub members : KeySet String

pub record MemoryGroupRepo : Type 0 where
  pub groups : Map String GroupRecord

-- The test on what is found stands as it does in the source.
pub create_group : MemoryGroupRepo → String → String → String → RepoStatus × MemoryGroupRepo
create_group r group_id group_name owner =
    if is_empty group_id || (is_empty group_name || is_empty owner)
    then (invalid_argument, r)
    else elim (find group_id r.groups) [ none ↦ (already_exists, r) | some _ ↦ (ok, r) ]

pub add_member : MemoryGroupRepo → String → String → RepoStatus × MemoryGroupRepo
add_member r group_id username = elim (find group_id r.groups) [
  | none ↦ (not_found, r)
  | some g ↦ if contains username g.members then (already_exists, r) else (
    ok,
    record { groups = assign group_id (record g { members = insert username g.members }) r.groups },
  )
]

pub remove_member : MemoryGroupRepo → String → String → RepoStatus × MemoryGroupRepo
remove_member r group_id username = elim (find group_id r.groups) [
  | none ↦ (not_found, r)
  | some g ↦
      if contains username g.members
      then (
        ok,
        record {
          groups =
              assign group_id (record g { members = KeySet.erase username g.members }) r.groups;
        },
      )
      else (not_found, r)
]

pub group_exists : MemoryGroupRepo → String → Bool
group_exists r group_id = is_some (find group_id r.groups)

pub is_member : MemoryGroupRepo → String → String → Bool
is_member r group_id account_id = elim (find group_id r.groups) [
  | none ↦ false
  | some g ↦ contains account_id g.members
]

pub list_groups : MemoryGroupRepo → List GroupSnapshot
list_groups r =
    map
      (λ e. record {
        group_id = e.1.group_id;
        group_name = e.1.group_name;
        owner_account_id = e.1.owner;
        status = active;
        dissolved_at_ms = 0;
      })
      r.groups
