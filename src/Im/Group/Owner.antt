-- ===== src/Im/Group/Owner.antt =====
-- Who owns a group: one member, and nobody else has the role.
use project_chat.Common.{String, ◌≡◌, ◌≢◌, some, arith, text_iff, string_key}
use project_chat.Common.Map.{find, assign, find-assign, find-erase}
use project_chat.Im.Group.{
  Group, GroupRole, member, owner, has_member, add_member, remove_member, set_role, transfer_owner,
}

-- The owner is a member with the owner's role, and the only one.
pub record IsOwned (g : Group) : Type 0 where
  pub owned : find g.owner_account_id g.members ≡ some owner
  pub single : (a : String) → find a g.members ≡ some owner → a ≡ g.owner_account_id

pub add_member-IsOwned :
    (g : Group) (a : String) (r : GroupRole) → IsOwned g → r ≢ owner → IsOwned (add_member g a r).1
unfolding add_member has_member
add_member-IsOwned g a r o h = record {
  owned =
      ground (
        arith,
        o.owned,
        find-assign a g.owner_account_id r g.members,
        text_iff a g.owner_account_id,
      );
  single = λ b e. ground (arith, o.single b, find-assign a b r g.members, text_iff a b, h, e);
}

pub remove_member-IsOwned : (g : Group) (a : String) → IsOwned g → IsOwned (remove_member g a).1
unfolding remove_member has_member
remove_member-IsOwned g a o = record {
  owned =
      ground
        (arith, o.owned, find-erase a g.owner_account_id g.members, text_iff a g.owner_account_id);
  single = λ b e. ground (arith, o.single b, find-erase a b g.members, text_iff a b, e);
}

pub set_role-IsOwned :
    (g : Group) (a : String) (r : GroupRole) → IsOwned g → IsOwned (set_role g a r).1
unfolding set_role
set_role-IsOwned g a r o = record {
  owned =
      ground (
        arith,
        o.owned,
        find-assign a g.owner_account_id r g.members,
        text_iff a g.owner_account_id,
      );
  single = λ b e. ground (arith, o.single b, find-assign a b r g.members, text_iff a b, e);
}

pub transfer_owner-IsOwned :
    (g : Group) (a b : String) → IsOwned g → IsOwned (transfer_owner g a b).1
unfolding transfer_owner
transfer_owner-IsOwned g a b o = record {
  owned = ground (arith, o.owned, find-assign b b owner (assign a member g.members), text_iff b b);
  single = λ c e. ground (
    arith,
    o.single c,
    find-assign b c owner (assign a member g.members),
    find-assign a c member g.members,
    text_iff a c,
    text_iff b c,
    text_iff g.owner_account_id a,
    e,
  );
}
