-- ===== src/Im/Group/Members.antt =====
-- How each operation changes who is a member.
use project_chat.Common.{
  String, ◌≡◌, refl, ap, false, not, ◌&&◌, ◌||◌, arith, ◌==◌, string_key, text_iff,
}
use project_chat.Common.Map.{has, is_some, find-nil, assign, find-assign, find-erase}
use project_chat.Im.Group.{
  Group, GroupRole, member, owner, new, has_member, add_member, remove_member, set_role,
  transfer_owner,
}

module _ (g : Group) (a b : String) where
  pub has_member-add_member :
      (r : GroupRole)
      → has_member (add_member g a r).1 b ≡ (((add_member g a r).0 && (a == b)) || has_member g b)
  unfolding has_member add_member
  has_member-add_member r = ground (arith, find-assign a b r g.members, text_iff a b)

  pub has_member-remove_member :
      has_member (remove_member g a).1 b
      ≡ (not ((remove_member g a).0 && (a == b)) && has_member g b)
  unfolding has_member remove_member
  has_member-remove_member = ground (arith, find-erase a b g.members, text_iff a b)

  pub has_member-set_role : (r : GroupRole) → has_member (set_role g a r).1 b ≡ has_member g b
  unfolding has_member set_role
  has_member-set_role r = ground (arith, find-assign a b r g.members, text_iff a b)

  pub has_member-transfer_owner :
      (n : String) → has_member (transfer_owner g a n).1 b ≡ has_member g b
  unfolding has_member transfer_owner
  has_member-transfer_owner n = ground (
    arith,
    find-assign n b owner (assign a member g.members),
    find-assign a b member g.members,
    text_iff a b,
    text_iff n b,
  )

-- Nobody with the empty name becomes a member.
pub add_member-refused : (g : Group) (r : GroupRole) → (add_member g "" r).0 ≡ false
unfolding add_member
add_member-refused g r = ground arith

pub has_member-has : (g : Group) (a : String) → has_member g a ≡ has a g.members
unfolding has_member
has_member-has g a = refl

pub has_member-new : (i n o a : String) → has_member (new i n o) a ≡ false
unfolding has_member new
has_member-new i n o a = ap is_some (find-nil {V = GroupRole} a)
