-- ===== src/Im/GroupManager/Consistent.antt =====
-- The two maps of the manager agree: the index has a group under an account exactly when the
-- account is a member of it. And each group has one owner.
use mathlib.Core.Path.{subst}
use project_chat.Common.{
  String, ◌≡◌, ◌∙◌, some, arith, ◌==◌, string_key, text_iff, if◌then◌else◌, Option-cases,
  Bool-cases, inl, inr,
}
use project_chat.Common.Map.{find, assign, find-assign}
use project_chat.Im.Group
use project_chat.Im.Group.{Group, member, has_member}
use project_chat.Im.Group.Owner.{IsOwned, add_member-IsOwned, remove_member-IsOwned}
use project_chat.Im.Group.Members.{has_member-add_member, has_member-remove_member}
use project_chat.Im.GroupManager.{
  GroupManager, Index, index_insert, index_remove, is_member, add_to, join_group, remove_from,
}
use project_chat.Im.GroupManager.Index.{indexed, indexed-index_insert, indexed-index_remove}

pub record IsConsistent (m : GroupManager) : Type 0 where
  pub agrees : (a g : String) → indexed a g m.account_id_groups ≡ is_member m g a
  pub owned : (i : String) (g : Group) → find i m.groups_by_id ≡ some g → IsOwned g

-- A group that is changed in place.
module _ (m : GroupManager) (i : String) (g g' : Group) where
  pub is_member-assign :
      (j a : String) (index : Index)
      → is_member
          (record { account_id_groups = index; groups_by_id = assign i g' m.groups_by_id })
          j
          a
        ≡ (if i == j then has_member g' a else is_member m j a)
  unfolding is_member
  is_member-assign j a index = ground (arith, find-assign i j g' m.groups_by_id)

  pub IsOwned-assign :
      IsConsistent m
      → IsOwned g'
      → (j : String) (h : Group) → find j (assign i g' m.groups_by_id) ≡ some h
      → IsOwned h
  IsOwned-assign c o j h e = elim (Bool-cases (i == j)) [
    | inl same ↦
        let p : some g' ≡ some h = ground (arith, find-assign i j g' m.groups_by_id) in
        let q : g' ≡ h = cc in subst IsOwned q o
    | inr other ↦ c.owned j h (ground (arith, find-assign i j g' m.groups_by_id))
  ]

pub indexed-found :
    (m : GroupManager) (i a : String) (g : Group)
    → IsConsistent m
    → find i m.groups_by_id ≡ some g
    → indexed a i m.account_id_groups ≡ has_member g a
unfolding is_member
indexed-found m i a g c e = c.agrees a i ∙ rw (e, is_member)

-- A consistent state after a member was added to, or removed from, the group found at `i`.
module _ (m : GroupManager) (i a : String) (g : Group) (c : IsConsistent m)
    (e : find i m.groups_by_id ≡ some g) where
  add_to-IsConsistent : IsConsistent (add_to m i a g).1
  unfolding add_to
  add_to-IsConsistent = elim (Bool-cases (Group.add_member g a member).0) [
    | inl added ↦
        rw (added, add_to)
          (record {
            agrees = λ b j. ground (
              arith,
              indexed-index_insert a i b j m.account_id_groups,
              is_member-assign m i g (Group.add_member g a member).1 j b
                  (index_insert a i m.account_id_groups),
              has_member-add_member g a b member,
              c.agrees b j,
              indexed-found m i b g c e,
              text_iff i j,
            );
            owned =
                IsOwned-assign m i g (Group.add_member g a member).1 c
                  (add_member-IsOwned g a member (c.owned i g e) (ground arith));
          })
    | inr kept ↦ rw (kept, add_to) c
  ]

  pub remove_from-IsConsistent : IsConsistent (remove_from m i a g).1
  unfolding remove_from
  remove_from-IsConsistent = elim (Bool-cases (Group.remove_member g a).0) [
    | inl removed ↦
        rw (removed, remove_from)
          (record {
            agrees = λ b j. ground (
              arith,
              indexed-index_remove a i b j m.account_id_groups,
              is_member-assign m i g (Group.remove_member g a).1 j b
                  (index_remove a i m.account_id_groups),
              has_member-remove_member g a b,
              c.agrees b j,
              indexed-found m i b g c e,
              text_iff i j,
            );
            owned =
                IsOwned-assign m i g (Group.remove_member g a).1 c
                  (remove_member-IsOwned g a (c.owned i g e));
          })
    | inr kept ↦ rw (kept, remove_from) c
  ]

  -- A change that keeps the members.
  pub changed-IsConsistent :
      (g' : Group)
      → ((b : String) → has_member g' b ≡ has_member g b)
      → IsOwned g'
      → IsConsistent (record m { groups_by_id = assign i g' m.groups_by_id })
  changed-IsConsistent g' same o = record {
    agrees = λ b j. ground (
      arith,
      is_member-assign m i g g' j b m.account_id_groups,
      same b,
      c.agrees b j,
      indexed-found m i b g c e,
      text_iff i j,
    );
    owned = IsOwned-assign m i g g' c o;
  }

pub join_group-IsConsistent :
    (m : GroupManager) (i a : String) → IsConsistent m → IsConsistent (join_group m i a).1
unfolding join_group
join_group-IsConsistent m i a c = elim (Option-cases (find i m.groups_by_id)) [
  | inl missing ↦ rw (missing, join_group) c
  | inr (g, e) ↦
      rw (e, join_group)
        (elim (Bool-cases (is_member m i a)) [
          | inl old ↦ rw old c
          | inr fresh ↦ rw fresh (add_to-IsConsistent m i a g c e)
        ])
]
