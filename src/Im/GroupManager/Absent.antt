-- ===== src/Im/GroupManager/Absent.antt =====
-- Who is no member after a removal, and after a group is loaded again.
use project_chat.Common.{
  String, ◌≡◌, Bool, true, false, ◌||◌, some, List, [], ◌∷◌, arith, ◌==◌, string_key, text_iff,
  is_empty, if◌then◌else◌, Option-cases, Bool-cases, inl, inr,
}
use project_chat.Common.Map.{find}
use project_chat.Storage.GroupTypes.{GroupMemberRecord}
use project_chat.Im.Group
use project_chat.Im.Group.{Group, owner, has_member, add_member, role_from_uint, is_owner_role}
use project_chat.Im.Group.Members.{has_member-add_member, has_member-remove_member, has_member-new}
use project_chat.Im.GroupManager.{
  GroupManager, is_member, remove_from, remove_member, put_out, remove_group, index_remove, reindex,
  restore_members, replace_group, restore_group,
}
use project_chat.Im.GroupManager.Consistent.{is_member-assign}
use project_chat.Im.GroupManager.Restore.{is_member-put_out}

-- No record is of that account.
abbrev pub Unlisted : String → List GroupMemberRecord → Type 0
Unlisted a [] = Unit
Unlisted a (r ∷ rs) = ((r.account_id == a) ≡ false) × Unlisted a rs

remove_from-absent :
    (m : GroupManager) (i a : String) (g : Group)
    → (remove_from m i a g).0 ≡ true
    → is_member (remove_from m i a g).1 i a ≡ false
unfolding remove_from
remove_from-absent m i a g h = ground (
  arith,
  h,
  is_member-assign m i g (Group.remove_member g a).1 i a (index_remove a i m.account_id_groups),
  has_member-remove_member g a a,
  text_iff i i,
  text_iff a a,
)

pub remove_member-absent :
    (m : GroupManager) (i a : String)
    → (remove_member m i a).0 ≡ true
    → is_member (remove_member m i a).1 i a ≡ false
unfolding remove_member
remove_member-absent m i a h = elim (Bool-cases (is_empty i || is_empty a)) [
  | inl blank ↦ cc (rw blank at h)
  | inr given ↦ rw given (elim (Option-cases (find i m.groups_by_id)) [
    | inl missing ↦ cc (rw (given, missing, remove_member) at h)
    | inr (g, e) ↦
        rw (e, remove_member) (remove_from-absent m i a g (rw (given, e, remove_member) at h))
  ])
]

pub remove_group-absent :
    (m : GroupManager) (i a : String) → is_member (remove_group m i).1 i a ≡ false
unfolding remove_group put_out
remove_group-absent m i a = elim (Option-cases (find i m.groups_by_id)) [
  | inl missing ↦ rw (missing, remove_group) (rw (missing, put_out) at (is_member-put_out m i a))
  | inr (g, e) ↦ rw (e, remove_group) (rw (e, put_out) at (is_member-put_out m i a))
]

restore_members-absent :
    (rs : List GroupMemberRecord) (g : Group) (o a : String) (has_owner : Bool)
    → has_member g a ≡ false
    → Unlisted a rs
    → {g' : Group} {flag : Bool} → restore_members g o has_owner rs ≡ some (g', flag)
    → has_member g' a ≡ false
unfolding restore_members
restore_members-absent [] g o a has_owner h u {g'} e = let same : g ≡ g' = cc in cc
restore_members-absent (r ∷ rs) g o a has_owner h u e = elim (Bool-cases (is_empty r.account_id)) [
  | inl blank ↦ restore_members-absent rs g o a has_owner h u.1 (rw blank at e)
  | inr named ↦ elim (Option-cases (role_from_uint r.role)) [
    | inl bad ↦ cc (rw (named, bad, restore_members) at e)
    | inr (role, known) ↦ elim (Bool-cases (r.account_id == o)) [
      | inl same ↦
          restore_members-absent rs (add_member g r.account_id owner).1 o a true
            (ground (arith, h, u.0, has_member-add_member g r.account_id a owner)) u.1
            (rw (named, known, same, restore_members) at e)
      | inr other ↦ elim (Bool-cases (is_owner_role role)) [
        | inl second ↦ cc (rw (named, known, other, second, restore_members) at e)
        | inr plain ↦
            restore_members-absent rs (add_member g r.account_id role).1 o a has_owner
              (ground (arith, h, u.0, has_member-add_member g r.account_id a role)) u.1
              (rw (named, known, other, plain, restore_members) at e)
      ]
    ]
  ]
]

replace_group-absent :
    (m : GroupManager) (i a : String) (g : Group)
    → has_member g a ≡ false
    → is_member (replace_group m i g) i a ≡ false
unfolding replace_group
replace_group-absent m i a g h =
    let old = put_out m i (find i m.groups_by_id) in
    ground (
      arith,
      h,
      is_member-assign old i g g i a (reindex i g.members old.account_id_groups),
      text_iff i i,
    )

pub restore_group-absent :
    (m : GroupManager) (i n o a : String) (rs : List GroupMemberRecord)
    → (restore_group m i n o rs).0 ≡ true
    → Unlisted a rs
    → (o == a) ≡ false
    → is_member (restore_group m i n o rs).1 i a ≡ false
unfolding restore_group
restore_group-absent m i n o a rs h u ne =
    elim (Bool-cases (is_empty i || (is_empty n || is_empty o))) [
      | inl blank ↦ cc (rw blank at h)
      | inr given ↦ rw given (elim (Option-cases (restore_members (Group.new i n o) o false rs)) [
        | inl bad ↦ cc (rw (given, bad, restore_group) at h)
        | inr ((g, flag), e) ↦
            let gone =
              restore_members-absent rs (Group.new i n o) o a false (has_member-new i n o a) u e in
            rw (e, restore_group)
              (replace_group-absent m i a (if flag then g else (add_member g o owner).1)
                (ground (arith, gone, ne, has_member-add_member g o a owner)))
      ])
    ]
