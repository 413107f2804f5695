-- ===== src/Im/GroupManager/Restore.antt =====
-- What `restoreGroup` makes of stored records, and groups that are put out and in.
use mathlib.Core.Path.{subst}
use project_chat.Common.{
  String, ◌≡◌, sym, ◌∙◌, ap, Bool, true, false, not, ◌&&◌, ◌||◌, some, List, [], ◌∷◌, arith, ◌==◌,
  string_key, text_iff, eq_self, is_empty, if◌then◌else◌, Option-cases, Bool-cases, inl, inr,
}
use project_chat.Common.Map
use project_chat.Common.Map.{Map, find, assign, find-erase, has}
use project_chat.Storage.GroupTypes.{GroupMemberRecord}
use project_chat.Im.Group
use project_chat.Im.Group.{Group, owner, add_member, role_from_uint, is_owner_role}
use project_chat.Im.Group.Members.{has_member-has, has_member-add_member, has_member-new}
use project_chat.Im.Group.Owner.{IsOwned}
use project_chat.Im.Group.Restored.{
  IsPartial, add_owner-IsPartial, add_other-IsPartial, new-IsPartial, completed-IsOwned,
}
use project_chat.Im.GroupManager.{
  GroupManager, Index, is_member, put_out, index_insert, unindex, reindex, restore_members,
  replace_group, remove_group, restore_group, create_group,
}
use project_chat.Im.GroupManager.Index.{indexed-index_insert, indexed-unindex, indexed-reindex}
use project_chat.Im.GroupManager.Consistent.{
  IsConsistent, indexed-found, is_member-assign, IsOwned-assign,
}

owner_record :
    (g : Group) (a o : String) (has_owner : Bool)
    → is_empty a ≡ false
    → (a == o) ≡ true
    → IsPartial g o has_owner
    → IsPartial (add_member g a owner).1 o true
owner_record g a o has_owner named same p =
    let e : a ≡ o = (text_iff a o).0 same in
    subst (λ b. IsPartial (add_member g b owner).1 o true) (sym e)
      (add_owner-IsPartial g o has_owner (ap is_empty (sym e) ∙ named) p)

restore_members-IsPartial :
    (rs : List GroupMemberRecord) (g : Group) (o : String) (has_owner : Bool)
    → IsPartial g o has_owner
    → {g' : Group} {flag : Bool} → restore_members g o has_owner rs ≡ some (g', flag)
    → IsPartial g' o flag
unfolding restore_members
restore_members-IsPartial [] g o has_owner p {g'} {flag} e =
    let a : g ≡ g' = cc in
    let b : has_owner ≡ flag = cc in
    subst (λ x. IsPartial x o flag) a (subst (λ f. IsPartial g o f) b p)
restore_members-IsPartial (r ∷ rs) g o has_owner p e = elim (Bool-cases (is_empty r.account_id)) [
  | inl blank ↦ restore_members-IsPartial rs g o has_owner p (rw blank at e)
  | inr named ↦ elim (Option-cases (role_from_uint r.role)) [
    | inl bad ↦ cc (rw (named, bad, restore_members) at e)
    | inr (role, known) ↦ elim (Bool-cases (r.account_id == o)) [
      | inl same ↦
          restore_members-IsPartial rs (add_member g r.account_id owner).1 o true
            (owner_record g r.account_id o has_owner named same p)
            (rw (named, known, same, restore_members) at e)
      | inr other ↦ elim (Bool-cases (is_owner_role role)) [
        | inl second ↦ cc (rw (named, known, other, second, restore_members) at e)
        | inr plain ↦
            restore_members-IsPartial rs (add_member g r.account_id role).1 o has_owner
              (add_other-IsPartial g r.account_id o role has_owner (ground arith) other p)
              (rw (named, known, other, plain, restore_members) at e)
      ]
    ]
  ]
]

is_member-erase :
    (m : GroupManager) (i j a : String) (index : Index)
    → is_member
        (record { account_id_groups = index; groups_by_id = Map.erase i m.groups_by_id })
        j
        a
      ≡ (not (i == j) && is_member m j a)
unfolding is_member
is_member-erase m i j a index = ground (arith, find-erase i j m.groups_by_id)

pub is_member-put_out :
    (m : GroupManager) (i a : String) → is_member (put_out m i (find i m.groups_by_id)) i a ≡ false
unfolding put_out
is_member-put_out m i a = elim (Option-cases (find i m.groups_by_id)) [
  | inl missing ↦ rw (missing, put_out) (unfold is_member in rw (missing, is_member))
  | inr (g, e) ↦
      rw (e, put_out)
        (is_member-erase m i i a (unindex i g.members m.account_id_groups) ∙ rw (eq_self i))
]

-- With the group put out, and its part of the index, the rest agrees still.
put_out-IsConsistent :
    (m : GroupManager) (i : String)
    → IsConsistent m
    → IsConsistent (put_out m i (find i m.groups_by_id))
unfolding put_out
put_out-IsConsistent m i c = elim (Option-cases (find i m.groups_by_id)) [
  | inl missing ↦ rw (missing, put_out) c
  | inr (g, e) ↦
      rw (e, put_out)
        (record {
          agrees = λ a j. ground (
            arith,
            indexed-unindex i g.members a j m.account_id_groups,
            is_member-erase m i j a (unindex i g.members m.account_id_groups),
            c.agrees a j,
            indexed-found m i a g c e,
            has_member-has g a,
            text_iff i j,
          );
          owned = λ j h p. c.owned j h (ground (arith, find-erase i j m.groups_by_id, p));
        })
]

-- A group that is put in where none is, with its part of the index.
put_in-IsConsistent :
    (m : GroupManager) (i : String) (g : Group)
    → IsConsistent m
    → ((a : String) → is_member m i a ≡ false)
    → IsOwned g
    → IsConsistent (record {
      account_id_groups = reindex i g.members m.account_id_groups;
      groups_by_id = assign i g m.groups_by_id;
    })
put_in-IsConsistent m i g c gone o = record {
  agrees = λ a j. ground (
    arith,
    indexed-reindex i g.members a j m.account_id_groups,
    is_member-assign m i g g j a (reindex i g.members m.account_id_groups),
    c.agrees a j,
    c.agrees a i,
    gone a,
    has_member-has g a,
    text_iff i j,
  );
  owned = IsOwned-assign m i g g c o;
}

pub replace_group-IsConsistent :
    (m : GroupManager) (i : String) (g : Group)
    → IsConsistent m
    → IsOwned g
    → IsConsistent (replace_group m i g)
unfolding replace_group
replace_group-IsConsistent m i g c o =
    put_in-IsConsistent (put_out m i (find i m.groups_by_id)) i g (put_out-IsConsistent m i c)
      (is_member-put_out m i) o

pub remove_group-IsConsistent :
    (m : GroupManager) (i : String) → IsConsistent m → IsConsistent (remove_group m i).1
unfolding remove_group
remove_group-IsConsistent m i c = elim (Option-cases (find i m.groups_by_id)) [
  | inl missing ↦ rw (missing, remove_group) c
  | inr (g, e) ↦
      rw (e, remove_group)
        (subst (λ x. IsConsistent (put_out m i x)) e (put_out-IsConsistent m i c))
]

-- Whatever the records, what `restoreGroup` leaves is consistent.
pub restore_group-IsConsistent :
    (m : GroupManager) (i n o : String) (rs : List GroupMemberRecord)
    → IsConsistent m
    → IsConsistent (restore_group m i n o rs).1
unfolding restore_group
restore_group-IsConsistent m i n o rs c =
    elim (Bool-cases (is_empty i || (is_empty n || is_empty o))) [
      | inl blank ↦ rw blank c
      | inr given ↦ rw given (elim (Option-cases (restore_members (Group.new i n o) o false rs)) [
        | inl bad ↦ rw (bad, restore_group) c
        | inr ((g, flag), e) ↦
            rw (e, restore_group)
              (replace_group-IsConsistent m i (if flag then g else (add_member g o owner).1) c (
                completed-IsOwned g o flag (ground arith)
                  (restore_members-IsPartial rs (Group.new i n o) o false (new-IsPartial i n o) e)))
      ])
    ]

absent_of_free :
    (m : GroupManager) (i a : String) → has i m.groups_by_id ≡ false → is_member m i a ≡ false
unfolding is_member
absent_of_free m i a h = ground arith

-- A new group holds its owner alone.
pub created-IsConsistent :
    (m : GroupManager) (i o n : String) → IsConsistent m → IsConsistent (create_group m i o n).1
unfolding create_group
created-IsConsistent m i o n c = elim (Bool-cases (is_empty i || (is_empty o || is_empty n))) [
  | inl blank ↦ rw blank c
  | inr given ↦ rw given (elim (Bool-cases (not (add_member (Group.new i n o) o owner).0)) [
    | inl refused ↦ rw refused c
    | inr added ↦ rw added (elim (Bool-cases (has i m.groups_by_id)) [
      | inl taken ↦ rw taken c
      | inr free ↦ rw free (record {
        agrees = λ a j. ground (
          arith,
          indexed-index_insert o i a j m.account_id_groups,
          is_member-assign m i (Group.new i n o) (add_member (Group.new i n o) o owner).1 j a
              (index_insert o i m.account_id_groups),
          has_member-add_member (Group.new i n o) o a owner,
          has_member-new i n o a,
          absent_of_free m i a free,
          c.agrees a i,
          c.agrees a j,
          text_iff i j,
          added,
        );
        owned =
            IsOwned-assign m i (Group.new i n o) (add_member (Group.new i n o) o owner).1 c
              (completed-IsOwned (Group.new i n o) o false (ground arith) (new-IsPartial i n o));
      })
    ])
  ])
]
