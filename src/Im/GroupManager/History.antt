-- ===== src/Im/GroupManager/History.antt =====
-- All that the other components can do to the manager.
use project_chat.Common.{
  String, sym, ◌∙◌, ◌||◌, List, [], ◌∷◌, string_key, is_empty, Option-cases, Bool-cases, inl, inr,
}
use project_chat.Common.Map.{find, find-nil}
use project_chat.Storage.GroupTypes.{GroupMemberRecord}
use project_chat.Im.Group
use project_chat.Im.Group.{Group, GroupRole}
use project_chat.Im.Group.Owner.{set_role-IsOwned, transfer_owner-IsOwned}
use project_chat.Im.Group.Members.{has_member-set_role, has_member-transfer_owner}
use project_chat.Im.GroupManager.{
  GroupManager, is_member, create_group, join_group, leave_group, remove_member, remove_from,
  remove_group, restore_group, set_member_role, transfer_owner,
}
use project_chat.Im.GroupManager.Index.{indexed-nil}
use project_chat.Im.GroupManager.Consistent.{
  IsConsistent, join_group-IsConsistent, remove_from-IsConsistent, changed-IsConsistent,
}
use project_chat.Im.GroupManager.Restore.{
  remove_group-IsConsistent, restore_group-IsConsistent, created-IsConsistent,
}

pub data Call : Type 0 where
  create : String → String → String → Call
  join leave kick : String → String → Call
  dissolve : String → Call
  restore : String → String → String → List GroupMemberRecord → Call
  set_role : String → String → GroupRole → Call
  transfer : String → String → String → Call

pub step : GroupManager → Call → GroupManager
step m (create i o n) = (create_group m i o n).1
step m (join i a) = (join_group m i a).1
step m (leave i a) = (leave_group m i a).1
step m (kick i a) = (remove_member m i a).1
step m (dissolve i) = (remove_group m i).1
step m (restore i n o rs) = (restore_group m i n o rs).1
step m (set_role i a r) = (set_member_role m i a r).1
step m (transfer i a b) = (transfer_owner m i a b).1

pub run : GroupManager → List Call → GroupManager
run m [] = m
run m (c ∷ cs) = run (step m c) cs

abbrev pub start : GroupManager
start = record { account_id_groups = []; groups_by_id = [] }

module _ (m : GroupManager) (c : IsConsistent m) where
  pub leave_group-IsConsistent : (i a : String) → IsConsistent (leave_group m i a).1
  unfolding leave_group
  leave_group-IsConsistent i a = elim (Option-cases (find i m.groups_by_id)) [
    | inl missing ↦ rw (missing, leave_group) c
    | inr (g, e) ↦
        rw (e, leave_group)
          (elim (Bool-cases (remove_from m i a g).0) [
            | inl gone ↦ rw gone (remove_from-IsConsistent m i a g c e)
            | inr kept ↦ rw kept c
          ])
  ]

  pub remove_member-IsConsistent : (i a : String) → IsConsistent (remove_member m i a).1
  unfolding remove_member
  remove_member-IsConsistent i a = elim (Bool-cases (is_empty i || is_empty a)) [
    | inl blank ↦ rw blank c
    | inr given ↦ rw given (elim (Option-cases (find i m.groups_by_id)) [
      | inl missing ↦ rw (missing, remove_member) c
      | inr (g, e) ↦ rw (e, remove_member) (remove_from-IsConsistent m i a g c e)
    ])
  ]

  pub set_member_role-IsConsistent :
      (i a : String) (r : GroupRole) → IsConsistent (set_member_role m i a r).1
  unfolding set_member_role
  set_member_role-IsConsistent i a r = elim (Bool-cases (is_member m i a)) [
    | inl there ↦ rw there (elim (Option-cases (find i m.groups_by_id)) [
      | inl missing ↦ rw (missing, set_member_role) c
      | inr (g, e) ↦
          rw (e, set_member_role)
            (changed-IsConsistent m i a g c e (Group.set_role g a r).1
              (λ b. has_member-set_role g a b r) (set_role-IsOwned g a r (c.owned i g e)))
    ])
    | inr absent ↦ rw absent c
  ]

  pub transfer_owner-IsConsistent : (i a b : String) → IsConsistent (transfer_owner m i a b).1
  unfolding transfer_owner
  transfer_owner-IsConsistent i a b = elim (Option-cases (find i m.groups_by_id)) [
    | inl missing ↦ rw (missing, transfer_owner) c
    | inr (g, e) ↦
        rw (e, transfer_owner)
          (elim (Bool-cases (Group.is_owner g a)) [
            | inl owns ↦ rw owns (
                changed-IsConsistent m i a g c e (Group.transfer_owner g a b).1
                  (λ d. has_member-transfer_owner g a d b)
                  (transfer_owner-IsOwned g a b (c.owned i g e)))
            | inr other ↦ rw other c
          ])
  ]

step-IsConsistent : (m : GroupManager) (c : Call) → IsConsistent m → IsConsistent (step m c)
unfolding step
step-IsConsistent m (create i o n) h = created-IsConsistent m i o n h
step-IsConsistent m (join i a) h = join_group-IsConsistent m i a h
step-IsConsistent m (leave i a) h = leave_group-IsConsistent m h i a
step-IsConsistent m (kick i a) h = remove_member-IsConsistent m h i a
step-IsConsistent m (dissolve i) h = remove_group-IsConsistent m i h
step-IsConsistent m (restore i n o rs) h = restore_group-IsConsistent m i n o rs h
step-IsConsistent m (set_role i a r) h = set_member_role-IsConsistent m h i a r
step-IsConsistent m (transfer i a b) h = transfer_owner-IsConsistent m h i a b

run-IsConsistent_from :
    (m : GroupManager) (cs : List Call) → IsConsistent m → IsConsistent (run m cs)
unfolding run
run-IsConsistent_from m [] h = h
run-IsConsistent_from m (c ∷ cs) h = run-IsConsistent_from (step m c) cs (step-IsConsistent m c h)

start-IsConsistent : IsConsistent start
unfolding is_member
start-IsConsistent = record {
  agrees = λ a g. indexed-nil a g ∙ sym (rw (find-nil {V = Group} g, is_member));
  owned = λ i g e. cc (find-nil {V = Group} i);
}

-- After any history of calls the index has a group under an account exactly when the account is
-- a member of it, and each group's owner is the one member with the owner's role.
pub run-IsConsistent : (cs : List Call) → IsConsistent (run start cs)
run-IsConsistent cs = run-IsConsistent_from start cs start-IsConsistent
