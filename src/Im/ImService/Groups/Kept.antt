-- ===== src/Im/ImService/Groups/Kept.antt =====
-- What a request leaves of the groups in memory.
use project_chat.Common.{
  is_empty, ◌||◌, refl, ℕ, ◌≡◌, String, not, List, if-cases, Option-both, Sum-both, ◌⊎◌, inl, inr,
}
use project_chat.Storage.Results.{is_ok}
use project_chat.Im.Json.{Json}
use project_chat.Im.ImMessage.{Request}
use project_chat.Im.SessionManager.{Session, authed}
use project_chat.Im.GroupManager.Consistent.{IsConsistent}
use project_chat.Im.GroupService.Membership.{kick_member, set_admin, transfer_owner}
use project_chat.Im.GroupService.Lifecycle.{create_group, invite_member}
use project_chat.Im.GroupService.Ending.{dissolve_group}
use project_chat.Im.GroupService.Invariant.{
  kick_member-Keeps, set_admin-Keeps, transfer_owner-Keeps, create_group-Keeps, invite_member-Keeps,
  dissolve_group-Keeps,
}
use project_chat.Im.GroupManager.{is_owner}
use project_chat.Storage.Results.{RepoValueResult}
use project_chat.Storage.GroupTypes.{GroupJoinApplyResult}
use project_chat.Im.GroupService.{World}
use project_chat.Im.GroupJoinService.{GroupJoinService, apply_to_join, review_request}
use project_chat.Im.GroupJoinService.Review.{review_request-Reviewed}
use project_chat.Im.ImService.Groups.{
  Served, Sends, Target, Answer, world, with_world, admit_kick, admit_set_admin, admit_change,
  handle_kick_group_member, handle_set_group_admin, handle_transfer_group_owner,
}
use project_chat.Im.ImService.Groups.Lifecycle.{
  admit_dissolution, admit_creation, handle_invite_group_member, handle_dissolve_group,
  handle_create_group,
}
use project_chat.Im.ImService.Groups.Guarded.{
  Good, announce-Good, announce_kick-Good, announce_invitation-Good, announce_dissolution-Good,
  created_answer-Good, announce_review-Good, leave_group-Good,
}
use project_chat.Im.ImService.Groups.Joining.{read_group, handle_leave}
use project_chat.Im.ImService.Groups.Reviewing.{
  admit_application, admit_review, handle_apply_group_join, handle_review_group_join,
}
use project_chat.Im.ImService.Groups.Requests.{
  Kind, kick, appoint, transfer, invite, dissolve, create, leave, apply, review, Services, handle,
}
use project_chat.Im.ImService.Groups.Refused.{state-cases, Refused, refused}

-- A request to join changes the database only.
apply_to_join-memory :
    {D : Type 0} (j : GroupJoinService D) (w : World D) (i a message : String) (now : ℕ)
    → (apply_to_join j w i a message now).1.memory ≡ w.memory
unfolding apply_to_join
apply_to_join-memory {D} j w i a message now =
    let Same = λ (out : RepoValueResult GroupJoinApplyResult × World D). out.1.memory ≡ w.memory in
    if-cases Same (is_empty i || is_empty a) (λ _. refl)
      (λ _.
        Option-both Same (j.user_profile_repo.find_by_account_id w.database a) (λ _. refl)
          (λ _ _. refl))

module _ {J : Type 0} {D : Type 0} (json : Json J) (v : Services D) where
  module _ (x : Served J D) (o : Sends) (key : ℕ) (session : Session) (req : Request J) where
    module _ (c : IsConsistent x.service.groups) where
      abbrev Fine : Answer J D → Type 0
      Fine = Good json

      kick-Good : Fine (handle_kick_group_member json v.groups x o key session req)
      unfolding handle_kick_group_member
      kick-Good =
          Sum-both Fine (admit_kick json v.groups req session) (λ _ _. c)
            λ a _.
              let t : Target = a.1 in
              let done =
                kick_member a.0 (world x) t.group_id session.account_id t.target_account_id in
              let c' : IsConsistent done.1.memory =
                (kick_member-Keeps a.0 (world x) t.group_id session.account_id t.target_account_id
                  c).kept in
              if-cases Fine (not (is_ok done.0.status)) (λ _. c')
                (λ _. announce_kick-Good json (with_world x done.1) o key session req t c')

      appoint-Good : Fine (handle_set_group_admin json v.groups x o key session req)
      unfolding handle_set_group_admin
      appoint-Good =
          Sum-both Fine (admit_set_admin json v.groups req session) (λ _ _. c)
            λ a _.
              let (g, t, enable) = a in
              let done =
                set_admin g (world x) t.group_id session.account_id t.target_account_id enable in
              let c' : IsConsistent done.1.memory =
                (set_admin-Keeps g (world x) t.group_id session.account_id t.target_account_id
                  enable c).kept in
              if-cases Fine (not (is_ok done.0.status)) (λ _. c')
                (λ _. announce-Good json (with_world x done.1) o 0 t.group_id key _ _ c')

      transfer-Good : Fine (handle_transfer_group_owner json v.groups x o key session req)
      unfolding handle_transfer_group_owner
      transfer-Good =
          Sum-both Fine (admit_change json v.groups req session) (λ _ _. c)
            λ a _.
              let t : Target = a.1 in
              let done =
                transfer_owner a.0 (world x) t.group_id session.account_id t.target_account_id in
              let c' : IsConsistent done.1.memory =
                (transfer_owner-Keeps a.0 (world x) t.group_id session.account_id
                  t.target_account_id c).kept in
              if-cases Fine (not (is_ok done.0.status)) (λ _. c')
                (λ _. announce-Good json (with_world x done.1) o 0 t.group_id key _ _ c')

      invite-Good : Fine (handle_invite_group_member json v.groups x o key session req)
      unfolding handle_invite_group_member
      invite-Good =
          Sum-both Fine (admit_change json v.groups req session) (λ _ _. c)
            λ a _.
              let t : Target = a.1 in
              let done =
                invite_member a.0 (world x) t.group_id session.account_id t.target_account_id in
              let c' : IsConsistent done.1.memory =
                (invite_member-Keeps a.0 (world x) t.group_id session.account_id t.target_account_id
                  c).kept in
              if-cases Fine (not (is_ok done.0.status)) (λ _. c')
                (λ _.
                  Option-both Fine done.0.value (λ _. c')
                    (λ r _.
                      announce_invitation-Good json (with_world x done.1) o key session req t r c'))

      dissolve-Good : (now : ℕ) → Fine (handle_dissolve_group json v.groups x o now session req)
      unfolding handle_dissolve_group
      dissolve-Good now =
          Sum-both Fine (admit_dissolution json v.groups req session) (λ _ _. c)
            λ a _.
              let done = dissolve_group a.0 (world x) a.1 session.account_id now in
              let c' : IsConsistent done.1.memory =
                (dissolve_group-Keeps a.0 (world x) a.1 session.account_id now c).kept in
              if-cases Fine (not (is_ok done.0.status)) (λ _. c')
                (λ _.
                  Option-both Fine done.0.value (λ _. c')
                    (λ r _.
                      announce_dissolution-Good json (with_world x done.1) o session req a.1 r c'))

      create-Good :
          (readings : List ℕ)
          → Fine (handle_create_group json v.groups v.print_id x readings key session req)
      unfolding handle_create_group
      create-Good readings =
          Sum-both Fine (admit_creation json v.groups x.service.config req session) (λ _ _. c)
            λ a _.
              let done = create_group a.0 v.print_id (world x) session.account_id a.1 readings in
              let c' : IsConsistent done.1.memory =
                (create_group-Keeps a.0 v.print_id (world x) session.account_id a.1 readings
                  c).kept in
              Option-both Fine done.0 (λ _. c')
                (λ r _. created_answer-Good json (with_world x done.1) key session req a.1 r c')

      leave-Good : Fine (handle_leave json v.group_repo x o key session req)
      unfolding handle_leave
      leave-Good =
          Sum-both Fine (read_group json req session) (λ _ _. c)
            λ i _.
              if-cases Fine (is_owner x.service.groups i session.account_id) (λ _. c)
                (λ _. leave_group-Good json v.group_repo x o key session req i c)

      apply-Good : (now : ℕ) → Fine (handle_apply_group_join json v.joins x now session req)
      unfolding handle_apply_group_join
      apply-Good now =
          Sum-both Fine (admit_application json v.joins req session) (λ _ _. c)
            λ a _.
              let (j, i, message) = a in
              let done = apply_to_join j (world x) i session.account_id message now in
              let c' : IsConsistent done.1.memory =
                rw (apply_to_join-memory j (world x) i session.account_id message now) c in
              if-cases Fine (not (is_ok done.0.status)) (λ _. c')
                (λ _. Option-both Fine done.0.value (λ _. c') (λ _ _. c'))

      review-Good : (now : ℕ) → Fine (handle_review_group_join json v.joins x o now key session req)
      unfolding handle_review_group_join
      review-Good now =
          Sum-both Fine (admit_review json v.joins req session) (λ _ _. c)
            λ a _.
              let done =
                review_request a.joins (world x) a.group_id a.applicant_account_id
                  session.account_id a.approve now in
              let c' : IsConsistent done.1.memory =
                (review_request-Reviewed a.joins (world x) a.group_id a.applicant_account_id
                    session.account_id a.approve now).consistent
                  c in
              if-cases Fine (not (is_ok done.0.status)) (λ _. c')
                (λ _.
                  Option-both Fine done.0.value (λ _. c')
                    (λ r _.
                      announce_review-Good json v.joins (with_world x done.1) o key session req a r
                        c'))

    -- Each of the nine handlers of a kick, an appointment, a transfer, an invitation, a
    -- dissolution, a creation, a leave, a request to join and its review answers a session that
    -- is not logged in with an error and changes nothing; and it keeps consistent groups in memory
    -- consistent, whatever the repositories and the batch sender answer, also when it ends with an
    -- exception of the generator.
    pub handle-Guarded :
        (k : Kind)
        → IsConsistent x.service.groups
        → IsConsistent (handle json v x o key session req k).1.service.groups
          × ((session.state ≡ authed) ⊎ Refused json x req (handle json v x o key session req k))
    unfolding handle
    handle-Guarded k c = (
      elim k as (λ k. Good json (handle json v x o key session req k)) [
        | kick ↦ kick-Good c
        | appoint ↦ appoint-Good c
        | transfer ↦ transfer-Good c
        | invite ↦ invite-Good c
        | dissolve now ↦ dissolve-Good c now
        | create readings ↦ create-Good c readings
        | leave ↦ leave-Good c
        | apply now ↦ apply-Good c now
        | review now ↦ review-Good c now
      ],
      elim (state-cases session.state) [
        | inl h ↦ inl h
        | inr h ↦ inr (refused json v x o key session req h k)
      ],
    )
