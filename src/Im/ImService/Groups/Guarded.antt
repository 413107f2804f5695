-- ===== src/Im/ImService/Groups/Guarded.antt =====
-- What the handlers about a group keep.
use project_chat.Common.{
  string_key, ℕ, ◌+◌, ◌≡◌, refl, ◌∙◌, String, not, Option, none, some, List, [], ◌∷◌, length, eqb,
  if◌then◌else◌, if-cases, Option-both,
}
use project_chat.Storage.Results.{RepoValueResult, RepoStatus, is_ok}
use project_chat.Net.Batch.{BatchSendResult}
use project_chat.Im.Json.{Json}
use project_chat.Im.ImMessage.{Request, Response}
use project_chat.Im.SessionManager.{Session, remove_joined_group, conn_keys_by_account_id}
use project_chat.Im.GroupManager.Consistent.{IsConsistent}
use project_chat.Im.GroupService.{GroupInviteResult, GroupDissolveResult, GroupCreateResult}
use project_chat.Im.ImService.{ImService, Stamp, collect_group_targets}
use project_chat.Im.ImService.Pushes.{push_to_account, broadcast_to_group, decorate, send_encoded}
use project_chat.Im.ImService.Groups.Lifecycle.{
  announce_invitation, announce_dissolution, created_answer, push_to_all, decorated_event,
}
use project_chat.Storage.Repos.{GroupRepo}
use project_chat.Storage.GroupTypes.{GroupJoinReviewResult}
use project_chat.Im.GroupJoinService.{GroupJoinService}
use project_chat.Im.GroupManager.Consistent.{join_group-IsConsistent}
use project_chat.Im.ImService.Groups.Joining.{remove_left, leave_group, is_gone, change_own}
use project_chat.Common.KeySet
use project_chat.Im.GroupManager
use project_chat.Im.GroupManager.{QuitResult, ok_left, err_not_in_group}
use project_chat.Im.GroupManager.History.{leave_group-IsConsistent}
use project_chat.Im.ImService.Groups.Reviewing.{announce_review, Review}
use project_chat.Im.ImService.Groups.{
  Served, Sends, Target, Answer, group_event, announce, announce_kick,
}

-- A property of an outcome that depends on how a leave went.
QuitResult-both {ℓ κ} :
    {A : Type ℓ} (P : A → Type κ) (q : QuitResult) {x y z : A}
    → P x
    → P y
    → P z
    → P (elim q [ QuitResult.err_no_such_group ↦ x | err_not_in_group ↦ y | ok_left ↦ z ])
QuitResult-both P QuitResult.err_no_such_group a b c = a
QuitResult-both P err_not_in_group a b c = b
QuitResult-both P ok_left a b c = c

module _ {J : Type 0} (json : Json J) where
  -- What keeps the groups in memory as they are.
  abbrev Same : {A : Type 0} → ImService J → A × ImService J → Type 0
  Same s out = out.1.groups ≡ s.groups

  send-Same :
      (s : ImService J) (targets : List ℕ) (r : Response J) (b : BatchSendResult)
      → Same s (send_encoded json s targets r b)
  unfolding send_encoded
  send-Same s targets r b =
      if-cases (Same s) (eqb (length targets) 0) (λ _. refl)
        (λ _. if-cases (Same s) (not s.wiring.batch_sender) (λ _. refl) (λ _. refl))

  broadcast-Same :
      (s : ImService J) (i : String) (key : ℕ) (r : Response J) (st : Stamp) (b : BatchSendResult)
      → Same s (broadcast_to_group json s i key r st b)
  unfolding broadcast_to_group
  broadcast-Same s i key r st b =
      let numbered : Response J = record r { req_id = 0 } in
      let id : Option ℕ =
        if json.contains r.answer "msgId"
        then some (json.tested_uint64 (json.at r.answer "msgId"))
        else none in
      let drawn = decorate json s.ids st numbered id none in
      let s' : ImService J = record s { ids = drawn.1 } in
      Option-both (Same s) drawn.0 (λ _. refl)
        (λ q _. send-Same s' (collect_group_targets s.sessions s.groups i key) q b)

  push-Same :
      (s : ImService J) (a : String) (r : Response J) (st : Stamp) (b : BatchSendResult)
      → Same s (push_to_account json s a r st b)
  unfolding push_to_account
  push-Same s a r st b =
      let keys = conn_keys_by_account_id s.sessions a in
      let drawn = decorate json s.ids st r none none in
      let s' : ImService J = record s { ids = drawn.1 } in
      if-cases (Same s) (eqb (length keys) 0) (λ _. refl)
        (λ _. Option-both (Same s) drawn.0 (λ _. refl) (λ q _. send-Same s' keys q b))

  push_to_all-Same :
      (s : ImService J) (o : Sends) (n : ℕ) (r : Response J) (accounts : List String)
      → Same s (push_to_all json s o n r accounts)
  unfolding push_to_all
  push_to_all-Same s o n r [] = refl
  push_to_all-Same s o n r (a ∷ rest) =
      let pushed = push_to_account json s a r (o.stamp n) (o.answer n) in
      let same : pushed.1.groups ≡ s.groups = push-Same s a r (o.stamp n) (o.answer n) in
      Option-both (Same s) pushed.0 (λ _. same)
        (λ _ _.
          push_to_all-Same pushed.1 o (n + 1) (decorated_event json s a r (o.stamp n)) rest ∙ same)

  module _ {D : Type 0} where
    -- A handler's outcome leaves consistent groups.
    abbrev pub Good : Answer J D → Type 0
    Good out = IsConsistent out.1.service.groups

    pub announce-Good :
        (x : Served J D) (o : Sends) (n : ℕ) (i : String) (key : ℕ) (r : Response J)
        (reply : BatchSendResult → Response J)
        → IsConsistent x.service.groups
        → Good (announce json x o n i key r reply)
    unfolding announce
    announce-Good x o n i key r reply c =
        let sent = broadcast_to_group json x.service i key r (o.stamp n) (o.answer n) in
        let c' : IsConsistent sent.1.groups =
          rw (broadcast-Same x.service i key r (o.stamp n) (o.answer n)) c in
        Option-both Good sent.0 (λ _. c') (λ _ _. c')

    pub announce_kick-Good :
        (x : Served J D) (o : Sends) (key : ℕ) (session : Session) (req : Request J) (t : Target)
        → IsConsistent x.service.groups
        → Good (announce_kick json x o key session req t)
    unfolding announce_kick
    announce_kick-Good x o key session req t c =
        let s : ImService J = record x.service {
          sessions = (remove_joined_group x.service.sessions t.target_account_id t.group_id).1;
        } in
        let event : Response J = group_event json "you have been kicked from the group" (
          ("event", json.text "be kicked")
          ∷ ("groupId", json.text t.group_id)
          ∷ ("operatorAccountId", json.text session.account_id)
          ∷ ("targetAccountId", json.text t.target_account_id)
          ∷ []) in
        let pushed = push_to_account json s t.target_account_id event (o.stamp 0) (o.answer 0) in
        let c' : IsConsistent pushed.1.groups =
          rw (push-Same s t.target_account_id event (o.stamp 0) (o.answer 0)) c in
        Option-both Good pushed.0 (λ _. c')
          (λ _ _. announce-Good (record x { service = pushed.1 }) o 1 t.group_id key _ _ c')

    pub announce_invitation-Good :
        (x : Served J D) (o : Sends) (key : ℕ) (session : Session) (req : Request J) (t : Target)
        (r : GroupInviteResult)
        → IsConsistent x.service.groups
        → Good (announce_invitation json x o key session req t r)
    unfolding announce_invitation
    announce_invitation-Good x o key session req t r c =
        if-cases Good r.joined (λ _. announce-Good _ o 0 t.group_id key _ _ c) (λ _. c)

    pub announce_dissolution-Good :
        (x : Served J D) (o : Sends) (session : Session) (req : Request J) (i : String)
        (r : GroupDissolveResult)
        → IsConsistent x.service.groups
        → Good (announce_dissolution json x o session req i r)
    unfolding announce_dissolution
    announce_dissolution-Good x o session req i r c =
        let event : Response J = group_event json "group dissolved" (
          ("event", json.text "group_dissolved")
          ∷ ("groupId", json.text i)
          ∷ ("operatorAccountId", json.text session.account_id)
          ∷ []) in
        let pushed = push_to_all json x.service o 0 event r.affected_account_ids in
        let c' : IsConsistent pushed.1.groups =
          rw (push_to_all-Same x.service o 0 event r.affected_account_ids) c in
        if-cases Good r.already_dissolved (λ _. c)
          (λ _. if-cases Good (not pushed.0) (λ _. c') (λ _. c'))

    pub created_answer-Good :
        (x : Served J D) (key : ℕ) (session : Session) (req : Request J) (name : String)
        (r : RepoValueResult GroupCreateResult)
        → IsConsistent x.service.groups
        → Good (created_answer json x key session req name r)
    unfolding created_answer
    created_answer-Good x key session req name r c =
        if-cases Good (not (is_ok r.status)) (λ _. c)
          (λ _. Option-both Good r.value (λ _. c) (λ _ _. c))

    pub announce_review-Good :
        (joins : Option (GroupJoinService D)) (x : Served J D) (o : Sends) (key : ℕ)
        (session : Session) (req : Request J) (v : Review D) (r : GroupJoinReviewResult)
        → IsConsistent x.service.groups
        → Good (announce_review json joins x o key session req v r)
    unfolding announce_review
    announce_review-Good joins x o key session req v r c =
        let event : Response J = group_event json "join request approve" (
          ("event", json.text "join_request")
          ∷ ("groupId", json.text v.group_id)
          ∷ ("reviewerAccountId", json.text session.account_id)
          ∷ ("applicantAccountId", json.text v.applicant_account_id)
          ∷ ("approved", json.boolean r.approved)
          ∷ ("rejected", json.boolean r.rejected)
          ∷ ("memberAdded", json.boolean r.member_added)
          ∷ []) in
        let pushed =
          push_to_account json x.service v.applicant_account_id event (o.stamp 0) (o.answer 0) in
        let c' : IsConsistent pushed.1.groups =
          rw (push-Same x.service v.applicant_account_id event (o.stamp 0) (o.answer 0)) c in
        if-cases Good r.already_handled (λ _. c)
          (λ _.
            Option-both Good pushed.0 (λ _. c')
              (λ _ _.
                if-cases Good (not r.member_added) (λ _. c')
                  (λ _. announce-Good _ o 1 v.group_id key _ _ c')))

    remove_left-kept :
        (repo : Option (GroupRepo D)) (x : Served J D) (key : ℕ) (i a : String)
        → IsConsistent x.service.groups
        → IsConsistent (remove_left repo x key i a).1.service.groups
    unfolding remove_left
    remove_left-kept none x key i a c = c
    remove_left-kept (some repo) x key i a c =
        if-cases (λ (out : Option RepoStatus × Served J D). IsConsistent out.1.service.groups)
          (is_gone (repo.remove_member x.database i a).0.status) (λ _. c)
          (λ _. join_group-IsConsistent x.service.groups i a c)

    pub leave_group-Good :
        (repo : Option (GroupRepo D)) (x : Served J D) (o : Sends) (key : ℕ) (session : Session)
        (req : Request J) (i : String)
        → IsConsistent x.service.groups
        → Good (leave_group json repo x o key session req i)
    unfolding leave_group
    leave_group-Good repo x o key session req i c =
        let quit = GroupManager.leave_group x.service.groups i session.account_id in
        let gone : Served J D = record x {
          service = record x.service {
            groups = quit.1;
            sessions = change_own (KeySet.erase i) key x.service.sessions;
          };
        } in
        let left = remove_left repo gone key i session.account_id in
        let c' : IsConsistent left.1.service.groups =
          remove_left-kept repo gone key i session.account_id
            (leave_group-IsConsistent x.service.groups c i session.account_id) in
        QuitResult-both Good quit.0 c c
          (Option-both Good left.0 (λ _. announce-Good left.1 o 0 i key _ _ c') (λ _ _. c'))
