-- ===== src/Im/ImService/Groups/Reviewing.antt =====
-- src/im/ImService.cpp: the handlers of a request to join a group and of its review.
use project_chat.Common.{
  ℕ, String, Bool, not, ◌||◌, Option, none, some, [], ◌∷◌, if◌then◌else◌, string_key, ◌⊎◌, inl, inr,
}
use project_chat.Storage.Results.{is_ok}
use project_chat.Storage.GroupTypes.{GroupJoinApplyResult, GroupJoinReviewResult}
use project_chat.Im.Json.{Json}
use project_chat.Im.MsgType.{apply_group_join_resp, review_group_join_request_resp}
use project_chat.Im.ErrorCode
use project_chat.Im.ImMessage.{Request, Response}
use project_chat.Im.ImCodec.{make_err, make_ok}
use project_chat.Im.SessionManager.{Session, add_joined_group}
use project_chat.Im.GroupJoinService.{GroupJoinService, apply_to_join, review_request}
use project_chat.Im.ImService.{ImService, get_string_field, refuse_if, ◌>>=◌, ◌>>◌, make_repo_error}
use project_chat.Im.ImService.Pushes.{push_to_account}
use project_chat.Im.ImService.Groups.{
  Served, Sends, Answer, world, with_world, group_event, announce,
}
use project_chat.Im.ImService.Groups.Joining.{read_group}

-- A request to join, and its review.
pub record Review (D : Type 0) : Type 0 where
  pub joins : GroupJoinService D
  pub group_id : String
  pub applicant_account_id : String
  pub approve : Bool

module _ {J : Type 0} (json : Json J) where
  -- A service of a handler, or the refusal with its text.
  abbrev pub service_or : {A : Type 0} → Option A → Request J → String → Response J ⊎ A
  service_or none req text = inl (make_err json req ErrorCode.internal text)
  service_or (some a) req text = inr a

  module _ {D : Type 0} (joins : Option (GroupJoinService D)) where
    unfoldable pub admit_application :
        Request J → Session → Response J ⊎ (GroupJoinService D × String × String)
    admit_application req session = do
      group_id ← read_group json req session
      message ← get_string_field json req "message"
      j ← service_or joins req "groupJoinService is not avaiable"
      inr (j, group_id, message)

    unfoldable pub handle_apply_group_join : Served J D → ℕ → Session → Request J → Answer J D
    handle_apply_group_join x now_ms session req = elim (admit_application req session) [
      | inl resp ↦ (some resp, x)
      | inr (j, group_id, message) ↦
          let (result, w) = apply_to_join j (world x) group_id session.account_id message now_ms in
          let answer = λ (r : GroupJoinApplyResult). make_ok json req apply_group_join_resp (
            json.object (
              ("groupId", json.text group_id)
              ∷ ("applicantAccountId", json.text session.account_id)
              ∷ ("submitted", json.boolean r.submitted)
              ∷ ("alreadyPending", json.boolean r.already_pending)
              ∷ ("alreadyIn", json.boolean r.already_in)
              ∷ [])) in
          if not (is_ok result.status)
          then (some (make_repo_error json req result.status result.message), with_world x w)
          else elim result.value [
            | none ↦ (some (make_err json req ErrorCode.internal "value is empty"), with_world x w)
            | some r ↦ (some (answer r), with_world x w)
          ]
    ]

    unfoldable pub admit_review : Request J → Session → Response J ⊎ Review D
    admit_review req session = do
      group_id ← read_group json req session
      applicant ← get_string_field json req "applicantAccountId"
      refuse_if
          (not (json.contains req.body "approve")
            || not (json.is_boolean (json.at req.body "approve")))
          (make_err json req ErrorCode.missing_field "missing field approve ")
      j ← service_or joins req "groupService is not avaiable"
      inr (record {
        joins = j;
        group_id = group_id;
        applicant_account_id = applicant;
        approve = json.tested_bool (json.at req.body "approve");
      })

    abbrev review_answer : Session → Request J → Review D → GroupJoinReviewResult → Response J
    review_answer session req v r = make_ok json req review_group_join_request_resp (
        json.object (
          ("groupId", json.text v.group_id)
          ∷ ("requesterAccountId", json.text session.account_id)
          ∷ ("applicantAccountId", json.text v.applicant_account_id)
          ∷ ("approved", json.boolean r.approved)
          ∷ ("rejected", json.boolean r.rejected)
          ∷ ("memberAdded", json.boolean r.member_added)
          ∷ ("alreadyHandled", json.boolean r.already_handled)
          ∷ []))

    -- From the result of a review on: the push to the applicant, and the broadcast when it has
    -- joined.
    unfoldable pub announce_review :
        Served J D → Sends → ℕ → Session → Request J → Review D → GroupJoinReviewResult → Answer J D
    announce_review x o key session req v r =
        let reply : Response J = review_answer session req v r in
        let event : Response J = group_event json "join request approve" (
          ("event", json.text "join_request")
          ∷ ("groupId", json.text v.group_id)
          ∷ ("reviewerAccountId", json.text session.account_id)
          ∷ ("applicantAccountId", json.text v.applicant_account_id)
          ∷ ("approved", json.boolean r.approved)
          ∷ ("rejected", json.boolean r.rejected)
          ∷ ("memberAdded", json.boolean r.member_added)
          ∷ []) in
        let (pushed, s) =
          push_to_account json x.service v.applicant_account_id event (o.stamp 0) (o.answer 0) in
        let joined : ImService J = record s {
          sessions = (add_joined_group s.sessions v.applicant_account_id v.group_id).1;
        } in
        if r.already_handled then (some reply, x) else elim pushed [
          | none ↦ (none, record x { service = s })
          | some b ↦
              if not r.member_added
              then (some reply, record x { service = s })
              else announce json (record x { service = joined }) o 1 v.group_id key
                  (group_event json "member joined" (
                    ("event", json.text "member_joined")
                    ∷ ("groupId", json.text v.group_id)
                    ∷ ("reviewerAccountId", json.text session.account_id)
                    ∷ ("applicantAccountId", json.text v.applicant_account_id)
                    ∷ []))
                  (λ b. reply)
        ]

    unfoldable pub handle_review_group_join :
        Served J D → Sends → ℕ → ℕ → Session → Request J → Answer J D
    handle_review_group_join x o now_ms key session req = elim (admit_review req session) [
      | inl resp ↦ (some resp, x)
      | inr v ↦
          let (result, w) =
            review_request v.joins (world x) v.group_id v.applicant_account_id session.account_id
              v.approve now_ms in
          if not (is_ok result.status)
          then (some (make_repo_error json req result.status result.message), with_world x w)
          else elim result.value [
            | none ↦ (some (make_err json req ErrorCode.internal "value is empty"), with_world x w)
            | some r ↦ announce_review (with_world x w) o key session req v r
          ]
    ]
