-- ===== src/Im/ImService/Sending.antt =====
-- The pushes of messages among what the service sends, counted, and what each way to send adds to
-- them.
use project_chat.Common.{
  ℕ, ◌+◌, ◌≤◌, String, ◌≡◌, refl, Bool, true, false, not, Option, none, some, List, [], ◌∷◌, arith,
  length, eqb, if◌then◌else◌, is_empty, ◌||◌, if-cases, Option-both,
}
use project_chat.Id.SnowflakeIdGenerator.{SnowflakeIdGenerator}
use project_chat.Infra.ThreadPool.{TaskSubmitResult, accepted, queue_full, stopping, invalid_task}
use project_chat.Net.Batch.{BatchSendResult}
use project_chat.Storage.Results.{RepoStatus}
use project_chat.Im.Json.{Json}
use project_chat.Im.MsgType.{MsgType, group_msg_push, dm_push}
use project_chat.Im.ImMessage.{Request, Response}
use project_chat.Im.ImCodec.{should_respond}
use project_chat.Im.SessionManager.{conn_keys_by_account_id}
use project_chat.Im.ImService.{
  ImService, AsyncRateLimitResult, Stamp, next_message_id, make_repo_error, make_rate_limit_error,
  evaluate_rate_limit_result, submit_result_map_to_dispatch_result, collect_group_targets,
}
use project_chat.Im.ImService.Pushes.{
  decorate, send_encoded, send_response_with_log, broadcast_to_group, push_to_account,
}

abbrev pub is_message_push : MsgType → Bool
is_message_push group_msg_push = true
is_message_push dm_push = true
is_message_push _ = false

abbrev pub one_if : Bool → ℕ
one_if b = if b then 1 else 0

-- How many pushes of messages the batch sender was given.
abbrev pub pushes : {J : Type 0} → List (List ℕ × Response J) → ℕ
pushes [] = 0
pushes ((targets, r) ∷ sent) = one_if (is_message_push r.type) + pushes sent

module _ {J : Type 0} (json : Json J) where
  abbrev TypeIs : MsgType → Option (Response J) → Type 0
  TypeIs t none = Unit
  TypeIs t (some r) = r.type ≡ t

  decorate-TypeIs :
      (ids : SnowflakeIdGenerator) (st : Stamp) (r : Response J) (m c : Option ℕ)
      → TypeIs r.type (decorate json ids st r m c).0
  unfolding decorate
  decorate-TypeIs ids st r (some id) c = refl
  decorate-TypeIs ids st r none c =
      let Keeps = λ (x : Option (Response J) × SnowflakeIdGenerator). TypeIs r.type x.0 in
      if-cases Keeps (json.contains r.answer "msgId") (λ _. refl)
        (λ _. Option-both Keeps (next_message_id ids st.readings).0 (λ _. tt) (λ _ _. refl))

  abbrev Few : ℕ → ImService J → Type 0
  Few n s = pushes s.sent ≤ n

  send_encoded-pushes :
      (s : ImService J) (targets : List ℕ) (r : Response J) (b : BatchSendResult)
      → Few (one_if (is_message_push r.type) + pushes s.sent) (send_encoded json s targets r b).1
  unfolding send_encoded
  send_encoded-pushes s targets r b = ground arith

  -- What is sent when a response was decorated, of the type of the undecorated one.
  sent_decorated :
      (s : ImService J) (targets : List ℕ) (t : MsgType) (r : Response J) (b : BatchSendResult)
      → r.type ≡ t
      → Few (one_if (is_message_push t) + pushes s.sent) (send_encoded json s targets r b).1
  sent_decorated s targets t r b e = rw (← e) (send_encoded-pushes s targets r b)

  typed :
      (t : MsgType) (o : Option (Response J)) (r : Response J)
      → TypeIs t o
      → o ≡ some r
      → r.type ≡ t
  typed t none r h e = cc
  typed t (some q) r h e = let same : q ≡ r = cc in rw (← same) h

  pub send_response-pushes :
      (s : ImService J) (key : ℕ) (req : Request J) (r : Response J) (st : Stamp)
      (b : BatchSendResult)
      → pushes (send_response_with_log json s key req r st b).1.sent
        ≤ one_if (is_message_push r.type) + pushes s.sent
  unfolding send_response_with_log
  send_response-pushes s key req r st b =
      let drawn = decorate json s.ids st r none (some req.req_id) in
      let s' : ImService J = record s { ids = drawn.1 } in
      Option-both
        (λ (x : Bool × ImService J). Few (one_if (is_message_push r.type) + pushes s.sent) x.1)
        drawn.0 (λ _. omega arith)
        (λ q e.
          sent_decorated s' (key ∷ []) r.type q b
            (typed r.type drawn.0 q (decorate-TypeIs s.ids st r none (some req.req_id)) e))

  -- A response that is no push of a message.
  pub quiet_response-pushes :
      (s : ImService J) (key : ℕ) (req : Request J) (r : Response J) (st : Stamp)
      (b : BatchSendResult)
      → is_message_push r.type ≡ false
      → pushes (send_response_with_log json s key req r st b).1.sent ≤ pushes s.sent
  quiet_response-pushes s key req r st b quiet =
      ground (arith, send_response-pushes s key req r st b)

  abbrev FewAfter : ℕ → Option BatchSendResult × ImService J → Type 0
  FewAfter n x = Few n x.1

  pub broadcast-pushes :
      (s : ImService J) (group_id : String) (key : ℕ) (r : Response J) (st : Stamp)
      (b : BatchSendResult)
      → pushes (broadcast_to_group json s group_id key r st b).1.sent
        ≤ one_if (is_message_push r.type) + pushes s.sent
  unfolding broadcast_to_group
  broadcast-pushes s group_id key r st b =
      let numbered : Response J = record r { req_id = 0 } in
      let id : Option ℕ =
        if json.contains r.answer "msgId"
        then some (json.tested_uint64 (json.at r.answer "msgId"))
        else none in
      let drawn = decorate json s.ids st numbered id none in
      let s' : ImService J = record s { ids = drawn.1 } in
      Option-both (FewAfter (one_if (is_message_push r.type) + pushes s.sent)) drawn.0
        (λ _. omega arith)
        (λ q e.
          sent_decorated s' (collect_group_targets s.sessions s.groups group_id key) r.type q b
            (typed r.type drawn.0 q (decorate-TypeIs s.ids st numbered id none) e))

  pub push_to_account-pushes :
      (s : ImService J) (a : String) (r : Response J) (st : Stamp) (b : BatchSendResult)
      → pushes (push_to_account json s a r st b).1.sent
        ≤ one_if (is_message_push r.type) + pushes s.sent
  unfolding push_to_account
  push_to_account-pushes s a r st b =
      let keys = conn_keys_by_account_id s.sessions a in
      let drawn = decorate json s.ids st r none none in
      let s' : ImService J = record s { ids = drawn.1 } in
      let Fits = FewAfter (one_if (is_message_push r.type) + pushes s.sent) in
      if-cases Fits (eqb (length keys) 0) (λ _. omega arith)
        (λ _.
          Option-both Fits drawn.0 (λ _. omega arith)
            (λ q e.
              sent_decorated s' keys r.type q b
                (typed r.type drawn.0 q (decorate-TypeIs s.ids st r none none) e)))

  -- The error responses are no pushes.
  abbrev Quiet : Option (Response J) → Type 0
  Quiet none = Unit
  Quiet (some r) = is_message_push r.type ≡ false

  evaluated-Quiet :
      (s : ImService J) (req : Request J) (result : AsyncRateLimitResult)
      → Quiet (evaluate_rate_limit_result json s req result)
  unfolding evaluate_rate_limit_result make_rate_limit_error
  evaluated-Quiet s req result =
      let d = result.decision in
      if-cases Quiet (not d.backend_available || not (is_empty result.exception_message))
        (λ _. if-cases Quiet s.wiring.redis_fail_open (λ _. tt) (λ _. refl))
        (λ _. if-cases Quiet (not d.allowed) (λ _. refl) (λ _. tt))

  submitted-Quiet :
      (req : Request J) (result : TaskSubmitResult) (pipeline : String)
      → Quiet (should_respond (submit_result_map_to_dispatch_result json req result pipeline))
  unfolding submit_result_map_to_dispatch_result
  submitted-Quiet req accepted pipeline = tt
  submitted-Quiet req queue_full pipeline = refl
  submitted-Quiet req stopping pipeline = refl
  submitted-Quiet req invalid_task pipeline = refl

  Quiet-of :
      (o : Option (Response J)) (r : Response J)
      → Quiet o
      → o ≡ some r
      → is_message_push r.type ≡ false
  Quiet-of none r h e = cc
  Quiet-of (some q) r h e = let same : q ≡ r = cc in rw (← same) h

  pub evaluated_quiet :
      (s : ImService J) (req : Request J) (result : AsyncRateLimitResult) (r : Response J)
      → evaluate_rate_limit_result json s req result ≡ some r
      → is_message_push r.type ≡ false
  evaluated_quiet s req result r = Quiet-of _ r (evaluated-Quiet s req result)

  pub submitted_quiet :
      (req : Request J) (result : TaskSubmitResult) (pipeline : String) (r : Response J)
      → should_respond (submit_result_map_to_dispatch_result json req result pipeline) ≡ some r
      → is_message_push r.type ≡ false
  submitted_quiet req result pipeline r = Quiet-of _ r (submitted-Quiet req result pipeline)

  pub repo_error_quiet :
      (req : Request J) (status : RepoStatus) (text : String)
      → is_message_push (make_repo_error json req status text).type ≡ false
  unfolding make_repo_error
  repo_error_quiet req status text = refl
