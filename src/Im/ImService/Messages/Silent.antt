-- ===== src/Im/ImService/Messages/Silent.antt =====
-- To admit a message, to check its rate and to submit its write push no message.
use project_chat.Common.{
  ℕ, ◌≤◌, String, ◌≡◌, refl, Bool, not, ◌||◌, Option, none, some, arith, if-cases, Option-both,
  Sum-both,
}
use project_chat.Infra.ThreadPool.{TaskSubmitResult}
use project_chat.Im.Json.{Json}
use project_chat.Im.ImMessage.{Request}
use project_chat.Im.ImCodec.{DispatchResult, should_respond}
use project_chat.Im.GroupManager
use project_chat.Im.SessionManager.{Session}
use project_chat.Im.ImService.{
  ImService, AsyncRateLimitResult, next_message_id, evaluate_rate_limit_result,
  resolve_pending_sender, submit_result_map_to_dispatch_result,
}
use project_chat.Im.ImService.Sending.{
  pushes, quiet_response-pushes, evaluated_quiet, submitted_quiet,
}
use project_chat.Im.ImService.Pipeline.{
  PendingGroupMessageContext, PendingDirectMessageContext, RateCheck, WriteTask, Pipeline,
  check_group, check_direct,
}
use project_chat.Im.ImService.Messages.{
  Oracle, is_accepted, submit_rate_limit_check, submit_write, submit_group_message_persistence,
  submit_direct_message_persistence, admit_group_message, admit_direct_message, start_message,
  answer_to, handle_group_message_async, handle_dm_async,
}
use project_chat.Im.ImService.Messages.Rechecked.{
  send_deferred_submit_failure, after_submit, complete_group_message_rate_limit,
  complete_direct_message_rate_limit,
}

-- The elimination of an optional response whose cases stand in the other order.
pub refused_or_sent :
    {R : Type 0} {B : Type 0} (P : B → Type 0) (o : Option R) {f : R → B} {b : B}
    → ((r : R) → o ≡ some r → P (f r))
    → P b
    → P (elim o [ some r ↦ f r | none ↦ b ])
refused_or_sent P none h k = k
refused_or_sent P (some r) h k = h r refl

module _ {J : Type 0} (json : Json J) where
  abbrev Same : {A : Type 0} → Pipeline J → A × Pipeline J → Type 0
  Same p out = pushes out.1.service.sent ≡ pushes p.service.sent

  submit_rate_limit_check-Same :
      (p : Pipeline J) (o : Oracle) (a : String) (t : RateCheck J)
      → Same p (submit_rate_limit_check json p o a t)
  unfolding submit_rate_limit_check
  submit_rate_limit_check-Same p o a t =
      let w = p.service.wiring in
      if-cases (Same p) (not w.redis_executor || (not w.base_loop_poster || not w.rate_limiter))
        (λ _. refl) (λ _. refl)

  submit_write-Same :
      (p : Pipeline J) (o : Oracle) (there : Bool) (key : String) (task : ℕ → WriteTask J)
      → Same p (submit_write json p o there key task)
  unfolding submit_write
  submit_write-Same p o there key task =
      let s = p.service in
      if-cases (Same p)
        (not s.wiring.message_executor || (not s.wiring.base_loop_poster || not there)) (λ _. refl)
        (λ _.
          if-cases (Same p) (not s.accepting_async_messages) (λ _. refl)
            (λ _.
              Option-both (Same p) (next_message_id s.ids o.id_readings).0 (λ _. refl)
                (λ _ _. refl)))

  answered-Same :
      (p : Pipeline J) (req : Request J) (pipeline : String) (r : Option TaskSubmitResult)
      (q : Pipeline J)
      → pushes q.service.sent ≡ pushes p.service.sent
      → Same p (answer_to json req pipeline (r, q))
  answered-Same p req pipeline none q h = h
  answered-Same p req pipeline (some r) q h = h

  started-Same :
      (p : Pipeline J) (o : Oracle) (req : Request J) (a : String) (t : RateCheck J)
      (out : Option TaskSubmitResult × Pipeline J)
      → Same p out
      → Same p (start_message json p o req a t out)
  unfolding start_message
  started-Same p o req a t (r, q) h =
      let w = p.service.wiring in
      let Kept = Same {A = Option (DispatchResult J)} p in
      if-cases Kept (not w.rate_limiter) (λ _. answered-Same p req "message" r q h)
        (λ _.
          if-cases Kept (not w.redis_executor) (λ _. refl)
            (λ _. submit_rate_limit_check-Same p o a t))

  group_submitted :
      (p : Pipeline J) (o : Oracle) (c : PendingGroupMessageContext J)
      → Same p (submit_group_message_persistence json p o c)
  unfolding submit_group_message_persistence
  group_submitted p o c = submit_write-Same p o p.service.wiring.group_message_persistence _ _

  direct_submitted :
      (p : Pipeline J) (o : Oracle) (c : PendingDirectMessageContext J)
      → Same p (submit_direct_message_persistence json p o c)
  unfolding submit_direct_message_persistence
  direct_submitted p o c = submit_write-Same p o p.service.wiring.direct_message_persistence _ _

  pub handle_group_message_async-pushes :
      (p : Pipeline J) (o : Oracle) (key connection : ℕ) (session : Session) (req : Request J)
      → pushes (handle_group_message_async json p o key connection session req).1.service.sent
        ≡ pushes p.service.sent
  unfolding handle_group_message_async
  handle_group_message_async-pushes p o key connection session req =
      Sum-both (Same {A = Option (DispatchResult J)} p)
        (admit_group_message json p.service key connection session req) (λ _ _. refl)
        (λ c _. started-Same p o req session.account_id (check_group c) _ (group_submitted p o c))

  pub handle_dm_async-pushes :
      (p : Pipeline J) (o : Oracle) (key connection : ℕ) (session : Session) (req : Request J)
      → pushes (handle_dm_async json p o key connection session req).1.service.sent
        ≡ pushes p.service.sent
  unfolding handle_dm_async
  handle_dm_async-pushes p o key connection session req =
      Sum-both (Same {A = Option (DispatchResult J)} p)
        (admit_direct_message json p.service key connection session req) (λ _ _. refl)
        (λ c _. started-Same p o req session.account_id (check_direct c) _ (direct_submitted p o c))

  -- The failure of a submission, which is answered.
  deferred-pushes :
      (s : ImService J) (o : Oracle) (connection key : ℕ) (a : String) (req : Request J)
      (r : TaskSubmitResult) (pipeline : String)
      → pushes (send_deferred_submit_failure json s o connection key a req r pipeline).sent
        ≤ pushes s.sent
  unfolding send_deferred_submit_failure
  deferred-pushes s o connection key a req r pipeline =
      let Less = λ (x : ImService J). pushes x.sent ≤ pushes s.sent in
      Option-both Less (resolve_pending_sender json s connection key a) (λ _. omega arith)
        (λ _ _.
          Option-both Less
            (should_respond (submit_result_map_to_dispatch_result json req r pipeline))
            (λ _. omega arith)
            (λ resp e.
              quiet_response-pushes json s key req resp o.reply_stamp o.reply_answer
                (submitted_quiet json req r pipeline resp e)))

  after_submit-pushes :
      (p : Pipeline J) (o : Oracle) (connection key : ℕ) (a : String) (req : Request J)
      (out : Option TaskSubmitResult × Pipeline J)
      → Same p out
      → pushes (after_submit json o connection key a req out).service.sent ≤ pushes p.service.sent
  unfolding after_submit
  after_submit-pushes p o connection key a req (none, q) h = omega arith
  after_submit-pushes p o connection key a req (some r, q) h =
      if-cases (λ (x : Pipeline J). pushes x.service.sent ≤ pushes p.service.sent) (is_accepted r)
        (λ _. omega arith)
        (λ _. omega (arith, deferred-pushes q.service o connection key a req r "message"))

  pub complete_group_message_rate_limit-pushes :
      (p : Pipeline J) (o : Oracle) (c : PendingGroupMessageContext J)
      (result : AsyncRateLimitResult)
      → pushes (complete_group_message_rate_limit json p o c result).service.sent
        ≤ pushes p.service.sent
  unfolding complete_group_message_rate_limit
  complete_group_message_rate_limit-pushes p o c result =
      let s = p.service in
      let Less = λ (x : Pipeline J). pushes x.service.sent ≤ pushes s.sent in
      Option-both Less (resolve_pending_sender json s c.connection c.sender_key c.sender_account_id)
        (λ _. omega arith)
        (λ _ _.
          if-cases Less (not s.accepting_async_messages) (λ _. omega arith)
            (λ _.
              refused_or_sent Less (evaluate_rate_limit_result json s c.request result)
                (λ error e.
                  quiet_response-pushes json s c.sender_key c.request error o.reply_stamp
                    o.reply_answer (evaluated_quiet json s c.request result error e))
                (if-cases Less
                  (not (GroupManager.is_member s.groups c.group_id c.sender_account_id))
                  (λ _.
                    quiet_response-pushes json s c.sender_key c.request _ o.reply_stamp
                      o.reply_answer refl)
                  (λ _.
                    after_submit-pushes p o c.connection c.sender_key c.sender_account_id c.request
                      (submit_group_message_persistence json p o c) (group_submitted p o c)))))

  pub complete_direct_message_rate_limit-pushes :
      (p : Pipeline J) (o : Oracle) (c : PendingDirectMessageContext J)
      (result : AsyncRateLimitResult)
      → pushes (complete_direct_message_rate_limit json p o c result).service.sent
        ≤ pushes p.service.sent
  unfolding complete_direct_message_rate_limit
  complete_direct_message_rate_limit-pushes p o c result =
      let s = p.service in
      let Less = λ (x : Pipeline J). pushes x.service.sent ≤ pushes s.sent in
      Option-both Less (resolve_pending_sender json s c.connection c.sender_key c.sender_account_id)
        (λ _. omega arith)
        (λ _ _.
          if-cases Less (not s.accepting_async_messages) (λ _. omega arith)
            (λ _.
              refused_or_sent Less (evaluate_rate_limit_result json s c.request result)
                (λ error e.
                  quiet_response-pushes json s c.sender_key c.request error o.reply_stamp
                    o.reply_answer (evaluated_quiet json s c.request result error e))
                (after_submit-pushes p o c.connection c.sender_key c.sender_account_id c.request
                  (submit_direct_message_persistence json p o c) (direct_submitted p o c))))
