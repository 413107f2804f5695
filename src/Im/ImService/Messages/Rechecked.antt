-- ===== src/Im/ImService/Messages/Rechecked.antt =====
-- src/im/ImService.cpp, `completeGroupMessageRateLimit` and `completeDirectMessageRateLimit`: back on
-- the base loop after the check of the rate, the sender is looked up again and the message goes on.
use project_chat.Common.{ℕ, String, not, Option, none, some, if◌then◌else◌, nat_key}
use project_chat.Infra.ThreadPool.{TaskSubmitResult}
use project_chat.Im.Json.{Json}
use project_chat.Im.ErrorCode.{ErrorCode}
use project_chat.Im.ImMessage.{Request, Response}
use project_chat.Im.ImCodec.{make_err, should_respond}
use project_chat.Im.GroupManager
use project_chat.Im.ImService.{
  ImService, AsyncRateLimitResult, evaluate_rate_limit_result, resolve_pending_sender,
  submit_result_map_to_dispatch_result,
}
use project_chat.Im.ImService.Pushes.{send_response_with_log}
use project_chat.Im.ImService.Pipeline.{
  PendingGroupMessageContext, PendingDirectMessageContext, Pipeline,
}
use project_chat.Im.ImService.Messages.{
  Oracle, is_accepted, submit_group_message_persistence, submit_direct_message_persistence,
}

module _ {J : Type 0} (json : Json J) where
  unfoldable pub send_deferred_submit_failure :
      ImService J → Oracle → ℕ → ℕ → String → Request J → TaskSubmitResult → String → ImService J
  unfolding resolve_pending_sender submit_result_map_to_dispatch_result send_response_with_log
  send_deferred_submit_failure s o connection key account_id req result pipeline =
      let dispatch = submit_result_map_to_dispatch_result json req result pipeline in
      elim (resolve_pending_sender json s connection key account_id) [
        | none ↦ s
        | some session ↦ elim (should_respond dispatch) [
          | none ↦ s
          | some resp ↦ (send_response_with_log json s key req resp o.reply_stamp o.reply_answer).1
        ]
      ]

  -- `if(submitResult!=Accepted)sendDeferredSubmitFailure(...)`
  unfoldable pub after_submit :
      Oracle → ℕ → ℕ → String → Request J → Option TaskSubmitResult × Pipeline J → Pipeline J
  unfolding send_deferred_submit_failure
  after_submit o connection key account_id req (none, p) = p
  after_submit o connection key account_id req (some r, p) = if is_accepted r then p else record p {
    service = send_deferred_submit_failure p.service o connection key account_id req r "message";
  }

  abbrev pub reply : Pipeline J → Oracle → ℕ → Request J → Response J → Pipeline J
  reply p o key req resp = record p {
    service = (send_response_with_log json p.service key req resp o.reply_stamp o.reply_answer).1;
  }

  unfoldable pub complete_group_message_rate_limit :
      Pipeline J → Oracle → PendingGroupMessageContext J → AsyncRateLimitResult → Pipeline J
  unfolding resolve_pending_sender evaluate_rate_limit_result send_response_with_log
      submit_group_message_persistence after_submit
  complete_group_message_rate_limit p o c result =
      let s = p.service in
      elim (resolve_pending_sender json s c.connection c.sender_key c.sender_account_id) [
        | none ↦ p
        | some session ↦
            if not s.accepting_async_messages
            then p
            else elim (evaluate_rate_limit_result json s c.request result) [
              | some error ↦ reply p o c.sender_key c.request error
              | none ↦
                  if not (GroupManager.is_member s.groups c.group_id c.sender_account_id)
                  then reply p o c.sender_key c.request (
                      make_err json c.request ErrorCode.not_in_group
                        "the user is no longer in the group")
                  else after_submit o c.connection c.sender_key c.sender_account_id c.request
                      (submit_group_message_persistence json p o c)
            ]
      ]

  unfoldable pub complete_direct_message_rate_limit :
      Pipeline J → Oracle → PendingDirectMessageContext J → AsyncRateLimitResult → Pipeline J
  unfolding resolve_pending_sender evaluate_rate_limit_result send_response_with_log
      submit_direct_message_persistence after_submit
  complete_direct_message_rate_limit p o c result =
      let s = p.service in
      elim (resolve_pending_sender json s c.connection c.sender_key c.sender_account_id) [
        | none ↦ p
        | some session ↦
            if not s.accepting_async_messages
            then p
            else elim (evaluate_rate_limit_result json s c.request result) [
              | some error ↦ reply p o c.sender_key c.request error
              | none ↦
                  after_submit o c.connection c.sender_key c.sender_account_id c.request
                    (submit_direct_message_persistence json p o c)
            ]
      ]
