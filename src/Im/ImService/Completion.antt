-- ===== src/Im/ImService/Completion.antt =====
-- src/im/ImService.cpp, `completeGroupMessage` and `completeDirectMessage`: what the base loop does
-- with a message that was written. The pipeline as a step relation is in Completion/Steps.
pub mod Steps
pub mod Targets
pub mod Once
pub mod Allowed
use project_chat.Common.{
  ℕ, ◌+◌, ◌≡◌, true, not, Option, none, some, [], ◌∷◌, ◌++◌, ltb, if◌then◌else◌,
}
use project_chat.Net.Batch.{BatchSendResult, dropped}
use project_chat.Im.Json.{Json}
use project_chat.Im.MsgType.{group_msg_push, group_msg_resp, dm_push, dm_resp}
use project_chat.Im.ErrorCode.{ErrorCode}
use project_chat.Im.ErrorCode
use project_chat.Im.ImMessage.{Request, Response}
use project_chat.Im.ImCodec.{make_ok}
use project_chat.Im.SessionManager.{Session}
use project_chat.Im.ImService.{
  ImService, AsyncRateLimitResult, make_repo_error, resolve_pending_sender,
}
use project_chat.Im.ImService.Pushes.{send_response_with_log, broadcast_to_group, push_to_account}
use project_chat.Im.ImService.Pipeline.{
  PendingGroupMessageContext, PendingDirectMessageContext, GroupMessageWriteCommand,
  DirectMessageWriteCommand, GroupMessageWriteResult, DirectMessageWriteResult, group_durable,
  direct_durable, RateCheck, check_group, check_direct, WriteTask, write_group, write_direct,
  Pipeline, Completion, group_checked, direct_checked, group_written, direct_written, WriteStores,
  persist_group, persist_direct,
}
use project_chat.Im.ImService.Messages.{Oracle}
use project_chat.Im.ImService.Messages.Rechecked.{
  complete_group_message_rate_limit, complete_direct_message_rate_limit,
}

module _ {J : Type 0} (json : Json J) where
  -- The push of a message that is stored.
  pub group_push : Request J → GroupMessageWriteCommand → GroupMessageWriteResult → Response J
  group_push req command result = record {
    ver = req.ver;
    req_id = 0;
    type = group_msg_push;
    ok = true;
    code = ErrorCode.ok;
    msg = "New group message";
    answer = json.object (
        ("fromAccountId", json.text command.sender_account_id)
        ∷ ("fromUsername", json.text command.sender_username)
        ∷ ("groupId", json.text command.group_id)
        ∷ ("content", json.text command.content)
        ∷ ("msgId", json.number command.msg_id)
        ∷ ("serverTsMs", json.number command.server_ts_ms)
        ∷ ("groupSeq", json.number result.group_seq)
        ∷ []);
  }

  pub direct_push : Request J → DirectMessageWriteCommand → Response J
  direct_push req command = record {
    ver = req.ver;
    req_id = 0;
    type = dm_push;
    ok = true;
    code = ErrorCode.ok;
    msg = "New direct message";
    answer = json.object (
        ("fromAccountId", json.text command.sender_account_id)
        ∷ ("fromUsername", json.text command.sender_username)
        ∷ ("toAccountId", json.text command.receiver_account_id)
        ∷ ("conversationKey", json.text command.conversation_key)
        ∷ ("content", json.text command.content)
        ∷ ("msgId", json.number command.msg_id)
        ∷ ("serverTsMs", json.number command.server_ts_ms)
        ∷ []);
  }

  pub group_reply :
      Request J → GroupMessageWriteCommand → GroupMessageWriteResult → BatchSendResult → Response J
  group_reply req command result sent = make_ok json req group_msg_resp (
      json.object (
        ("groupId", json.text command.group_id)
        ∷ ("msgId", json.number command.msg_id)
        ∷ ("serverTsMs", json.number command.server_ts_ms)
        ∷ ("queueWaitUs", json.number result.queue_wait_us)
        ∷ ("persistUs", json.number result.persist_us)
        ∷ ("fanoutSent", json.number sent.sent)
        ∷ ("fanoutDropped", json.number (dropped sent))
        ∷ ("fanoutClosed", json.number sent.closed_connections)
        ∷ ("fanoutOverloaded", json.number sent.overloaded_connections)
        ∷ ("fanoutFailed", json.number sent.failures)
        ∷ []))

  -- `AccountPushResult` counts no failure of its own, so `failed` is the sum of the other three.
  pub direct_reply :
      Request J
      → DirectMessageWriteCommand
      → DirectMessageWriteResult
      → BatchSendResult
      → Response J
  direct_reply req command result sent =
      let delivered = ltb 0 sent.sent in
      let pushed : BatchSendResult = record sent { failures = 0 } in
      make_ok json req dm_resp (
        json.object (
          ("conversationKey", json.text command.conversation_key)
          ∷ ("msgId", json.number command.msg_id)
          ∷ ("serverTsMs", json.number command.server_ts_ms)
          ∷ ("queueWaitUs", json.number result.queue_wait_us)
          ∷ ("persistUs", json.number result.persist_us)
          ∷ ("delivered", json.boolean delivered)
          ∷ ("queuedOffline", json.boolean (not delivered))
          ∷ ("sent", json.number sent.sent)
          ∷ ("failed", json.number (dropped pushed))
          ∷ ("closed", json.number sent.closed_connections)
          ∷ ("overloaded", json.number sent.overloaded_connections)
          ∷ []))

  -- The answer to the sender, when its session is still the one that asked.
  pub answer_sender :
      ImService J → Oracle → Option Session → ℕ → Request J → Response J → ImService J
  unfolding send_response_with_log
  answer_sender s o none key req resp = s
  answer_sender s o (some session) key req resp =
      (send_response_with_log json s key req resp o.reply_stamp o.reply_answer).1

  -- From the push on; an exception in it ends the callback.
  pub after_push :
      Oracle
      → Option Session
      → ℕ
      → Request J
      → (BatchSendResult → Response J)
      → Option BatchSendResult × ImService J
      → ImService J
  unfolding answer_sender
  after_push o session key req answer (none, s) = s
  after_push o session key req answer (some sent, s) =
      answer_sender s o session key req (answer sent)

  pub complete_group_message :
      ImService J
      → Oracle
      → PendingGroupMessageContext J
      → GroupMessageWriteCommand
      → GroupMessageWriteResult
      → ImService J
  unfolding resolve_pending_sender make_repo_error broadcast_to_group group_push group_reply
      after_push answer_sender
  complete_group_message s o c command result =
      let session = resolve_pending_sender json s c.connection c.sender_key c.sender_account_id in
      if not (group_durable result)
      then answer_sender s o session c.sender_key c.request
          (make_repo_error json c.request result.commit_result.status result.commit_result.message)
      else after_push o session c.sender_key c.request (group_reply c.request command result) (
          broadcast_to_group json s command.group_id c.sender_key
            (group_push c.request command result) o.push_stamp o.push_answer)

  pub complete_direct_message :
      ImService J
      → Oracle
      → PendingDirectMessageContext J
      → DirectMessageWriteCommand
      → DirectMessageWriteResult
      → ImService J
  unfolding resolve_pending_sender make_repo_error push_to_account direct_push direct_reply
      after_push answer_sender
  complete_direct_message s o c command result =
      let session = resolve_pending_sender json s c.connection c.sender_key c.sender_account_id in
      if not (direct_durable result)
      then answer_sender s o session c.sender_key c.request
          (make_repo_error json c.request result.commit_result.status result.commit_result.message)
      else after_push o session c.sender_key c.request (direct_reply c.request command result) (
          push_to_account json s command.receiver_account_id (direct_push c.request command)
            o.push_stamp o.push_answer)

  -- A callback on the base loop.
  pub complete : Pipeline J → Oracle → Completion J → Pipeline J
  unfolding complete_group_message complete_direct_message
  complete p o (group_checked c result) = complete_group_message_rate_limit json p o c result
  complete p o (direct_checked c result) = complete_direct_message_rate_limit json p o c result
  complete p o (group_written c command result) = record p {
    service = complete_group_message p.service o c command result;
  }
  complete p o (direct_written c command result) = record p {
    service = complete_direct_message p.service o c command result;
  }

  -- The task of the Redis executor; what the limiter answers is an argument.
  pub checked : RateCheck J → AsyncRateLimitResult → Completion J
  checked (check_group c) result = group_checked c result
  checked (check_direct c) result = direct_checked c result

  module _ {D : Type 0} (stores : WriteStores D) where
    -- The task of the message executor, with the two times it measures.
    pub written : D → WriteTask J → ℕ → ℕ → Completion J × D
    written d (write_group c command) wait persist =
        let (result, d') = persist_group stores d command wait persist in
        (group_written c command result, d')
    written d (write_direct c command) wait persist =
        let (result, d') = persist_direct stores d command wait persist in
        (direct_written c command result, d')
