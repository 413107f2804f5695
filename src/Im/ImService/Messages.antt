-- ===== src/Im/ImService/Messages.antt =====
-- src/im/ImService.cpp, `handleGroupMessageAsync`, `handleDmAsync` and the callbacks behind them: a
-- message is admitted, its rate is checked on the Redis executor, it is written on the message
-- executor, and pushed to its receivers on the base loop. `Oracle` has what the executors, the clock
-- and the batch sender answer. The poster takes every completion.
pub mod Rechecked
pub mod Silent
pub mod Admission
pub mod Tasks
use Prim.Native.String.{len, ◌++◌ as ◌<>◌}
use project_chat.Common.{
  ℕ, String, Bool, true, false, not, ◌&&◌, ◌||◌, Option, none, some, List, [], ◌∷◌, ◌++◌, ltb,
  if◌then◌else◌, is_empty, nat_key, ◌⊎◌, inl, inr,
}
use project_chat.Common.KeySet.{contains}
use project_chat.Infra.ThreadPool.{TaskSubmitResult, accepted, stopping, invalid_task}
use project_chat.Net.Batch.{BatchSendResult}
use project_chat.Im.Json.{Json}
use project_chat.Im.ErrorCode.{ErrorCode}
use project_chat.Im.ErrorCode
use project_chat.Im.ImMessage.{Request, Response}
use project_chat.Im.ImCodec.{make_err, DispatchResult, immediate}
use project_chat.Im.GroupManager
use project_chat.Im.SessionManager.{Session}
use project_chat.Im.MessageSyncService.{build_direct_conversation_key}
use project_chat.Im.ImService.{
  ImService, Stamp, next_message_id, guard_authenticated, guard_in_group, get_string_field,
  refuse_if, ◌>>=◌, ◌>>◌, submit_result_map_to_dispatch_result,
}
use project_chat.Im.ImService.Pipeline.{
  PendingGroupMessageContext, PendingDirectMessageContext, RateCheck, check_group, check_direct,
  WriteTask, write_group, write_direct, Pipeline,
}

pub record Oracle : Type 0 where
  pub redis_answer : TaskSubmitResult
  pub message_answer : TaskSubmitResult
  -- `nowMs` and the readings of the generator for the id of a message.
  pub server_ts_ms : ℕ
  pub id_readings : List ℕ
  pub push_stamp : Stamp
  pub push_answer : BatchSendResult
  pub reply_stamp : Stamp
  pub reply_answer : BatchSendResult

abbrev pub is_accepted : TaskSubmitResult → Bool
is_accepted accepted = true
is_accepted _ = false

-- The queue of an executor after a submission.
abbrev pub enqueue : {A : Type 0} → TaskSubmitResult → A → List A → List A
enqueue answer task tasks = if is_accepted answer then tasks ++ (task ∷ []) else tasks

module _ {J : Type 0} (json : Json J) where
  pub submit_rate_limit_check :
      Pipeline J → Oracle → String → RateCheck J → TaskSubmitResult × Pipeline J
  submit_rate_limit_check p o subject check =
      let w = p.service.wiring in
      if not w.redis_executor || (not w.base_loop_poster || not w.rate_limiter)
      then (invalid_task, p)
      else (
        o.redis_answer,
        record p {
          redis_tasks = enqueue o.redis_answer ("account:" <> subject, check) p.redis_tasks;
        },
      )

  -- Both ways to write a message, from the test of the pipeline on; `none` is an exception of the
  -- id generator. `task` makes the task of an id.
  pub submit_write :
      Pipeline J → Oracle → Bool → String → (ℕ → WriteTask J) → Option TaskSubmitResult × Pipeline J
  unfolding next_message_id
  submit_write p o persistence key task =
      let s = p.service in
      let (drawn, ids) = next_message_id s.ids o.id_readings in
      let p' : Pipeline J = record p { service = record s { ids = ids } } in
      if not s.wiring.message_executor || (not s.wiring.base_loop_poster || not persistence)
      then (some invalid_task, p)
      else if not s.accepting_async_messages
      then (some stopping, p)
      else elim drawn [
        | none ↦ (none, p')
        | some id ↦ (
          some o.message_answer,
          record p' { message_tasks = enqueue o.message_answer (key, task id) p'.message_tasks },
        )
      ]

  pub submit_group_message_persistence :
      Pipeline J → Oracle → PendingGroupMessageContext J → Option TaskSubmitResult × Pipeline J
  unfolding submit_write
  submit_group_message_persistence p o c =
      submit_write p o p.service.wiring.group_message_persistence ("group:" <> c.group_id) λ id.
        write_group c (record {
          msg_id = id;
          server_ts_ms = o.server_ts_ms;
          group_id = c.group_id;
          sender_account_id = c.sender_account_id;
          sender_username = c.sender_username;
          content = c.content;
        })

  pub submit_direct_message_persistence :
      Pipeline J → Oracle → PendingDirectMessageContext J → Option TaskSubmitResult × Pipeline J
  unfolding submit_write
  submit_direct_message_persistence p o c =
      submit_write p o p.service.wiring.direct_message_persistence ("dm:" <> c.conversation_key)
        λ id. write_direct c (record {
          msg_id = id;
          server_ts_ms = o.server_ts_ms;
          conversation_key = c.conversation_key;
          sender_account_id = c.sender_account_id;
          receiver_account_id = c.receiver_account_id;
          sender_username = c.sender_username;
          content = c.content;
        })

  abbrev pub internal_error : Request J → String → Response J
  internal_error req text = make_err json req ErrorCode.internal text

  -- The checks of `handleGroupMessageAsync`, up to the context.
  pub admit_group_message :
      ImService J → ℕ → ℕ → Session → Request J → Response J ⊎ PendingGroupMessageContext J
  unfolding guard_authenticated guard_in_group get_string_field
  admit_group_message s key connection session req = do
    guard_authenticated json req session
    refuse_if
        (not s.wiring.message_executor
          || (not s.wiring.base_loop_poster || not s.wiring.group_message_persistence))
        (internal_error req "group message pipeline unavailable")
    refuse_if (not s.accepting_async_messages) (internal_error req "Message service is stopping")
    refuse_if (not (contains connection s.open_connections))
        (internal_error req "Connection is closed")
    refuse_if
        (s.config.require_group_id_for_send
          && (not (json.contains req.body "groupId")
              || not (json.is_string (json.at req.body "groupId"))))
        (make_err json req ErrorCode.missing_field "groupId can not be empty")
    group_id ← get_string_field json req "groupId"
    guard_in_group json s req session group_id
    content ← get_string_field json req "content"
    refuse_if (ltb s.config.max_message_len (len content))
        (make_err json req ErrorCode.bad_request "Message content is too long")
    inr (record {
      connection = connection;
      sender_key = key;
      request = req;
      sender_account_id = session.account_id;
      sender_username = session.username;
      group_id = group_id;
      content = content;
    })

  pub admit_direct_message :
      ImService J → ℕ → ℕ → Session → Request J → Response J ⊎ PendingDirectMessageContext J
  unfolding guard_authenticated get_string_field build_direct_conversation_key
  admit_direct_message s key connection session req = do
    guard_authenticated json req session
    refuse_if
        (not s.wiring.message_executor
          || (not s.wiring.base_loop_poster || not s.wiring.direct_message_persistence))
        (internal_error req "direct message pipeline unavailable")
    refuse_if (not s.accepting_async_messages) (internal_error req "Message service is stopping")
    refuse_if (not (contains connection s.open_connections))
        (internal_error req "Connection is closed")
    refuse_if (is_empty req.to)
        (make_err json req ErrorCode.missing_field "Missing message recipient")
    content ← get_string_field json req "content"
    refuse_if (ltb s.config.max_message_len (len content))
        (make_err json req ErrorCode.bad_request "Message content is too long")
    inr (record {
      connection = connection;
      sender_key = key;
      request = req;
      sender_account_id = session.account_id;
      sender_username = session.username;
      receiver_account_id = req.to;
      conversation_key = build_direct_conversation_key session.account_id req.to;
      content = content;
    })

  -- The answer to a submission; `none` is an exception.
  abbrev pub answer_to :
      Request J
      → String
      → Option TaskSubmitResult × Pipeline J
      → Option (DispatchResult J) × Pipeline J
  answer_to req pipeline (none, p) = (none, p)
  answer_to req pipeline (some r, p) =
      (some (submit_result_map_to_dispatch_result json req r pipeline), p)

  -- From the context on. `none` is an exception.
  pub start_message :
      Pipeline J
      → Oracle
      → Request J
      → String
      → RateCheck J
      → Option TaskSubmitResult × Pipeline J
      → Option (DispatchResult J) × Pipeline J
  unfolding submit_rate_limit_check submit_result_map_to_dispatch_result
  start_message p o req account_id check written =
      let (checked, p') = submit_rate_limit_check p o account_id check in
      if not p.service.wiring.rate_limiter
      then answer_to req "message" written
      else if not p.service.wiring.redis_executor
      then (some (immediate (internal_error req "redis rate-limit pipeline unavailable")), p)
      else answer_to req "redis" (some checked, p')

  pub handle_group_message_async :
      Pipeline J → Oracle → ℕ → ℕ → Session → Request J → Option (DispatchResult J) × Pipeline J
  unfolding admit_group_message start_message submit_group_message_persistence
  handle_group_message_async p o key connection session req =
      elim (admit_group_message p.service key connection session req) [
        | inl resp ↦ (some (immediate resp), p)
        | inr c ↦
            start_message p o req session.account_id (check_group c)
              (submit_group_message_persistence p o c)
      ]

  pub handle_dm_async :
      Pipeline J → Oracle → ℕ → ℕ → Session → Request J → Option (DispatchResult J) × Pipeline J
  unfolding admit_direct_message start_message submit_direct_message_persistence
  handle_dm_async p o key connection session req =
      elim (admit_direct_message p.service key connection session req) [
        | inl resp ↦ (some (immediate resp), p)
        | inr c ↦
            start_message p o req session.account_id (check_direct c)
              (submit_direct_message_persistence p o c)
      ]
