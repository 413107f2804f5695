-- ===== src/Im/ImService/Pipeline.antt =====
-- include/im/PendingContextTypes.h, include/im/GroupMessagePersistenceTypes.h and
-- include/im/DirectMessagePersistenceTypes.h, and src/im/GroupMessagePersistenceService.cpp and
-- src/im/DirectMessagePersistenceService.cpp: what a message carries through the executors, and the
-- write of it. The stores are a parameter, over a database of any type.
use project_chat.Common.{
  ℕ, String, Bool, ◌&&◌, ◌||◌, Option, none, some, List, ltb, eqb, if◌then◌else◌, is_empty,
}
use project_chat.Storage.Results.{
  RepoStatus, RepoResult, RepoValueResult, is_ok, invalid_argument, internal, sql_error,
}
use project_chat.Im.ImMessage.{Request}
use project_chat.Im.ImService.{ImService, AsyncRateLimitResult}

-- `connection` is the connection that the weak pointer is of.
pub record PendingGroupMessageContext (J : Type 0) : Type 0 where
  pub connection : ℕ
  pub sender_key : ℕ
  pub request : Request J
  pub sender_account_id : String
  pub sender_username : String
  pub group_id : String
  pub content : String

pub record PendingDirectMessageContext (J : Type 0) : Type 0 where
  pub connection : ℕ
  pub sender_key : ℕ
  pub request : Request J
  pub sender_account_id : String
  pub sender_username : String
  pub receiver_account_id : String
  pub conversation_key : String
  pub content : String

pub record GroupMessageWriteCommand : Type 0 where
  pub msg_id : ℕ
  pub server_ts_ms : ℕ
  pub group_id : String
  pub sender_account_id : String
  pub sender_username : String
  pub content : String

pub record DirectMessageWriteCommand : Type 0 where
  pub msg_id : ℕ
  pub server_ts_ms : ℕ
  pub conversation_key : String
  pub sender_account_id : String
  pub receiver_account_id : String
  pub sender_username : String
  pub content : String

pub record GroupMessageWriteResult : Type 0 where
  pub commit_result : RepoResult
  pub group_seq : ℕ
  pub queue_wait_us : ℕ
  pub persist_us : ℕ

pub record DirectMessageWriteResult : Type 0 where
  pub commit_result : RepoResult
  pub queue_wait_us : ℕ
  pub persist_us : ℕ

-- `GroupMessageWriteResult::durable` and `DirectMessageWriteResult::durable`.
abbrev pub group_durable : GroupMessageWriteResult → Bool
group_durable r = is_ok r.commit_result.status && ltb 0 r.group_seq

abbrev pub direct_durable : DirectMessageWriteResult → Bool
direct_durable r = is_ok r.commit_result.status

-- What a commit comes to: an answer, a `std::exception` with its text, or any other exception.
pub data Committed (A : Type 0) : Type 0 where
  answered : A → Committed A
  raised : String → Committed A
  raised_unknown : Committed A

-- `GroupMessageWriteStore` and `DirectMessageWriteStore`; both services have their store.
pub record WriteStores (D : Type 0) : Type 0 where
  pub commit_group : D → GroupMessageWriteCommand → Committed (RepoValueResult ℕ) × D
  pub commit_direct : D → DirectMessageWriteCommand → Committed RepoResult × D

abbrev pub value_or_zero : Option ℕ → ℕ
value_or_zero none = 0
value_or_zero (some n) = n

abbrev pub write_result : RepoStatus → String → ℕ → ℕ → ℕ → GroupMessageWriteResult
write_result status message group_seq wait persist = record {
  commit_result = record { status = status; message = message };
  group_seq = group_seq;
  queue_wait_us = wait;
  persist_us = persist;
}

abbrev pub direct_result : RepoStatus → String → ℕ → ℕ → DirectMessageWriteResult
direct_result status message wait persist = record {
  commit_result = record { status = status; message = message };
  queue_wait_us = wait;
  persist_us = persist;
}

module _ {D : Type 0} (stores : WriteStores D) where
  -- `GroupMessagePersistenceService::persist`; the two times are measured.
  unfoldable pub persist_group : D → GroupMessageWriteCommand → ℕ → ℕ → GroupMessageWriteResult × D
  persist_group d c wait persist =
      let (answer, d') = stores.commit_group d c in
      if is_empty c.group_id || (eqb c.msg_id 0 || is_empty c.sender_account_id)
      then (write_result invalid_argument "" 0 wait 0, d)
      else elim answer [
        | answered r ↦ (
          write_result r.status r.message (if is_ok r.status then value_or_zero r.value else 0) wait
              persist,
          d',
        )
        | raised text ↦ (write_result internal "not executed" 0 wait 0, d')
        | raised_unknown ↦ (write_result internal "not executed" 0 wait 0, d')
      ]

  -- `DirectMessagePersistenceService::persist`
  unfoldable pub persist_direct :
      D → DirectMessageWriteCommand → ℕ → ℕ → DirectMessageWriteResult × D
  persist_direct d c wait persist =
      let (answer, d') = stores.commit_direct d c in
      if is_empty c.conversation_key
        || (eqb c.msg_id 0 || (is_empty c.sender_account_id || is_empty c.receiver_account_id))
      then (direct_result invalid_argument "" wait persist, d)
      else elim answer [
        | answered r ↦ (direct_result r.status r.message wait persist, d')
        | raised text ↦ (direct_result sql_error text wait persist, d')
        | raised_unknown ↦
            (direct_result internal "unknown direct message persistence exception" wait persist, d')
      ]

-- The tasks of the executors, and what they post to the base loop.
pub data RateCheck (J : Type 0) : Type 0 where
  check_group : PendingGroupMessageContext J → RateCheck J
  check_direct : PendingDirectMessageContext J → RateCheck J

pub data WriteTask (J : Type 0) : Type 0 where
  write_group : PendingGroupMessageContext J → GroupMessageWriteCommand → WriteTask J
  write_direct : PendingDirectMessageContext J → DirectMessageWriteCommand → WriteTask J

pub data Completion (J : Type 0) : Type 0 where
  group_checked : PendingGroupMessageContext J → AsyncRateLimitResult → Completion J
  direct_checked : PendingDirectMessageContext J → AsyncRateLimitResult → Completion J
  group_written :
      PendingGroupMessageContext J
      → GroupMessageWriteCommand
      → GroupMessageWriteResult
      → Completion J
  direct_written :
      PendingDirectMessageContext J
      → DirectMessageWriteCommand
      → DirectMessageWriteResult
      → Completion J

-- The service with the tasks that wait in the executors, under the key each was submitted under.
pub record Pipeline (J : Type 0) : Type 0 where
  pub service : ImService J
  pub redis_tasks : List (String × RateCheck J)
  pub message_tasks : List (String × WriteTask J)
