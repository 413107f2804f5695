-- ===== src/Im/ImService.antt =====
-- src/im/ImService.cpp: what its handlers share. A handler takes the service and returns it beside
-- its answer; a `Session&` is the session under the key of the connection. Which of the injected
-- functions and services are there is a flag. What the batch sender answers, what an executor
-- answers to a submission and the readings of the clock are arguments. `sent` lists what was handed
-- to the batch sender, each response in place of its text; the log is left out.
pub mod Pushes
pub mod Sending
pub mod Pipeline
pub mod Messages
pub mod Completion
pub mod Groups
use Prim.Native.String.{◌++◌ as ◌<>◌}
use project_chat.Common.{
  ℕ, String, Bool, true, false, not, ◌||◌, Option, none, some, List, [], ◌∷◌, ◌++◌, eqb,
  if◌then◌else◌, ◌==◌, string_key, nat_key, is_empty, ◌⊎◌, inl, inr,
}
use project_chat.Common.KeySet.{KeySet, contains}
use project_chat.Id.SnowflakeIdGenerator.{
  SnowflakeIdGenerator, next_id, issued, before_epoch, moved_backwards, asleep,
}
use project_chat.Infra.ThreadPool.{TaskSubmitResult, accepted, queue_full, stopping, invalid_task}
use project_chat.Storage.Results.{
  RepoStatus, sql_error, already_exists, invalid_argument, not_found, cannot_add_yourself,
  already_friends, already_handled, forbidden, not_friends, no_permission, target_not_in_group,
  owner_cannot_leave, owner_cannot_be_kicked, invalid_group_role, group_dissolved,
  cannot_invite_self, invite_requests_friend, group_member_limit_reach, user_not_found,
  join_request_not_found, group_not_found, conflict, message_not_found, internal,
}
use project_chat.Storage.Results
use project_chat.Im.Json.{Json}
use project_chat.Im.ErrorCode.{ErrorCode}
use project_chat.Im.ImMessage.{Request, Response}
use project_chat.Im.ImCodec.{make_err, make_err_with, DispatchResult, immediate, deferred}
use project_chat.Im.GroupManager
use project_chat.Im.GroupManager.{GroupManager, GroupMemberInfo, member_infos}
use project_chat.Im.SessionManager.{
  SessionManager, Session, ConnState, authed, conn_keys_by_account_id, find_session,
}

pub record ImConfig : Type 0 where
  pub max_message_len : ℕ
  pub max_group_name_len : ℕ
  pub require_group_id_for_send : Bool
  pub default_history_limit : ℕ
  pub max_history_limit : ℕ

-- Which functions and services were injected.
pub record Wiring : Type 0 where
  pub message_executor : Bool
  pub base_loop_poster : Bool
  pub batch_sender : Bool
  pub db_read_executor : Bool
  pub redis_executor : Bool
  pub redis_fail_open : Bool
  pub rate_limiter : Bool
  pub group_message_persistence : Bool
  pub direct_message_persistence : Bool

pub record ImService (J : Type 0) : Type 0 where
  pub config : ImConfig
  pub wiring : Wiring
  pub accepting_async_messages : Bool
  pub sessions : SessionManager
  pub groups : GroupManager
  pub ids : SnowflakeIdGenerator
  -- The connections, each by a number of its own, that are alive and not closed.
  pub open_connections : KeySet ℕ
  pub sent : List (List ℕ × Response J)

-- `RateLimitResult` and `AsyncRateLimitResult`.
pub record RateLimitResult : Type 0 where
  pub allowed : Bool
  pub retry_after_ms : ℕ
  pub remaining : ℕ
  pub backend_available : Bool

pub record AsyncRateLimitResult : Type 0 where
  pub decision : RateLimitResult
  pub exception_message : String

-- The readings of the clock for one response: those of the id generator, and `nowMs`.
pub record Stamp : Type 0 where
  pub now_ms : ℕ
  pub readings : List ℕ

-- `nextMessageId`; `none` is an exception.
pub next_message_id : SnowflakeIdGenerator → List ℕ → Option ℕ × SnowflakeIdGenerator
next_message_id g readings = elim (next_id g readings) [
  | issued id after ↦ (some id, after)
  | before_epoch after ↦ (none, after)
  | moved_backwards ↦ (none, g)
  | asleep ↦ (none, g)
]

pub repo_status_to_error_code : RepoStatus → ErrorCode
repo_status_to_error_code Results.ok = ErrorCode.ok
repo_status_to_error_code already_exists = ErrorCode.user_exists
repo_status_to_error_code invalid_argument = ErrorCode.bad_request
repo_status_to_error_code sql_error = ErrorCode.internal
repo_status_to_error_code not_found = ErrorCode.no_such_group
repo_status_to_error_code cannot_add_yourself = ErrorCode.cannot_add_self
repo_status_to_error_code already_friends = ErrorCode.already_friends
repo_status_to_error_code already_handled = ErrorCode.friend_request_already_handled
repo_status_to_error_code forbidden = ErrorCode.friend_request_forbidden
repo_status_to_error_code not_friends = ErrorCode.not_friends
repo_status_to_error_code no_permission = ErrorCode.no_permission
repo_status_to_error_code target_not_in_group = ErrorCode.target_not_in_group
repo_status_to_error_code owner_cannot_leave = ErrorCode.owner_cannot_leave
repo_status_to_error_code owner_cannot_be_kicked = ErrorCode.owner_cannot_be_kicked
repo_status_to_error_code invalid_group_role = ErrorCode.invalid_group_role
repo_status_to_error_code group_dissolved = ErrorCode.group_dissolved
repo_status_to_error_code cannot_invite_self = ErrorCode.cannot_invite_self
repo_status_to_error_code invite_requests_friend = ErrorCode.invite_requires_friend
repo_status_to_error_code group_member_limit_reach = ErrorCode.group_member_limit_reached
repo_status_to_error_code user_not_found = ErrorCode.no_such_user
repo_status_to_error_code join_request_not_found = ErrorCode.join_request_not_found
repo_status_to_error_code group_not_found = ErrorCode.no_such_group
repo_status_to_error_code conflict = ErrorCode.conflict
repo_status_to_error_code message_not_found = ErrorCode.message_not_found
repo_status_to_error_code internal = ErrorCode.internal

abbrev is_authed : ConnState → Bool
is_authed authed = true
is_authed _ = false

abbrev is_sql_error : RepoStatus → Bool
is_sql_error sql_error = true
is_sql_error _ = false

-- `if(targetKeys.insert(key).second)finalKeys.push_back(key)`: the set is that of the keys in the
-- list.
pub add_target : KeySet ℕ → ℕ → KeySet ℕ
add_target seen key = if contains key seen then seen else seen ++ (key ∷ [])

-- The loop over the keys of one account.
pub collect_keys : ℕ → List ℕ → KeySet ℕ → KeySet ℕ
unfolding add_target
collect_keys excluded [] seen = seen
collect_keys excluded (key ∷ keys) seen =
    collect_keys excluded keys (if eqb key excluded then seen else add_target seen key)

-- The loop over the members.
pub collect_members : SessionManager → ℕ → List GroupMemberInfo → KeySet ℕ → KeySet ℕ
unfolding collect_keys
collect_members sessions excluded [] seen = seen
collect_members sessions excluded (m ∷ ms) seen =
    collect_members sessions excluded ms
      (collect_keys excluded (conn_keys_by_account_id sessions m.account_id) seen)

pub collect_group_targets : SessionManager → GroupManager → String → ℕ → List ℕ
unfolding collect_members
collect_group_targets sessions groups group_id excluded =
    collect_members sessions excluded (member_infos groups group_id) []

-- A chain of checks, each with a response that ends it.
infixl 5 ◌>>=◌ ◌>>◌
unfoldable pub ◌>>=◌ : {R : Type 0} {A : Type 0} {B : Type 0} → R ⊎ A → (A → R ⊎ B) → R ⊎ B
inl r >>= f = inl r
inr a >>= f = f a

abbrev pub ◌>>◌ : {R : Type 0} {B : Type 0} → R ⊎ Unit {0} → R ⊎ B → R ⊎ B
m >> k = m >>= λ _. k

-- `if(test) return response;`
abbrev pub refuse_if : {R : Type 0} → Bool → R → R ⊎ Unit {0}
refuse_if test r = if test then inl r else inr tt

module _ {J : Type 0} (json : Json J) where
  pub make_repo_error : Request J → RepoStatus → String → Response J
  unfolding repo_status_to_error_code
  make_repo_error req status fallback_msg =
      make_err json req (repo_status_to_error_code status)
        (if is_sql_error status then "Storage internal error" else fallback_msg)

  pub guard_authenticated : Request J → Session → Response J ⊎ Unit {0}
  guard_authenticated req session =
      refuse_if (not (is_authed session.state))
        (make_err json req ErrorCode.not_authed "Unauthed, please authenticate first")

  pub guard_in_group : ImService J → Request J → Session → String → Response J ⊎ Unit {0}
  guard_in_group s req session group_id =
      refuse_if
        (is_empty group_id || not (GroupManager.is_member s.groups group_id session.account_id))
        (make_err json req ErrorCode.not_in_group "Not in group,please join the group first")

  -- With `allowEmpty` false, as every caller has it.
  pub get_string_field : Request J → String → Response J ⊎ String
  get_string_field req field = do
    refuse_if (not (json.contains req.body field))
        (make_err json req ErrorCode.missing_field ("Missing field" <> field))
    refuse_if (not (json.is_string (json.at req.body field)))
        (make_err json req ErrorCode.bad_request "Bad request")
    refuse_if (is_empty (json.tested_string (json.at req.body field)))
        (make_err json req ErrorCode.missing_field "Field is empty")
    inr (json.tested_string (json.at req.body field))

  pub make_rate_limit_error : Request J → RateLimitResult → Response J
  make_rate_limit_error req result =
      make_err_with json req ErrorCode.rate_limited "too many requests"
        (json.object (("retryAfterMs", json.number result.retry_after_ms) ∷ []))

  pub evaluate_rate_limit_result :
      ImService J → Request J → AsyncRateLimitResult → Option (Response J)
  unfolding make_rate_limit_error
  evaluate_rate_limit_result s req result =
      if not result.decision.backend_available || not (is_empty result.exception_message)
      then if s.wiring.redis_fail_open
        then none
        else some (
            make_err_with json req ErrorCode.internal "rate limit service unavailable"
              (json.object (("retryable", json.boolean true) ∷ [])))
      else if not result.decision.allowed
      then some (make_rate_limit_error req result.decision)
      else none

  -- `resolvePendingSender` and `resolvePendingSession`.
  pub resolve_pending_sender : ImService J → ℕ → ℕ → String → Option Session
  resolve_pending_sender s connection key account_id =
      if not (contains connection s.open_connections)
      then none
      else elim (find_session s.sessions key) [
        | none ↦ none
        | some session ↦ if session.account_id == account_id then some session else none
      ]

  pub submit_result_map_to_dispatch_result :
      Request J → TaskSubmitResult → String → DispatchResult J
  submit_result_map_to_dispatch_result req result pipeline =
      let retry : J =
        json.object (("retryable", json.boolean true) ∷ ("pipeline", json.text pipeline) ∷ []) in
      elim result [
        | accepted ↦ deferred
        | queue_full ↦ immediate (
            make_err_with json req ErrorCode.delivery_overloaded (pipeline <> " queue is full")
              retry)
        | stopping ↦ immediate (
            make_err_with json req ErrorCode.internal (pipeline <> " Message service is stopping")
              retry)
        | invalid_task ↦
            immediate (
              make_err_with json req ErrorCode.internal (("Invalid " <> pipeline) <> " task") retry)
      ]
