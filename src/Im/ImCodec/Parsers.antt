-- ===== src/Im/ImCodec/Parsers.antt =====
-- src/im/ImCodec.cpp, include/im/SyncParseResult.h and include/im/HistoryQuery.h: the parsers of the
-- fields of a request. A number is read from JSON as in the source: an unsigned one as it is, a
-- signed one only when it is positive.
pub mod Limits
use Prim.Native.String.{◌++◌ as ◌<>◌}
use project_chat.Common.{
  ℕ, String, not, ◌&&◌, Option, none, some, List, [], ◌∷◌, ◌++◌, length, ltb, eqb, if◌then◌else◌,
  ◌==◌, string_key, is_empty, ◌⊎◌, inl, inr,
}
use project_chat.Common.Int.{is_positive, is_non_negative, to_uint64}
use project_chat.Im.Json.{Json}
use project_chat.Im.ErrorCode.{
  ErrorCode, bad_request, missing_field, ack_batch_too_large, invalid_ack_payload,
}
use project_chat.Im.ImCodec.{make_err}
use project_chat.Im.ImMessage.{Request, Response}
use project_chat.Im.MessageSyncService.{SyncCursor, ConversationType, direct, group}

pub data SyncParseResult : Type 0 where
  parsed : List SyncCursor → SyncParseResult
  refused : ErrorCode → String → SyncParseResult

pub data HistoryQueryMode : Type 0 where
  latest before after : HistoryQueryMode

pub record HistoryQuery : Type 0 where
  pub mode : HistoryQueryMode
  pub before_msg_id : ℕ
  pub last_msg_id : ℕ
  pub limit : ℕ

unfoldable pub history_query_mode_to_string : HistoryQueryMode → String
history_query_mode_to_string latest = "latest"
history_query_mode_to_string before = "before"
history_query_mode_to_string after = "after"

pub record MessageAckPayload : Type 0 where
  pub msg_ids : List ℕ
  pub offline_msg_ids : List ℕ

pub data MessageAckParseResult : Type 0 where
  acknowledged : MessageAckPayload → MessageAckParseResult
  ack_refused : ErrorCode → String → MessageAckParseResult

abbrev clamp : ℕ → ℕ → ℕ
clamp limit max_limit = if ltb max_limit limit then max_limit else limit

-- `limit` of a cursor, from the value in it on.
pub cursor_limit : ℕ → ℕ → ℕ → ℕ
cursor_limit default_limit max_limit n = clamp (if eqb n 0 then default_limit else n) max_limit

pub read_type : String → Option ConversationType
read_type s = if s == "direct" then some direct else if s == "group" then some group else none

pub query_mode : ℕ → ℕ → HistoryQueryMode
query_mode before_msg_id last_msg_id =
    if eqb before_msg_id 0 && eqb last_msg_id 0
    then latest
    else if ltb 0 before_msg_id && eqb last_msg_id 0
    then before
    else if eqb before_msg_id 0 && ltb 0 last_msg_id
    then after
    else latest

module _ {J : Type 0} (json : Json J) where
  -- The branches that read a number: as it is when it is unsigned, and when it is a positive signed
  -- one; `none` is the branch that refuses it.
  pub read_positive : J → Option ℕ
  read_positive v =
      if json.is_number_unsigned v
      then some (json.tested_uint64 v)
      else if json.is_number_integer v && is_positive (json.tested_int64 v)
      then some (to_uint64 (json.tested_int64 v))
      else none

  -- The same, with `>=0`.
  pub read_non_negative : J → Option ℕ
  read_non_negative v =
      if json.is_number_unsigned v
      then some (json.tested_uint64 v)
      else if json.is_number_integer v && is_non_negative (json.tested_int64 v)
      then some (to_uint64 (json.tested_int64 v))
      else none

  -- A number that may be missing.
  pub read_field : (J → Option ℕ) → J → String → ℕ → Option ℕ
  read_field read j key missing = if json.contains j key then read (json.at j key) else some missing

  pub parse_limit : Request J → String → ℕ → ℕ → ℕ
  unfolding read_positive
  parse_limit req key default_value limit_value =
      if json.contains req.body key
      then elim (read_positive (json.at req.body key)) [
        | none ↦ clamp default_value limit_value
        | some n ↦ clamp n limit_value
      ]
      else default_value

  -- A cursor with its type and its target, from `lastMsgId` on.
  pub parse_cursor_numbers :
      J → ConversationType → String → ℕ → ℕ → (ErrorCode × String) ⊎ SyncCursor
  unfolding read_field read_non_negative read_positive cursor_limit
  parse_cursor_numbers item type target_id default_limit max_limit =
      elim (read_field read_non_negative item "lastMsgId" 0) [
        | none ↦ inl (bad_request, "lastMsgId is invalid")
        | some last_msg_id ↦ elim (read_field read_positive item "limit" default_limit) [
          | none ↦ inl (bad_request, "")
          | some n ↦ inr (record {
            type = type;
            target_id = target_id;
            last_msg_id = last_msg_id;
            limit = cursor_limit default_limit max_limit n;
          })
        ]
      ]

  -- A cursor with its type, from `targetId` on.
  pub parse_cursor_target : J → ConversationType → ℕ → ℕ → (ErrorCode × String) ⊎ SyncCursor
  unfolding parse_cursor_numbers
  parse_cursor_target item type default_limit max_limit =
      let target = json.at item "targetId" in
      if not (json.contains item "targetId")
      then inl (missing_field, "missing targetId")
      else if not (json.is_string target)
      then inl (bad_request, "targetId is not string")
      else if is_empty (json.tested_string target)
      then inl (bad_request, "targetId is empty")
      else parse_cursor_numbers item type (json.tested_string target) default_limit max_limit

  pub parse_cursor : J → ℕ → ℕ → (ErrorCode × String) ⊎ SyncCursor
  unfolding parse_cursor_target read_type
  parse_cursor item default_limit max_limit =
      let kind = json.at item "conversationType" in
      if not (json.is_object item)
      then inl (bad_request, "cursor must be object")
      else if not (json.contains item "conversationType")
      then inl (missing_field, "missing conversationType")
      else if not (json.is_string kind)
      then inl (bad_request, "conversation is not string")
      else elim (read_type (json.tested_string kind)) [
        | none ↦ inl (bad_request, "conversation must be direct or group")
        | some type ↦ parse_cursor_target item type default_limit max_limit
      ]

  -- The loop over the cursors, with those that are read.
  pub parse_cursors : ℕ → ℕ → List SyncCursor → List J → SyncParseResult
  unfolding parse_cursor
  parse_cursors default_limit max_limit cursors [] = parsed cursors
  parse_cursors default_limit max_limit cursors (item ∷ rest) =
      elim (parse_cursor item default_limit max_limit) [
        | inl (code, message) ↦ refused code message
        | inr c ↦ parse_cursors default_limit max_limit (cursors ++ (c ∷ [])) rest
      ]

  pub parse_sync_cursors : Request J → ℕ → ℕ → SyncParseResult
  unfolding parse_cursors
  parse_sync_cursors req default_limit max_limit =
      let cursors = json.at req.body "cursors" in
      if not (json.contains req.body "cursors")
      then parsed []
      else if not (json.is_array cursors)
      then refused bad_request "cursors must be array"
      else parse_cursors default_limit max_limit [] (json.items cursors)

  -- An item of an array of ids.
  pub read_id : J → Option ℕ
  read_id v =
      if json.is_number_unsigned v && ltb 0 (json.tested_uint64 v)
      then some (json.tested_uint64 v)
      else if json.is_number_integer v && is_positive (json.tested_int64 v)
      then some (to_uint64 (json.tested_int64 v))
      else none

  -- The loop over the items, with what is in `out`; `none` is an item that is refused.
  pub read_ids : List ℕ → List J → Option (List ℕ)
  unfolding read_id
  read_ids out [] = some out
  read_ids out (item ∷ rest) = elim (read_id item) [
    | none ↦ none
    | some n ↦ read_ids (out ++ (n ∷ [])) rest
  ]

  -- `out` after the call, or the refusal. A missing field leaves `out` as it is.
  pub parse_uint64_array_field : Request J → String → List ℕ → ℕ → Response J ⊎ List ℕ
  unfolding read_ids
  parse_uint64_array_field req field out max_batch_size =
      let arr = json.at req.body field in
      if not (json.contains req.body field)
      then inr out
      else if not (json.is_array arr)
      then inl (make_err json req bad_request ("Field is not an array: " <> field))
      else if eqb (length (json.items arr)) 0
      then inl (make_err json req bad_request ("Array is empty: " <> field))
      else if ltb max_batch_size (length (json.items arr))
      then inl (make_err json req ack_batch_too_large ("Batch size is too large: " <> field))
      else elim (read_ids [] (json.items arr)) [
        | none ↦ inl (make_err json req bad_request ("Invalid value for field: " <> field))
        | some ids ↦ inr ids
      ]

  -- From the two arrays on.
  pub ack_of : Response J ⊎ List ℕ → Response J ⊎ List ℕ → MessageAckParseResult
  ack_of (inl e) offline = ack_refused e.code e.msg
  ack_of (inr msg_ids) (inl e) = ack_refused e.code e.msg
  ack_of (inr msg_ids) (inr offline_msg_ids) =
      if eqb (length msg_ids) 0 && eqb (length offline_msg_ids) 0
      then ack_refused invalid_ack_payload "msgIds and offlineMsgIds cannot both be empty"
      else acknowledged (record { msg_ids = msg_ids; offline_msg_ids = offline_msg_ids })

  pub parse_message_ack : Request J → ℕ → MessageAckParseResult
  unfolding parse_uint64_array_field ack_of
  parse_message_ack req max_batch_size =
      ack_of (parse_uint64_array_field req "msgIds" [] max_batch_size)
        (parse_uint64_array_field req "offlineMsgIds" [] max_batch_size)

  -- `none` is the refusal, always `BAD_REQUEST` without a text.
  pub parse_history_query : Request J → ℕ → ℕ → Option HistoryQuery
  unfolding read_field read_positive query_mode
  parse_history_query req default_limit max_limit =
      elim (read_field read_positive req.body "limit" default_limit) [
        | none ↦ none
        | some limit ↦ elim (read_field read_positive req.body "beforeMsgId" 0) [
          | none ↦ none
          | some before_msg_id ↦ elim (read_field read_positive req.body "lastMsgId" 0) [
            | none ↦ none
            | some last_msg_id ↦
                if ltb 0 before_msg_id && ltb 0 last_msg_id
                then none
                else some (record {
                  mode = query_mode before_msg_id last_msg_id;
                  before_msg_id = before_msg_id;
                  last_msg_id = last_msg_id;
                  limit = clamp limit max_limit;
                })
          ]
        ]
      ]
