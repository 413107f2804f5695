-- ===== src/Im/MessageSyncService.antt =====
-- src/im/MessageSyncService.cpp and include/common/ConversationKey.h: what a client lacks since the
-- last message it has. A message has the fields of both kinds of record, and stands for itself in
-- the array of JSON. The repositories are a parameter, with the three queries that are used, and
-- are there: their null pointers are left out.
use Prim.Native.Nat.{Ordering}
use Prim.Native.String.{compare, ◌++◌ as ◌<>◌}
use project_chat.Common.{
  ℕ, String, Bool, false, ◌||◌, Option, none, some, List, [], ◌∷◌, ◌++◌, length, leb, if◌then◌else◌,
  is_empty,
}
use project_chat.Storage.Results.{invalid_argument, found, RepoValueResult}
use project_chat.Im.GroupService.{refused, answered}

pub data ConversationType : Type 0 where
  unknown direct group : ConversationType

pub record Message : Type 0 where
  pub message_id : ℕ
  -- `conversationKey`, or `groupId`.
  pub conversation : String
  pub sender_account_id : String
  -- Empty in a group.
  pub receiver_account_id : String
  pub sender_username : String
  pub content : String
  pub server_ts_ms : ℕ

pub record SyncCursor : Type 0 where
  pub type : ConversationType
  pub target_id : String
  pub last_msg_id : ℕ
  pub limit : ℕ

pub record ConversationDelta : Type 0 where
  pub type : ConversationType
  pub target_id : String
  pub from_msg_id : ℕ
  pub latest_msg_id : ℕ
  pub has_more : Bool
  pub messages : List Message

pub record SyncResult (O : Type 0) : Type 0 where
  pub deltas : List ConversationDelta
  pub offline_indexes : List O

-- `MessageRepo` and `OfflineMessageRepo`, over a database and indexes of any kind.
pub record SyncRepos (D : Type 0) (O : Type 0) : Type 0 where
  pub list_direct_messages_after : D → String → ℕ → ℕ → RepoValueResult (List Message)
  pub list_group_messages_after : D → String → ℕ → ℕ → RepoValueResult (List Message)
  pub list_offline_message : D → String → ℕ → RepoValueResult (List O)

unfoldable pub build_direct_conversation_key : String → String → String
build_direct_conversation_key a b =
    if is_empty a || is_empty b
    then ""
    else elim (compare a b) [ Ordering.lt ↦ (a <> "#") <> b | _ ↦ (b <> "#") <> a ]

abbrev pub larger : ℕ → ℕ → ℕ
larger a b = if leb a b then b else a

-- The loop over the messages, with the largest id so far.
pub latest : ℕ → List Message → ℕ
latest n [] = n
latest n (m ∷ ms) = latest (larger n m.message_id) ms

-- `none` for no messages is the client's own last one.
pub latest_or : ℕ → List Message → ℕ
unfolding latest
latest_or last [] = last
latest_or last (m ∷ ms) = latest 0 (m ∷ ms)

pub delta : ConversationType → String → ℕ → ℕ → List Message → ConversationDelta
unfolding latest_or
delta type target_id last_msg_id limit messages = record {
  type = type;
  target_id = target_id;
  from_msg_id = last_msg_id;
  latest_msg_id = latest_or last_msg_id messages;
  has_more = leb limit (length messages);
  messages = messages;
}

-- `ConversationDelta` as it is by default.
abbrev pub no_delta : ConversationDelta
no_delta = record {
  type = unknown;
  target_id = "";
  from_msg_id = 0;
  latest_msg_id = 0;
  has_more = false;
  messages = [];
}

module _ {D : Type 0} {O : Type 0} (repos : SyncRepos D O) where
  pub load_direct_delta : D → String → String → ℕ → ℕ → ConversationDelta
  unfolding delta build_direct_conversation_key
  load_direct_delta d self peer last_msg_id limit =
      let key = build_direct_conversation_key self peer in
      if is_empty key
      then no_delta
      else elim (found (repos.list_direct_messages_after d key last_msg_id limit)) [
        | none ↦ no_delta
        | some ms ↦ delta direct peer last_msg_id limit ms
      ]

  pub load_group_delta : D → String → ℕ → ℕ → ConversationDelta
  unfolding delta
  load_group_delta d group_id last_msg_id limit =
      if is_empty group_id
      then no_delta
      else elim (found (repos.list_group_messages_after d group_id last_msg_id limit)) [
        | none ↦ no_delta
        | some ms ↦ delta group group_id last_msg_id limit ms
      ]

  -- The query of a cursor; `none` is a cursor of unknown type, which is passed over.
  pub query : D → String → SyncCursor → Option (RepoValueResult (List Message))
  unfolding build_direct_conversation_key
  query d account_id c = elim c.type [
    | direct ↦ some (
        repos.list_direct_messages_after d (build_direct_conversation_key account_id c.target_id)
          c.last_msg_id c.limit)
    | group ↦ some (repos.list_group_messages_after d c.target_id c.last_msg_id c.limit)
    | unknown ↦ none
  ]

  -- The loop over the cursors, then the offline messages.
  pub sync_from :
      D → String → ℕ → List ConversationDelta → List SyncCursor → RepoValueResult (SyncResult O)
  unfolding query delta
  sync_from d account_id offline_limit deltas [] =
      let offline = repos.list_offline_message d account_id offline_limit in
      elim (found offline) [
        | none ↦ refused offline.status offline.message
        | some indexes ↦ answered (record { deltas = deltas; offline_indexes = indexes })
      ]
  sync_from d account_id offline_limit deltas (c ∷ cs) =
      let passed = sync_from d account_id offline_limit deltas cs in
      let next =
        λ (x : ConversationDelta). sync_from d account_id offline_limit (deltas ++ (x ∷ [])) cs in
      elim (query d account_id c) [
        | none ↦ passed
        | some r ↦ elim (found r) [
          | none ↦ refused r.status r.message
          | some ms ↦ next (delta c.type c.target_id c.last_msg_id c.limit ms)
        ]
      ]

  pub sync : D → String → List SyncCursor → ℕ → RepoValueResult (SyncResult O)
  unfolding sync_from
  sync d account_id cursors offline_limit =
      if is_empty account_id
      then refused invalid_argument "accountId is empty"
      else sync_from d account_id offline_limit [] cursors
