-- ===== src/Im/SessionManager.antt =====
-- src/im/SessionManager.cpp and include/im/Session.h: a session for each connection, and the two
-- maps between connections and accounts. A method that changes the manager returns it beside its
-- result. A `Session&` that is returned is the session in the map, under the key.
pub mod Online
pub mod History
pub mod Joined
use project_chat.Common.{
  ℕ, String, Bool, true, false, not, Option, none, some, List, [], ◌∷◌, ◌+◌, ◌%◌, ◌^◌, map,
  if◌then◌else◌, nat_key, string_key,
}
use project_chat.Common.Map
use project_chat.Common.Map.{Map, find, assign}
use project_chat.Common.KeySet
use project_chat.Common.KeySet.{KeySet, insert, empty}

pub data ConnState : Type 0 where
  connected authed closing : ConnState

pub data AuthOperation : Type 0 where
  no_operation register password_login token_login logout : AuthOperation

pub record Session : Type 0 where
  pub state : ConnState
  pub username : String
  pub account_id : String
  pub joined_group_ids : KeySet String
  pub user_id : ℕ
  pub peer_ip : String
  pub peer_port : ℕ
  pub pending_auth_operation : AuthOperation
  pub auth_operation_id : ℕ

abbrev pub new_session : Session
new_session = record {
  state = connected;
  username = "";
  account_id = "";
  joined_group_ids = [];
  user_id = 0;
  peer_ip = "";
  peer_port = 0;
  pending_auth_operation = no_operation;
  auth_operation_id = 0;
}

pub record SessionManager : Type 0 where
  pub sessions : Map ℕ Session
  pub account_conns : Map String (KeySet ℕ)
  pub conn_account : Map ℕ String

abbrev pub keys_or_none : Option (KeySet ℕ) → KeySet ℕ
keys_or_none none = []
keys_or_none (some s) = s

abbrev pub session_or_new : Option Session → Session
session_or_new none = new_session
session_or_new (some s) = s

unfoldable pub get_or_create : SessionManager → ℕ → Session × SessionManager
get_or_create m key = elim (find key m.sessions) [
  | some s ↦ (s, m)
  | none ↦ (new_session, record m { sessions = assign key new_session m.sessions })
]

-- Both methods `find`.
unfoldable pub find_session : SessionManager → ℕ → Option Session
find_session m key = find key m.sessions

unfoldable pub bind_user : SessionManager → ℕ → ℕ → String → String → Bool × SessionManager
bind_user m key user_id account_id name = (
  true,
  record m {
    sessions =
        assign key
          (record (session_or_new (find key m.sessions)) {
            user_id = user_id;
            account_id = account_id;
            username = name;
            state = authed;
          })
          m.sessions;
    account_conns =
        assign account_id (insert key (keys_or_none (find account_id m.account_conns)))
          m.account_conns;
    conn_account = assign key account_id m.conn_account;
  },
)

-- The key is taken out of the account's set, and an empty set out of the map.
pub forget : String → ℕ → Map String (KeySet ℕ) → Map String (KeySet ℕ)
forget account_id key conns =
    let left = KeySet.erase key (keys_or_none (find account_id conns)) in
    if empty left
    then Map.erase account_id (assign account_id left conns)
    else assign account_id left conns

pub unbind_conn : SessionManager → ℕ → SessionManager
unfolding forget
unbind_conn m key = elim (find key m.conn_account) [
  | none ↦ m
  | some account_id ↦ record m {
    account_conns = forget account_id key m.account_conns;
    conn_account = Map.erase key m.conn_account;
  }
]

pub conn_keys_by_account_id : SessionManager → String → List ℕ
conn_keys_by_account_id m account_id = keys_or_none (find account_id m.account_conns)

unfoldable pub account_id_by_conn : SessionManager → ℕ → Option String
account_id_by_conn m key = find key m.conn_account

pub is_on_line : SessionManager → String → Bool
is_on_line m account_id = elim (find account_id m.account_conns) [
  | none ↦ false
  | some keys ↦ not (empty keys)
]

pub on_line_users : SessionManager → List String
on_line_users m = map (λ e. e.0) m.account_conns

pub erase : SessionManager → ℕ → SessionManager
erase m key = elim (find key m.sessions) [
  | none ↦ m
  | some s ↦ record m { sessions = Map.erase key m.sessions }
]

pub clear : SessionManager → SessionManager
clear m = record { sessions = []; account_conns = []; conn_account = [] }

-- The loops of `removeJoinedGroup` and `addJoinedGroup`, over the change to a set of groups.
unfoldable pub change_joined :
    (KeySet String → KeySet String) → List ℕ → ℕ → Map ℕ Session → ℕ × Map ℕ Session
change_joined change [] count sessions = (count, sessions)
change_joined change (key ∷ keys) count sessions = elim (find key sessions) [
  | none ↦ change_joined change keys count sessions
  | some s ↦
      change_joined change keys ((count + 1) % 2 ^ 64)
        (assign key (record s { joined_group_ids = change s.joined_group_ids }) sessions)
]

unfoldable pub remove_joined_group : SessionManager → String → String → ℕ × SessionManager
unfolding change_joined conn_keys_by_account_id
remove_joined_group m account_id group_id =
    let (count, sessions) =
      change_joined (KeySet.erase group_id) (conn_keys_by_account_id m account_id) 0 m.sessions in
    (count, record m { sessions = sessions })

unfoldable pub add_joined_group : SessionManager → String → String → ℕ × SessionManager
unfolding change_joined conn_keys_by_account_id
add_joined_group m account_id group_id =
    let (count, sessions) =
      change_joined (insert group_id) (conn_keys_by_account_id m account_id) 0 m.sessions in
    (count, record m { sessions = sessions })

unfoldable pub remove_joined_group_for_accounts :
    SessionManager → List String → String → ℕ × SessionManager
unfolding remove_joined_group
remove_joined_group_for_accounts m [] group_id = (0, m)
remove_joined_group_for_accounts m (account_id ∷ rest) group_id =
    let (count, changed) = remove_joined_group m account_id group_id in
    let (more, last) = remove_joined_group_for_accounts changed rest group_id in
    ((count + more) % 2 ^ 64, last)
