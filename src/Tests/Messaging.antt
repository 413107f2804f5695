-- ===== src/Tests/Messaging.antt =====
-- The messaging layer at concrete inputs.
use project_chat.Common.{
  ℕ, String, ◌≡◌, ◌↔◌, refl, true, some, List, [], ◌∷◌, not, ◌&&◌, ◌||◌, ◌==◌, nat_key, string_key,
}
use project_chat.Common.Map.{find, has}
use project_chat.Common.KeySet.{contains}
use project_chat.Im.SessionManager.{
  SessionManager, new_session, conn_keys_by_account_id, account_id_by_conn, is_on_line,
  get_or_create, add_joined_group, remove_joined_group,
}
use project_chat.Im.SessionManager.History
use project_chat.Im.SessionManager.History.{
  open_conn, bind, unbind, join_group, MayRun, run-on_line,
}
use project_chat.Im.SessionManager.Joined.{is_joined, joined_group_lem}
use project_chat.Im.MsgType.{from_int, to_int, login_resp}
use project_chat.Im.MsgType.Numbers.{from_int_iff}
use project_chat.Im.Group.{admin}
use project_chat.Im.GroupManager.Consistent.{IsConsistent}
use project_chat.Im.GroupManager.History.{
  Call, create, join, set_role, transfer, leave, run, start, run-IsConsistent,
}

abbrev history : List Call
history =
    create "g" "ann" "club"
    ∷ join "g" "bob"
    ∷ set_role "g" "bob" admin
    ∷ transfer "g" "ann" "bob"
    ∷ leave "g" "ann"
    ∷ []

run-IsConsistent_example : IsConsistent (run start history)
run-IsConsistent_example = run-IsConsistent history

abbrev calls : List History.Call
calls = open_conn 3 ∷ bind 3 1 "ann" "Ann" ∷ join_group "ann" "g" ∷ unbind 3 ∷ []

calls-MayRun : MayRun History.start calls
unfolding account_id_by_conn History.step get_or_create find
calls-MayRun = (tt, (refl, (tt, (tt, tt))))

run-on_line_example :
    let m = History.run History.start calls in
    ((contains 3 (conn_keys_by_account_id m "ann") ≡ true) ↔ (account_id_by_conn m 3 ≡ some "ann"))
    × ((is_on_line m "ann" ≡ true) ↔ ((j : ℕ) × (account_id_by_conn m j ≡ some "ann")))
run-on_line_example = run-on_line calls "ann" 3 calls-MayRun

abbrev group : String
group = "g"

abbrev two_sessions : SessionManager
two_sessions = record {
  sessions = (3, new_session) ∷ (4, new_session) ∷ [];
  account_conns = ("ann", 3 ∷ []) ∷ [];
  conn_account = (3, "ann") ∷ [];
}

joined_group_lem_example :
    (is_joined (add_joined_group two_sessions "ann" group).1 3 group ≡ (
      is_joined two_sessions 3 group
      || (contains 3 (conn_keys_by_account_id two_sessions "ann")
          && has 3 two_sessions.sessions
          && (group == group))))
    × (is_joined (remove_joined_group two_sessions "ann" group).1 3 group ≡ (
        is_joined two_sessions 3 group
        && not (contains 3 (conn_keys_by_account_id two_sessions "ann") && (group == group))))
joined_group_lem_example = joined_group_lem two_sessions "ann" group group 3

from_int_iff_example : (from_int 33 ≡ some login_resp) ↔ (to_int login_resp ≡ 33)
from_int_iff_example = from_int_iff 33 login_resp
