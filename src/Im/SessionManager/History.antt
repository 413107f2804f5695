-- ===== src/Im/SessionManager/History.antt =====
-- All that the service does to the sessions. A connection is bound when it is bound to no account,
-- which the handlers of `ImService` see to by the state of the session.
use project_chat.Common.{
  ℕ, String, ◌≡◌, ◌↔◌, true, none, some, List, [], ◌∷◌, nat_key, string_key, Option-cases, inl, inr,
}
use project_chat.Common.Map.{find}
use project_chat.Common.KeySet.{contains}
use project_chat.Im.SessionManager
use project_chat.Im.SessionManager.{
  SessionManager, get_or_create, bind_user, unbind_conn, is_on_line, clear, add_joined_group,
  remove_joined_group, remove_joined_group_for_accounts, conn_keys_by_account_id,
  account_id_by_conn,
}
use project_chat.Im.SessionManager.Online.{
  IsConsistent, bound-IsConsistent, unbound-IsConsistent, sessions-IsConsistent, empty-IsConsistent,
  peopled_of, on_line_of, linked_iff,
}

pub data Call : Type 0 where
  open_conn : ℕ → Call
  bind : ℕ → ℕ → String → String → Call
  unbind erase : ℕ → Call
  clear_all : Call
  join_group leave_group : String → String → Call
  dissolve_group : List String → String → Call

unfoldable pub step : SessionManager → Call → SessionManager
step m (open_conn k) = (get_or_create m k).1
step m (bind k u a n) = (bind_user m k u a n).1
step m (unbind k) = unbind_conn m k
step m (erase k) = SessionManager.erase m k
step m clear_all = clear m
step m (join_group a g) = (add_joined_group m a g).1
step m (leave_group a g) = (remove_joined_group m a g).1
step m (dissolve_group accounts g) = (remove_joined_group_for_accounts m accounts g).1

pub run : SessionManager → List Call → SessionManager
run m [] = m
run m (c ∷ cs) = run (step m c) cs

abbrev pub start : SessionManager
start = record { sessions = []; account_conns = []; conn_account = [] }

-- A bind is of a connection without an account.
abbrev pub MayStep : SessionManager → Call → Type 0
MayStep m (bind k u a n) = account_id_by_conn m k ≡ none
MayStep m _ = Unit

abbrev pub MayRun : SessionManager → List Call → Type 0
MayRun m [] = Unit
MayRun m (c ∷ cs) = MayStep m c × MayRun (step m c) cs

dissolved-IsConsistent :
    (m : SessionManager) (accounts : List String) (g : String)
    → IsConsistent m
    → IsConsistent (remove_joined_group_for_accounts m accounts g).1
unfolding remove_joined_group_for_accounts remove_joined_group
dissolved-IsConsistent m [] g c = c
dissolved-IsConsistent m (a ∷ accounts) g c =
    dissolved-IsConsistent (remove_joined_group m a g).1 accounts g (sessions-IsConsistent m _ c)

step-IsConsistent :
    (m : SessionManager) (c : Call) → MayStep m c → IsConsistent m → IsConsistent (step m c)
unfolding step get_or_create SessionManager.erase clear add_joined_group remove_joined_group
    account_id_by_conn
step-IsConsistent m (open_conn k) h c = elim (Option-cases (find k m.sessions)) [
  | inl missing ↦ rw (missing, step) (sessions-IsConsistent m _ c)
  | inr (s, e) ↦ rw (e, step) c
]
step-IsConsistent m (bind k u a n) h c = bound-IsConsistent m k u a n h c
step-IsConsistent m (unbind k) h c = unbound-IsConsistent m k c
step-IsConsistent m (erase k) h c = elim (Option-cases (find k m.sessions)) [
  | inl missing ↦ rw (missing, step, SessionManager.erase) c
  | inr (s, e) ↦ rw (e, step, SessionManager.erase) (sessions-IsConsistent m _ c)
]
step-IsConsistent m clear_all h c = empty-IsConsistent
step-IsConsistent m (join_group a g) h c = sessions-IsConsistent m _ c
step-IsConsistent m (leave_group a g) h c = sessions-IsConsistent m _ c
step-IsConsistent m (dissolve_group accounts g) h c = dissolved-IsConsistent m accounts g c

pub run-IsConsistent_from :
    (m : SessionManager) (cs : List Call) → MayRun m cs → IsConsistent m → IsConsistent (run m cs)
unfolding run
run-IsConsistent_from m [] h c = c
run-IsConsistent_from m (x ∷ cs) h c =
    run-IsConsistent_from (step m x) cs h.1 (step-IsConsistent m x h.0 c)

-- After any history in which only connections without an account are bound, the connections kept
-- for an account are exactly those whose account it is, and an account is on line exactly when
-- it has a connection.
pub run-on_line :
    (cs : List Call) (a : String) (k : ℕ)
    → MayRun start cs
    → let m = run start cs in
      ((contains k (conn_keys_by_account_id m a) ≡ true) ↔ (account_id_by_conn m k ≡ some a))
      × ((is_on_line m a ≡ true) ↔ ((j : ℕ) × (account_id_by_conn m j ≡ some a)))
run-on_line cs a k h =
    let m : SessionManager = run start cs in
    let c = run-IsConsistent_from start cs h empty-IsConsistent in
    (linked_iff m a k c, (λ e. peopled_of m a c e, λ (j, e). on_line_of m a j c e))
