-- ===== src/Im/MsgType/Numbers.antt =====
-- The numbers of the message types and the switch that reads them agree.
use project_chat.Common.{
  ℕ, ◌≡◌, ◌↔◌, refl, Bool, true, some, ap, arith, sym, ◌∙◌, ◌&&◌, ◌==◌, eqb_iff, [], ◌∷◌, nat_key,
}
use project_chat.Common.Map.{Map, find}
use project_chat.Im.MsgType.{
  MsgType, to_int, cases, from_int, auth_req, auth_resp, echo_req, echo_resp, dm_req, dm_resp,
  dm_push, list_users_req, list_users_resp, create_group_req, create_group_resp, join_group_req,
  join_group_resp, leave_group_req, leave_group_resp, group_members_req, group_members_resp,
  list_groups_req, list_groups_resp, group_event_push, group_msg_req, group_msg_resp,
  group_msg_push, group_history_req, group_history_resp, offline_list_req, offline_list_resp,
  offline_ack_req, offline_ack_resp, register_req, register_resp, login_req, login_resp,
  token_login_req, token_login_resp, logout_req, logout_resp, get_profile_req, get_profile_resp,
  update_profile_req, update_profile_resp, search_user_req, search_user_resp, list_friends_req,
  list_friends_resp, send_friend_request_req, send_friend_request_resp, list_friend_request_req,
  list_friend_request_resp, accept_friend_request_req, accept_friend_request_resp,
  reject_friend_request_req, reject_friend_request_resp, remove_friend_req, remove_friend_resp,
  friend_event_push, dm_history_req, dm_history_resp, conversation_list_req, conversation_list_resp,
  conversation_read_req, conversation_read_resp, sync_req, sync_resp, message_ack_req,
  message_ack_resp, kick_group_member_req, kick_group_member_resp, set_group_admin_req,
  set_group_admin_resp, transfer_group_owner_req, transfer_group_owner_resp,
  invite_group_member_req, invite_group_member_resp, dissolve_group_req, dissolve_group_resp,
  apply_group_join_req, apply_group_join_resp, list_group_join_requests_req,
  list_group_join_requests_resp, review_group_join_request_req, review_group_join_request_resp,
  search_public_groups_req, search_public_groups_resp, err,
}

from_int-to_int : (t : MsgType) → from_int (to_int t) ≡ some t
unfolding from_int to_int cases find
from_int-to_int auth_req = refl
from_int-to_int auth_resp = refl
from_int-to_int echo_req = refl
from_int-to_int echo_resp = refl
from_int-to_int dm_req = refl
from_int-to_int dm_resp = refl
from_int-to_int dm_push = refl
from_int-to_int list_users_req = refl
from_int-to_int list_users_resp = refl
from_int-to_int create_group_req = refl
from_int-to_int create_group_resp = refl
from_int-to_int join_group_req = refl
from_int-to_int join_group_resp = refl
from_int-to_int leave_group_req = refl
from_int-to_int leave_group_resp = refl
from_int-to_int group_members_req = refl
from_int-to_int group_members_resp = refl
from_int-to_int list_groups_req = refl
from_int-to_int list_groups_resp = refl
from_int-to_int group_event_push = refl
from_int-to_int group_msg_req = refl
from_int-to_int group_msg_resp = refl
from_int-to_int group_msg_push = refl
from_int-to_int group_history_req = refl
from_int-to_int group_history_resp = refl
from_int-to_int offline_list_req = refl
from_int-to_int offline_list_resp = refl
from_int-to_int offline_ack_req = refl
from_int-to_int offline_ack_resp = refl
from_int-to_int register_req = refl
from_int-to_int register_resp = refl
from_int-to_int login_req = refl
from_int-to_int login_resp = refl
from_int-to_int token_login_req = refl
from_int-to_int token_login_resp = refl
from_int-to_int logout_req = refl
from_int-to_int logout_resp = refl
from_int-to_int get_profile_req = refl
from_int-to_int get_profile_resp = refl
from_int-to_int update_profile_req = refl
from_int-to_int update_profile_resp = refl
from_int-to_int search_user_req = refl
from_int-to_int search_user_resp = refl
from_int-to_int list_friends_req = refl
from_int-to_int list_friends_resp = refl
from_int-to_int send_friend_request_req = refl
from_int-to_int send_friend_request_resp = refl
from_int-to_int list_friend_request_req = refl
from_int-to_int list_friend_request_resp = refl
from_int-to_int accept_friend_request_req = refl
from_int-to_int accept_friend_request_resp = refl
from_int-to_int reject_friend_request_req = refl
from_int-to_int reject_friend_request_resp = refl
from_int-to_int remove_friend_req = refl
from_int-to_int remove_friend_resp = refl
from_int-to_int friend_event_push = refl
from_int-to_int dm_history_req = refl
from_int-to_int dm_history_resp = refl
from_int-to_int conversation_list_req = refl
from_int-to_int conversation_list_resp = refl
from_int-to_int conversation_read_req = refl
from_int-to_int conversation_read_resp = refl
from_int-to_int sync_req = refl
from_int-to_int sync_resp = refl
from_int-to_int message_ack_req = refl
from_int-to_int message_ack_resp = refl
from_int-to_int kick_group_member_req = refl
from_int-to_int kick_group_member_resp = refl
from_int-to_int set_group_admin_req = refl
from_int-to_int set_group_admin_resp = refl
from_int-to_int transfer_group_owner_req = refl
from_int-to_int transfer_group_owner_resp = refl
from_int-to_int invite_group_member_req = refl
from_int-to_int invite_group_member_resp = refl
from_int-to_int dissolve_group_req = refl
from_int-to_int dissolve_group_resp = refl
from_int-to_int apply_group_join_req = refl
from_int-to_int apply_group_join_resp = refl
from_int-to_int list_group_join_requests_req = refl
from_int-to_int list_group_join_requests_resp = refl
from_int-to_int review_group_join_request_req = refl
from_int-to_int review_group_join_request_resp = refl
from_int-to_int search_public_groups_req = refl
from_int-to_int search_public_groups_resp = refl
from_int-to_int err = refl

right : Map ℕ MsgType → Bool
right [] = true
right ((k, t) ∷ m) = (to_int t == k) && right m

find-right :
    (v : ℕ) (t : MsgType) (m : Map ℕ MsgType) → right m ≡ true → find v m ≡ some t → to_int t ≡ v
unfolding right find
find-right v t [] h e = cc
find-right v t ((k, u) ∷ m) h e =
    ground (arith, eqb_iff (to_int u) k, eqb_iff k v, find-right v t m)

-- A number is read as a type exactly when it is the number of this type: the enumerators and the
-- cases of the switch agree, and no two types share a number.
pub from_int_iff : (v : ℕ) (t : MsgType) → (from_int v ≡ some t) ↔ (to_int t ≡ v)
unfolding from_int right cases to_int
from_int_iff v t = (λ e. find-right v t cases refl e, λ e. ap from_int (sym e) ∙ from_int-to_int t)
