-- ===== src/Im/MsgType.antt =====
-- include/im/MsgType.h: the types of messages and their numbers on the wire. The enumerators
-- without a number of their own have the one that C++ gives them.
pub mod Numbers
use project_chat.Common.{ℕ, Bool, Option, [], ◌∷◌, nat_key}
use project_chat.Common.Map.{Map, find, is_some}

pub data MsgType : Type 0 where
  auth_req auth_resp echo_req echo_resp dm_req dm_resp dm_push list_users_req : MsgType
  list_users_resp create_group_req create_group_resp join_group_req join_group_resp : MsgType
  leave_group_req leave_group_resp group_members_req group_members_resp list_groups_req : MsgType
  list_groups_resp group_event_push group_msg_req group_msg_resp group_msg_push : MsgType
  group_history_req group_history_resp offline_list_req offline_list_resp : MsgType
  offline_ack_req offline_ack_resp register_req register_resp login_req login_resp : MsgType
  token_login_req token_login_resp logout_req logout_resp get_profile_req : MsgType
  get_profile_resp update_profile_req update_profile_resp search_user_req : MsgType
  search_user_resp list_friends_req list_friends_resp send_friend_request_req : MsgType
  send_friend_request_resp list_friend_request_req list_friend_request_resp : MsgType
  accept_friend_request_req accept_friend_request_resp reject_friend_request_req : MsgType
  reject_friend_request_resp remove_friend_req remove_friend_resp friend_event_push : MsgType
  dm_history_req dm_history_resp conversation_list_req conversation_list_resp : MsgType
  conversation_read_req conversation_read_resp sync_req sync_resp message_ack_req : MsgType
  message_ack_resp kick_group_member_req kick_group_member_resp set_group_admin_req : MsgType
  set_group_admin_resp transfer_group_owner_req transfer_group_owner_resp : MsgType
  invite_group_member_req invite_group_member_resp dissolve_group_req : MsgType
  dissolve_group_resp apply_group_join_req apply_group_join_resp : MsgType
  list_group_join_requests_req list_group_join_requests_resp : MsgType
  review_group_join_request_req review_group_join_request_resp search_public_groups_req : MsgType
  search_public_groups_resp err : MsgType

-- `msgTypeToInt`
pub to_int : MsgType → ℕ
to_int auth_req = 1
to_int auth_resp = 2
to_int echo_req = 3
to_int echo_resp = 4
to_int dm_req = 5
to_int dm_resp = 6
to_int dm_push = 7
to_int list_users_req = 8
to_int list_users_resp = 9
to_int create_group_req = 10
to_int create_group_resp = 11
to_int join_group_req = 12
to_int join_group_resp = 13
to_int leave_group_req = 14
to_int leave_group_resp = 15
to_int group_members_req = 16
to_int group_members_resp = 17
to_int list_groups_req = 18
to_int list_groups_resp = 19
to_int group_event_push = 20
to_int group_msg_req = 21
to_int group_msg_resp = 22
to_int group_msg_push = 23
to_int group_history_req = 24
to_int group_history_resp = 25
to_int offline_list_req = 26
to_int offline_list_resp = 27
to_int offline_ack_req = 28
to_int offline_ack_resp = 29
to_int register_req = 30
to_int register_resp = 31
to_int login_req = 32
to_int login_resp = 33
to_int token_login_req = 34
to_int token_login_resp = 35
to_int logout_req = 36
to_int logout_resp = 37
to_int get_profile_req = 38
to_int get_profile_resp = 39
to_int update_profile_req = 40
to_int update_profile_resp = 41
to_int search_user_req = 42
to_int search_user_resp = 43
to_int list_friends_req = 44
to_int list_friends_resp = 45
to_int send_friend_request_req = 46
to_int send_friend_request_resp = 47
to_int list_friend_request_req = 48
to_int list_friend_request_resp = 49
to_int accept_friend_request_req = 50
to_int accept_friend_request_resp = 51
to_int reject_friend_request_req = 52
to_int reject_friend_request_resp = 53
to_int remove_friend_req = 54
to_int remove_friend_resp = 55
to_int friend_event_push = 56
to_int dm_history_req = 57
to_int dm_history_resp = 58
to_int conversation_list_req = 59
to_int conversation_list_resp = 60
to_int conversation_read_req = 61
to_int conversation_read_resp = 62
to_int sync_req = 63
to_int sync_resp = 64
to_int message_ack_req = 65
to_int message_ack_resp = 66
to_int kick_group_member_req = 67
to_int kick_group_member_resp = 68
to_int set_group_admin_req = 69
to_int set_group_admin_resp = 70
to_int transfer_group_owner_req = 71
to_int transfer_group_owner_resp = 72
to_int invite_group_member_req = 73
to_int invite_group_member_resp = 74
to_int dissolve_group_req = 75
to_int dissolve_group_resp = 76
to_int apply_group_join_req = 77
to_int apply_group_join_resp = 78
to_int list_group_join_requests_req = 79
to_int list_group_join_requests_resp = 80
to_int review_group_join_request_req = 81
to_int review_group_join_request_resp = 82
to_int search_public_groups_req = 83
to_int search_public_groups_resp = 84
to_int err = 255

-- The cases of the switch in `msgTypeFromInt`.
pub cases : Map ℕ MsgType
cases =
    (1, auth_req)
    ∷ (2, auth_resp)
    ∷ (3, echo_req)
    ∷ (4, echo_resp)
    ∷ (5, dm_req)
    ∷ (6, dm_resp)
    ∷ (7, dm_push)
    ∷ (8, list_users_req)
    ∷ (9, list_users_resp)
    ∷ (10, create_group_req)
    ∷ (11, create_group_resp)
    ∷ (12, join_group_req)
    ∷ (13, join_group_resp)
    ∷ (14, leave_group_req)
    ∷ (15, leave_group_resp)
    ∷ (16, group_members_req)
    ∷ (17, group_members_resp)
    ∷ (18, list_groups_req)
    ∷ (19, list_groups_resp)
    ∷ (20, group_event_push)
    ∷ (21, group_msg_req)
    ∷ (22, group_msg_resp)
    ∷ (23, group_msg_push)
    ∷ (24, group_history_req)
    ∷ (25, group_history_resp)
    ∷ (26, offline_list_req)
    ∷ (27, offline_list_resp)
    ∷ (28, offline_ack_req)
    ∷ (29, offline_ack_resp)
    ∷ (30, register_req)
    ∷ (31, register_resp)
    ∷ (32, login_req)
    ∷ (33, login_resp)
    ∷ (34, token_login_req)
    ∷ (35, token_login_resp)
    ∷ (36, logout_req)
    ∷ (37, logout_resp)
    ∷ (38, get_profile_req)
    ∷ (39, get_profile_resp)
    ∷ (40, update_profile_req)
    ∷ (41, update_profile_resp)
    ∷ (42, search_user_req)
    ∷ (43, search_user_resp)
    ∷ (44, list_friends_req)
    ∷ (45, list_friends_resp)
    ∷ (46, send_friend_request_req)
    ∷ (47, send_friend_request_resp)
    ∷ (48, list_friend_request_req)
    ∷ (49, list_friend_request_resp)
    ∷ (50, accept_friend_request_req)
    ∷ (51, accept_friend_request_resp)
    ∷ (52, reject_friend_request_req)
    ∷ (53, reject_friend_request_resp)
    ∷ (54, remove_friend_req)
    ∷ (55, remove_friend_resp)
    ∷ (56, friend_event_push)
    ∷ (57, dm_history_req)
    ∷ (58, dm_history_resp)
    ∷ (59, conversation_list_req)
    ∷ (60, conversation_list_resp)
    ∷ (61, conversation_read_req)
    ∷ (62, conversation_read_resp)
    ∷ (63, sync_req)
    ∷ (64, sync_resp)
    ∷ (65, message_ack_req)
    ∷ (66, message_ack_resp)
    ∷ (67, kick_group_member_req)
    ∷ (68, kick_group_member_resp)
    ∷ (69, set_group_admin_req)
    ∷ (70, set_group_admin_resp)
    ∷ (71, transfer_group_owner_req)
    ∷ (72, transfer_group_owner_resp)
    ∷ (73, invite_group_member_req)
    ∷ (74, invite_group_member_resp)
    ∷ (75, dissolve_group_req)
    ∷ (76, dissolve_group_resp)
    ∷ (77, apply_group_join_req)
    ∷ (78, apply_group_join_resp)
    ∷ (79, list_group_join_requests_req)
    ∷ (80, list_group_join_requests_resp)
    ∷ (81, review_group_join_request_req)
    ∷ (82, review_group_join_request_resp)
    ∷ (83, search_public_groups_req)
    ∷ (84, search_public_groups_resp)
    ∷ (255, err)
    ∷ []

pub from_int : ℕ → Option MsgType
unfolding cases
from_int v = find v cases

pub is_valid : ℕ → Bool
unfolding from_int
is_valid v = is_some (from_int v)
