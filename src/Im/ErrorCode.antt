-- ===== src/Im/ErrorCode.antt =====
-- include/im/ErrorCode.h: the error codes of an answer and their texts. The default of the switch
-- is not reached: every code has a case.
pub mod Texts
use project_chat.Common.{ℕ, String}

pub data ErrorCode : Type 0 where
  ok bad_json missing_field unsupported_ver unknown_type not_authed user_exists : ErrorCode
  bad_request no_such_user no_such_group already_in_group not_in_group : ErrorCode
  group_name_invalid user_not_found bad_password weak_password token_invalid : ErrorCode
  token_expired token_revoked profile_not_found nickname_invalid signature_too_long : ErrorCode
  avatar_url_too_long cannot_add_self already_friends friend_request_exists : ErrorCode
  friend_request_not_found friend_request_already_handled friend_request_forbidden : ErrorCode
  not_friends recipient_offline delivery_overloaded invalid_ack_payload : ErrorCode
  ack_batch_too_large message_not_found message_ack_forbidden no_permission : ErrorCode
  target_not_in_group owner_cannot_leave owner_cannot_be_kicked invalid_group_role : ErrorCode
  cannot_kick_self group_dissolved cannot_invite_self invite_requires_friend : ErrorCode
  group_member_limit_reached join_request_not_found rate_limited conflict internal : ErrorCode

-- `errCodeToString`
pub to_string : ErrorCode → String
to_string ok = "OK"
to_string bad_json = "Bad JSON"
to_string missing_field = "Missing Field"
to_string unsupported_ver = "Unsupported Version"
to_string unknown_type = "Unknown Type"
to_string not_authed = "Not Authenticated"
to_string user_exists = "User exists"
to_string bad_request = "Request Error"
to_string no_such_user = "User do not exist"
to_string no_such_group = "Group do not exist"
to_string already_in_group = "User is already in the group"
to_string not_in_group = "The user is not in the group"
to_string group_name_invalid = "Group name is invalid"
to_string user_not_found = "User is not exist"
to_string bad_password = "Password is wrong"
to_string weak_password = "Password is too weak"
to_string internal = "Internal Server Error"
to_string token_invalid = "Token is invalid"
to_string token_expired = "Token is expired"
to_string token_revoked = "Token is revoked"
to_string profile_not_found = "Profile not found"
to_string nickname_invalid = "Nickname is invalid"
to_string signature_too_long = "Signature is too long"
to_string avatar_url_too_long = "Avatar URL is too long"
to_string cannot_add_self = "Cannot add self as friend"
to_string already_friends = "Already friends"
to_string friend_request_exists = "Friend request already exists"
to_string friend_request_not_found = "Friend request not found"
to_string friend_request_already_handled = "Friend request already handled"
to_string friend_request_forbidden = "Friend request forbidden"
to_string not_friends = "Not friends"
to_string recipient_offline = "Recipient is offline"
to_string delivery_overloaded = "Server is overloaded, try again later"
to_string invalid_ack_payload = "Invalid ACK payload"
to_string ack_batch_too_large = "ACK batch size is too large"
to_string message_not_found = "Message not found"
to_string message_ack_forbidden = "You are not allowed to ACK this message"
to_string no_permission = "No permission"
to_string target_not_in_group = "Target user is not in the group"
to_string owner_cannot_leave = "Group owner cannot leave the group"
to_string owner_cannot_be_kicked = "Group owner cannot be kicked"
to_string invalid_group_role = "Invalid group role"
to_string cannot_kick_self = "Cannot kick yourself"
to_string group_dissolved = "The group has been dissolved"
to_string cannot_invite_self = "Cannot invite yourself"
to_string invite_requires_friend = "Only friends can be invited"
to_string group_member_limit_reached = "Group member limit reached"
to_string join_request_not_found = "Group join request not found"
to_string rate_limited = "rate limited"
to_string conflict = "conflict"

-- The number of a code on the wire, `static_cast<uint16_t>`.
pub to_uint16 : ErrorCode → ℕ
to_uint16 ok = 0
to_uint16 bad_json = 1
to_uint16 missing_field = 2
to_uint16 unsupported_ver = 3
to_uint16 unknown_type = 4
to_uint16 not_authed = 5
to_uint16 user_exists = 6
to_uint16 bad_request = 7
to_uint16 no_such_user = 8
to_uint16 no_such_group = 9
to_uint16 already_in_group = 10
to_uint16 not_in_group = 11
to_uint16 group_name_invalid = 12
to_uint16 user_not_found = 13
to_uint16 bad_password = 14
to_uint16 weak_password = 15
to_uint16 token_invalid = 16
to_uint16 token_expired = 17
to_uint16 token_revoked = 18
to_uint16 profile_not_found = 19
to_uint16 nickname_invalid = 20
to_uint16 signature_too_long = 21
to_uint16 avatar_url_too_long = 22
to_uint16 cannot_add_self = 23
to_uint16 already_friends = 24
to_uint16 friend_request_exists = 25
to_uint16 friend_request_not_found = 26
to_uint16 friend_request_already_handled = 27
to_uint16 friend_request_forbidden = 28
to_uint16 not_friends = 29
to_uint16 recipient_offline = 30
to_uint16 delivery_overloaded = 31
to_uint16 invalid_ack_payload = 32
to_uint16 ack_batch_too_large = 33
to_uint16 message_not_found = 34
to_uint16 message_ack_forbidden = 35
to_uint16 no_permission = 36
to_uint16 target_not_in_group = 37
to_uint16 owner_cannot_leave = 38
to_uint16 owner_cannot_be_kicked = 39
to_uint16 invalid_group_role = 40
to_uint16 cannot_kick_self = 41
to_uint16 group_dissolved = 42
to_uint16 cannot_invite_self = 43
to_uint16 invite_requires_friend = 44
to_uint16 group_member_limit_reached = 45
to_uint16 join_request_not_found = 46
to_uint16 rate_limited = 47
to_uint16 conflict = 48
to_uint16 internal = 49
