-- ===== src/Im/ErrorCode/Texts.antt =====
-- The text of an error code tells the code.
use project_chat.Common.{◌≡◌, refl, ◌∙◌, sym, ap, some, String, [], ◌∷◌, string_key}
use project_chat.Common.Map.{Map, find}
use project_chat.Im.ErrorCode.{
  ErrorCode, to_string, ok, bad_json, missing_field, unsupported_ver, unknown_type, not_authed,
  user_exists, bad_request, no_such_user, no_such_group, already_in_group, not_in_group,
  group_name_invalid, user_not_found, bad_password, weak_password, token_invalid, token_expired,
  token_revoked, profile_not_found, nickname_invalid, signature_too_long, avatar_url_too_long,
  cannot_add_self, already_friends, friend_request_exists, friend_request_not_found,
  friend_request_already_handled, friend_request_forbidden, not_friends, recipient_offline,
  delivery_overloaded, invalid_ack_payload, ack_batch_too_large, message_not_found,
  message_ack_forbidden, no_permission, target_not_in_group, owner_cannot_leave,
  owner_cannot_be_kicked, invalid_group_role, cannot_kick_self, group_dissolved, cannot_invite_self,
  invite_requires_friend, group_member_limit_reached, join_request_not_found, rate_limited,
  conflict, internal,
}

codes : Map String ErrorCode
codes =
    (to_string ok, ok)
    ∷ (to_string bad_json, bad_json)
    ∷ (to_string missing_field, missing_field)
    ∷ (to_string unsupported_ver, unsupported_ver)
    ∷ (to_string unknown_type, unknown_type)
    ∷ (to_string not_authed, not_authed)
    ∷ (to_string user_exists, user_exists)
    ∷ (to_string bad_request, bad_request)
    ∷ (to_string no_such_user, no_such_user)
    ∷ (to_string no_such_group, no_such_group)
    ∷ (to_string already_in_group, already_in_group)
    ∷ (to_string not_in_group, not_in_group)
    ∷ (to_string group_name_invalid, group_name_invalid)
    ∷ (to_string user_not_found, user_not_found)
    ∷ (to_string bad_password, bad_password)
    ∷ (to_string weak_password, weak_password)
    ∷ (to_string token_invalid, token_invalid)
    ∷ (to_string token_expired, token_expired)
    ∷ (to_string token_revoked, token_revoked)
    ∷ (to_string profile_not_found, profile_not_found)
    ∷ (to_string nickname_invalid, nickname_invalid)
    ∷ (to_string signature_too_long, signature_too_long)
    ∷ (to_string avatar_url_too_long, avatar_url_too_long)
    ∷ (to_string cannot_add_self, cannot_add_self)
    ∷ (to_string already_friends, already_friends)
    ∷ (to_string friend_request_exists, friend_request_exists)
    ∷ (to_string friend_request_not_found, friend_request_not_found)
    ∷ (to_string friend_request_already_handled, friend_request_already_handled)
    ∷ (to_string friend_request_forbidden, friend_request_forbidden)
    ∷ (to_string not_friends, not_friends)
    ∷ (to_string recipient_offline, recipient_offline)
    ∷ (to_string delivery_overloaded, delivery_overloaded)
    ∷ (to_string invalid_ack_payload, invalid_ack_payload)
    ∷ (to_string ack_batch_too_large, ack_batch_too_large)
    ∷ (to_string message_not_found, message_not_found)
    ∷ (to_string message_ack_forbidden, message_ack_forbidden)
    ∷ (to_string no_permission, no_permission)
    ∷ (to_string target_not_in_group, target_not_in_group)
    ∷ (to_string owner_cannot_leave, owner_cannot_leave)
    ∷ (to_string owner_cannot_be_kicked, owner_cannot_be_kicked)
    ∷ (to_string invalid_group_role, invalid_group_role)
    ∷ (to_string cannot_kick_self, cannot_kick_self)
    ∷ (to_string group_dissolved, group_dissolved)
    ∷ (to_string cannot_invite_self, cannot_invite_self)
    ∷ (to_string invite_requires_friend, invite_requires_friend)
    ∷ (to_string group_member_limit_reached, group_member_limit_reached)
    ∷ (to_string join_request_not_found, join_request_not_found)
    ∷ (to_string rate_limited, rate_limited)
    ∷ (to_string conflict, conflict)
    ∷ (to_string internal, internal)
    ∷ []

find_text : (c : ErrorCode) → find (to_string c) codes ≡ some c
unfolding codes to_string find
find_text ok = refl
find_text bad_json = refl
find_text missing_field = refl
find_text unsupported_ver = refl
find_text unknown_type = refl
find_text not_authed = refl
find_text user_exists = refl
find_text bad_request = refl
find_text no_such_user = refl
find_text no_such_group = refl
find_text already_in_group = refl
find_text not_in_group = refl
find_text group_name_invalid = refl
find_text user_not_found = refl
find_text bad_password = refl
find_text weak_password = refl
find_text token_invalid = refl
find_text token_expired = refl
find_text token_revoked = refl
find_text profile_not_found = refl
find_text nickname_invalid = refl
find_text signature_too_long = refl
find_text avatar_url_too_long = refl
find_text cannot_add_self = refl
find_text already_friends = refl
find_text friend_request_exists = refl
find_text friend_request_not_found = refl
find_text friend_request_already_handled = refl
find_text friend_request_forbidden = refl
find_text not_friends = refl
find_text recipient_offline = refl
find_text delivery_overloaded = refl
find_text invalid_ack_payload = refl
find_text ack_batch_too_large = refl
find_text message_not_found = refl
find_text message_ack_forbidden = refl
find_text no_permission = refl
find_text target_not_in_group = refl
find_text owner_cannot_leave = refl
find_text owner_cannot_be_kicked = refl
find_text invalid_group_role = refl
find_text cannot_kick_self = refl
find_text group_dissolved = refl
find_text cannot_invite_self = refl
find_text invite_requires_friend = refl
find_text group_member_limit_reached = refl
find_text join_request_not_found = refl
find_text rate_limited = refl
find_text conflict = refl
find_text internal = refl

some_injective : {a b : ErrorCode} → some a ≡ some b → a ≡ b
some_injective e = cc

-- Two error codes with the same text are the same code.
to_string_injective : (c d : ErrorCode) → to_string c ≡ to_string d → c ≡ d
to_string_injective c d e =
    some_injective (sym (find_text c) ∙ ap (λ s. find s codes) e ∙ find_text d)
