-- ===== src/Im/FriendService.antt =====
-- src/im/FriendService.cpp: friends and the requests to become friends. The constructor refuses a
-- null repository, so the later tests for one have no branch here.
pub mod Guards
use project_chat.Common.{
  ℕ, String, Bool, true, false, not, ◌||◌, Option, none, some, List, [], ◌∷◌, map, if◌then◌else◌,
  ◌==◌, string_key, is_empty,
}
use project_chat.Common.Map.{Map, find}
use project_chat.Storage.Results.{
  invalid_argument, not_found, not_friends, cannot_add_yourself, already_friends, found, RepoResult,
  RepoValueResult,
}
use project_chat.Storage.GroupTypes.{UserProfile}
use project_chat.Storage.FriendTypes.{FriendRequest}
use project_chat.Storage.Repos.{FriendRepo, UserProfileRepo, FriendRequestRepo}
use project_chat.Im.GroupService.{answer, refused, by_account_id}

pub record FriendService (D : Type 0) : Type 0 where
  pub friend_repo : FriendRepo D
  pub user_profile_repo : UserProfileRepo D
  pub friend_request_repo : FriendRequestRepo D

pub record FriendRequestView : Type 0 where
  pub request_id : ℕ
  pub requester_account_id : String
  pub username : String
  pub nickname : String
  pub avatar_url : String
  pub created_at_ms : ℕ

pub view_of : Map String UserProfile → FriendRequest → FriendRequestView
view_of profiles r = elim (find r.request_account_id profiles) [
  | none ↦ record {
    request_id = r.request_id;
    requester_account_id = r.request_account_id;
    username = "";
    nickname = "";
    avatar_url = "";
    created_at_ms = r.created_at_ms;
  }
  | some p ↦ record {
    request_id = r.request_id;
    requester_account_id = r.request_account_id;
    username = p.username;
    nickname = p.nickname;
    avatar_url = p.avatar_url;
    created_at_ms = r.created_at_ms;
  }
]

abbrev pub is_nil : {A : Type 0} → List A → Bool
is_nil [] = true
is_nil (x ∷ xs) = false

module _ {D : Type 0} (f : FriendService D) where
  pub find_user : D → String → Option UserProfile
  find_user d account_id =
      if is_empty account_id then none else f.user_profile_repo.find_by_account_id d account_id

  pub list_friends : D → String → List UserProfile
  list_friends d account_id =
      if is_empty account_id
      then []
      else f.user_profile_repo.find_by_account_ids d
          (f.friend_repo.list_friend_account_ids d account_id)

  pub are_friends : D → String → String → Bool
  are_friends d account_id target_account_id =
      if is_empty account_id || is_empty target_account_id
      then false
      else f.friend_repo.are_friends d account_id target_account_id

  pub remove_friend : D → String → String → RepoResult × D
  unfolding are_friends
  remove_friend d account_id target_account_id =
      if is_empty account_id || is_empty target_account_id
      then (answer invalid_argument "", d)
      else if account_id == target_account_id
      then (answer invalid_argument "can not remove yourself", d)
      else if not (are_friends d account_id target_account_id)
      then (answer not_friends "", d)
      else f.friend_repo.remove_friend_pair d account_id target_account_id

  pub send_request : D → String → String → ℕ → RepoValueResult ℕ × D
  unfolding find_user are_friends
  send_request d from to now_ms =
      if is_empty from || is_empty to
      then (refused invalid_argument "", d)
      else if from == to
      then (refused cannot_add_yourself "Can not add yourself", d)
      else elim (find_user d to) [
        | none ↦ (refused not_found "", d)
        | some _ ↦
            if are_friends d from to
            then (refused already_friends "The user is already your friend", d)
            else f.friend_request_repo.create_pending_request d from to now_ms
      ]

  pub list_incoming_requests : D → String → List FriendRequestView
  unfolding view_of
  list_incoming_requests d account_id =
      if is_empty account_id
      then []
      else elim (found (f.friend_request_repo.list_pending_incoming d account_id)) [
        | none ↦ []
        | some requests ↦
            let profiles =
              f.user_profile_repo.find_by_account_ids d
                (map (λ r. r.request_account_id) requests) in
            if is_nil requests || is_nil profiles
            then []
            else map (view_of (by_account_id profiles [])) requests
      ]

  pub accept_request : D → String → ℕ → ℕ → RepoValueResult FriendRequest × D
  accept_request d account_id request_id now_ms =
      if is_empty account_id
      then (refused invalid_argument "", d)
      else f.friend_request_repo.accept_pending_and_create_friend_pair d request_id account_id
          now_ms

  pub reject_request : D → String → ℕ → ℕ → RepoValueResult FriendRequest × D
  reject_request d account_id request_id now_ms =
      if is_empty account_id
      then (refused invalid_argument "", d)
      else f.friend_request_repo.reject_pending d request_id account_id now_ms
