-- ===== src/Im/FriendService/Guards.antt =====
-- What has to hold before a request is made, or a friend removed.
use project_chat.Common.{
  ℕ, String, ◌≡◌, refl, sym, ◌∙◌, true, false, not, ◌||◌, ◌⊎◌, inl, inr, some, arith, ◌==◌,
  string_key, is_empty, if-cases, Option-both,
}
use project_chat.Storage.Results.{RepoResult, RepoValueResult}
use project_chat.Storage.GroupTypes.{UserProfile}
use project_chat.Im.FriendService.{
  FriendService, find_user, are_friends, remove_friend, send_request,
}

module _ {D : Type 0} (f : FriendService D) (d : D) (a b : String) where
  -- Nothing changes, or the repository does what it is asked, for two accounts of a known user
  -- that are not friends yet.
  pub record Requested (now : ℕ) (out : RepoValueResult ℕ × D) : Type 0 where
    pub outcome :
        (out.1 ≡ d)
        ⊎ (((a == b) ≡ false)
            × ((u : UserProfile) × (f.user_profile_repo.find_by_account_id d b ≡ some u))
            × (f.friend_repo.are_friends d a b ≡ false)
            × (out ≡ f.friend_request_repo.create_pending_request d a b now))

  pub record Removed (out : RepoResult × D) : Type 0 where
    pub outcome :
        (out.1 ≡ d)
        ⊎ (((a == b) ≡ false)
            × (f.friend_repo.are_friends d a b ≡ true)
            × (out ≡ f.friend_repo.remove_friend_pair d a b))

  are_friends_given :
      (is_empty a || is_empty b) ≡ false → are_friends f d a b ≡ f.friend_repo.are_friends d a b
  unfolding are_friends
  are_friends_given given = rw given refl

  find_user_given :
      (is_empty a || is_empty b) ≡ false
      → find_user f d b ≡ f.user_profile_repo.find_by_account_id d b
  unfolding find_user
  find_user_given given = ground (arith, given)

  send_request-Requested : (now : ℕ) → Requested now (send_request f d a b now)
  unfolding send_request
  send_request-Requested now =
      let P = Requested now in
      if-cases P (is_empty a || is_empty b) (λ _. record { outcome = inl refl })
        (λ given.
          if-cases P (a == b) (λ _. record { outcome = inl refl })
            (λ other.
              Option-both P (find_user f d b) (λ _. record { outcome = inl refl })
                (λ u known.
                  if-cases P (are_friends f d a b) (λ _. record { outcome = inl refl })
                    (λ strangers. record {
                      outcome = inr (
                        other,
                        (u, sym (find_user_given given) ∙ known),
                        sym (are_friends_given given) ∙ strangers,
                        refl,
                      );
                    }))))

  remove_friend-Removed : Removed (remove_friend f d a b)
  unfolding remove_friend
  remove_friend-Removed =
      if-cases Removed (is_empty a || is_empty b) (λ _. record { outcome = inl refl })
        (λ given.
          if-cases Removed (a == b) (λ _. record { outcome = inl refl })
            (λ other.
              if-cases Removed (not (are_friends f d a b)) (λ _. record { outcome = inl refl })
                (λ friends. record {
                  outcome = inr (other, ground (arith, friends, are_friends_given given), refl);
                })))

  -- A request to become friends leaves the database as it was, or is the call of the repository
  -- for two different accounts that are not friends, the second of a known user; a removal
  -- leaves it as it was, or is the call of the repository for two different accounts that are
  -- friends.
  pub friend_operations_lem :
      (now : ℕ) → Requested now (send_request f d a b now) × Removed (remove_friend f d a b)
  friend_operations_lem now = (send_request-Requested now, remove_friend-Removed)
