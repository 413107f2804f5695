-- ===== src/Im/GroupService/Invitation.antt =====
-- What has to hold before an invitation adds a member.
use project_chat.Common.{
  ℕ, ◌<◌, String, ◌≡◌, refl, Bool, true, false, not, ◌||◌, ◌⊎◌, inl, inr, none, some, arith, ◌==◌,
  string_key, is_empty, leb, lt_of_leb, if-cases, Option-both, Option-cases, Bool-cases,
}
use project_chat.Storage.Results.{RepoValueResult, is_ok}
use project_chat.Storage.GroupTypes.{GroupSnapshot, UserProfile}
use project_chat.Storage.Repos.{FriendRepo}
use project_chat.Im.GroupManager
use project_chat.Im.GroupService.{GroupService, World, GroupInviteResult, is_dissolved}
use project_chat.Im.GroupService.Lifecycle.{
  is_joined, reload_unless, add_invited, friend_refusal, invite_within_limit, invite_member,
}
use project_chat.Im.GroupService.Stored.{reload_group-database}

module _ {D : Type 0} (s : GroupService D) where
  pub record MayInvite (d : D) (i a t : String) : Type 0 where
    pub other : (a == t) ≡ false
    pub group : GroupSnapshot
    pub group_found : (s.group_repo.find_group_by_id d i).value ≡ some group
    pub group_alive : is_dissolved group.status ≡ false
    pub inviter_in : s.group_repo.is_member d i a ≡ true
    pub target_out : s.group_repo.is_member d i t ≡ false
    pub target : UserProfile
    pub target_found : s.user_profile_repo.find_by_account_id d t ≡ some target
    pub friends :
        s.require_friend_for_invite ≡ true
        → (f : FriendRepo D) × (s.friend_repo ≡ some f) × (f.are_friends d a t ≡ true)
    pub count : ℕ
    pub counted : (s.group_repo.count_members d i).value ≡ some count
    pub room : count < s.max_group_members

  pub record Invited (w : World D) (i a t : String)
      (out : RepoValueResult GroupInviteResult × World D) : Type 0 where
    pub outcome :
        (out.1 ≡ w)
        ⊎ (MayInvite w.database i a t
            × (out.1.database ≡ (s.group_repo.add_member w.database i t 0).1))

  reload_unless-database :
      {T : Type 0} (changed : Bool) (w : World D) (i : String) (v : T)
      → (reload_unless s changed w i v).1.database ≡ w.database
  unfolding reload_unless
  reload_unless-database changed w i v = ground (arith, reload_group-database s w i)

  add_invited-database :
      (w : World D) (i t : String)
      → (add_invited s w i t).1.database ≡ (s.group_repo.add_member w.database i t 0).1
  unfolding add_invited
  add_invited-database w i t =
      let (added, database) = s.group_repo.add_member w.database i t 0 in
      let (joined, memory) = GroupManager.join_group w.memory i t in
      let w' : World D = record w { database = database; memory = memory } in
      ground (
        arith,
        reload_unless-database {T = GroupInviteResult} (is_joined joined) w' i
            (record { joined = true; already_in = false; group_id = i; target_account_id = t }),
      )

  friend_refusal_lem :
      (d : D) (a t : String)
      → friend_refusal s d a t ≡ none
      → s.require_friend_for_invite ≡ true
      → (f : FriendRepo D) × (s.friend_repo ≡ some f) × (f.are_friends d a t ≡ true)
  unfolding friend_refusal
  friend_refusal_lem d a t e r = elim (Option-cases s.friend_repo) [
    | inl missing ↦ cc (rw (r, missing, friend_refusal) at e)
    | inr (f, known) ↦ elim (Bool-cases (f.are_friends d a t)) [
      | inl friends ↦ (f, known, friends)
      | inr strangers ↦ cc (rw (r, known, strangers, friend_refusal) at e)
    ]
  ]

  invite_within_limit-Invited :
      (w : World D) (i a t : String)
      → ((n : ℕ)
          → (s.group_repo.count_members w.database i).value ≡ some n
          → n < s.max_group_members
          → (s.require_friend_for_invite ≡ true
              → (f : FriendRepo D) × (s.friend_repo ≡ some f)
                × (f.are_friends w.database a t ≡ true))
          → MayInvite w.database i a t)
      → Invited w i a t (invite_within_limit s w i a t)
  unfolding invite_within_limit
  invite_within_limit-Invited w i a t may =
      let count = s.group_repo.count_members w.database i in
      elim (Option-cases (friend_refusal s w.database a t)) [
        | inr (refusal, e) ↦ rw (e, invite_within_limit) (record { outcome = inl refl })
        | inl passed ↦
            rw (passed, invite_within_limit)
              (if-cases (Invited w i a t) (is_ok count.status)
                (λ _.
                  Option-both (Invited w i a t) count.value (λ _. record { outcome = inl refl })
                    (λ n counted.
                      if-cases (Invited w i a t) (leb s.max_group_members n)
                        (λ _. record { outcome = inl refl })
                        (λ room. record {
                          outcome = inr (
                            may n counted (lt_of_leb s.max_group_members n room)
                                (friend_refusal_lem w.database a t passed),
                            add_invited-database w i t,
                          );
                        })))
                (λ _. record { outcome = inl refl }))
      ]

  -- An invitation changes nothing at all, or two accounts are given, the group is found and not
  -- dissolved, the inviter is a member, the target is a user and no member, a friend of the
  -- inviter where that is required, and the members that were counted are below the limit; the
  -- database is then as its addition of the target leaves it.
  pub invite_member-Invited :
      (w : World D) (i a t : String) → Invited w i a t (invite_member s w i a t)
  unfolding invite_member
  invite_member-Invited w i a t =
      let repo = s.group_repo in
      let d = w.database in
      let group = repo.find_group_by_id d i in
      if-cases (Invited w i a t) (is_empty i || (is_empty a || is_empty t))
        (λ _. record { outcome = inl refl })
        (λ _.
          if-cases (Invited w i a t) (a == t) (λ _. record { outcome = inl refl })
            (λ other.
              if-cases (Invited w i a t) (is_ok group.status)
                (λ _.
                  Option-both (Invited w i a t) group.value (λ _. record { outcome = inl refl })
                    (λ g found_g.
                      if-cases (Invited w i a t) (is_dissolved g.status)
                        (λ _. record { outcome = inl refl })
                        (λ alive.
                          if-cases (Invited w i a t) (not (repo.is_member d i a))
                            (λ _. record { outcome = inl refl })
                            (λ within.
                              Option-both (Invited w i a t)
                                (s.user_profile_repo.find_by_account_id d t)
                                (λ _. record { outcome = inl refl })
                                (λ u found_u.
                                  if-cases (Invited w i a t) (repo.is_member d i t)
                                    (λ _. record { outcome = inl refl })
                                    (λ out.
                                      invite_within_limit-Invited w i a t (λ n counted room friends.
                                        record {
                                          other = other;
                                          group = g;
                                          group_found = found_g;
                                          group_alive = alive;
                                          inviter_in = ground (arith, within);
                                          target_out = out;
                                          target = u;
                                          target_found = found_u;
                                          friends = friends;
                                          count = n;
                                          counted = counted;
                                          room = room;
                                        })))))))
                (λ _. record { outcome = inl refl })))
