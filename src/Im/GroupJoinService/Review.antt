-- ===== src/Im/GroupJoinService/Review.antt =====
-- What a review does to the groups in memory.
use project_chat.Common.{
  ℕ, String, ◌≡◌, refl, Bool, true, ◌&&◌, ◌||◌, ◌⊎◌, inl, inr, some, arith, is_empty, if-cases,
  Option-both,
}
use project_chat.Storage.Results.{RepoValueResult, is_ok}
use project_chat.Storage.GroupTypes.{GroupJoinReviewResult}
use project_chat.Im.GroupManager
use project_chat.Im.GroupManager.Consistent.{IsConsistent, join_group-IsConsistent}
use project_chat.Im.GroupService.{World}
use project_chat.Im.GroupService.Membership.{reload_group}
use project_chat.Im.GroupService.Stored.{reload_group-database}
use project_chat.Im.GroupService.Invariant.{reload_group-IsConsistent}
use project_chat.Im.GroupService.Lifecycle.{is_joined}
use project_chat.Im.GroupJoinService.{
  GroupJoinService, reloading, synchronise_added, review_request,
}

module _ {D : Type 0} (j : GroupJoinService D) (w : World D) (i a r : String) (approve : Bool)
    (now : ℕ) where
  abbrev reviewed : RepoValueResult GroupJoinReviewResult × D
  reviewed = j.join_request_repo.review w.database i a r approve j.max_group_members now

  -- The database has approved the request and added a member.
  pub record HasAdded : Type 0 where
    pub result : GroupJoinReviewResult
    pub answered : reviewed.0.value ≡ some result
    pub succeeded : is_ok reviewed.0.status ≡ true
    pub approved : result.approved ≡ true
    pub added : result.member_added ≡ true

  pub record Reviewed (out : RepoValueResult GroupJoinReviewResult × World D) : Type 0 where
    pub consistent : IsConsistent w.memory → IsConsistent out.1.memory
    pub memory : (out.1.memory ≡ w.memory) ⊎ HasAdded
    pub database : (out.1 ≡ w) ⊎ (out.1.database ≡ reviewed.1)

  synchronise_added-Reviewed :
      HasAdded → Reviewed (synchronise_added j (record w { database = reviewed.1 }) i a reviewed.0)
  unfolding synchronise_added
  synchronise_added-Reviewed has =
      let (joined, memory) = GroupManager.join_group w.memory i a in
      let w' : World D = record w { database = reviewed.1; memory = memory } in
      let reloaded = reload_group (reloading j) w' i in
      let again = λ (c : IsConsistent w.memory).
        reload_group-IsConsistent (reloading j) w' i (join_group-IsConsistent w.memory i a c) in
      let same = reload_group-database (reloading j) w' i in
      if-cases Reviewed (is_joined joined)
        (λ _. record {
          consistent = join_group-IsConsistent w.memory i a;
          memory = inr has;
          database = inr refl;
        })
        (λ _.
          if-cases Reviewed (is_ok reloaded.0.status)
            (λ _. record { consistent = again; memory = inr has; database = inr same })
            (λ _. record { consistent = again; memory = inr has; database = inr same }))

  -- Memory and answer after a review that adds nobody.
  quiet :
      (x : RepoValueResult GroupJoinReviewResult) → Reviewed (x, record w { database = reviewed.1 })
  quiet x = record { consistent = λ c. c; memory = inl refl; database = inr refl }

  -- A review keeps the groups in memory consistent, changes them only if the repository has
  -- answered with success that it approved the request and added a member, and leaves the
  -- database as the repository does, or everything as it was.
  pub review_request-Reviewed : Reviewed (review_request j w i a r approve now)
  unfolding review_request
  review_request-Reviewed =
      if-cases Reviewed (is_empty i || (is_empty a || is_empty r))
        (λ _. record { consistent = λ c. c; memory = inl refl; database = inl refl })
        (λ _.
          if-cases Reviewed (is_ok reviewed.0.status)
            (λ succeeded.
              Option-both Reviewed reviewed.0.value (λ _. quiet _)
                (λ v answered.
                  if-cases Reviewed (v.approved && v.member_added)
                    (λ both. synchronise_added-Reviewed (record {
                      result = v;
                      answered = answered;
                      succeeded = succeeded;
                      approved = ground (arith, both);
                      added = ground (arith, both);
                    }))
                    (λ _. quiet _)))
            (λ _. quiet _))
