-- ===== src/Im/GroupService/Invariant.antt =====
-- Whatever the repositories answer, the groups in memory stay consistent.
use project_chat.Common.{
  is_empty, ℕ, String, Bool, true, false, Option, none, some, List, [], ◌∷◌, Option-cases, inl, inr,
  if◌then◌else◌,
}
use project_chat.Storage.Results.{found, RepoResult, is_ok}
use project_chat.Storage.GroupTypes.{GroupSnapshot}
use project_chat.Im.GroupManager
use project_chat.Im.GroupManager.{GroupManager}
use project_chat.Im.GroupManager.Consistent.{IsConsistent, join_group-IsConsistent}
use project_chat.Im.GroupManager.Restore.{
  remove_group-IsConsistent, restore_group-IsConsistent, created-IsConsistent,
}
use project_chat.Im.GroupManager.History.{
  remove_member-IsConsistent, set_member_role-IsConsistent, transfer_owner-IsConsistent,
}
use project_chat.Im.GroupService.{GroupService, World}
use project_chat.Im.GroupService.Membership.{
  reload_from, reload_group, synchronise, write_through, kick_member, set_admin, transfer_owner,
}
use project_chat.Im.GroupService.Lifecycle.{
  reload_unless, create_with_id, create_group, add_invited, friend_refusal, invite_within_limit,
  invite_member, is_joined,
}
use project_chat.Id.SnowflakeIdGenerator.{next_string_id}
use project_chat.Im.GroupService.Ending.{dissolve_stored, dissolve_group}

-- The world beside an answer is consistent.
pub record Keeps {D : Type 0} {A : Type 0} (o : A × World D) : Type 0 where
  pub kept : IsConsistent o.1.memory

module _ {D : Type 0} {A : Type 0} where
  keeps : (a : A) (w : World D) → IsConsistent w.memory → Keeps (a, w)
  keeps a w c = record { kept = c }

  either-Keeps : (b : Bool) {x y : A × World D} → Keeps x → Keeps y → Keeps (if b then x else y)
  either-Keeps true h k = h
  either-Keeps false h k = k

  Option-Keeps :
      {B : Type 0} (o : Option B) {x : A × World D} {f : B → A × World D}
      → Keeps x
      → ((b : B) → Keeps (f b))
      → Keeps {D = D} {A = A} (elim o [ none ↦ x | some b ↦ f b ])
  Option-Keeps none h k = h
  Option-Keeps (some b) h k = k b

ruleset branches = (keeps, either-Keeps)

module _ {D : Type 0} (s : GroupService D) where
  reload_from-Keeps :
      (w : World D) (i : String) (gs : List GroupSnapshot)
      → IsConsistent w.memory
      → Keeps (reload_from s w i gs)
  unfolding reload_from
  reload_from-Keeps w i [] c = keeps _ _ (remove_group-IsConsistent w.memory i c)
  reload_from-Keeps w i (g ∷ gs) c = keeps _ _ (
      restore_group-IsConsistent w.memory g.group_id g.group_name g.owner_account_id
        (s.group_repo.list_member_records w.database i) c)

  reload_group-Keeps :
      (w : World D) (i : String) → IsConsistent w.memory → Keeps (reload_group s w i)
  unfolding reload_group
  reload_group-Keeps w i c = search (branches, reload_from-Keeps, c)

  pub reload_group-IsConsistent :
      (w : World D) (i : String)
      → IsConsistent w.memory
      → IsConsistent (reload_group s w i).1.memory
  reload_group-IsConsistent w i c = (reload_group-Keeps w i c).kept

  synchronise-Keeps :
      (w : World D) (i : String) (change : Bool × GroupManager)
      → IsConsistent change.1
      → Keeps (synchronise s w i change)
  unfolding synchronise
  synchronise-Keeps w i (changed, m) c = search (branches, reload_group-IsConsistent, c)

  write_through-Keeps :
      (w : World D) (i : String) (written : RepoResult × D)
      (change : GroupManager → Bool × GroupManager)
      → IsConsistent w.memory
      → IsConsistent (change w.memory).1
      → Keeps (write_through s w i written change)
  unfolding write_through
  write_through-Keeps w i (r, d) change c c' = search (branches, synchronise-Keeps, c, c')

  pub kick_member-Keeps :
      (w : World D) (i o t : String) → IsConsistent w.memory → Keeps (kick_member s w i o t)
  unfolding kick_member
  kick_member-Keeps w i o t c =
      let role = s.group_repo.get_member_role w.database i in
      search
        (
          branches,
          Option-Keeps (found (role o)),
          Option-Keeps (found (role t)),
          write_through-Keeps,
          remove_member-IsConsistent,
          c,
        )
        depth 16 fits 2000

  pub set_admin-Keeps :
      (w : World D) (i o t : String) (enable : Bool)
      → IsConsistent w.memory
      → Keeps (set_admin s w i o t enable)
  unfolding set_admin
  set_admin-Keeps w i o t enable c =
      search
        (
          branches,
          Option-Keeps (found (s.group_repo.get_member_role w.database i o)),
          write_through-Keeps,
          set_member_role-IsConsistent,
          c,
        )
        depth 16 fits 2000

  pub transfer_owner-Keeps :
      (w : World D) (i a b : String) → IsConsistent w.memory → Keeps (transfer_owner s w i a b)
  unfolding transfer_owner
  transfer_owner-Keeps w i a b c =
      search
        (
          branches,
          Option-Keeps (found (s.group_repo.get_member_role w.database i a)),
          write_through-Keeps,
          transfer_owner-IsConsistent,
          c,
        )
        depth 16 fits 2000

  reload_unless-Keeps :
      {T : Type 0} (changed : Bool) (w : World D) (i : String) (v : T)
      → IsConsistent w.memory
      → Keeps (reload_unless s changed w i v)
  unfolding reload_unless
  reload_unless-Keeps changed w i v c = search (branches, reload_group-IsConsistent, c)

  create_with_id-Keeps :
      (w : World D) (i o n : String) → IsConsistent w.memory → Keeps (create_with_id s w i o n)
  unfolding create_with_id
  create_with_id-Keeps w i o n c =
      let (written, database) = s.group_repo.create_group_with_owner w.database i n o in
      let (created, memory) = GroupManager.create_group w.memory i o n in
      either-Keeps (is_empty i) (keeps _ w c) (
        either-Keeps (is_ok written.status)
          (reload_unless-Keeps created (record w { database = database; memory = memory }) i _
            (created-IsConsistent w.memory i o n c))
          (keeps _ _ c))

  pub create_group-Keeps :
      (to_string : ℕ → String) (w : World D) (o n : String) (readings : List ℕ)
      → IsConsistent w.memory
      → Keeps (create_group s to_string w o n readings)
  unfolding create_group
  create_group-Keeps to_string w o n readings c =
      let (id, ids) = next_string_id to_string "G" w.ids readings in
      let w' : World D = record w { ids = ids } in
      either-Keeps (is_empty o) (keeps _ w c) (
        Option-Keeps id (keeps _ w' c)
          (λ i. keeps _ (create_with_id s w' i o n).1 (create_with_id-Keeps w' i o n c).kept))

  add_invited-Keeps :
      (w : World D) (i t : String) → IsConsistent w.memory → Keeps (add_invited s w i t)
  unfolding add_invited
  add_invited-Keeps w i t c =
      let (added, database) = s.group_repo.add_member w.database i t 0 in
      let (joined, memory) = GroupManager.join_group w.memory i t in
      either-Keeps (is_ok added.status)
        (reload_unless-Keeps (is_joined joined) (record w { database = database; memory = memory })
          i _ (join_group-IsConsistent w.memory i t c))
        (search (branches, c))

  invite_within_limit-Keeps :
      (w : World D) (i a t : String) → IsConsistent w.memory → Keeps (invite_within_limit s w i a t)
  unfolding invite_within_limit
  invite_within_limit-Keeps w i a t c = elim (Option-cases (friend_refusal s w.database a t)) [
    | inl passed ↦
        rw (passed, invite_within_limit)
          (search
            (
              branches,
              Option-Keeps (s.group_repo.count_members w.database i).value,
              add_invited-Keeps,
              c,
            )
            depth 16 fits 2000)
    | inr (refusal, e) ↦ rw (e, invite_within_limit) (keeps refusal w c)
  ]

  pub invite_member-Keeps :
      (w : World D) (i a t : String) → IsConsistent w.memory → Keeps (invite_member s w i a t)
  unfolding invite_member
  invite_member-Keeps w i a t c =
      search
        (
          branches,
          Option-Keeps (s.group_repo.find_group_by_id w.database i).value,
          Option-Keeps (s.user_profile_repo.find_by_account_id w.database t),
          invite_within_limit-Keeps,
          c,
        )
        depth 20 fits 2000

  dissolve_stored-Keeps :
      (w : World D) (i o : String) (now : ℕ)
      → IsConsistent w.memory
      → Keeps (dissolve_stored s w i o now)
  unfolding dissolve_stored
  dissolve_stored-Keeps w i o now c =
      search
        (
          branches,
          Option-Keeps (s.group_repo.dissolve_group w.database i o now).0.value,
          remove_group-IsConsistent,
          c,
        )
        depth 16 fits 2000

  pub dissolve_group-Keeps :
      (w : World D) (i o : String) (now : ℕ)
      → IsConsistent w.memory
      → Keeps (dissolve_group s w i o now)
  unfolding dissolve_group
  dissolve_group-Keeps w i o now c =
      search
        (
          branches,
          Option-Keeps (s.group_repo.find_group_by_id w.database i).value,
          dissolve_stored-Keeps,
          c,
        )
        depth 20 fits 2000
