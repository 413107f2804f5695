-- ===== src/Im/GroupService/Kick.antt =====
-- Who may kick whom, and that the one who was kicked is gone from memory too.
use mathlib.Core.Path.{subst}
use project_chat.Common.{
  ℕ, zero, suc, String, ◌≡◌, refl, Bool, true, false, not, ◌||◌, ◌⊎◌, inl, inr, some, List, [], ◌∷◌,
  arith, ◌==◌, string_key, is_empty, if-cases, Option-both, Bool-cases,
}
use project_chat.Storage.Results.{RepoResult, is_ok, found}
use project_chat.Storage.GroupTypes.{GroupSnapshot}
use project_chat.Im.Group.{role_from_uint, role_to_uint}
use project_chat.Im.GroupManager
use project_chat.Im.GroupManager.{GroupManager, is_member}
use project_chat.Im.GroupManager.Absent.{Unlisted, remove_member-absent, restore_group-absent}
use project_chat.Im.GroupService.{GroupService, World, may_kick}
use project_chat.Im.GroupService.Membership.{
  reload_from, reload_group, synchronise, write_through, kick_member,
}
use project_chat.Im.GroupService.Stored.{synchronise-database}

-- The owner may kick everybody, an admin plain members.
may_kick_lem : (o t : ℕ) → may_kick o t ≡ true → (o ≡ 2) ⊎ ((o ≡ 1) × (t ≡ 0))
unfolding may_kick role_from_uint role_to_uint
may_kick_lem zero t h = ground (arith, h)
may_kick_lem (suc zero) zero h = inr (refl, refl)
may_kick_lem (suc zero) (suc zero) h = ground (arith, h)
may_kick_lem (suc zero) (suc (suc zero)) h = ground (arith, h)
may_kick_lem (suc zero) (suc (suc (suc t))) h = ground (arith, h)
may_kick_lem (suc (suc zero)) t h = inl refl
may_kick_lem (suc (suc (suc o))) t h = ground (arith, h)

module _ {D : Type 0} (s : GroupService D) where
  -- A database that holds nothing of the account in the group.
  pub record Forgets (d : D) (i t : String) : Type 0 where
    pub unlisted : Unlisted t (s.group_repo.list_member_records d i)
    pub stored :
        (g : GroupSnapshot) (gs : List GroupSnapshot)
        → s.group_repo.find_groups_by_ids d (i ∷ []) ≡ g ∷ gs
        → (g.group_id ≡ i) × ((g.owner_account_id == t) ≡ false)

  reload_from-absent :
      (w : World D) (i t : String) (gs : List GroupSnapshot)
      → Forgets w.database i t
      → s.group_repo.find_groups_by_ids w.database (i ∷ []) ≡ gs
      → is_ok (reload_from s w i gs).0.status ≡ true
      → is_member (reload_from s w i gs).1.memory i t ≡ false
  unfolding reload_from
  reload_from-absent w i t [] f e h = cc
  reload_from-absent w i t (g ∷ gs) f e h =
      let rs = s.group_repo.list_member_records w.database i in
      let m' = GroupManager.restore_group w.memory g.group_id g.group_name g.owner_account_id rs in
      elim (Bool-cases m'.0) [
        | inl restored ↦
            subst (λ j. is_member m'.1 j t ≡ false) (f.stored g gs e).0
              (restore_group-absent w.memory g.group_id g.group_name g.owner_account_id t rs
                restored f.unlisted (f.stored g gs e).1)
        | inr failed ↦ cc (rw failed at h)
      ]

  reload_group-absent :
      (w : World D) (i t : String)
      → Forgets w.database i t
      → is_ok (reload_group s w i).0.status ≡ true
      → is_member (reload_group s w i).1.memory i t ≡ false
  unfolding reload_group
  reload_group-absent w i t f h = elim (Bool-cases (is_empty i)) [
    | inl blank ↦ cc (rw (blank, reload_group) at h)
    | inr given ↦
        rw (given, reload_group) (reload_from-absent w i t _ f refl (rw (given, reload_group) at h))
  ]

  -- An answer that claims success comes with a memory without the account.
  record GoneIfOk (i t : String) (o : RepoResult × World D) : Type 0 where
    gone : is_ok o.0.status ≡ true → is_member o.1.memory i t ≡ false

  synchronise-GoneIfOk :
      (w : World D) (i t : String) (change : Bool × GroupManager)
      → Forgets w.database i t
      → (change.0 ≡ true → is_member change.1 i t ≡ false)
      → GoneIfOk i t (synchronise s w i change)
  unfolding synchronise
  synchronise-GoneIfOk w i t (changed, m) f h =
      let reloaded = reload_group s (record w { memory = m }) i in
      if-cases (GoneIfOk i t) changed (λ e. record { gone = λ _. h e })
        (λ e.
          if-cases (GoneIfOk i t) (is_ok reloaded.0.status)
            (λ e'. record { gone = λ _. reload_group-absent (record w { memory = m }) i t f e' })
            (λ e'. record { gone = λ x. cc }))

  -- All that the database has to say for it.
  pub record MayKick (d : D) (i o t : String) : Type 0 where
    pub there : s.group_repo.group_exists d i ≡ true
    pub target_in : s.group_repo.is_member d i t ≡ true
    pub operator_in : s.group_repo.is_member d i o ≡ true
    pub operator_role : ℕ
    pub target_role : ℕ
    pub operator_known : found (s.group_repo.get_member_role d i o) ≡ some operator_role
    pub target_known : found (s.group_repo.get_member_role d i t) ≡ some target_role
    pub allowed : (operator_role ≡ 2) ⊎ ((operator_role ≡ 1) × (target_role ≡ 0))

  -- What a kick may come to.
  pub record Kicked (w : World D) (i o t : String) (out : RepoResult × World D) : Type 0 where
    pub outcome :
        (out.1 ≡ w)
        ⊎ (MayKick w.database i o t
            × (out.1.database ≡ (s.group_repo.remove_member w.database i t).1)
            × (is_ok out.0.status ≡ true → is_member out.1.memory i t ≡ false))

  write_through-Kicked :
      (w : World D) (i o t : String)
      → (is_ok (s.group_repo.remove_member w.database i t).0.status ≡ true
          → Forgets (s.group_repo.remove_member w.database i t).1 i t)
      → MayKick w.database i o t
      → Kicked w i o t (
          write_through s w i
            (s.group_repo.remove_member w.database i t)
            (λ m. GroupManager.remove_member m i t))
  unfolding write_through
  write_through-Kicked w i o t f may =
      let (r, d') = s.group_repo.remove_member w.database i t in
      let w' : World D = record w { database = d' } in
      if-cases (Kicked w i o t) (is_ok r.status)
        (λ done. record {
          outcome = inr (
            may,
            synchronise-database s w' i (GroupManager.remove_member w.memory i t),
            (synchronise-GoneIfOk w' i t (GroupManager.remove_member w.memory i t) (f done)
                (remove_member-absent w.memory i t)).gone,
          );
        })
        (λ failed. record { outcome = inr (may, refl, λ ok. cc) })

  -- A kick changes nothing at all, or the database has the group, both accounts as members, and
  -- the operator's role as that of the owner, or of an admin over a plain member; the database
  -- is then as its removal leaves it, and after an answer of success the target is no member in
  -- memory, given that a removal that succeeds leaves no trace of the target in what a reload
  -- reads.
  pub kick_member-Kicked :
      (w : World D) (i o t : String)
      → (is_ok (s.group_repo.remove_member w.database i t).0.status ≡ true
          → Forgets (s.group_repo.remove_member w.database i t).1 i t)
      → Kicked w i o t (kick_member s w i o t)
  unfolding kick_member
  kick_member-Kicked w i o t f =
      let repo = s.group_repo in
      let d = w.database in
      if-cases (Kicked w i o t) (is_empty i || (is_empty o || is_empty t))
        (λ _. record { outcome = inl refl })
        (λ _.
          if-cases (Kicked w i o t) (not (repo.group_exists d i))
            (λ _. record { outcome = inl refl })
            (λ there.
              if-cases (Kicked w i o t) (not (repo.is_member d i t) || not (repo.is_member d i o))
                (λ _. record { outcome = inl refl })
                (λ within.
                  Option-both (Kicked w i o t) (found (repo.get_member_role d i o))
                    (λ _. record { outcome = inl refl })
                    (λ ro known_o.
                      Option-both (Kicked w i o t) (found (repo.get_member_role d i t))
                        (λ _. record { outcome = inl refl })
                        (λ rt known_t.
                          if-cases (Kicked w i o t) (may_kick ro rt)
                            (λ may. write_through-Kicked w i o t f (record {
                              there = ground (arith, there);
                              target_in = ground (arith, within);
                              operator_in = ground (arith, within);
                              operator_role = ro;
                              target_role = rt;
                              operator_known = known_o;
                              target_known = known_t;
                              allowed = may_kick_lem ro rt may;
                            }))
                            (λ _. record { outcome = inl refl }))))))
