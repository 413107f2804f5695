-- ===== src/Im/GroupService/Ownership.antt =====
-- The operations that only an owner may ask for.
use project_chat.Common.{
  ℕ, zero, suc, String, ◌≡◌, refl, ◌∙◌, ap, Bool, true, false, not, ◌||◌, ◌⊎◌, inl, inr, some,
  arith, ◌==◌, string_key, eq_sound, is_empty, eqb, if-cases, Option-both,
}
use project_chat.Storage.Results.{RepoResult, RepoValueResult, is_ok, found}
use project_chat.Storage.GroupTypes.{GroupSnapshot}
use project_chat.Im.Group.{role_from_uint, role_to_uint}
use project_chat.Im.GroupService.{
  GroupService, World, GroupDissolveResult, is_owner_number, is_dissolved,
}
use project_chat.Im.GroupService.Membership.{set_admin, transfer_owner}
use project_chat.Im.GroupService.Ending.{dissolve_group}

owner_number : (n : ℕ) → is_owner_number n ≡ true → n ≡ 2
unfolding is_owner_number role_from_uint role_to_uint
owner_number zero h = cc
owner_number (suc zero) h = cc
owner_number (suc (suc zero)) h = refl
owner_number (suc (suc (suc n))) h = cc

module _ {D : Type 0} (s : GroupService D) where
  -- Either nothing changes, or `P` holds.
  pub record OnlyIf (P : Type 0) (w : World D) {A : Type 0} (out : A × World D) : Type 0 where
    pub outcome : (out.1 ≡ w) ⊎ P

  -- The operator's stored role is the owner's, and another member is the target.
  pub record IsOwnersAct (d : D) (i o t : String) : Type 0 where
    pub other : (o == t) ≡ false
    pub owns : found (s.group_repo.get_member_role d i o) ≡ some 2
    pub target_in : s.group_repo.is_member d i t ≡ true

  pub record IsOwnersEnd (d : D) (i o : String) : Type 0 where
    pub group : GroupSnapshot
    pub group_found : (s.group_repo.find_group_by_id d i).value ≡ some group
    pub alive : is_dissolved group.status ≡ false
    pub owns : group.owner_account_id ≡ o

  set_admin-OnlyIf :
      (w : World D) (i o t : String) (enable : Bool)
      → OnlyIf (IsOwnersAct w.database i o t) w (set_admin s w i o t enable)
  unfolding set_admin
  set_admin-OnlyIf w i o t enable =
      let P = OnlyIf (IsOwnersAct w.database i o t) w {A = RepoResult} in
      let role = s.group_repo.get_member_role w.database i o in
      let inside = s.group_repo.is_member w.database i t in
      if-cases P (is_empty i || (is_empty o || is_empty t)) (λ _. record { outcome = inl refl })
        (λ _.
          if-cases P (o == t) (λ _. record { outcome = inl refl })
            (λ other.
              Option-both P (found role) (λ _. record { outcome = inl refl })
                (λ r known.
                  if-cases P (not (is_owner_number r)) (λ _. record { outcome = inl refl })
                    (λ owns.
                      if-cases P (not inside) (λ _. record { outcome = inl refl })
                        (λ within.
                          let act : IsOwnersAct w.database i o t = record {
                            other = other;
                            owns = known ∙ ap some (owner_number r (ground (arith, owns)));
                            target_in = ground (arith, within);
                          } in
                          if-cases P enable (λ _. record { outcome = inr act })
                            (λ _. record { outcome = inr act }))))))

  transfer_owner-OnlyIf :
      (w : World D) (i o t : String)
      → OnlyIf (IsOwnersAct w.database i o t) w (transfer_owner s w i o t)
  unfolding transfer_owner
  transfer_owner-OnlyIf w i o t =
      let P = OnlyIf (IsOwnersAct w.database i o t) w {A = RepoResult} in
      let role = s.group_repo.get_member_role w.database i o in
      let inside = s.group_repo.is_member w.database i t in
      if-cases P (is_empty i || (is_empty o || is_empty t)) (λ _. record { outcome = inl refl })
        (λ _.
          if-cases P (o == t) (λ _. record { outcome = inl refl })
            (λ other.
              Option-both P (found role) (λ _. record { outcome = inl refl })
                (λ r known.
                  if-cases P (not (eqb r 2)) (λ _. record { outcome = inl refl })
                    (λ owns.
                      if-cases P (not inside) (λ _. record { outcome = inl refl })
                        (λ within. record {
                          outcome = inr (record {
                            other = other;
                            owns = known ∙ ap some (ground (arith, owns));
                            target_in = ground (arith, within);
                          });
                        })))))

  dissolve_group-OnlyIf :
      (w : World D) (i o : String) (now : ℕ)
      → OnlyIf (IsOwnersEnd w.database i o) w (dissolve_group s w i o now)
  unfolding dissolve_group
  dissolve_group-OnlyIf w i o now =
      let P = OnlyIf (IsOwnersEnd w.database i o) w {A = RepoValueResult GroupDissolveResult} in
      let group = s.group_repo.find_group_by_id w.database i in
      if-cases P (is_empty i || is_empty o) (λ _. record { outcome = inl refl })
        (λ _.
          if-cases P (is_ok group.status)
            (λ _.
              Option-both P group.value (λ _. record { outcome = inl refl })
                (λ g known.
                  if-cases P (is_dissolved g.status) (λ _. record { outcome = inl refl })
                    (λ alive.
                      if-cases P (not (g.owner_account_id == o))
                        (λ _. record { outcome = inl refl })
                        (λ owns. record {
                          outcome = inr (record {
                            group = g;
                            group_found = known;
                            alive = alive;
                            owns = eq_sound g.owner_account_id o (ground (arith, owns));
                          });
                        }))))
            (λ _. record { outcome = inl refl }))

  -- To appoint or dismiss an admin and to transfer a group change nothing at all, unless the
  -- database has the operator's role as the owner's and another member as the target; to
  -- dissolve a group changes nothing, unless the database has it as not dissolved and owned by
  -- the operator.
  pub owner_operations-OnlyIf :
      (w : World D) (i o t : String) (enable : Bool) (now : ℕ)
      → OnlyIf (IsOwnersAct w.database i o t) w (set_admin s w i o t enable)
        × OnlyIf (IsOwnersAct w.database i o t) w (transfer_owner s w i o t)
        × OnlyIf (IsOwnersEnd w.database i o) w (dissolve_group s w i o now)
  owner_operations-OnlyIf w i o t enable now = (
    set_admin-OnlyIf w i o t enable,
    transfer_owner-OnlyIf w i o t,
    dissolve_group-OnlyIf w i o now,
  )
