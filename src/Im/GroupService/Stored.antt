-- ===== src/Im/GroupService/Stored.antt =====
-- A reload reads the database only.
use project_chat.Common.{String, ◌≡◌, refl, Bool, List, [], ◌∷◌, arith}
use project_chat.Storage.GroupTypes.{GroupSnapshot}
use project_chat.Im.GroupManager.{GroupManager}
use project_chat.Im.GroupService.{GroupService, World}
use project_chat.Im.GroupService.Membership.{reload_from, reload_group, synchronise}

module _ {D : Type 0} (s : GroupService D) where
  reload_from-database :
      (w : World D) (i : String) (gs : List GroupSnapshot)
      → (reload_from s w i gs).1.database ≡ w.database
  unfolding reload_from
  reload_from-database w i [] = refl
  reload_from-database w i (g ∷ gs) = refl

  pub reload_group-database :
      (w : World D) (i : String) → (reload_group s w i).1.database ≡ w.database
  unfolding reload_group
  reload_group-database w i =
      ground (arith, reload_from-database w i (s.group_repo.find_groups_by_ids w.database (i ∷ [])))

  pub synchronise-database :
      (w : World D) (i : String) (change : Bool × GroupManager)
      → (synchronise s w i change).1.database ≡ w.database
  unfolding synchronise
  synchronise-database w i (changed, m) =
      ground (arith, reload_group-database (record w { memory = m }) i)
