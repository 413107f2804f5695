-- ===== src/Storage/MemoryGroupRepo/Creation.antt =====
-- What a repository comes to that starts empty.
use project_chat.Common.{
  String, ◌≡◌, refl, ◌||◌, List, [], ◌∷◌, Bool-cases, inl, inr, string_key, is_empty, false,
}
use project_chat.Common.Map.{find}
use project_chat.Storage.MemoryGroupRepo.{
  MemoryGroupRepo, create_group, add_member, remove_member, group_exists,
}

pub data Call : Type 0 where
  create : String → String → String → Call
  add remove : String → String → Call

pub step : MemoryGroupRepo → Call → MemoryGroupRepo
step r (create i n o) = (create_group r i n o).1
step r (add i u) = (add_member r i u).1
step r (remove i u) = (remove_member r i u).1

pub run : MemoryGroupRepo → List Call → MemoryGroupRepo
run r [] = r
run r (c ∷ cs) = run (step r c) cs

abbrev pub empty : MemoryGroupRepo
empty = record { groups = [] }

step-empty : (c : Call) → step empty c ≡ empty
unfolding step create_group add_member remove_member find
step-empty (create i n o) = elim (Bool-cases (is_empty i || (is_empty n || is_empty o))) [
  | inl blank ↦ rw (blank, step, create_group) refl
  | inr given ↦ rw (given, step, create_group) refl
]
step-empty (add i u) = refl
step-empty (remove i u) = refl

run-empty : (cs : List Call) → run empty cs ≡ empty
unfolding run
run-empty [] = refl
run-empty (c ∷ cs) = rw (step-empty c) (run-empty cs)

-- After any history of creations, additions and removals from the empty in-memory repository, no
-- group exists in it.
pub run-group_exists :
    (cs : List Call) (group_id : String) → group_exists (run empty cs) group_id ≡ false
unfolding group_exists find
run-group_exists cs group_id = rw (run-empty cs) refl
