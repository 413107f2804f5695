-- ===== src/Tests/Storage.antt =====
-- The repositories at concrete inputs.
use project_chat.Common.{◌≡◌, false, [], ◌∷◌}
use project_chat.Storage.MemoryGroupRepo.{group_exists}
use project_chat.Storage.MemoryGroupRepo.Creation.{create, add, run, empty, run-group_exists}

run-group_exists_example :
    group_exists (run empty (create "g" "club" "ann" ∷ add "g" "bob" ∷ [])) "g" ≡ false
run-group_exists_example = run-group_exists (create "g" "club" "ann" ∷ add "g" "bob" ∷ []) "g"
