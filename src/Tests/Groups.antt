-- ===== src/Tests/Groups.antt =====
-- The service for groups at concrete inputs, over a database of one group.
use mathlib.Core.Path.{subst}
use project_chat.Common.{
  arith, ℕ, String, ◌≡◌, refl, true, false, none, some, [], ◌∷◌, map, length, ◌==◌, string_key,
}
use project_chat.Common.Map.{Map, find, assign, erase, has}
use project_chat.Storage.Results.{ok, RepoResult}
use project_chat.Storage.GroupTypes.{GroupSnapshot, GroupMemberRecord, active, UserProfile}
use project_chat.Storage.Repos.{GroupRepo}
use project_chat.Id.SnowflakeIdGenerator.{SnowflakeIdGenerator, new}
use project_chat.Id.SnowflakeIdGenerator.Increasing.{run, Increasing, run-Increasing}
use project_chat.Im.GroupManager.History
use project_chat.Im.GroupManager.History.{start, join}
use project_chat.Im.GroupService.{GroupService, World, answer}
use project_chat.Im.GroupService.Membership.{kick_member}
use project_chat.Im.GroupService.Lifecycle.{invite_member}
use project_chat.Im.GroupService.Kick.{Kicked, Forgets, kick_member-Kicked}
use project_chat.Im.GroupService.Invitation.{Invited, invite_member-Invited}
use project_chat.Im.GroupService.Ownership.{
  owner_operations-OnlyIf, OnlyIf, IsOwnersAct, IsOwnersEnd,
}
use project_chat.Im.GroupService.Membership.{set_admin, transfer_owner}
use project_chat.Im.GroupService.Ending.{dissolve_group}

-- The roles of the accounts in the one group.
abbrev pub Rows : Type 0
Rows = Map String ℕ

abbrev pub done : RepoResult
done = answer ok ""

abbrev club : GroupSnapshot
club = record {
  group_id = "g";
  group_name = "club";
  owner_account_id = "ann";
  status = active;
  dissolved_at_ms = 0;
}

abbrev pub user : String → UserProfile
user a = record { account_id = a; username = a; nickname = ""; avatar_url = "" }

abbrev member_record : String × ℕ → GroupMemberRecord
member_record (a, r) = record { account_id = a; role = r }

abbrev pub rows_repo : GroupRepo Rows
rows_repo = record {
  group_exists = λ d i. i == "g";
  is_member = λ d i a. has a d;
  add_member = λ d i a r. (done, assign a r d);
  remove_member = λ d i a. (done, erase a d);
  get_member_role = λ d i a. record { status = ok; message = ""; value = find a d };
  update_member_role = λ d i a r. (done, assign a r d);
  transfer_owner = λ d i a b. (done, assign b 2 (assign a 0 d));
  list_member_records = λ d i. map member_record d;
  create_group_with_owner = λ d i n o. (done, (o, 2) ∷ []);
  find_groups_by_ids = λ d is. club ∷ [];
  find_group_by_id = λ d i. record { status = ok; message = ""; value = some club };
  count_members = λ d i. record { status = ok; message = ""; value = some (length d) };
  dissolve_group = λ d i o now. (record { status = ok; message = ""; value = none }, []);
}

abbrev pub service : GroupService Rows
service = record {
  group_repo = rows_repo;
  user_profile_repo = record {
    find_by_account_id = λ d a. some (user a);
    find_by_account_ids = λ d as'. map user as';
    create_default_profile = λ d u a n. (done, d);
  };
  friend_repo = none;
  require_friend_for_invite = false;
  max_group_members = 3;
}

abbrev generator : SnowflakeIdGenerator
generator = record { node_id = 1; epoch_ms = 100; last_timestamp_ms = 0; sequence = 0 }

abbrev pub world : World Rows
world = record {
  database = ("ann", 2) ∷ ("bob", 0) ∷ [];
  memory = History.run start (History.create "g" "ann" "club" ∷ join "g" "bob" ∷ []);
  ids = generator;
}

without_bob : Forgets service (erase "bob" world.database) "g" "bob"
unfolding erase
without_bob = record {
  unlisted = (refl, tt);
  stored = λ g gs e.
      let first : club ≡ g = cc in
      subst (λ x. (x.group_id ≡ "g") × ((x.owner_account_id == "bob") ≡ false)) first (refl, refl);
}

kick_member-Kicked_example :
    Kicked service world "g" "ann" "bob" (kick_member service world "g" "ann" "bob")
kick_member-Kicked_example = kick_member-Kicked service world "g" "ann" "bob" (λ done. without_bob)

invite_member-Invited_example :
    Invited service world "g" "ann" "cid" (invite_member service world "g" "ann" "cid")
invite_member-Invited_example = invite_member-Invited service world "g" "ann" "cid"

owner_operations-OnlyIf_example :
    OnlyIf service
      (IsOwnersAct service world.database "g" "ann" "bob")
      world
      (set_admin service world "g" "ann" "bob" true)
    × OnlyIf service
        (IsOwnersAct service world.database "g" "ann" "bob")
        world
        (transfer_owner service world "g" "ann" "bob")
    × OnlyIf service
        (IsOwnersEnd service world.database "g" "ann")
        world
        (dissolve_group service world "g" "ann" 7)
owner_operations-OnlyIf_example = owner_operations-OnlyIf service world "g" "ann" "bob" true 7

run-Increasing_example :
    Increasing (run generator ((150 ∷ []) ∷ (150 ∷ []) ∷ (149 ∷ 151 ∷ []) ∷ []))
unfolding new
run-Increasing_example =
    run-Increasing 1 100 150 generator ((150 ∷ []) ∷ (150 ∷ []) ∷ (149 ∷ 151 ∷ []) ∷ []) refl
      ((omega arith, tt), ((omega arith, tt), ((omega arith, (omega arith, tt)), tt)))
