-- ===== src/Tests/Requests.antt =====
-- Requests to become friends and to join a group at concrete inputs.
use project_chat.Common.{true, false, some, none, [], ◌∷◌, string_key}
use project_chat.Common.Map.{assign}
use project_chat.Storage.FriendTypes.{FriendRequest, pending}
use project_chat.Im.GroupService.{answered}
use project_chat.Im.GroupJoinService.{GroupJoinService, review_request}
use project_chat.Im.GroupJoinService.Review.{Reviewed, review_request-Reviewed}
use project_chat.Im.FriendService.{FriendService, send_request, remove_friend}
use project_chat.Im.FriendService.Guards.{Requested, Removed, friend_operations_lem}
use project_chat.Tests.Groups.{Rows, rows_repo, world, user, done}

abbrev request : FriendRequest
request = record {
  request_id = 1;
  request_account_id = "ann";
  receive_account_id = "bob";
  status = pending;
  created_at_ms = 5;
  handled_at_ms = none;
}

-- Who is in the rows is a friend of everybody.
abbrev friends : FriendService Rows
friends = record {
  friend_repo = record {
    are_friends = λ d a b. rows_repo.is_member d "g" b;
    remove_friend_pair = λ d a b. rows_repo.remove_member d "g" b;
    list_friend_account_ids = λ d a. [];
  };
  user_profile_repo = record {
    find_by_account_id = λ d a. some (user a);
    find_by_account_ids = λ d as'. [];
    create_default_profile = λ d u a n. (done, d);
  };
  friend_request_repo = record {
    create_pending_request = λ d a b now. (answered 1, d);
    list_pending_incoming = λ d a. answered (request ∷ []);
    reject_pending = λ d i a now. (answered request, d);
    accept_pending_and_create_friend_pair = λ d i a now. (answered request, assign "bob" 0 d);
  };
}

friend_operations_lem_example :
    Requested friends world.database "ann" "cid" 5
      (send_request friends world.database "ann" "cid" 5)
    × Removed friends world.database "ann" "cid" (remove_friend friends world.database "ann" "cid")
friend_operations_lem_example = friend_operations_lem friends world.database "ann" "cid" 5

abbrev joins : GroupJoinService Rows
joins = record {
  group_repo = rows_repo;
  user_profile_repo = friends.user_profile_repo;
  join_request_repo = record {
    submit = λ d i a m now. (
      answered (record {
        submitted = true;
        already_pending = false;
        already_in = false;
        group_id = i;
        applicant_account_id = a;
      }),
      d,
    );
    list_pending = λ d i n. answered [];
    review = λ d i a r approve n now. (
      answered (record {
        approved = approve;
        rejected = false;
        member_added = approve;
        already_handled = false;
        group_id = i;
        applicant_account_id = a;
      }),
      assign a 0 d,
    );
  };
  max_group_members = 3;
}

review_request-Reviewed_example :
    Reviewed joins world "g" "cid" "ann" true 7 (review_request joins world "g" "cid" "ann" true 7)
review_request-Reviewed_example = review_request-Reviewed joins world "g" "cid" "ann" true 7
