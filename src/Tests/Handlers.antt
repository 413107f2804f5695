-- ===== src/Tests/Handlers.antt =====
-- A kick that ann asks of the service, whose groups are those of the database.
use project_chat.Common.{◌≡◌, some, none, [], ◌∷◌, ◌⊎◌}
use project_chat.Net.Batch.{no_results}
use project_chat.Im.MsgType.{kick_group_member_req}
use project_chat.Im.ImMessage.{Request}
use project_chat.Im.SessionManager.{authed}
use project_chat.Im.GroupManager.Consistent.{IsConsistent}
use project_chat.Im.GroupManager.History
use project_chat.Im.GroupManager.History.{run-IsConsistent}
use project_chat.Im.ImService.Groups.{Served, Sends}
use project_chat.Im.ImService.Groups.Requests.{Services, kick, handle}
use project_chat.Im.ImService.Groups.Refused.{Refused}
use project_chat.Im.ImService.Groups.Kept.{handle-Guarded}
use project_chat.Tests.Json.{Value, null, text, object, end, field, values}
use project_chat.Tests.Groups.{Rows, rows_repo, world}
use project_chat.Tests.Groups.{service as group_service}
use project_chat.Tests.Messages.{session, service, stamp}

abbrev kick_bob : Request Value
kick_bob = record {
  ver = 1;
  type = kick_group_member_req;
  req_id = 8;
  seq = 0;
  from = "";
  to = "";
  body = object (field "groupId" (text "g") (field "targetAccountId" (text "bob") end));
}

abbrev served : Served Value Rows
served = record { service = service; database = world.database }

abbrev services : Services Rows
services = record {
  groups = some group_service;
  joins = none;
  group_repo = some rows_repo;
  print_id = λ n. "1";
}

abbrev sends : Sends
sends = record { stamp = λ i. stamp; answer = λ i. no_results }

handle-Guarded_example :
    let out = handle (values null) services served sends 3 session kick_bob kick in
    IsConsistent out.1.service.groups
    × ((session.state ≡ authed) ⊎ Refused (values null) served kick_bob out)
handle-Guarded_example =
    handle-Guarded (values null) services served sends 3 session kick_bob kick
      (run-IsConsistent (History.create "g" "ann" "club" ∷ History.join "g" "bob" ∷ []))
