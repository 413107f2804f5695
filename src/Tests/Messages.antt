-- ===== src/Tests/Messages.antt =====
-- Messages through the service at concrete inputs.
use project_chat.Common.{
  ℕ, ◌+◌, ◌≤◌, ◌≡◌, refl, true, false, not, ◌&&◌, some, List, [], ◌∷◌, ◌⊎◌, arith, eqb, nat_key,
}
use project_chat.Common.KeySet.{contains}
use project_chat.Common.Map.{find, assign}
use project_chat.Net.Batch.{no_results}
use project_chat.Infra.ThreadPool.{accepted}
use project_chat.Storage.Results.{ok}
use project_chat.Im.MsgType.{group_msg_req}
use project_chat.Im.ImMessage.{Request}
use project_chat.Im.ImCodec.Parsers.{parse_history_query, parse_message_ack, parse_sync_cursors}
use project_chat.Im.ImCodec.Parsers.Limits.{QueryFits, AckFits, CursorsFit, parsers_lem}
use project_chat.Im.GroupManager.{GroupManager}
use project_chat.Im.GroupManager.History
use project_chat.Im.SessionManager.{
  account_id_by_conn, bind_user, find_session, get_or_create, new_session, authed, Session,
}
use project_chat.Im.SessionManager.History.{Call, open_conn, bind, MayRun, start, run, step}
use project_chat.Im.ImService.{ImService, Stamp, collect_group_targets}
use project_chat.Im.ImService.Sending.{pushes}
use project_chat.Im.ImService.Pipeline.{WriteStores, answered}
use project_chat.Im.ImService.Messages.{Oracle, handle_group_message_async}
use project_chat.Im.ImService.Messages.Admission.{Added}
use project_chat.Im.ImService.Completion.Steps.{System, Step, here, next, ask_group, durables}
use project_chat.Im.ImService.Completion.Targets.{
  is_of_member, AllDistinct, collect_group_targets_lem,
}
use project_chat.Im.ImService.Completion.Once.{Reach-pushes}
use project_chat.Im.ImService.Completion.Allowed.{IsAsked, Taken, Step-Allowed}
use project_chat.Tests.Json.{
  Value, null, number, text, array, object, nil, cons, end, field, values,
}

-- A request with an acknowledgement, a history query and a cursor.
abbrev body : Value
body = object (
    field "groupId" (text "g") (
      field "content" (text "hello") (
        field "limit" (number 900) (
          field "msgIds" (array (cons (number 4) nil)) (
            field "cursors"
              (array (
                cons
                  (object
                    (field "conversationType" (text "group") (field "targetId" (text "g") end)))
                  nil))
              end)))))

abbrev request : Request Value
request = record {
  ver = 1;
  type = group_msg_req;
  req_id = 7;
  seq = 0;
  from = "";
  to = "";
  body = body;
}

parsers_lem_example :
    QueryFits 50 (parse_history_query (values null) request 20 50)
    × AckFits 50 (parse_message_ack (values null) request 50)
    × CursorsFit 50 (parse_sync_cursors (values null) request 20 50)
parsers_lem_example = parsers_lem (values null) 20 50 (omega arith) (omega arith) request

-- Ann has two connections, Bob one; both are in the group.
abbrev bound : List Call
bound = open_conn 3 ∷ bind 3 1 "ann" "Ann" ∷ bind 4 1 "ann" "Ann" ∷ bind 5 2 "bob" "Bob" ∷ []

bound-MayRun : MayRun start bound
unfolding account_id_by_conn step get_or_create find bind_user assign
bound-MayRun = (tt, (refl, (refl, (refl, tt))))

abbrev groups : GroupManager
groups = History.run History.start (History.create "g" "ann" "club" ∷ History.join "g" "bob" ∷ [])

collect_group_targets_lem_example :
    let sessions = run start bound in
    let targets = collect_group_targets sessions groups "g" 3 in
    (contains 5 targets ≡ (not (eqb 5 3) && is_of_member sessions groups "g" 5))
    × AllDistinct targets
collect_group_targets_lem_example = collect_group_targets_lem bound groups "g" 3 5 bound-MayRun

abbrev pub session : Session
session = record new_session { state = authed; account_id = "ann"; username = "Ann" }

abbrev pub service : ImService Value
service = record {
  config = record {
    max_message_len = 100;
    max_group_name_len = 10;
    require_group_id_for_send = true;
    default_history_limit = 20;
    max_history_limit = 50;
  };
  wiring = record {
    message_executor = true;
    base_loop_poster = true;
    batch_sender = true;
    db_read_executor = true;
    redis_executor = false;
    redis_fail_open = true;
    rate_limiter = false;
    group_message_persistence = true;
    direct_message_persistence = true;
  };
  accepting_async_messages = true;
  sessions = record { sessions = (3, session) ∷ []; account_conns = []; conn_account = [] };
  groups = groups;
  ids = record { node_id = 1; epoch_ms = 100; last_timestamp_ms = 0; sequence = 0 };
  open_connections = 9 ∷ [];
  sent = [];
}

abbrev pub stamp : Stamp
stamp = record { now_ms = 200; readings = 200 ∷ [] }

abbrev oracle : Oracle
oracle = record {
  redis_answer = accepted;
  message_answer = accepted;
  server_ts_ms = 200;
  id_readings = 200 ∷ [];
  push_stamp = stamp;
  push_answer = no_results;
  reply_stamp = stamp;
  reply_answer = no_results;
}

-- The database counts the messages it was given.
abbrev stores : WriteStores ℕ
stores = record {
  commit_group =
      λ d c. (answered (record { status = ok; message = ""; value = some (d + 1) }), d + 1);
  commit_direct = λ d c. (answered (record { status = ok; message = "" }), d + 1);
}

abbrev system : System Value ℕ
system = record {
  pipeline = record { service = service; redis_tasks = []; message_tasks = [] };
  posted = [];
  database = 0;
  stored = 0;
}

abbrev asked : System Value ℕ
asked = record system {
  pipeline =
      (handle_group_message_async (values null) system.pipeline oracle 3 9 session request).1;
}

asks : Step (values null) stores system asked
unfolding find_session find
asks = ask_group system oracle 3 9 session request refl

Step-Allowed_example :
    (((asked.pipeline.message_tasks ≡ system.pipeline.message_tasks)
        ⊎ Added
            (values null)
            system.pipeline.service
            system.pipeline.message_tasks
            asked.pipeline.message_tasks)
      ⊎ Taken system.pipeline.message_tasks asked.pipeline.message_tasks)
    × IsAsked (values null) asked
Step-Allowed_example = Step-Allowed (values null) stores asks (record { checks = tt; posted = tt })

Reach-pushes_example : pushes asked.pipeline.service.sent + durables asked.posted ≤ asked.stored
Reach-pushes_example = Reach-pushes (values null) stores (omega arith) (next here asks)
