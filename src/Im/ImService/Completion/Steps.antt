-- ===== src/Im/ImService/Completion/Steps.antt =====
-- The pipeline of messages as a step relation: what waits in the executors and in the base loop may
-- run in any order, and everything else that the service does may come between any two steps.
use project_chat.Common.{
  ℕ, ◌+◌, String, ◌≡◌, Bool, false, not, ◌&&◌, ltb, eqb, is_empty, some, List, [], ◌∷◌, ◌++◌,
}
use project_chat.Storage.Results.{RepoResult, RepoValueResult, is_ok}
use project_chat.Im.Json.{Json}
use project_chat.Im.ImMessage.{Request}
use project_chat.Im.SessionManager.{Session, find_session}
use project_chat.Im.ImService.{ImService, AsyncRateLimitResult}
use project_chat.Im.ImService.Pipeline.{
  group_durable, direct_durable, RateCheck, WriteTask, write_group, write_direct, Pipeline,
  Completion, group_checked, direct_checked, group_written, direct_written, WriteStores, Committed,
  answered, value_or_zero,
}
use project_chat.Im.ImService.Messages.{Oracle, handle_group_message_async, handle_dm_async}
use project_chat.Im.ImService.Sending.{one_if, pushes}
use project_chat.Im.ImService.Completion.{complete, checked, written}

-- What is durable in the base loop.
abbrev pub is_durable : {J : Type 0} → Completion J → Bool
is_durable (group_checked c result) = false
is_durable (direct_checked c result) = false
is_durable (group_written c command result) = group_durable result
is_durable (direct_written c command result) = direct_durable result

abbrev pub durables : {J : Type 0} → List (Completion J) → ℕ
durables [] = 0
durables (c ∷ cs) = one_if (is_durable c) + durables cs

abbrev pub group_answer : Committed (RepoValueResult ℕ) → Bool
group_answer (answered r) = is_ok r.status && ltb 0 (value_or_zero r.value)
group_answer _ = false

abbrev pub direct_answer : Committed RepoResult → Bool
direct_answer (answered r) = is_ok r.status
direct_answer _ = false

-- Whether the task makes the store commit its message, by what the store answers: it is called, for a
-- command with no field missing, and answers with success, for a group message with a sequence number
-- above 0. What the program makes of the answer plays no part.
abbrev pub commits : {J : Type 0} {D : Type 0} → WriteStores D → D → WriteTask J → Bool
commits stores d (write_group c m) =
    not (is_empty m.group_id)
    && (not (eqb m.msg_id 0)
        && (not (is_empty m.sender_account_id) && group_answer (stores.commit_group d m).0))
commits stores d (write_direct c m) =
    not (is_empty m.conversation_key)
    && (not (eqb m.msg_id 0)
        && (not (is_empty m.sender_account_id)
            && (not (is_empty m.receiver_account_id)
                && direct_answer (stores.commit_direct d m).0)))

-- The pipeline with the callbacks that wait in the base loop and the database; `stored` counts the
-- messages that the stores have committed so far.
pub record System (J : Type 0) (D : Type 0) : Type 0 where
  pub pipeline : Pipeline J
  pub posted : List (Completion J)
  pub database : D
  pub stored : ℕ

module _ {J : Type 0} {D : Type 0} (json : Json J) (stores : WriteStores D) where
  pub data Step : System J D → System J D → Type 0 where
    ask_group :
        (x : System J D) (o : Oracle) (key connection : ℕ) (session : Session) (req : Request J)
        → find_session x.pipeline.service.sessions key ≡ some session
        → Step x (record x {
          pipeline = (handle_group_message_async json x.pipeline o key connection session req).1;
        })
    ask_direct :
        (x : System J D) (o : Oracle) (key connection : ℕ) (session : Session) (req : Request J)
        → find_session x.pipeline.service.sessions key ≡ some session
        → Step x (record x {
          pipeline = (handle_dm_async json x.pipeline o key connection session req).1;
        })
    check :
        (x : System J D) (front back : List (String × RateCheck J)) (key : String) (t : RateCheck J)
        (result : AsyncRateLimitResult)
        → x.pipeline.redis_tasks ≡ front ++ ((key, t) ∷ back)
        → Step x (record x {
          pipeline = record x.pipeline { redis_tasks = front ++ back };
          posted = x.posted ++ (checked json t result ∷ []);
        })
    write :
        (x : System J D) (front back : List (String × WriteTask J)) (key : String) (t : WriteTask J)
        (wait persist : ℕ)
        → x.pipeline.message_tasks ≡ front ++ ((key, t) ∷ back)
        → Step x (record {
          pipeline = record x.pipeline { message_tasks = front ++ back };
          posted = x.posted ++ ((written json stores x.database t wait persist).0 ∷ []);
          database = (written json stores x.database t wait persist).1;
          stored = one_if (commits stores x.database t) + x.stored;
        })
    run :
        (x : System J D) (o : Oracle) (front back : List (Completion J)) (c : Completion J)
        → x.posted ≡ front ++ (c ∷ back)
        → Step x (record x { pipeline = complete json x.pipeline o c; posted = front ++ back })
    -- All the rest of the service, which pushes no message.
    elsewhere :
        (x : System J D) (s : ImService J)
        → pushes s.sent ≡ pushes x.pipeline.service.sent
        → Step x (record x { pipeline = record x.pipeline { service = s } })

  pub data Reach (x : System J D) : System J D → Type 0 where
    here : Reach x x
    next : {y z : System J D} → Reach x y → Step y z → Reach x z
