-- ===== src/Im/ImService/Completion/Once.antt =====
-- The pushes of messages are no more than the commits of the stores.
use project_chat.Common.{
  ℕ, ◌+◌, ◌≤◌, ◌≡◌, refl, true, false, not, Option, none, some, List, [], ◌∷◌, ◌++◌, arith, ap, ◌∙◌,
  if-cases,
}
use project_chat.Net.Batch.{BatchSendResult}
use project_chat.Im.Json.{Json}
use project_chat.Im.ImMessage.{Request, Response}
use project_chat.Im.SessionManager.{Session}
use project_chat.Im.ImService.{
  ImService, AsyncRateLimitResult, make_repo_error, resolve_pending_sender,
}
use project_chat.Im.ImService.Pushes.{broadcast_to_group, push_to_account}
use project_chat.Im.ImService.Sending.{
  is_message_push, one_if, pushes, quiet_response-pushes, broadcast-pushes, push_to_account-pushes,
  repo_error_quiet,
}
use project_chat.Im.ImService.Pipeline.{
  PendingGroupMessageContext, PendingDirectMessageContext, GroupMessageWriteCommand,
  DirectMessageWriteCommand, GroupMessageWriteResult, DirectMessageWriteResult, group_durable,
  direct_durable, RateCheck, check_group, check_direct, Pipeline, Completion, group_checked,
  direct_checked, group_written, direct_written, WriteStores, WriteTask, write_group, write_direct,
  persist_group, persist_direct,
}
use project_chat.Im.ImService.Messages.{Oracle}
use project_chat.Im.ImService.Messages.Silent.{
  handle_group_message_async-pushes, handle_dm_async-pushes,
  complete_group_message_rate_limit-pushes, complete_direct_message_rate_limit-pushes,
}
use mathlib.Core.List.{append-nil}
use project_chat.Im.ImService.Completion.{
  complete, checked, written, complete_group_message, complete_direct_message, answer_sender,
  after_push, group_push, direct_push, group_reply, direct_reply,
}
use project_chat.Im.ImService.Completion.Steps.{
  System, commits, Step, Reach, here, next, ask_group, ask_direct, check, write, run, elsewhere,
  durables, is_durable,
}

module _ {J : Type 0} (json : Json J) where
  answer_sender-pushes :
      (s : ImService J) (o : Oracle) (session : Option Session) (key : ℕ) (req : Request J)
      (r : Response J)
      → is_message_push r.type ≡ false
      → pushes (answer_sender json s o session key req r).sent ≤ pushes s.sent
  unfolding answer_sender
  answer_sender-pushes s o none key req r quiet = omega arith
  answer_sender-pushes s o (some session) key req r quiet =
      quiet_response-pushes json s key req r o.reply_stamp o.reply_answer quiet

  after_push-pushes :
      (o : Oracle) (session : Option Session) (key : ℕ) (req : Request J)
      (answer : BatchSendResult → Response J) (out : Option BatchSendResult × ImService J)
      → ((b : BatchSendResult) → is_message_push (answer b).type ≡ false)
      → pushes (after_push json o session key req answer out).sent ≤ pushes out.1.sent
  unfolding after_push
  after_push-pushes o session key req answer (none, s) quiet = omega arith
  after_push-pushes o session key req answer (some b, s) quiet =
      answer_sender-pushes s o session key req (answer b) (quiet b)

  group_reply_quiet :
      (req : Request J) (command : GroupMessageWriteCommand) (result : GroupMessageWriteResult)
      (b : BatchSendResult)
      → is_message_push (group_reply json req command result b).type ≡ false
  unfolding group_reply
  group_reply_quiet req command result b = refl

  direct_reply_quiet :
      (req : Request J) (command : DirectMessageWriteCommand) (result : DirectMessageWriteResult)
      (b : BatchSendResult)
      → is_message_push (direct_reply json req command result b).type ≡ false
  unfolding direct_reply
  direct_reply_quiet req command result b = refl

  direct_push_type :
      (req : Request J) (command : DirectMessageWriteCommand)
      → is_message_push (direct_push json req command).type ≡ true
  unfolding direct_push
  direct_push_type req command = refl

  group_push_type :
      (req : Request J) (command : GroupMessageWriteCommand) (result : GroupMessageWriteResult)
      → is_message_push (group_push json req command result).type ≡ true
  unfolding group_push
  group_push_type req command result = refl

  complete_group_message-pushes :
      (s : ImService J) (o : Oracle) (c : PendingGroupMessageContext J)
      (command : GroupMessageWriteCommand) (result : GroupMessageWriteResult)
      → pushes (complete_group_message json s o c command result).sent
        ≤ one_if (group_durable result) + pushes s.sent
  unfolding complete_group_message
  complete_group_message-pushes s o c command result =
      let session = resolve_pending_sender json s c.connection c.sender_key c.sender_account_id in
      if-cases (λ (x : ImService J). pushes x.sent ≤ one_if (group_durable result) + pushes s.sent)
        (not (group_durable result))
        (λ _. omega (
          arith,
          answer_sender-pushes s o session c.sender_key c.request
              (make_repo_error json c.request result.commit_result.status
                result.commit_result.message)
              (repo_error_quiet json c.request result.commit_result.status
                result.commit_result.message),
        ))
        (λ e. ground (
          arith,
          after_push-pushes o session c.sender_key c.request
              (group_reply json c.request command result)
              (broadcast_to_group json s command.group_id c.sender_key
                (group_push json c.request command result) o.push_stamp o.push_answer)
              (group_reply_quiet c.request command result),
          broadcast-pushes json s command.group_id c.sender_key
              (group_push json c.request command result) o.push_stamp o.push_answer,
          group_push_type c.request command result,
        ))

  complete_direct_message-pushes :
      (s : ImService J) (o : Oracle) (c : PendingDirectMessageContext J)
      (command : DirectMessageWriteCommand) (result : DirectMessageWriteResult)
      → pushes (complete_direct_message json s o c command result).sent
        ≤ one_if (direct_durable result) + pushes s.sent
  unfolding complete_direct_message
  complete_direct_message-pushes s o c command result =
      let session = resolve_pending_sender json s c.connection c.sender_key c.sender_account_id in
      if-cases (λ (x : ImService J). pushes x.sent ≤ one_if (direct_durable result) + pushes s.sent)
        (not (direct_durable result))
        (λ _. omega (
          arith,
          answer_sender-pushes s o session c.sender_key c.request
              (make_repo_error json c.request result.commit_result.status
                result.commit_result.message)
              (repo_error_quiet json c.request result.commit_result.status
                result.commit_result.message),
        ))
        (λ e. ground (
          arith,
          after_push-pushes o session c.sender_key c.request
              (direct_reply json c.request command result)
              (push_to_account json s command.receiver_account_id
                (direct_push json c.request command) o.push_stamp o.push_answer)
              (direct_reply_quiet c.request command result),
          push_to_account-pushes json s command.receiver_account_id
              (direct_push json c.request command) o.push_stamp o.push_answer,
          direct_push_type c.request command,
        ))

  complete-pushes :
      (p : Pipeline J) (o : Oracle) (c : Completion J)
      → pushes (complete json p o c).service.sent ≤ one_if (is_durable c) + pushes p.service.sent
  unfolding complete
  complete-pushes p o (group_checked c result) =
      omega (arith, complete_group_message_rate_limit-pushes json p o c result)
  complete-pushes p o (direct_checked c result) =
      omega (arith, complete_direct_message_rate_limit-pushes json p o c result)
  complete-pushes p o (group_written c command result) =
      complete_group_message-pushes p.service o c command result
  complete-pushes p o (direct_written c command result) =
      complete_direct_message-pushes p.service o c command result

durables-middle :
    {J : Type 0} (front : List (Completion J)) (c : Completion J) (back : List (Completion J))
    → durables (front ++ (c ∷ back)) ≡ one_if (is_durable c) + durables (front ++ back)
durables-middle [] c back = refl
durables-middle (d ∷ front) c back = omega (arith, durables-middle front c back)

module _ {J : Type 0} {D : Type 0} (json : Json J) (stores : WriteStores D) where
  abbrev Bounded : System J D → Type 0
  Bounded x = pushes x.pipeline.service.sent + durables x.posted ≤ x.stored

  durables-posted :
      (cs : List (Completion J)) (c : Completion J)
      → durables (cs ++ (c ∷ [])) ≡ one_if (is_durable c) + durables cs
  durables-posted cs c =
      durables-middle cs c []
      ∙ ap (λ (l : List (Completion J)). one_if (is_durable c) + durables l) (append-nil cs)

  checked_quiet :
      (t : RateCheck J) (result : AsyncRateLimitResult) → is_durable (checked json t result) ≡ false
  unfolding checked
  checked_quiet (check_group c) result = refl
  checked_quiet (check_direct c) result = refl

  -- A write is reported as durable only when the store has committed.
  written-commits :
      (d : D) (t : WriteTask J) (wait persist : ℕ)
      → one_if (is_durable (written json stores d t wait persist).0) ≤ one_if (commits stores d t)
  unfolding written persist_group persist_direct
  written-commits d (write_group c m) wait persist = ground arith
  written-commits d (write_direct c m) wait persist = ground arith

  Step-Bounded : {x y : System J D} → Step json stores x y → Bounded x → Bounded y
  Step-Bounded (ask_group x o key connection session req e) h =
      omega (arith, handle_group_message_async-pushes json x.pipeline o key connection session req)
  Step-Bounded (ask_direct x o key connection session req e) h =
      omega (arith, handle_dm_async-pushes json x.pipeline o key connection session req)
  Step-Bounded (check x front back key t result e) h =
      omega (
        arith,
        durables-posted x.posted (checked json t result),
        ap one_if (checked_quiet t result),
      )
  Step-Bounded (write x front back key t wait persist e) h = omega (
    arith,
    durables-posted x.posted (written json stores x.database t wait persist).0,
    written-commits x.database t wait persist,
  )
  Step-Bounded (run x o front back c e) h =
      omega
        (arith, complete-pushes json x.pipeline o c, durables-middle front c back, ap durables e)
  Step-Bounded (elsewhere x s e) h = omega arith

  -- However the executors and the base loop order their work, and whatever the clock, the limiter,
  -- the stores and the batch sender answer, the pushes of group messages and direct messages that
  -- the batch sender was given, with those that are still to follow from the reports of writes
  -- that wait in the base loop, are no more than the messages that the stores have committed, when
  -- this is so at the start.
  pub Reach-pushes :
      {x y : System J D}
      → pushes x.pipeline.service.sent + durables x.posted ≤ x.stored
      → Reach json stores x y
      → pushes y.pipeline.service.sent + durables y.posted ≤ y.stored
  Reach-pushes h here = h
  Reach-pushes h (next r st) = Step-Bounded st (Reach-pushes h r)
