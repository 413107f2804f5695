-- ===== src/Im/ImService/Completion/Allowed.antt =====
-- What the steps of the pipeline do to the tasks of the message executor.
use mathlib.Core.Path.{subst}
use project_chat.Common.{ℕ, String, ◌≡◌, refl, List, [], ◌∷◌, ◌++◌, ◌⊎◌, inl, inr}
use project_chat.Im.Json.{Json}
use project_chat.Im.ImService.{AsyncRateLimitResult}
use project_chat.Im.ImService.Pipeline.{
  RateCheck, check_group, check_direct, write_group, write_direct, WriteTask, WriteStores, Pipeline,
  Completion, group_checked, direct_checked, group_written, direct_written,
}
use project_chat.Im.ImService.Messages.{Oracle}
use project_chat.Im.ImService.Messages.Admission.{
  GroupAsked, DirectAsked, CheckAsked, AllAsked, Added, Grows,
}
use project_chat.Im.ImService.Messages.Tasks.{
  handle_group_message_async-Grows, handle_dm_async-Grows, complete_group_message_rate_limit-Grows,
  complete_direct_message_rate_limit-Grows,
}
use project_chat.Im.ImService.Completion.{complete, checked, written}
use project_chat.Im.ImService.Completion.Steps.{
  System, Step, ask_group, ask_direct, check, write, run, elsewhere,
}

-- One task was taken.
pub record Taken {J : Type 0} (old new : List (String × WriteTask J)) : Type 0 where
  pub front : List (String × WriteTask J)
  pub task : String × WriteTask J
  pub back : List (String × WriteTask J)
  pub before : old ≡ front ++ (task ∷ back)
  pub after : new ≡ front ++ back

module _ {J : Type 0} (json : Json J) where
  -- What a callback that waits in the base loop carries on is what its request asks for.
  abbrev pub PostedAsked : Completion J → Type 0
  PostedAsked (group_checked c result) = GroupAsked json c
  PostedAsked (direct_checked c result) = DirectAsked json c
  PostedAsked _ = Unit

  abbrev pub AllPosted : List (Completion J) → Type 0
  AllPosted [] = Unit
  AllPosted (c ∷ cs) = PostedAsked c × AllPosted cs

  -- Every message that waits for the check of its rate, or for what follows it, carries what its
  -- request asks for.
  pub record IsAsked {D : Type 0} (x : System J D) : Type 0 where
    pub checks : AllAsked json x.pipeline.redis_tasks
    pub posted : AllPosted x.posted

  AllAsked-middle :
      (front : List (String × RateCheck J)) (t : String × RateCheck J)
      (back : List (String × RateCheck J))
      → AllAsked json (front ++ (t ∷ back))
      → CheckAsked json t.1 × AllAsked json (front ++ back)
  AllAsked-middle [] t back a = a
  AllAsked-middle (u ∷ front) t back a =
      let (here, rest) = AllAsked-middle front t back a.1 in (here, (a.0, rest))

  AllPosted-middle :
      (front : List (Completion J)) (c : Completion J) (back : List (Completion J))
      → AllPosted (front ++ (c ∷ back))
      → PostedAsked c × AllPosted (front ++ back)
  AllPosted-middle [] c back a = a
  AllPosted-middle (u ∷ front) c back a =
      let (here, rest) = AllPosted-middle front c back a.1 in (here, (a.0, rest))

  AllPosted-last :
      (cs : List (Completion J)) (c : Completion J)
      → AllPosted cs
      → PostedAsked c
      → AllPosted (cs ++ (c ∷ []))
  AllPosted-last [] c a p = (p, tt)
  AllPosted-last (u ∷ cs) c a p = (a.0, AllPosted-last cs c a.1 p)

  checked-Asked :
      (t : RateCheck J) (result : AsyncRateLimitResult)
      → CheckAsked json t
      → PostedAsked (checked json t result)
  unfolding checked
  checked-Asked (check_group c) result a = a
  checked-Asked (check_direct c) result a = a

  written-Asked :
      {D : Type 0} (stores : WriteStores D) (d : D) (t : WriteTask J) (wait persist : ℕ)
      → PostedAsked (written json stores d t wait persist).0
  unfolding written
  written-Asked stores d (write_group c m) wait persist = tt
  written-Asked stores d (write_direct c m) wait persist = tt

  complete-Grows :
      (p : Pipeline J) (o : Oracle) (c : Completion J)
      → PostedAsked c
      → Grows json p (complete json p o c)
  unfolding complete
  complete-Grows p o (group_checked c result) a =
      complete_group_message_rate_limit-Grows json p o c result a
  complete-Grows p o (direct_checked c result) a =
      complete_direct_message_rate_limit-Grows json p o c result a
  complete-Grows p o (group_written c command result) a = (inl refl, λ h. h)
  complete-Grows p o (direct_written c command result) a = (inl refl, λ h. h)

module _ {J : Type 0} {D : Type 0} (json : Json J) (stores : WriteStores D) where
  -- When the messages that wait carry what their requests ask for, they still do so after any step
  -- of the pipeline, and the step leaves the tasks of the message executor as they were, or takes
  -- one of them, or adds one: the service then accepts messages, the sender's connection is open,
  -- the session under its key has the account that the message is to be written under, and the
  -- content and the group or the receiver that are to be written are those in the request; for a
  -- group message the sender is a member of that group at that moment, also when the check of its
  -- rate came in between.
  pub Step-Allowed :
      {x y : System J D}
      → Step json stores x y
      → IsAsked json x
      → (((y.pipeline.message_tasks ≡ x.pipeline.message_tasks)
            ⊎ Added json x.pipeline.service x.pipeline.message_tasks y.pipeline.message_tasks)
          ⊎ Taken x.pipeline.message_tasks y.pipeline.message_tasks)
        × IsAsked json y
  Step-Allowed (ask_group x o key connection session req found) a =
      let g = handle_group_message_async-Grows json x.pipeline o key connection session req found in
      (inl g.0, record { checks = g.1 a.checks; posted = a.posted })
  Step-Allowed (ask_direct x o key connection session req found) a =
      let g = handle_dm_async-Grows json x.pipeline o key connection session req found in
      (inl g.0, record { checks = g.1 a.checks; posted = a.posted })
  Step-Allowed (check x front back key t result e) a =
      let (here, rest) =
        AllAsked-middle json front (key, t) back (subst (AllAsked json) e a.checks) in
      (
        inl (inl refl),
        record {
          checks = rest;
          posted = AllPosted-last json x.posted _ a.posted (checked-Asked json t result here);
        },
      )
  Step-Allowed (write x front back key t wait persist e) a = (
    inr (record { front = front; task = (key, t); back = back; before = e; after = refl }),
    record {
      checks = a.checks;
      posted =
          AllPosted-last json x.posted _ a.posted
            (written-Asked json stores x.database t wait persist);
    },
  )
  Step-Allowed (run x o front back c e) a =
      let (here, rest) = AllPosted-middle json front c back (subst (AllPosted json) e a.posted) in
      let g = complete-Grows json x.pipeline o c here in
      (inl g.0, record { checks = g.1 a.checks; posted = rest })
  Step-Allowed (elsewhere x s e) a =
      (inl (inl refl), record { checks = a.checks; posted = a.posted })
