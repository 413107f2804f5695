-- ===== src/Im/ImService/Messages/Tasks.antt =====
-- The tasks of the executors after each operation of the pipeline.
use project_chat.Common.{
  ℕ, String, ◌≡◌, refl, Bool, true, not, ◌||◌, Option, none, some, List, arith, ◌⊎◌, inl, inr, ◌==◌,
  nat_key, string_key, eq_sound, if-cases, Option-both, Sum-both,
}
use project_chat.Common.KeySet.{contains}
use project_chat.Infra.ThreadPool.{TaskSubmitResult}
use project_chat.Im.Json.{Json}
use project_chat.Im.ImMessage.{Request}
use project_chat.Im.ImCodec.{DispatchResult}
use project_chat.Im.GroupManager
use project_chat.Im.SessionManager.{Session, find_session}
use project_chat.Im.ImService.{
  ImService, AsyncRateLimitResult, next_message_id, evaluate_rate_limit_result,
  resolve_pending_sender,
}
use project_chat.Im.ImService.Pipeline.{
  PendingGroupMessageContext, PendingDirectMessageContext, RateCheck, WriteTask, Pipeline,
  check_group, check_direct,
}
use project_chat.Im.ImService.Messages.Silent.{refused_or_sent}
use project_chat.Im.ImService.Messages.{
  Oracle, is_accepted, submit_rate_limit_check, submit_write, submit_group_message_persistence,
  submit_direct_message_persistence, admit_group_message, admit_direct_message, start_message,
  answer_to, handle_group_message_async, handle_dm_async,
}
use project_chat.Im.ImService.Messages.Rechecked.{
  after_submit, complete_group_message_rate_limit, complete_direct_message_rate_limit,
}
use project_chat.Im.ImService.Messages.Admission.{
  IsPresent, GroupAsked, DirectAsked, CheckAsked, AllAsked, AllAsked-append, Allowed, Added, Grows,
  GroupAdmitted, DirectAdmitted, admit_group_message-Admitted, admit_direct_message-Admitted,
}

module _ {J : Type 0} (json : Json J) where
  -- A submission that is allowed for every id.
  submit_write-Grows :
      (p : Pipeline J) (o : Oracle) (there : Bool) (key : String) (task : ℕ → WriteTask J)
      → ((id : ℕ) → Allowed json p.service (task id))
      → Grows json p (submit_write json p o there key task).1
  unfolding submit_write
  submit_write-Grows p o there key task allowed =
      let s = p.service in
      let Good = λ (x : Option TaskSubmitResult × Pipeline J). Grows json p x.1 in
      if-cases Good (not s.wiring.message_executor || (not s.wiring.base_loop_poster || not there))
        (λ _. (inl refl, λ h. h))
        (λ _.
          if-cases Good (not s.accepting_async_messages) (λ _. (inl refl, λ h. h))
            (λ open_still.
              Option-both Good (next_message_id s.ids o.id_readings).0 (λ _. (inl refl, λ h. h))
                (λ id _. (
                  if-cases
                      (λ (l : List (String × WriteTask J)).
                        (l ≡ p.message_tasks) ⊎ Added json s p.message_tasks l)
                      (is_accepted o.message_answer)
                      (λ _. inr (record {
                        key = key;
                        task = task id;
                        added = refl;
                        accepting = ground arith;
                        allowed = allowed id;
                      }))
                      (λ _. inl refl),
                  λ h. h,
                ))))

  group_submitted-Grows :
      (p : Pipeline J) (o : Oracle) (c : PendingGroupMessageContext J)
      → IsPresent p.service c.connection c.sender_key c.sender_account_id
      → GroupManager.is_member p.service.groups c.group_id c.sender_account_id ≡ true
      → GroupAsked json c
      → Grows json p (submit_group_message_persistence json p o c).1
  unfolding submit_group_message_persistence
  group_submitted-Grows p o c present inside asked =
      submit_write-Grows p o _ _ _ (λ id. (present, inside, asked.0, asked.1))

  direct_submitted-Grows :
      (p : Pipeline J) (o : Oracle) (c : PendingDirectMessageContext J)
      → IsPresent p.service c.connection c.sender_key c.sender_account_id
      → DirectAsked json c
      → Grows json p (submit_direct_message_persistence json p o c).1
  unfolding submit_direct_message_persistence
  direct_submitted-Grows p o c present asked =
      submit_write-Grows p o _ _ _ (λ id. (present, asked.0, asked.1))

  submit_rate_limit_check-Grows :
      (p : Pipeline J) (o : Oracle) (a : String) (t : RateCheck J)
      → CheckAsked json t
      → Grows json p (submit_rate_limit_check json p o a t).1
  unfolding submit_rate_limit_check
  submit_rate_limit_check-Grows p o a t asked =
      let w = p.service.wiring in
      if-cases (λ (x : TaskSubmitResult × Pipeline J). Grows json p x.1)
        (not w.redis_executor || (not w.base_loop_poster || not w.rate_limiter))
        (λ _. (inl refl, λ h. h))
        (λ _. (
          inl refl,
          λ h.
              if-cases (AllAsked json) (is_accepted o.redis_answer)
                (λ _. AllAsked-append json p.redis_tasks _ h (asked, tt)) (λ _. h),
        ))

  answered-Grows :
      (p : Pipeline J) (req : Request J) (pipeline : String) (r : Option TaskSubmitResult)
      (q : Pipeline J)
      → Grows json p q
      → Grows json p (answer_to json req pipeline (r, q)).1
  answered-Grows p req pipeline none q h = h
  answered-Grows p req pipeline (some r) q h = h

  started-Grows :
      (p : Pipeline J) (o : Oracle) (req : Request J) (a : String) (t : RateCheck J)
      (out : Option TaskSubmitResult × Pipeline J)
      → CheckAsked json t
      → Grows json p out.1
      → Grows json p (start_message json p o req a t out).1
  unfolding start_message
  started-Grows p o req a t (r, q) asked h =
      let w = p.service.wiring in
      let Good = λ (x : Option (DispatchResult J) × Pipeline J). Grows json p x.1 in
      if-cases Good (not w.rate_limiter) (λ _. answered-Grows p req "message" r q h)
        (λ _.
          if-cases Good (not w.redis_executor) (λ _. (inl refl, λ h. h))
            (λ _.
              answered-Grows p req "redis" (some (submit_rate_limit_check json p o a t).0)
                (submit_rate_limit_check json p o a t).1
                (submit_rate_limit_check-Grows p o a t asked)))

  IsPresent-of :
      (s : ImService J) (key connection : ℕ) (session : Session) (c_connection c_key : ℕ)
      (account : String)
      → find_session s.sessions key ≡ some session
      → contains connection s.open_connections ≡ true
      → c_connection ≡ connection
      → c_key ≡ key
      → account ≡ session.account_id
      → IsPresent s c_connection c_key account
  IsPresent-of s key connection session c_connection c_key account found open_there e f g =
      rw (e, f, g)
        (record {
          open_connection = open_there;
          session = session;
          found = found;
          same_account = refl;
        })

  pub handle_group_message_async-Grows :
      (p : Pipeline J) (o : Oracle) (key connection : ℕ) (session : Session) (req : Request J)
      → find_session p.service.sessions key ≡ some session
      → Grows json p (handle_group_message_async json p o key connection session req).1
  unfolding handle_group_message_async
  handle_group_message_async-Grows p o key connection session req found =
      let s = p.service in
      let admitted = admit_group_message-Admitted json s key connection session req in
      Sum-both (λ (x : Option (DispatchResult J) × Pipeline J). Grows json p x.1)
        (admit_group_message json s key connection session req) (λ _ _. (inl refl, λ h. h))
        (λ c e.
          let h : GroupAdmitted json s key connection session (inr c) = rw e at admitted in
          started-Grows p o req session.account_id (check_group c)
            (submit_group_message_persistence json p o c) h.5
            (group_submitted-Grows p o c
              (IsPresent-of s key connection session c.connection c.sender_key c.sender_account_id
                found h.0 h.1 h.2 h.3)
              h.4 h.5))

  pub handle_dm_async-Grows :
      (p : Pipeline J) (o : Oracle) (key connection : ℕ) (session : Session) (req : Request J)
      → find_session p.service.sessions key ≡ some session
      → Grows json p (handle_dm_async json p o key connection session req).1
  unfolding handle_dm_async
  handle_dm_async-Grows p o key connection session req found =
      let s = p.service in
      let admitted = admit_direct_message-Admitted json s key connection session req in
      Sum-both (λ (x : Option (DispatchResult J) × Pipeline J). Grows json p x.1)
        (admit_direct_message json s key connection session req) (λ _ _. (inl refl, λ h. h))
        (λ c e.
          let h : DirectAdmitted json s key connection session (inr c) = rw e at admitted in
          started-Grows p o req session.account_id (check_direct c)
            (submit_direct_message_persistence json p o c) h.4
            (direct_submitted-Grows p o c
              (IsPresent-of s key connection session c.connection c.sender_key c.sender_account_id
                found h.0 h.1 h.2 h.3)
              h.4))

  after_submit-Grows :
      (p : Pipeline J) (o : Oracle) (connection key : ℕ) (a : String) (req : Request J)
      (out : Option TaskSubmitResult × Pipeline J)
      → Grows json p out.1
      → Grows json p (after_submit json o connection key a req out)
  unfolding after_submit
  after_submit-Grows p o connection key a req (none, q) h = h
  after_submit-Grows p o connection key a req (some r, q) h =
      if-cases (Grows json p) (is_accepted r) (λ _. h) (λ _. h)

  -- A sender that is resolved is present.
  abbrev PresentIf : ImService J → ℕ → ℕ → String → Option Session → Type 0
  PresentIf s connection key a none = Unit
  PresentIf s connection key a (some session) = IsPresent s connection key a

  resolve-PresentIf :
      (s : ImService J) (connection key : ℕ) (a : String)
      → PresentIf s connection key a (resolve_pending_sender json s connection key a)
  unfolding resolve_pending_sender
  resolve-PresentIf s connection key a =
      let P = PresentIf s connection key a in
      if-cases P (not (contains connection s.open_connections)) (λ _. tt)
        (λ open_there.
          Option-both P (find_session s.sessions key) (λ _. tt)
            (λ session found.
              if-cases P (session.account_id == a)
                (λ same. record {
                  open_connection = ground arith;
                  session = session;
                  found = found;
                  same_account = eq_sound session.account_id a same;
                })
                (λ _. tt)))

  resolved-IsPresent :
      (s : ImService J) (connection key : ℕ) (a : String) (session : Session)
      → resolve_pending_sender json s connection key a ≡ some session
      → IsPresent s connection key a
  resolved-IsPresent s connection key a session e =
      let h = resolve-PresentIf s connection key a in rw e at h

  pub complete_group_message_rate_limit-Grows :
      (p : Pipeline J) (o : Oracle) (c : PendingGroupMessageContext J)
      (result : AsyncRateLimitResult)
      → GroupAsked json c
      → Grows json p (complete_group_message_rate_limit json p o c result)
  unfolding complete_group_message_rate_limit
  complete_group_message_rate_limit-Grows p o c result asked =
      let s = p.service in
      Option-both (Grows json p)
        (resolve_pending_sender json s c.connection c.sender_key c.sender_account_id)
        (λ _. (inl refl, λ h. h))
        (λ session there.
          if-cases (Grows json p) (not s.accepting_async_messages) (λ _. (inl refl, λ h. h))
            (λ _.
              refused_or_sent (Grows json p) (evaluate_rate_limit_result json s c.request result)
                (λ _ _. (inl refl, λ h. h))
                (if-cases (Grows json p)
                  (not (GroupManager.is_member s.groups c.group_id c.sender_account_id))
                  (λ _. (inl refl, λ h. h))
                  (λ inside.
                    after_submit-Grows p o c.connection c.sender_key c.sender_account_id c.request
                      (submit_group_message_persistence json p o c)
                      (group_submitted-Grows p o c
                        (resolved-IsPresent s c.connection c.sender_key c.sender_account_id session
                          there)
                        (ground arith) asked)))))

  pub complete_direct_message_rate_limit-Grows :
      (p : Pipeline J) (o : Oracle) (c : PendingDirectMessageContext J)
      (result : AsyncRateLimitResult)
      → DirectAsked json c
      → Grows json p (complete_direct_message_rate_limit json p o c result)
  unfolding complete_direct_message_rate_limit
  complete_direct_message_rate_limit-Grows p o c result asked =
      let s = p.service in
      Option-both (Grows json p)
        (resolve_pending_sender json s c.connection c.sender_key c.sender_account_id)
        (λ _. (inl refl, λ h. h))
        (λ session there.
          if-cases (Grows json p) (not s.accepting_async_messages) (λ _. (inl refl, λ h. h))
            (λ _.
              refused_or_sent (Grows json p) (evaluate_rate_limit_result json s c.request result)
                (λ _ _. (inl refl, λ h. h))
                (after_submit-Grows p o c.connection c.sender_key c.sender_account_id c.request
                  (submit_direct_message_persistence json p o c)
                  (direct_submitted-Grows p o c
                    (resolved-IsPresent s c.connection c.sender_key c.sender_account_id session
                      there)
                    asked))))
