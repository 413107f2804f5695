-- ===== src/Im/ImService/Messages/Admission.antt =====
-- What has to hold when the write of a message is handed to the message executor.
use project_chat.Common.{
  ℕ, String, ◌≡◌, refl, Bool, true, false, not, ◌||◌, some, List, [], ◌∷◌, ◌++◌, arith, ◌⊎◌, inl,
  inr, nat_key, string_key, is_empty,
}
use project_chat.Common.KeySet.{contains}
use project_chat.Im.Json.{Json}
use project_chat.Im.ImMessage.{Request, Response}
use project_chat.Im.GroupManager
use project_chat.Im.SessionManager.{Session, find_session}
use project_chat.Im.ImService.{ImService, guard_in_group, get_string_field, refuse_if, ◌>>=◌}
use project_chat.Im.ImService.Pipeline.{
  PendingGroupMessageContext, PendingDirectMessageContext, WriteTask, write_group, write_direct,
  Pipeline, RateCheck, check_group, check_direct,
}
use project_chat.Im.ImService.Messages.{admit_group_message, admit_direct_message}

-- The sender's connection is open, and the session under its key has the sender's account.
pub record IsPresent {J : Type 0} (s : ImService J) (connection key : ℕ) (account_id : String)
    : Type 0 where
  pub open_connection : contains connection s.open_connections ≡ true
  pub session : Session
  pub found : find_session s.sessions key ≡ some session
  pub same_account : session.account_id ≡ account_id

module _ {J : Type 0} (json : Json J) where
  -- The text of a field of a request.
  abbrev pub text_of : Request J → String → String
  text_of req field = json.tested_string (json.at req.body field)

  -- What a context carries is what its request asks for.
  abbrev pub GroupAsked : PendingGroupMessageContext J → Type 0
  GroupAsked c =
      (c.group_id ≡ text_of c.request "groupId") × (c.content ≡ text_of c.request "content")

  abbrev pub DirectAsked : PendingDirectMessageContext J → Type 0
  DirectAsked c = (c.receiver_account_id ≡ c.request.to) × (c.content ≡ text_of c.request "content")

  abbrev pub CheckAsked : RateCheck J → Type 0
  CheckAsked (check_group c) = GroupAsked c
  CheckAsked (check_direct c) = DirectAsked c

  abbrev pub AllAsked : List (String × RateCheck J) → Type 0
  AllAsked [] = Unit
  AllAsked ((key, t) ∷ ts) = CheckAsked t × AllAsked ts

  -- The sender of a group message is a member of the group; what is written is what the request
  -- asks for, under the sender's account.
  abbrev pub Allowed : ImService J → WriteTask J → Type 0
  Allowed s (write_group c m) =
      IsPresent s c.connection c.sender_key m.sender_account_id
      × (GroupManager.is_member s.groups m.group_id m.sender_account_id ≡ true)
      × (m.group_id ≡ text_of c.request "groupId")
      × (m.content ≡ text_of c.request "content")
  Allowed s (write_direct c m) =
      IsPresent s c.connection c.sender_key m.sender_account_id
      × (m.receiver_account_id ≡ c.request.to)
      × (m.content ≡ text_of c.request "content")

  -- The tasks of the message executor are as before, or one more that is allowed, of a service
  -- that accepts messages.
  pub record Added (s : ImService J) (old new : List (String × WriteTask J)) : Type 0 where
    pub key : String
    pub task : WriteTask J
    pub added : new ≡ old ++ ((key, task) ∷ [])
    pub accepting : s.accepting_async_messages ≡ true
    pub allowed : Allowed s task

  abbrev pub Grows : Pipeline J → Pipeline J → Type 0
  Grows p q =
      ((q.message_tasks ≡ p.message_tasks) ⊎ Added p.service p.message_tasks q.message_tasks)
      × (AllAsked p.redis_tasks → AllAsked q.redis_tasks)

  pub AllAsked-append :
      (ts us : List (String × RateCheck J)) → AllAsked ts → AllAsked us → AllAsked (ts ++ us)
  AllAsked-append [] us a b = b
  AllAsked-append (t ∷ ts) us a b = (a.0, AllAsked-append ts us a.1 b)

-- A step of a chain of checks.
checked_then {ℓ} :
    {R : Type 0} {A : Type 0} {B : Type 0} (P : R ⊎ B → Type ℓ) (m : R ⊎ A) (f : A → R ⊎ B)
    → ((r : R) → P (inl r))
    → ((a : A) → m ≡ inr a → P (f a))
    → P (m >>= f)
unfolding ◌>>=◌
checked_then P (inl r) f h k = h r
checked_then P (inr a) f h k = k a refl

not_refused : {R : Type 0} (b : Bool) (r : R) (u : Unit {0}) → refuse_if b r ≡ inr u → b ≡ false
not_refused true r u h = cc
not_refused false r u h = refl

module _ {J : Type 0} (json : Json J) where
  guard_in_group-member :
      (s : ImService J) (req : Request J) (session : Session) (g : String) (u : Unit {0})
      → guard_in_group json s req session g ≡ inr u
      → GroupManager.is_member s.groups g session.account_id ≡ true
  unfolding guard_in_group
  guard_in_group-member s req session g u h =
      let e =
        not_refused (is_empty g || not (GroupManager.is_member s.groups g session.account_id)) _ u
          h in
      ground arith

  -- A field that is read is the text of the field.
  abbrev ReadAs : Request J → String → Response J ⊎ String → Type 0
  ReadAs req field (inl r) = Unit
  ReadAs req field (inr t) = t ≡ text_of json req field

  read_as :
      (req : Request J) (field t : String)
      → get_string_field json req field ≡ inr t
      → t ≡ text_of json req field
  unfolding get_string_field
  read_as req field t e =
      let P = ReadAs req field in
      let h : P (get_string_field json req field) =
        checked_then P _ _ (λ _. tt)
          (λ _ _.
            checked_then P _ _ (λ _. tt) (λ _ _. checked_then P _ _ (λ _. tt) (λ _ _. refl))) in
      rw e at h

  is_there :
      (connection : ℕ) (s : ImService J) (r : Response J) (u : Unit {0})
      → refuse_if (not (contains connection s.open_connections)) r ≡ inr u
      → contains connection s.open_connections ≡ true
  is_there connection s r u h =
      let e = not_refused (not (contains connection s.open_connections)) r u h in ground arith

  -- What is admitted.
  abbrev pub GroupAdmitted :
      ImService J → ℕ → ℕ → Session → Response J ⊎ PendingGroupMessageContext J → Type 0
  GroupAdmitted s key connection session (inl r) = Unit
  GroupAdmitted s key connection session (inr c) =
      (contains connection s.open_connections ≡ true)
      × (c.connection ≡ connection)
      × (c.sender_key ≡ key)
      × (c.sender_account_id ≡ session.account_id)
      × (GroupManager.is_member s.groups c.group_id c.sender_account_id ≡ true)
      × GroupAsked json c

  pub admit_group_message-Admitted :
      (s : ImService J) (key connection : ℕ) (session : Session) (req : Request J)
      → GroupAdmitted s key connection session
          (admit_group_message json s key connection session req)
  unfolding admit_group_message
  admit_group_message-Admitted s key connection session req =
      let P = GroupAdmitted s key connection session in
      checked_then P _ _ (λ _. tt)
        (λ _ _.
          checked_then P _ _ (λ _. tt)
            (λ _ _.
              checked_then P _ _ (λ _. tt)
                (λ _ _.
                  checked_then P _ _ (λ _. tt)
                    (λ u open_there.
                      checked_then P _ _ (λ _. tt)
                        (λ _ _.
                          checked_then P _ _ (λ _. tt)
                            (λ g given.
                              checked_then P _ _ (λ _. tt)
                                (λ v inside.
                                  checked_then P _ _ (λ _. tt)
                                    (λ content written.
                                      checked_then P _ _ (λ _. tt)
                                        (λ _ _. (
                                          is_there connection s _ u open_there,
                                          refl,
                                          refl,
                                          refl,
                                          guard_in_group-member s req session g v inside,
                                          (
                                            read_as req "groupId" g given,
                                            read_as req "content" content written,
                                          ),
                                        ))))))))))

  abbrev pub DirectAdmitted :
      ImService J → ℕ → ℕ → Session → Response J ⊎ PendingDirectMessageContext J → Type 0
  DirectAdmitted s key connection session (inl r) = Unit
  DirectAdmitted s key connection session (inr c) =
      (contains connection s.open_connections ≡ true)
      × (c.connection ≡ connection)
      × (c.sender_key ≡ key)
      × (c.sender_account_id ≡ session.account_id)
      × DirectAsked json c

  pub admit_direct_message-Admitted :
      (s : ImService J) (key connection : ℕ) (session : Session) (req : Request J)
      → DirectAdmitted s key connection session
          (admit_direct_message json s key connection session req)
  unfolding admit_direct_message
  admit_direct_message-Admitted s key connection session req =
      let P = DirectAdmitted s key connection session in
      checked_then P _ _ (λ _. tt)
        (λ _ _.
          checked_then P _ _ (λ _. tt)
            (λ _ _.
              checked_then P _ _ (λ _. tt)
                (λ _ _.
                  checked_then P _ _ (λ _. tt)
                    (λ u open_there.
                      checked_then P _ _ (λ _. tt)
                        (λ _ _.
                          checked_then P _ _ (λ _. tt)
                            (λ content written.
                              checked_then P _ _ (λ _. tt)
                                (λ _ _. (
                                  is_there connection s _ u open_there,
                                  refl,
                                  refl,
                                  refl,
                                  (refl, read_as req "content" content written),
                                ))))))))
