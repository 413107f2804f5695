-- ===== src/Im/ImService/Groups.antt =====
-- src/im/ImService.cpp: the nine handlers of requests that change a group or ask to join one. The
-- database is beside the service. `Sends` has, for each of the pushes of a handler in turn, the
-- readings of the clock and what the batch sender answers. A result of `none` is an exception.
pub mod Lifecycle
pub mod Joining
pub mod Reviewing
pub mod Guarded
pub mod Requests
pub mod Refused
pub mod Kept
use Prim.Native.String.{◌++◌ as ◌<>◌}
use project_chat.Common.{
  ℕ, ◌+◌, String, Bool, true, not, ◌&&◌, ◌||◌, Option, none, some, List, [], ◌∷◌, if◌then◌else◌,
  ◌==◌, string_key, ◌⊎◌, inl, inr,
}
use project_chat.Storage.Results.{is_ok}
use project_chat.Net.Batch.{BatchSendResult}
use project_chat.Im.Json.{Json}
use project_chat.Im.MsgType.{
  group_event_push, kick_group_member_resp, set_group_admin_resp, transfer_group_owner_resp,
}
use project_chat.Im.ErrorCode
use project_chat.Im.ErrorCode.{ErrorCode}
use project_chat.Im.ImMessage.{Request, Response}
use project_chat.Im.ImCodec.{make_err, make_ok}
use project_chat.Im.SessionManager.{Session, remove_joined_group}
use project_chat.Im.GroupService.{GroupService, World}
use project_chat.Im.GroupService.Membership.{kick_member, set_admin, transfer_owner}
use project_chat.Im.ImService.{
  ImService, Stamp, guard_authenticated, get_string_field, refuse_if, ◌>>=◌, ◌>>◌, make_repo_error,
}
use project_chat.Im.ImService.Pushes.{push_to_account, broadcast_to_group}

pub record Served (J : Type 0) (D : Type 0) : Type 0 where
  pub service : ImService J
  pub database : D

pub record Sends : Type 0 where
  pub stamp : ℕ → Stamp
  pub answer : ℕ → BatchSendResult

-- The group, and the account the request is about.
pub record Target : Type 0 where
  pub group_id : String
  pub target_account_id : String

-- What a handler comes to: the answer, and the service and the database after it.
abbrev pub Answer : Type 0 → Type 0 → Type 0
Answer J D = Option (Response J) × Served J D

abbrev pub world : {J : Type 0} {D : Type 0} → Served J D → World D
world x = record { database = x.database; memory = x.service.groups; ids = x.service.ids }

abbrev pub with_world : {J : Type 0} {D : Type 0} → Served J D → World D → Served J D
with_world x w = record {
  service = record x.service { groups = w.memory; ids = w.ids };
  database = w.database;
}

module _ {J : Type 0} (json : Json J) where
  -- A push about a group.
  pub group_event : String → List (String × J) → Response J
  group_event text fields = record {
    ver = 1;
    req_id = 0;
    type = group_event_push;
    ok = true;
    code = ErrorCode.ok;
    msg = text;
    answer = json.object fields;
  }

  -- The fields of an answer that say how the broadcast went.
  abbrev pub fanout : BatchSendResult → List (String × J)
  fanout b =
      ("sent", json.number b.sent)
      ∷ ("closed", json.number b.closed_connections)
      ∷ ("noSuchConnection", json.number b.no_such_connections)
      ∷ []

  pub read_target : Request J → Session → Response J ⊎ Target
  read_target req session = do
    guard_authenticated json req session
    group_id ← get_string_field json req "groupId"
    target_account_id ← get_string_field json req "targetAccountId"
    inr (record { group_id = group_id; target_account_id = target_account_id })

  -- `enable`, from its test on.
  pub read_enable : Request J → Response J ⊎ Bool
  read_enable req = do
    refuse_if
        (not (json.contains req.body "enable") || not (json.is_boolean (json.at req.body "enable")))
        (make_err json req ErrorCode.bad_request "invalid enable")
    inr (json.tested_bool (json.at req.body "enable"))

  module _ {D : Type 0} where
    -- A broadcast, and the answer to the request.
    pub announce :
        Served J D
        → Sends
        → ℕ
        → String
        → ℕ
        → Response J
        → (BatchSendResult → Response J)
        → Answer J D
    announce x o i group_id key event reply =
        let (result, s) =
          broadcast_to_group json x.service group_id key event (o.stamp i) (o.answer i) in
        let after : Served J D = record x { service = s } in
        elim result [ none ↦ (none, after) | some b ↦ (some (reply b), after) ]

    -- After the kick: the sessions of the target, the push to it, and the broadcast.
    pub announce_kick : Served J D → Sends → ℕ → Session → Request J → Target → Answer J D
    announce_kick x o key session req t =
        let fields : String → List (String × J) = λ event.
          ("event", json.text event)
          ∷ ("groupId", json.text t.group_id)
          ∷ ("operatorAccountId", json.text session.account_id)
          ∷ ("targetAccountId", json.text t.target_account_id)
          ∷ [] in
        let s : ImService J = record x.service {
          sessions = (remove_joined_group x.service.sessions t.target_account_id t.group_id).1;
        } in
        let (pushed, s') =
          push_to_account json s t.target_account_id
            (group_event "you have been kicked from the group" (fields "be kicked")) (o.stamp 0)
            (o.answer 0) in
        elim pushed [
          | none ↦ (none, record x { service = s' })
          | some b ↦
              announce (record x { service = s' }) o 1 t.group_id key
                (group_event (t.target_account_id <> " have been kicked from the group")
                  (fields "member_removed"))
                (λ b. make_ok json req kick_group_member_resp (
                  json.object (
                    ("groupId", json.text t.group_id)
                    ∷ ("targetAccountId", json.text t.target_account_id)
                    ∷ ("removed", json.boolean true)
                    ∷ fanout b)))
        ]

  module _ {D : Type 0} (groups : Option (GroupService D)) where
    -- `if(!groupService_)`
    pub group_service : Request J → Response J ⊎ GroupService D
    group_service req = elim groups [
      | none ↦ inl (make_err json req ErrorCode.internal "groupService is not avaiable")
      | some g ↦ inr g
    ]

    pub admit_kick : Request J → Session → Response J ⊎ (GroupService D × Target)
    admit_kick req session = do
      t ← read_target req session
      refuse_if (t.target_account_id == session.account_id)
          (make_err json req ErrorCode.cannot_kick_self "You cannot kick yourself")
      g ← group_service req
      inr (g, t)

    pub handle_kick_group_member : Served J D → Sends → ℕ → Session → Request J → Answer J D
    handle_kick_group_member x o key session req = elim (admit_kick req session) [
      | inl resp ↦ (some resp, x)
      | inr (g, t) ↦
          let (result, w) =
            kick_member g (world x) t.group_id session.account_id t.target_account_id in
          if not (is_ok result.status)
          then (some (make_repo_error json req result.status result.message), with_world x w)
          else announce_kick (with_world x w) o key session req t
    ]

    pub admit_set_admin : Request J → Session → Response J ⊎ (GroupService D × Target × Bool)
    admit_set_admin req session = do
      t ← read_target req session
      enable ← read_enable req
      g ← group_service req
      inr (g, t, enable)

    pub handle_set_group_admin : Served J D → Sends → ℕ → Session → Request J → Answer J D
    handle_set_group_admin x o key session req = elim (admit_set_admin req session) [
      | inl resp ↦ (some resp, x)
      | inr (g, t, enable) ↦
          let (result, w) =
            set_admin g (world x) t.group_id session.account_id t.target_account_id enable in
          let about : List (String × J) → List (String × J) = λ rest.
            ("groupId", json.text t.group_id)
            ∷ ("operatorAccountId", json.text session.account_id)
            ∷ ("targetAccountId", json.text t.target_account_id)
            ∷ ("enable", json.boolean enable)
            ∷ rest in
          if not (is_ok result.status)
          then (some (make_repo_error json req result.status result.message), with_world x w)
          else announce (with_world x w) o 0 t.group_id key
              (group_event "group admin changed"
                (("event", json.text "group admin changed") ∷ about []))
              (λ b. make_ok json req set_group_admin_resp (json.object (about (fanout b))))
    ]

    pub admit_change : Request J → Session → Response J ⊎ (GroupService D × Target)
    admit_change req session = do t ← read_target req session; g ← group_service req; inr (g, t)

    pub handle_transfer_group_owner : Served J D → Sends → ℕ → Session → Request J → Answer J D
    handle_transfer_group_owner x o key session req = elim (admit_change req session) [
      | inl resp ↦ (some resp, x)
      | inr (g, t) ↦
          let (result, w) =
            transfer_owner g (world x) t.group_id session.account_id t.target_account_id in
          if not (is_ok result.status)
          then (some (make_repo_error json req result.status result.message), with_world x w)
          else announce (with_world x w) o 0 t.group_id key
              (group_event "group owner changed" (
                ("event", json.text "group owner changed")
                ∷ ("groupId", json.text t.group_id)
                ∷ ("operatorAccountId", json.text session.account_id)
                ∷ ("targetAccountId", json.text t.target_account_id)
                ∷ []))
              (λ b. make_ok json req transfer_group_owner_resp (
                json.object (
                  ("groupId", json.text t.group_id)
                  ∷ ("oldOwner", json.text session.account_id)
                  ∷ ("newOwner", json.text t.target_account_id)
                  ∷ fanout b)))
    ]
