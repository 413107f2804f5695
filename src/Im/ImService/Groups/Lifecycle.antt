-- ===== src/Im/ImService/Groups/Lifecycle.antt =====
-- src/im/ImService.cpp: the handlers that change who is in a group: invitation, dissolution and
-- creation.
use Prim.Native.String.{len}
use project_chat.Common.{
  ℕ, ◌+◌, String, Bool, true, false, not, Option, none, some, List, [], ◌∷◌, length, ltb, eqb,
  if◌then◌else◌, string_key, ◌⊎◌, inl, inr,
}
use project_chat.Common.KeySet.{insert}
use project_chat.Storage.Results.{RepoValueResult, is_ok}
use project_chat.Im.Json.{Json}
use project_chat.Im.MsgType.{create_group_resp, invite_group_member_resp, dissolve_group_resp}
use project_chat.Im.ErrorCode.{ErrorCode}
use project_chat.Im.ImMessage.{Request, Response}
use project_chat.Im.ImCodec.{make_err, make_ok}
use project_chat.Im.SessionManager.{
  SessionManager, Session, change_joined, add_joined_group, remove_joined_group_for_accounts,
  conn_keys_by_account_id,
}
use project_chat.Im.GroupService.{
  GroupService, GroupInviteResult, GroupDissolveResult, GroupCreateResult,
}
use project_chat.Im.GroupService.Lifecycle.{create_group, invite_member}
use project_chat.Im.GroupService.Ending.{dissolve_group}
use project_chat.Im.ImService.{
  ImService, Stamp, guard_authenticated, get_string_field, refuse_if, ◌>>=◌, ◌>>◌, make_repo_error,
  ImConfig,
}
use project_chat.Im.ImService.Pushes.{push_to_account, decorate}
use project_chat.Im.ImService.Groups.{
  Served, Sends, Target, Answer, world, with_world, group_event, announce, group_service,
  admit_change,
}

module _ {J : Type 0} (json : Json J) where
  -- The answer to an invitation.
  pub invited_answer : Request J → Target → Bool → Response J
  invited_answer req t already_in = make_ok json req invite_group_member_resp (
      json.object (
        ("groupId", json.text t.group_id)
        ∷ ("targetAccountId", json.text t.target_account_id)
        ∷ ("joined", json.boolean (not already_in))
        ∷ ("alreadyIn", json.boolean already_in)
        ∷ []))

  -- What a push to an account makes of the event, which it decorates in place.
  pub decorated_event : ImService J → String → Response J → Stamp → Response J
  decorated_event s account_id event stamp =
      if eqb (length (conn_keys_by_account_id s.sessions account_id)) 0
      then event
      else elim (decorate json s.ids stamp event none none).0 [ none ↦ event | some r ↦ r ]

  -- The loop of pushes, from the one with the given number on; `false` is an exception.
  unfoldable pub push_to_all :
      ImService J → Sends → ℕ → Response J → List String → Bool × ImService J
  push_to_all s o i event [] = (true, s)
  push_to_all s o i event (account_id ∷ rest) =
      let (pushed, s') = push_to_account json s account_id event (o.stamp i) (o.answer i) in
      let decorated : Response J = decorated_event s account_id event (o.stamp i) in
      let all : Bool × ImService J = push_to_all s' o (i + 1) decorated rest in
      elim pushed [ none ↦ (false, s') | some b ↦ all ]

  module _ {D : Type 0} where
    -- From the result of an invitation on.
    unfoldable pub announce_invitation :
        Served J D → Sends → ℕ → Session → Request J → Target → GroupInviteResult → Answer J D
    announce_invitation x o key session req t r =
        let s : ImService J = record x.service {
          sessions = (add_joined_group x.service.sessions t.target_account_id t.group_id).1;
        } in
        let reply : Response J = invited_answer req t r.already_in in
        if r.joined
        then announce json (record x { service = s }) o 0 t.group_id key
            (group_event json "member_invired" (
              ("event", json.text "member_invited")
              ∷ ("groupId", json.text t.group_id)
              ∷ ("operatorAccountId", json.text session.account_id)
              ∷ ("targetAccountId", json.text t.target_account_id)
              ∷ []))
            (λ b. reply)
        else (some reply, x)

    -- From the result of a dissolution on.
    unfoldable pub announce_dissolution :
        Served J D → Sends → Session → Request J → String → GroupDissolveResult → Answer J D
    announce_dissolution x o session req group_id r =
        let event : Response J = group_event json "group dissolved" (
          ("event", json.text "group_dissolved")
          ∷ ("groupId", json.text group_id)
          ∷ ("operatorAccountId", json.text session.account_id)
          ∷ []) in
        let (pushed, s) = push_to_all x.service o 0 event r.affected_account_ids in
        let left = remove_joined_group_for_accounts s.sessions r.affected_account_ids group_id in
        if r.already_dissolved
        then (
          some (
              make_ok json req dissolve_group_resp (
                json.object (
                  ("groupId", json.text group_id)
                  ∷ ("dissolved", json.boolean false)
                  ∷ ("alreadyDissolved", json.boolean true)
                  ∷ []))),
          x,
        )
        else if not pushed
        then (none, record x { service = s })
        else (
          some (
              make_ok json req dissolve_group_resp (
                json.object (
                  ("groupId", json.text group_id)
                  ∷ ("operatorAccountId", json.text session.account_id)
                  ∷ ("dissolved", json.boolean true)
                  ∷ ("alreadyDissolved", json.boolean false)
                  ∷ ("affectedMembers", json.number (length r.affected_account_ids))
                  ∷ []))),
          record x { service = record s { sessions = left.1 } },
        )

    -- From the result of a creation on; the session under the key joins the group.
    unfoldable pub created_answer :
        Served J D
        → ℕ
        → Session
        → Request J
        → String
        → RepoValueResult GroupCreateResult
        → Answer J D
    created_answer x key session req group_name result =
        if not (is_ok result.status)
        then (some (make_repo_error json req result.status result.message), x)
        else elim result.value [
          | none ↦ (some (make_err json req ErrorCode.internal "value invalid"), x)
          | some r ↦
              let joined =
                change_joined (insert r.group_id) (key ∷ []) 0 x.service.sessions.sessions in
              let sessions : SessionManager = record x.service.sessions { sessions = joined.1 } in
              (
                some (
                    make_ok json req create_group_resp (
                      json.object (
                        ("groupId", json.text r.group_id)
                        ∷ ("groupName", json.text group_name)
                        ∷ ("ownerAccountId", json.text session.account_id)
                        ∷ ("ownerUsername", json.text session.username)
                        ∷ []))),
                record x { service = record x.service { sessions = sessions } },
              )
        ]

  module _ {D : Type 0} (groups : Option (GroupService D)) where
    unfoldable pub handle_invite_group_member :
        Served J D → Sends → ℕ → Session → Request J → Answer J D
    handle_invite_group_member x o key session req = elim (admit_change json groups req session) [
      | inl resp ↦ (some resp, x)
      | inr (g, t) ↦
          let (result, w) =
            invite_member g (world x) t.group_id session.account_id t.target_account_id in
          if not (is_ok result.status)
          then (some (make_repo_error json req result.status result.message), with_world x w)
          else elim result.value [
            | none ↦ (
              some (make_err json req ErrorCode.internal "groupInviteResult value is empty"),
              with_world x w,
            )
            | some r ↦ announce_invitation (with_world x w) o key session req t r
          ]
    ]

    unfoldable pub admit_dissolution : Request J → Session → Response J ⊎ (GroupService D × String)
    admit_dissolution req session = do
      guard_authenticated json req session
      group_id ← get_string_field json req "groupId"
      g ← group_service json groups req
      inr (g, group_id)

    unfoldable pub handle_dissolve_group : Served J D → Sends → ℕ → Session → Request J → Answer J D
    handle_dissolve_group x o now_ms session req = elim (admit_dissolution req session) [
      | inl resp ↦ (some resp, x)
      | inr (g, group_id) ↦
          let (result, w) = dissolve_group g (world x) group_id session.account_id now_ms in
          if not (is_ok result.status)
          then (some (make_repo_error json req result.status result.message), with_world x w)
          else elim result.value [
            | none ↦ (
              some (make_err json req ErrorCode.internal "groupDissolveResult value is empty"),
              with_world x w,
            )
            | some r ↦ announce_dissolution (with_world x w) o session req group_id r
          ]
    ]

    unfoldable pub admit_creation :
        ImConfig → Request J → Session → Response J ⊎ (GroupService D × String)
    admit_creation config req session = do
      guard_authenticated json req session
      group_name ← get_string_field json req "groupName"
      refuse_if (ltb config.max_group_name_len (len group_name))
          (make_err json req ErrorCode.group_name_invalid "Group name is too long")
      g ← group_service json groups req
      inr (g, group_name)

    -- `readings` are those of the generator; `to_string` prints an id.
    unfoldable pub handle_create_group :
        (ℕ → String) → Served J D → List ℕ → ℕ → Session → Request J → Answer J D
    handle_create_group to_string x readings key session req =
        elim (admit_creation x.service.config req session) [
          | inl resp ↦ (some resp, x)
          | inr (g, group_name) ↦
              let (result, w) =
                create_group g to_string (world x) session.account_id group_name readings in
              elim result [
                | none ↦ (none, with_world x w)
                | some r ↦ created_answer (with_world x w) key session req group_name r
              ]
        ]
