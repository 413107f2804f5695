-- ===== src/Im/ImService/Groups/Joining.antt =====
-- src/im/ImService.cpp: the handler of a leave.
use project_chat.Common.{
  ℕ, String, Bool, true, false, not, Option, none, some, [], ◌∷◌, if◌then◌else◌, string_key, ◌⊎◌,
  inl, inr,
}
use project_chat.Common.KeySet
use project_chat.Common.KeySet.{KeySet, insert}
use project_chat.Storage.Results.{RepoStatus, is_ok, not_found}
use project_chat.Storage.Repos.{GroupRepo}
use project_chat.Im.Json.{Json}
use project_chat.Im.MsgType.{group_event_push, leave_group_resp}
use project_chat.Im.ErrorCode
use project_chat.Im.ImMessage.{Request, Response}
use project_chat.Im.ImCodec.{make_err, make_ok}
use project_chat.Im.GroupManager
use project_chat.Im.GroupManager.{GroupManager, QuitResult, ok_left, err_not_in_group, is_owner}
use project_chat.Im.SessionManager.{SessionManager, Session, change_joined}
use project_chat.Im.ImService.{guard_authenticated, get_string_field, ◌>>◌, make_repo_error}
use project_chat.Im.ImService.Groups.{Served, Sends, Answer, announce}

-- What a removal may answer without undoing the leave.
abbrev pub is_gone : RepoStatus → Bool
is_gone not_found = true
is_gone s = is_ok s

-- A change to the groups of the session under a key.
pub change_own : (KeySet String → KeySet String) → ℕ → SessionManager → SessionManager
change_own change key m = record m { sessions = (change_joined change (key ∷ []) 0 m.sessions).1 }

-- The removal from the database of one who has left in memory, given when the repositories are
-- there; it undoes the leave when it fails. The text is the refusal.
unfoldable pub remove_left :
    {J : Type 0} {D : Type 0}
    → Option (GroupRepo D)
    → Served J D
    → ℕ
    → String
    → String
    → Option RepoStatus × Served J D
remove_left none x key group_id account_id = (none, x)
remove_left (some repo) x key group_id account_id =
    let (result, database) = repo.remove_member x.database group_id account_id in
    let (joined, memory) = GroupManager.join_group x.service.groups group_id account_id in
    if is_gone result.status then (none, record x { database = database }) else (
      some result.status,
      record {
        service = record x.service {
          groups = memory;
          sessions = change_own (insert group_id) key x.service.sessions;
        };
        database = database;
      },
    )

module _ {J : Type 0} (json : Json J) where
  unfoldable pub read_group : Request J → Session → Response J ⊎ String
  read_group req session = do
    guard_authenticated json req session
    get_string_field json req "groupId"

  -- The answers to a leave.
  pub leave_answer : Request J → String → Bool → Response J
  leave_answer req group_id left = make_ok json req leave_group_resp (
      json.object (
        ("groupId", json.text group_id)
        ∷ ("left", json.boolean left)
        ∷ ("alreadyLeft", json.boolean (not left))
        ∷ []))

  module _ {D : Type 0} where
    -- From the leave in memory on, with the broadcast of `dispatchRequest` when the answer has
    -- `left`.
    unfoldable pub leave_group :
        Option (GroupRepo D) → Served J D → Sends → ℕ → Session → Request J → String → Answer J D
    leave_group repo x o key session req group_id =
        let (quit, memory) =
          GroupManager.leave_group x.service.groups group_id session.account_id in
        let out : SessionManager = change_own (KeySet.erase group_id) key x.service.sessions in
        let gone : Served J D = record x {
          service = record x.service { groups = memory; sessions = out };
        } in
        let (failed, after) = remove_left repo gone key group_id session.account_id in
        elim quit [
          | QuitResult.err_no_such_group ↦
              (some (make_err json req ErrorCode.no_such_group "No such group"), x)
          | err_not_in_group ↦ (
            some (leave_answer req group_id false),
            record x { service = record x.service { sessions = out } },
          )
          | ok_left ↦ elim failed [
            | some status ↦
                (some (make_repo_error json req status "Failed to remove group member"), after)
            | none ↦
                announce json after o 0 group_id key
                  (make_ok json req group_event_push (
                    json.object (
                      ("event", json.text "leave")
                      ∷ ("accountId", json.text session.account_id)
                      ∷ ("username", json.text session.username)
                      ∷ ("groupId", json.text group_id)
                      ∷ [])))
                  (λ b. leave_answer req group_id true)
          ]
        ]

    unfoldable pub handle_leave :
        Option (GroupRepo D) → Served J D → Sends → ℕ → Session → Request J → Answer J D
    handle_leave repo x o key session req = elim (read_group req session) [
      | inl resp ↦ (some resp, x)
      | inr group_id ↦
          if is_owner x.service.groups group_id session.account_id
          then (
            some (make_err json req ErrorCode.owner_cannot_leave "owner can not leave the group"),
            x,
          )
          else leave_group repo x o key session req group_id
    ]
