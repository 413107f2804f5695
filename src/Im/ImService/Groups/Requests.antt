-- ===== src/Im/ImService/Groups/Requests.antt =====
-- src/im/ImService.cpp, `dispatchRequest`: its cases of a kick, an appointment, a transfer, an
-- invitation, a dissolution, a creation, a leave, a request to join and its review. The cases that
-- only read, of the members, lists, searches and the history, are left out.
use project_chat.Common.{ℕ, String, Option, List}
use project_chat.Im.Json.{Json}
use project_chat.Im.ImMessage.{Request}
use project_chat.Im.SessionManager.{Session}
use project_chat.Storage.Repos.{GroupRepo}
use project_chat.Im.GroupService.{GroupService}
use project_chat.Im.GroupJoinService.{GroupJoinService}
use project_chat.Im.ImService.Groups.Joining.{handle_leave}
use project_chat.Im.ImService.Groups.Reviewing.{handle_apply_group_join, handle_review_group_join}
use project_chat.Im.ImService.Groups.{
  Served, Sends, Answer, handle_kick_group_member, handle_set_group_admin,
  handle_transfer_group_owner,
}
use project_chat.Im.ImService.Groups.Lifecycle.{
  handle_invite_group_member, handle_dissolve_group, handle_create_group,
}

-- Which handler the type of the request leads to, with the clock or the readings it takes.
pub data Kind : Type 0 where
  kick appoint transfer invite : Kind
  dissolve : ℕ → Kind
  create : List ℕ → Kind
  leave : Kind
  apply review : ℕ → Kind

-- The services that are there, and how an id is printed.
pub record Services (D : Type 0) : Type 0 where
  pub groups : Option (GroupService D)
  pub joins : Option (GroupJoinService D)
  pub group_repo : Option (GroupRepo D)
  pub print_id : ℕ → String

module _ {J : Type 0} {D : Type 0} (json : Json J) (v : Services D) where
  unfoldable pub handle : Served J D → Sends → ℕ → Session → Request J → Kind → Answer J D
  handle x o key session req kick = handle_kick_group_member json v.groups x o key session req
  handle x o key session req appoint = handle_set_group_admin json v.groups x o key session req
  handle x o key session req transfer =
      handle_transfer_group_owner json v.groups x o key session req
  handle x o key session req invite = handle_invite_group_member json v.groups x o key session req
  handle x o key session req (dissolve now) =
      handle_dissolve_group json v.groups x o now session req
  handle x o key session req (create readings) =
      handle_create_group json v.groups v.print_id x readings key session req
  handle x o key session req leave = handle_leave json v.group_repo x o key session req
  handle x o key session req (apply now) = handle_apply_group_join json v.joins x now session req
  handle x o key session req (review now) =
      handle_review_group_join json v.joins x o now key session req
