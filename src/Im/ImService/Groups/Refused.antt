-- ===== src/Im/ImService/Groups/Refused.antt =====
-- A session that is not logged in.
use project_chat.Common.{ℕ, ◌≡◌, refl, ap, false, not, some, ◌⊎◌, inl, inr}
use project_chat.Im.Json.{Json}
use project_chat.Im.ErrorCode
use project_chat.Im.ImMessage.{Request, Response}
use project_chat.Im.ImCodec.{make_err}
use project_chat.Im.SessionManager.{Session, ConnState, connected, authed, closing}
use project_chat.Im.ImService.{guard_authenticated, ◌>>=◌, is_authed, refuse_if}
use project_chat.Im.ImService.Groups.{
  Served, Sends, Answer, read_target, admit_kick, admit_set_admin, admit_change,
  handle_kick_group_member, handle_set_group_admin, handle_transfer_group_owner,
}
use project_chat.Im.ImService.Groups.Lifecycle.{
  admit_dissolution, admit_creation, handle_invite_group_member, handle_dissolve_group,
  handle_create_group,
}
use project_chat.Im.ImService.Groups.Joining.{read_group, handle_leave}
use project_chat.Im.ImService.Groups.Reviewing.{
  admit_application, admit_review, handle_apply_group_join, handle_review_group_join,
}
use project_chat.Im.ImService.Groups.Requests.{
  Kind, kick, appoint, transfer, invite, dissolve, create, leave, apply, review, Services, handle,
}

pub state-cases : (s : ConnState) → (s ≡ authed) ⊎ (is_authed s ≡ false)
state-cases connected = inr refl
state-cases authed = inl refl
state-cases closing = inr refl

-- A chain of checks, and a handler, whose first check refuses.
refused_first :
    {R : Type 0} {A : Type 0} {B : Type 0} (m : R ⊎ A) (f : A → R ⊎ B) (r : R)
    → m ≡ inl r
    → (m >>= f) ≡ inl r
unfolding ◌>>=◌
refused_first (inl q) f r h = let same : q ≡ r = cc in ap inl same
refused_first (inr a) f r h = cc

refused_at_once :
    {R : Type 0} {A : Type 0} {B : Type 0} (m : R ⊎ A) (f : R → B) (g : A → B) (r : R)
    → m ≡ inl r
    → elim m [ inl r ↦ f r | inr a ↦ g a ] ≡ f r
refused_at_once (inl q) f g r h = let same : q ≡ r = cc in ap f same
refused_at_once (inr a) f g r h = cc

abbrev refusal : {J : Type 0} → Json J → Request J → Response J
refusal json req = make_err json req ErrorCode.not_authed "Unauthed, please authenticate first"

-- An outcome that says that nobody is logged in, and changes nothing.
abbrev pub Refused :
    {J : Type 0} {D : Type 0} → Json J → Served J D → Request J → Answer J D → Type 0
Refused json x req out = out ≡ (some (refusal json req), x)

module _ {J : Type 0} {D : Type 0} (json : Json J) (v : Services D) where
  module _ (x : Served J D) (o : Sends) (key : ℕ) (session : Session) (req : Request J) where
    module _ (h : is_authed session.state ≡ false) where
      guard_authenticated-refused : guard_authenticated json req session ≡ inl (refusal json req)
      unfolding guard_authenticated
      guard_authenticated-refused = ap (λ b. refuse_if (not b) (refusal json req)) h

      read_target-refused : read_target json req session ≡ inl (refusal json req)
      unfolding read_target
      read_target-refused = refused_first _ _ (refusal json req) guard_authenticated-refused

      admit_kick-refused : admit_kick json v.groups req session ≡ inl (refusal json req)
      unfolding admit_kick
      admit_kick-refused = refused_first _ _ (refusal json req) read_target-refused

      admit_set_admin-refused : admit_set_admin json v.groups req session ≡ inl (refusal json req)
      unfolding admit_set_admin
      admit_set_admin-refused = refused_first _ _ (refusal json req) read_target-refused

      admit_change-refused : admit_change json v.groups req session ≡ inl (refusal json req)
      unfolding admit_change
      admit_change-refused = refused_first _ _ (refusal json req) read_target-refused

      admit_dissolution-refused :
          admit_dissolution json v.groups req session ≡ inl (refusal json req)
      unfolding admit_dissolution
      admit_dissolution-refused = refused_first _ _ (refusal json req) guard_authenticated-refused

      admit_creation-refused :
          admit_creation json v.groups x.service.config req session ≡ inl (refusal json req)
      unfolding admit_creation
      admit_creation-refused = refused_first _ _ (refusal json req) guard_authenticated-refused

      read_group-refused : read_group json req session ≡ inl (refusal json req)
      unfolding read_group
      read_group-refused = refused_first _ _ (refusal json req) guard_authenticated-refused

      admit_application-refused :
          admit_application json v.joins req session ≡ inl (refusal json req)
      unfolding admit_application
      admit_application-refused = refused_first _ _ (refusal json req) read_group-refused

      admit_review-refused : admit_review json v.joins req session ≡ inl (refusal json req)
      unfolding admit_review
      admit_review-refused = refused_first _ _ (refusal json req) read_group-refused

      pub refused : (k : Kind) → Refused json x req (handle json v x o key session req k)
      unfolding handle handle_kick_group_member handle_set_group_admin handle_transfer_group_owner
          handle_invite_group_member handle_dissolve_group handle_create_group handle_leave
          handle_apply_group_join handle_review_group_join
      refused kick = refused_at_once _ _ _ (refusal json req) admit_kick-refused
      refused appoint = refused_at_once _ _ _ (refusal json req) admit_set_admin-refused
      refused transfer = refused_at_once _ _ _ (refusal json req) admit_change-refused
      refused invite = refused_at_once _ _ _ (refusal json req) admit_change-refused
      refused (dissolve now) = refused_at_once _ _ _ (refusal json req) admit_dissolution-refused
      refused (create readings) = refused_at_once _ _ _ (refusal json req) admit_creation-refused
      refused leave = refused_at_once _ _ _ (refusal json req) read_group-refused
      refused (apply now) = refused_at_once _ _ _ (refusal json req) admit_application-refused
      refused (review now) = refused_at_once _ _ _ (refusal json req) admit_review-refused
