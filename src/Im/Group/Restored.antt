-- ===== src/Im/Group/Restored.antt =====
-- A group while its stored members are added one by one.
use project_chat.Common.{
  String, ◌≡◌, ◌≢◌, refl, sym, ap, ◌∙◌, Bool, true, false, none, some, arith, ◌==◌, string_key,
  text_iff, is_empty, if◌then◌else◌,
}
use project_chat.Common.Map.{find, find-assign, find-nil}
use project_chat.Im.Group.{Group, GroupRole, owner, new, has_member, add_member}
use project_chat.Im.Group.Owner.{IsOwned}

-- Nobody but `o` has the owner's role; `o` has it if `has_owner`, and is no member otherwise.
pub record IsPartial (g : Group) (o : String) (has_owner : Bool) : Type 0 where
  pub named : g.owner_account_id ≡ o
  pub found : has_owner ≡ true → find o g.members ≡ some owner
  pub missing : has_owner ≡ false → find o g.members ≡ none
  pub single : (a : String) → find a g.members ≡ some owner → a ≡ o

pub new-IsPartial : (i n o : String) → IsPartial (new i n o) o false
unfolding new
new-IsPartial i n o = record {
  named = refl;
  found = λ e. cc;
  missing = λ e. find-nil o;
  single = λ a e. cc (find-nil {V = GroupRole} a);
}

pub add_owner-IsPartial :
    (g : Group) (o : String) (has_owner : Bool)
    → is_empty o ≡ false
    → IsPartial g o has_owner
    → IsPartial (add_member g o owner).1 o true
unfolding add_member has_member
add_owner-IsPartial g o has_owner ne p = record {
  named = ground (arith, p.named);
  found =
      λ e. ground (arith, p.found, p.missing, find-assign o o owner g.members, text_iff o o, ne);
  missing = λ e. cc;
  single = λ a e. ground (arith, p.single a, find-assign o a owner g.members, text_iff o a, e);
}

pub add_other-IsPartial :
    (g : Group) (a o : String) (r : GroupRole) (has_owner : Bool)
    → r ≢ owner
    → (a == o) ≡ false
    → IsPartial g o has_owner
    → IsPartial (add_member g a r).1 o has_owner
unfolding add_member has_member
add_other-IsPartial g a o r has_owner h ne p = record {
  named = ground (arith, p.named);
  found = λ e. ground (arith, p.found, find-assign a o r g.members, ne, e);
  missing = λ e. ground (arith, p.missing, find-assign a o r g.members, ne, e);
  single = λ b e. ground (arith, p.single b, find-assign a b r g.members, text_iff a b, h, e);
}

IsPartial-IsOwned : (g : Group) (o : String) → IsPartial g o true → IsOwned g
IsPartial-IsOwned g o p = record {
  owned = ap (λ a. find a g.members) p.named ∙ p.found refl;
  single = λ a e. p.single a e ∙ sym p.named;
}

-- Whole at the end, with the owner added if the records had none.
pub completed-IsOwned :
    (g : Group) (o : String) (has_owner : Bool)
    → is_empty o ≡ false
    → IsPartial g o has_owner
    → IsOwned (if has_owner then g else (add_member g o owner).1)
completed-IsOwned g o true ne p = IsPartial-IsOwned g o p
completed-IsOwned g o false ne p =
    IsPartial-IsOwned (add_member g o owner).1 o (add_owner-IsPartial g o false ne p)
