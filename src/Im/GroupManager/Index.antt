-- ===== src/Im/GroupManager/Index.antt =====
-- The laws of the index.
use project_chat.Common.{
  String, ◌≡◌, Bool, false, not, ◌&&◌, ◌||◌, [], ◌∷◌, arith, ◌==◌, string_key, text_iff,
  Option-cases, inl, inr,
}
use project_chat.Common.Map.{Map, find, find-assign, find-erase, find-nil, has}
use project_chat.Common.KeySet
use project_chat.Common.KeySet.{
  KeySet, contains, insert, contains-insert, contains-erase, contains_of_empty, contains-nil,
}
use project_chat.Im.GroupManager.{
  Index, groups_or_none, index_insert, index_remove, unindex, reindex,
}
use project_chat.Im.Group.{GroupRole}

-- Whether the index has the group under the account.
pub indexed : String → String → Index → Bool
indexed a g index = contains g (groups_or_none (find a index))

pub indexed-index_insert :
    (a g b h : String) (index : Index)
    → indexed b h (index_insert a g index) ≡ (((a == b) && (g == h)) || indexed b h index)
unfolding indexed index_insert
indexed-index_insert a g b h index = ground (
  arith,
  text_iff a b,
  find-assign a b (insert g (groups_or_none (find a index))) index,
  contains-insert g h (groups_or_none (find a index)),
)

pub indexed-index_remove :
    (a g b h : String) (index : Index)
    → indexed b h (index_remove a g index) ≡ (not ((a == b) && (g == h)) && indexed b h index)
unfolding indexed index_remove
indexed-index_remove a g b h index = elim (Option-cases (find a index)) [
  | inl missing ↦ rw (missing, index_remove) (ground (arith, text_iff a b, contains-nil h, missing))
  | inr (s, found) ↦
      rw (found, index_remove)
        (ground (
          arith,
          text_iff a b,
          found,
          find-assign a b (KeySet.erase g s) index,
          find-erase a b index,
          contains-erase g h s,
          contains-nil h,
          contains_of_empty h (KeySet.erase g s),
        ))
]

has-cons :
    (a b : String) (r : GroupRole) (ms : Map String GroupRole)
    → has b ((a, r) ∷ ms) ≡ ((a == b) || has b ms)
unfolding find
has-cons a b r ms = ground arith

-- The loops over the members touch the entries of the members, for that group.
pub indexed-unindex :
    (i : String) (ms : Map String GroupRole) (b h : String) (index : Index)
    → indexed b h (unindex i ms index) ≡ (not ((i == h) && has b ms) && indexed b h index)
unfolding unindex
indexed-unindex i [] b h index = ground (arith, find-nil {V = GroupRole} b)
indexed-unindex i ((a, r) ∷ ms) b h index = ground (
  arith,
  indexed-unindex i ms b h (index_remove a i index),
  indexed-index_remove a i b h index,
  has-cons a b r ms,
)

pub indexed-reindex :
    (i : String) (ms : Map String GroupRole) (b h : String) (index : Index)
    → indexed b h (reindex i ms index) ≡ (((i == h) && has b ms) || indexed b h index)
unfolding reindex
indexed-reindex i [] b h index = ground (arith, find-nil {V = GroupRole} b)
indexed-reindex i ((a, r) ∷ ms) b h index = ground (
  arith,
  indexed-reindex i ms b h (index_insert a i index),
  indexed-index_insert a i b h index,
  has-cons a b r ms,
)

pub indexed-nil : (b h : String) → indexed b h [] ≡ false
unfolding indexed
indexed-nil b h = rw (find-nil {V = KeySet String} b, contains-nil h)
