-- ===== src/Im/SessionManager/Joined.antt =====
-- The groups of the sessions of an account.
use project_chat.Common.{
  ℕ, String, ◌≡◌, refl, Bool, false, not, ◌&&◌, ◌||◌, Option, none, some, List, [], ◌∷◌, arith,
  ◌==◌, nat_key, string_key, eqb_iff, eqb, Option-cases, inl, inr, ◌+◌, ◌%◌, ◌^◌,
}
use project_chat.Common.Map.{Map, find, assign, find-assign, has}
use project_chat.Common.KeySet
use project_chat.Common.KeySet.{KeySet, contains, insert, contains-insert, contains-erase}
use project_chat.Im.SessionManager.{
  SessionManager, Session, change_joined, add_joined_group, remove_joined_group,
  conn_keys_by_account_id,
}

-- Whether the session of a connection is in a group.
abbrev pub joined_by : String → Option Session → Bool
joined_by g none = false
joined_by g (some s) = contains g s.joined_group_ids

pub is_joined : SessionManager → ℕ → String → Bool
is_joined m k g = joined_by g (find k m.sessions)

contains-cons : (k j : ℕ) (keys : List ℕ) → contains k (j ∷ keys) ≡ (eqb j k || contains k keys)
unfolding contains
contains-cons k j keys = refl

none_in : (k : ℕ) → contains k [] ≡ false
unfolding contains
none_in k = refl

inserted :
    (keys : List ℕ) (count : ℕ) (ss : Map ℕ Session) (k : ℕ) (g h : String)
    → joined_by h (find k (change_joined (insert g) keys count ss).1)
      ≡ (joined_by h (find k ss) || (contains k keys && has k ss && (g == h)))
unfolding change_joined
inserted [] count ss k g h = ground (arith, none_in k)
inserted (j ∷ keys) count ss k g h = elim (Option-cases (find j ss)) [
  | inl missing ↦
      rw (missing, change_joined)
        (ground (arith, missing, inserted keys count ss k g h, contains-cons k j keys, eqb_iff j k))
  | inr (s, e) ↦
      rw (e, change_joined)
        (ground (
          arith,
          e,
          inserted keys ((count + 1) % 2 ^ 64)
              (assign j (record s { joined_group_ids = insert g s.joined_group_ids }) ss) k g h,
          contains-cons k j keys,
          eqb_iff j k,
          find-assign j k (record s { joined_group_ids = insert g s.joined_group_ids }) ss,
          contains-insert g h s.joined_group_ids,
        ))
]

taken_out :
    (keys : List ℕ) (count : ℕ) (ss : Map ℕ Session) (k : ℕ) (g h : String)
    → joined_by h (find k (change_joined (KeySet.erase g) keys count ss).1)
      ≡ (joined_by h (find k ss) && not (contains k keys && (g == h)))
unfolding change_joined
taken_out [] count ss k g h = ground (arith, none_in k)
taken_out (j ∷ keys) count ss k g h = elim (Option-cases (find j ss)) [
  | inl missing ↦
      rw (missing, change_joined)
        (ground
          (arith, missing, taken_out keys count ss k g h, contains-cons k j keys, eqb_iff j k))
  | inr (s, e) ↦
      rw (e, change_joined)
        (ground (
          arith,
          e,
          taken_out keys ((count + 1) % 2 ^ 64)
              (assign j (record s { joined_group_ids = KeySet.erase g s.joined_group_ids }) ss) k g
              h,
          contains-cons k j keys,
          eqb_iff j k,
          find-assign j k (record s { joined_group_ids = KeySet.erase g s.joined_group_ids }) ss,
          contains-erase g h s.joined_group_ids,
        ))
]

-- To add an account to a group puts exactly the sessions of the account's connections into the
-- group, to remove it takes exactly these out of it, and no other group of any session changes.
pub joined_group_lem :
    (m : SessionManager) (a g h : String) (k : ℕ)
    → (is_joined (add_joined_group m a g).1 k h ≡ (
        is_joined m k h
        || (contains k (conn_keys_by_account_id m a) && has k m.sessions && (g == h))))
      × (is_joined (remove_joined_group m a g).1 k h
          ≡ (is_joined m k h && not (contains k (conn_keys_by_account_id m a) && (g == h))))
unfolding is_joined add_joined_group remove_joined_group
joined_group_lem m a g h k = (
  inserted (conn_keys_by_account_id m a) 0 m.sessions k g h,
  taken_out (conn_keys_by_account_id m a) 0 m.sessions k g h,
)
