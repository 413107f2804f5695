-- ===== src/Im/SessionManager/Online.antt =====
-- Which accounts are on line, by which connections.
use project_chat.Common.{
  ℕ, String, ◌≡◌, ◌↔◌, ◌∙◌, sym, refl, Bool, true, false, not, ◌&&◌, ◌||◌, Option, none, some, [],
  ◌∷◌, arith, ◌==◌, nat_key, string_key, text_iff, eqb_iff, eqb, Option-cases, inl, inr,
}
use project_chat.Common.Map.{Map, find, assign, find-assign, find-erase, find-nil}
use project_chat.Common.KeySet
use project_chat.Common.KeySet.{
  KeySet, contains, insert, empty, contains-insert, contains-erase, contains-nil, contains_of_empty,
}
use project_chat.Im.SessionManager.{
  SessionManager, Session, keys_or_none, bind_user, forget, unbind_conn, is_on_line,
  conn_keys_by_account_id, account_id_by_conn,
}

abbrev pub belongs : String → Option String → Bool
belongs a none = false
belongs a (some b) = b == a

belongs_iff : (a : String) (o : Option String) → (belongs a o ≡ true) ↔ (o ≡ some a)
belongs_iff a none = ground arith
belongs_iff a (some b) = ground (arith, text_iff b a)

pub linked : String → ℕ → Map String (KeySet ℕ) → Bool
linked a k conns = contains k (keys_or_none (find a conns))

-- The two maps agree, and no account is kept without a connection.
pub record IsConsistent (m : SessionManager) : Type 0 where
  pub agrees : (a : String) (k : ℕ) → linked a k m.account_conns ≡ belongs a (find k m.conn_account)
  pub peopled : (a : String) (s : KeySet ℕ) → find a m.account_conns ≡ some s → empty s ≡ false

empty-insert : (k : ℕ) (s : KeySet ℕ) → empty (insert k s) ≡ false
unfolding empty insert contains
empty-insert k [] = refl
empty-insert k (j ∷ s) = ground arith

linked-insert :
    (a b : String) (k j : ℕ) (conns : Map String (KeySet ℕ))
    → linked b j (assign a (insert k (keys_or_none (find a conns))) conns)
      ≡ (((a == b) && eqb k j) || linked b j conns)
unfolding linked
linked-insert a b k j conns = ground (
  arith,
  text_iff a b,
  find-assign a b (insert k (keys_or_none (find a conns))) conns,
  contains-insert k j (keys_or_none (find a conns)),
)

linked-forget :
    (a b : String) (k j : ℕ) (conns : Map String (KeySet ℕ))
    → linked b j (forget a k conns) ≡ (not ((a == b) && eqb k j) && linked b j conns)
unfolding linked forget
linked-forget a b k j conns =
    let left : KeySet ℕ = KeySet.erase k (keys_or_none (find a conns)) in
    ground (
      arith,
      text_iff a b,
      find-assign a b left conns,
      find-erase a b (assign a left conns),
      contains-erase k j (keys_or_none (find a conns)),
      contains-nil j,
      contains_of_empty j left,
    )

peopled-forget :
    (a b : String) (k : ℕ) (conns : Map String (KeySet ℕ)) (s : KeySet ℕ)
    → find b (forget a k conns) ≡ some s
    → (find b conns ≡ some s → empty s ≡ false)
    → empty s ≡ false
unfolding forget
peopled-forget a b k conns s e h =
    let left : KeySet ℕ = KeySet.erase k (keys_or_none (find a conns)) in
    ground
      (arith, text_iff a b, find-assign a b left conns, find-erase a b (assign a left conns), e, h)

pub bound-IsConsistent :
    (m : SessionManager) (k u : ℕ) (a n : String)
    → find k m.conn_account ≡ none
    → IsConsistent m
    → IsConsistent (bind_user m k u a n).1
unfolding bind_user
bound-IsConsistent m k u a n free c = record {
  agrees = λ b j. ground (
    arith,
    linked-insert a b k j m.account_conns,
    c.agrees b j,
    find-assign k j a m.conn_account,
    eqb_iff k j,
    text_iff a b,
    free,
  );
  peopled = λ b s e. ground (
    arith,
    e,
    c.peopled b s,
    find-assign a b (insert k (keys_or_none (find a m.account_conns))) m.account_conns,
    text_iff a b,
    empty-insert k (keys_or_none (find a m.account_conns)),
  );
}

pub unbound-IsConsistent :
    (m : SessionManager) (k : ℕ) → IsConsistent m → IsConsistent (unbind_conn m k)
unfolding unbind_conn
unbound-IsConsistent m k c = elim (Option-cases (find k m.conn_account)) [
  | inl missing ↦ rw (missing, unbind_conn) c
  | inr (a, e) ↦
      rw (e, unbind_conn)
        (record {
          agrees = λ b j. ground (
            arith,
            linked-forget a b k j m.account_conns,
            c.agrees b j,
            find-erase k j m.conn_account,
            eqb_iff k j,
            text_iff a b,
            e,
          );
          peopled = λ b s h. peopled-forget a b k m.account_conns s h (c.peopled b s);
        })
]

-- A change of the sessions alone.
pub sessions-IsConsistent :
    (m : SessionManager) (ss : Map ℕ Session)
    → IsConsistent m
    → IsConsistent (record m { sessions = ss })
sessions-IsConsistent m ss c = record { agrees = c.agrees; peopled = c.peopled }

pub empty-IsConsistent :
    IsConsistent (record { sessions = []; account_conns = []; conn_account = [] })
unfolding linked
empty-IsConsistent = record {
  agrees = λ a k. rw (find-nil {V = KeySet ℕ} a, find-nil {V = String} k) (contains-nil k);
  peopled = λ a s e. cc (find-nil {V = KeySet ℕ} a);
}

someone : (s : KeySet ℕ) → empty s ≡ false → (k : ℕ) × (contains k s ≡ true)
unfolding empty contains
someone [] h = cc
someone (k ∷ s) h = (k, ground (arith, eqb_iff k k))

pub peopled_of :
    (m : SessionManager) (a : String)
    → IsConsistent m
    → is_on_line m a ≡ true
    → (k : ℕ) × (account_id_by_conn m k ≡ some a)
unfolding is_on_line account_id_by_conn linked
peopled_of m a c e = elim (Option-cases (find a m.account_conns)) [
  | inl missing ↦ ground (arith, missing, e)
  | inr (s, there) ↦
      let (k, inside) = someone s (c.peopled a s there) in
      (k, (belongs_iff a (find k m.conn_account)).0 (sym (c.agrees a k) ∙ rw there inside))
]

pub on_line_of :
    (m : SessionManager) (a : String) (k : ℕ)
    → IsConsistent m
    → account_id_by_conn m k ≡ some a
    → is_on_line m a ≡ true
unfolding is_on_line account_id_by_conn linked contains
on_line_of m a k c e = elim (Option-cases (find a m.account_conns)) [
  | inl missing ↦ ground (arith, missing, c.agrees a k, e, text_iff a a, contains-nil k)
  | inr (s, there) ↦ ground (arith, there, c.peopled a s there)
]

pub linked_iff :
    (m : SessionManager) (a : String) (k : ℕ)
    → IsConsistent m
    → (contains k (conn_keys_by_account_id m a) ≡ true) ↔ (account_id_by_conn m k ≡ some a)
unfolding conn_keys_by_account_id account_id_by_conn linked
linked_iff m a k c = rw (c.agrees a k) (belongs_iff a (find k m.conn_account))
