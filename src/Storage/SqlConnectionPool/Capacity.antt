-- ===== src/Storage/SqlConnectionPool/Capacity.antt =====
-- Where the connections of a running pool are.
use project_chat.Common.{
  ℕ, zero, suc, ◌+◌, ◌^◌, ◌<◌, ◌≡◌, refl, ◌∙◌, Bool, true, false, ◌&&◌, inl, inr, some, List, [],
  ◌∷◌, arith, length, length-append, List-cases, Bool-cases, Option-cases, eqb,
}
use project_chat.Common.Counts.{mem, remove_first, length-remove_first}
use project_chat.Storage.SqlConnectionPool.{
  SqlConnectionPool, Lending, Event, start_pool, stop_pool, acquire, give_back, new, connect_all,
  start, acquire_for, replace_in, replace_connection, release, hold, step, run, stats,
}

-- `held` guards are alive.
record IsAccounted (n held : ℕ) (p : SqlConnectionPool) : Type 0 where
  running : p.started ≡ true
  total : length p.connections ≡ n
  sum : length p.idle + held + p.replace_failures ≡ n

-- The guards come and go, and the pool is neither started nor stopped.
abbrev pub Lends : List Event → Type 0
Lends [] = Unit
Lends (acquire ∷ es) = Lends es
Lends (give_back conn reusable ∷ es) = Lends es
Lends (_ ∷ es) = ⊥

length-replace_in :
    (old conn : ℕ) (cs : List ℕ) {cs' : List ℕ}
    → replace_in old conn cs ≡ some cs'
    → length cs' ≡ length cs
unfolding replace_in
length-replace_in old conn [] e = cc
length-replace_in old conn (c ∷ cs) e = elim (Bool-cases (eqb c old)) [
  | inl same ↦ let e' = rw same at e in cc
  | inr other ↦ elim (Option-cases (replace_in old conn cs)) [
    | inl missing ↦ cc (rw (other, missing, replace_in) at e)
    | inr (ds, found) ↦
        let e' = rw (other, found, replace_in) at e in
        let shorter = length-replace_in old conn cs found in cc
  ]
]

module _ (connects : ℕ → Bool) where
  replace_connection-IsAccounted :
      (n held conn : ℕ) (p : SqlConnectionPool)
      → n < 2 ^ 64
      → IsAccounted n (suc held) p
      → IsAccounted n held (replace_connection connects conn p).1
  unfolding replace_connection
  replace_connection-IsAccounted n held conn p bound a =
      elim (Bool-cases (connects p.next_connection && p.started)) [
        | inr bad ↦
            rw bad
              (record { running = a.running; total = a.total; sum = omega (arith, a.sum, bound) })
        | inl ok ↦ rw ok (elim (Option-cases (replace_in conn p.next_connection p.connections)) [
          | inl missing ↦
              rw missing
                (record { running = a.running; total = a.total; sum = omega (arith, a.sum, bound) })
          | inr (cs, found) ↦ rw found (record {
            running = a.running;
            total = length-replace_in conn p.next_connection p.connections found ∙ a.total;
            sum = omega (arith, a.sum, length-append p.idle (p.next_connection ∷ []));
          })
        ])
      ]

  release-IsAccounted :
      (n held conn : ℕ) (reusable : Bool) (p : SqlConnectionPool)
      → n < 2 ^ 64
      → IsAccounted n (suc held) p
      → IsAccounted n held (release connects conn reusable p)
  unfolding release
  release-IsAccounted n held conn false p bound a =
      replace_connection-IsAccounted n held conn p bound a
  release-IsAccounted n held conn true p bound a =
      rw (a.running, release)
        (record {
          running = refl;
          total = a.total;
          sum = omega (arith, a.sum, length-append p.idle (conn ∷ []));
        })

  acquire_for-IsAccounted :
      (n : ℕ) (held : List ℕ) (p : SqlConnectionPool)
      → IsAccounted n (length held) p
      → IsAccounted n (length (hold (acquire_for p).0 held)) (acquire_for p).1
  unfolding acquire_for
  acquire_for-IsAccounted n held p a = elim (List-cases p.idle) [
    | inl none_idle ↦
        rw (none_idle, a.running, acquire_for)
          (record { running = refl; total = a.total; sum = a.sum })
    | inr (conn, idle, from) ↦
        rw (from, a.running, acquire_for)
          (record { running = refl; total = a.total; sum = ground (arith, a.sum, from) })
  ]

  run-IsAccounted :
      (n : ℕ) (l : Lending) (es : List Event)
      → n < 2 ^ 64
      → Lends es
      → IsAccounted n (length l.held) l.pool
      → IsAccounted n (length (run connects l es).held) (run connects l es).pool
  unfolding run step
  run-IsAccounted n l [] bound lends a = a
  run-IsAccounted n l (acquire ∷ es) bound lends a =
      run-IsAccounted n (step connects l acquire) es bound lends
        (acquire_for-IsAccounted n l.held l.pool a)
  run-IsAccounted n l (give_back conn reusable ∷ es) bound lends a =
      run-IsAccounted n (step connects l (give_back conn reusable)) es bound lends
        (elim (Bool-cases (mem conn l.held)) [
          | inl there ↦ rw there (
              release-IsAccounted n (length (remove_first conn l.held)) conn reusable l.pool bound
                (rw (length-remove_first conn l.held there) a))
          | inr gone ↦ rw gone a
        ])
  run-IsAccounted n l (start_pool ∷ es) bound lends a = absurd lends
  run-IsAccounted n l (stop_pool ∷ es) bound lends a = absurd lends

  -- The loop of `start` makes as many idle ones as connections.
  connect_all-length :
      (k n : ℕ) (p : SqlConnectionPool)
      → length p.idle ≡ n
      → length p.connections ≡ n
      → p.replace_failures ≡ 0
      → (connect_all connects k p).0 ≡ true
      → let q = (connect_all connects k p).1 in
        (length q.idle ≡ k + n) × (length q.connections ≡ k + n) × (q.replace_failures ≡ 0)
  unfolding connect_all
  connect_all-length zero n p i c f ok = (omega (arith, i), omega (arith, c), f)
  connect_all-length (suc k) n p i c f ok = elim (Bool-cases (connects p.next_connection)) [
    | inr bad ↦ cc (rw bad at ok)
    | inl good ↦ rw good (
        let (i', c', f') =
          connect_all-length k (suc n) _
            (omega (arith, i, length-append p.idle (p.next_connection ∷ [])))
            (omega (arith, c, length-append p.connections (p.next_connection ∷ []))) f
            (rw good at ok) in
        (omega (arith, i'), omega (arith, c'), f'))
  ]

  start-IsAccounted :
      (n : ℕ) → (start connects (new n)).0 ≡ true → IsAccounted n 0 (start connects (new n)).1
  unfolding start new
  start-IsAccounted n ok = elim (Bool-cases (connect_all connects n (new n)).0) [
    | inr bad ↦ cc (rw bad at ok)
    | inl good ↦ rw good (
        let (i, c, f) = connect_all-length n 0 (new n) refl refl refl good in
        record { running = refl; total = omega (arith, c); sum = omega (arith, i, f) })
  ]

  -- Once a new pool of fewer than 2 ^ 64 connections has started, over any acquisitions and
  -- returns its statistics count all its connections, and as in use those that guards hold and
  -- those that a failed replacement has lost, which never come back; the idle ones are the rest.
  pub run-in_use :
      (n : ℕ) (es : List Event)
      → n < 2 ^ 64
      → (start connects (new n)).0 ≡ true
      → Lends es
      → let l = run connects (record { pool = (start connects (new n)).1; held = [] }) es in
        let s = stats l.pool in
        (s.total ≡ n) × (s.in_use ≡ length l.held + s.replace_failures) × (s.idle + s.in_use ≡ n)
  unfolding stats
  run-in_use n es bound ok lends =
      let a =
        run-IsAccounted n (record { pool = (start connects (new n)).1; held = [] }) es bound lends
          (start-IsAccounted n ok) in
      (a.total, omega (arith, a.total, a.sum, bound), omega (arith, a.total, a.sum, bound))
