-- ===== src/Net/TcpServer/Batch/Rounds.antt =====
-- The loop over the keys, as one connection sees it: each time its key comes up, a broadcast.
use mathlib.Core.Path.{subst}
use mathlib.Core.List.{append_assoc, append-nil}
use project_chat.Common.{
  ℕ, ◌≡◌, refl, sym, ◌∙◌, ap, Bool, true, false, List, [], ◌∷◌, ◌++◌, none, some, eqb, arith,
  if◌then◌else◌, Bool-cases, Option-cases, nat_key, inl, inr, eq_sound,
}
use project_chat.Common.Map.{find, find-assign}
use project_chat.Net.Connection.{
  Config, Connection, Frame, frame_bytes, create, SendResult, ok, no_such_connection, closed,
  overloaded, failed, try_reserve_frame,
}
use project_chat.Net.Connection.Backlog.{
  World, Op, broadcast, step, run, after_reserve, step-broadcast, config-try_reserve_frame,
}
use project_chat.Net.Batch.{add}
use project_chat.Net.TcpServer.Batch.{
  Reserving, list_at, push_at, reserved, reserve_one, reserve_all,
}
use project_chat.Net.TcpServer.Batch.Queues.{
  copies, copies-append, list_at-push_same, list_at-push_other,
}

-- A broadcast for each time that a key is in a list.
abbrev pub broadcasts_to : ℕ → List ℕ → List ℕ → List Op
broadcasts_to fd [] payload = []
broadcasts_to fd (k ∷ ks) payload =
    if eqb k fd
    then broadcast payload ∷ broadcasts_to fd ks payload
    else broadcasts_to fd ks payload

module _ (loop_of : ℕ → ℕ) (fd : ℕ) (f : Frame) (base : List Frame) where
  -- The connection with what waits for it and what is reserved for it in this batch.
  abbrev pub Pending : Reserving → Connection → World
  Pending r c = record {
    connection = c;
    in_flight = base ++ copies fd (list_at (loop_of fd) r.batches) f;
  }

  pub record Follows (config : Config) (r : Reserving) (w : World) : Type 0 where
    pub connection : Connection
    pub found : find fd r.connections ≡ some connection
    pub configured : connection.config ≡ config
    pub follows : Pending r connection ≡ w

  reserved-hit :
      (r : Reserving) (key : ℕ) (c : Connection) (x : SendResult × Connection)
      → eqb key fd ≡ true
      → Pending (reserved loop_of r key x) x.1 ≡ after_reserve (Pending r c) f x
  unfolding after_reserve
  reserved-hit r key c (ok, c') h =
      let here : List ℕ = list_at (loop_of fd) r.batches in
      let same : key ≡ fd = eq_sound key fd h in
      let loops : eqb (loop_of key) (loop_of fd) ≡ true = ground (arith, ap loop_of same) in
      let queued : copies fd (list_at (loop_of fd) (push_at (loop_of key) key r.batches)) f
          ≡ copies fd here f ++ (f ∷ []) =
        ap (λ l. copies fd l f) (list_at-push_same (loop_of key) (loop_of fd) key r.batches loops)
        ∙ copies-append fd key here f
        ∙ ap (λ b. copies fd here f ++ (if b then f ∷ [] else [])) h in
      ap (λ l. record { connection = c'; in_flight = l })
        (ap (◌++◌ base) queued ∙ sym (append_assoc base (copies fd here f) (f ∷ [])))
  reserved-hit r key c (no_such_connection, c') h = refl
  reserved-hit r key c (closed, c') h = refl
  reserved-hit r key c (overloaded, c') h = refl
  reserved-hit r key c (failed, c') h = refl

  reserved-found :
      (r : Reserving) (key : ℕ) (x : SendResult × Connection)
      → find fd (reserved loop_of r key x).connections
        ≡ (if eqb key fd then some x.1 else find fd r.connections)
  reserved-found r key (ok, c) = find-assign key fd c r.connections
  reserved-found r key (no_such_connection, c) = find-assign key fd c r.connections
  reserved-found r key (closed, c) = find-assign key fd c r.connections
  reserved-found r key (overloaded, c) = find-assign key fd c r.connections
  reserved-found r key (failed, c) = find-assign key fd c r.connections

  reserved-miss :
      (r : Reserving) (key : ℕ) (x : SendResult × Connection)
      → eqb key fd ≡ false
      → copies fd (list_at (loop_of fd) (reserved loop_of r key x).batches) f
        ≡ copies fd (list_at (loop_of fd) r.batches) f
  reserved-miss r key (ok, c) h = elim (Bool-cases (eqb (loop_of key) (loop_of fd))) [
    | inl e ↦
        let here : List ℕ = list_at (loop_of fd) r.batches in
        ap (λ l. copies fd l f) (list_at-push_same (loop_of key) (loop_of fd) key r.batches e)
        ∙ copies-append fd key here f
        ∙ ap (λ b. copies fd here f ++ (if b then f ∷ [] else [])) h
        ∙ append-nil (copies fd here f)
    | inr e ↦
        ap (λ l. copies fd l f) (list_at-push_other (loop_of key) (loop_of fd) key r.batches e)
  ]
  reserved-miss r key (no_such_connection, c) h = refl
  reserved-miss r key (closed, c) h = refl
  reserved-miss r key (overloaded, c) h = refl
  reserved-miss r key (failed, c) h = refl

  module _ (payload : List ℕ) where
    abbrev round : Bool → World → World
    round hit w = if hit then step w (broadcast payload) else w

    run-round :
        (b : Bool) (w : World) (ops : List Op)
        → run (round b w) ops ≡ run w (if b then broadcast payload ∷ ops else ops)
    unfolding run
    run-round true w ops = refl
    run-round false w ops = refl

    reserve_one_found :
        (r : Reserving) (key : ℕ) (c : Connection)
        → find key r.connections ≡ some c
        → reserve_one loop_of (frame_bytes f) r key
          ≡ reserved loop_of r key (try_reserve_frame c (frame_bytes f))
    unfolding reserve_one
    reserve_one_found r key c e = rw (e, reserve_one) refl

    reserve_one_unknown :
        (r : Reserving) (key : ℕ)
        → find key r.connections ≡ none
        → reserve_one loop_of (frame_bytes f) r key
          ≡ record r { result = add r.result no_such_connection }
    unfolding reserve_one
    reserve_one_unknown r key e = rw (e, reserve_one) refl

    abbrev Next : Reserving → Connection → ℕ → Reserving → Type 0
    Next r c key r' = Follows c.config r' (round (eqb key fd) (Pending r c))

    hit :
        (r : Reserving) (key : ℕ) (c : Connection)
        → eqb key fd ≡ true
        → create payload c.max_frame_len ≡ some f
        → Next r c key (reserved loop_of r key (try_reserve_frame c (frame_bytes f)))
    hit r key c h fits =
        let x : SendResult × Connection = try_reserve_frame c (frame_bytes f) in
        record {
          connection = x.1;
          found =
              reserved-found r key x ∙ ap (λ b. if b then some x.1 else find fd r.connections) h;
          configured = config-try_reserve_frame c (frame_bytes f);
          follows =
              reserved-hit r key c x h
              ∙ sym (step-broadcast (Pending r c) payload f fits)
              ∙ ap (λ b. round b (Pending r c)) (sym h);
        }

    miss :
        (r : Reserving) (key : ℕ) (c : Connection) (x : SendResult × Connection)
        → eqb key fd ≡ false
        → find fd r.connections ≡ some c
        → Next r c key (reserved loop_of r key x)
    miss r key c x h e = record {
      connection = c;
      found =
          reserved-found r key x ∙ ap (λ b. if b then some x.1 else find fd r.connections) h ∙ e;
      configured = refl;
      follows =
          ap (λ (l : List Frame). record { connection = c; in_flight = base ++ l })
            (reserved-miss r key x h)
          ∙ ap (λ b. round b (Pending r c)) (sym h);
    }

    reserve_one-Follows :
        (r : Reserving) (key : ℕ) (c : Connection)
        → find fd r.connections ≡ some c
        → create payload c.max_frame_len ≡ some f
        → Next r c key (reserve_one loop_of (frame_bytes f) r key)
    reserve_one-Follows r key c e fits = elim (Bool-cases (eqb key fd)) [
      | inl h ↦
          let same : key ≡ fd = eq_sound key fd h in
          subst (Next r c key)
            (sym (reserve_one_found r key c (ap (λ k. find k r.connections) same ∙ e)))
            (hit r key c h fits)
      | inr h ↦ elim (Option-cases (find key r.connections)) [
        | inl unknown ↦ subst (Next r c key) (sym (reserve_one_unknown r key unknown)) (record {
          connection = c;
          found = e;
          configured = refl;
          follows = ap (λ b. round b (Pending r c)) (sym h);
        })
        | inr (other, known) ↦
            subst (Next r c key) (sym (reserve_one_found r key other known))
              (miss r key c (try_reserve_frame other (frame_bytes f)) h e)
      ]
    ]

    pub reserve_all-Follows :
        (r : Reserving) (keys : List ℕ) (c : Connection)
        → find fd r.connections ≡ some c
        → create payload c.max_frame_len ≡ some f
        → Follows c.config
            (reserve_all loop_of (frame_bytes f) r keys)
            (run (Pending r c) (broadcasts_to fd keys payload))
    unfolding reserve_all run
    reserve_all-Follows r [] c e fits = record {
      connection = c;
      found = e;
      configured = refl;
      follows = refl;
    }
    reserve_all-Follows r (key ∷ keys) c e fits =
        let next = reserve_one-Follows r key c e fits in
        let rest =
          reserve_all-Follows (reserve_one loop_of (frame_bytes f) r key) keys next.connection
            next.found
            (ap (λ (k : Config). create payload k.max_frame_len) next.configured ∙ fits) in
        record {
          connection = rest.connection;
          found = rest.found;
          configured = rest.configured ∙ next.configured;
          follows =
              rest.follows
              ∙ ap (λ w. run w (broadcasts_to fd keys payload)) next.follows
              ∙ run-round (eqb key fd) (Pending r c) (broadcasts_to fd keys payload);
        }
