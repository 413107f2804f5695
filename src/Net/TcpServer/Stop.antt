-- ===== src/Net/TcpServer/Stop.antt =====
-- The stop of a server.
use project_chat.Common.{
  ℕ, ◌≡◌, refl, ap, Bool, true, false, not, ◌||◌, List, [], ◌∷◌, ◌++◌, arith, if-cases, nat_key,
}
use project_chat.Common.Map
use project_chat.Common.Map.{Map, assign, has}
use project_chat.Net.TcpServer.{
  TcpServer, Parts, Effect, stop_accepting_messages, stop_maintenance, stop_acceptor, discard_redis,
  drain_messages, drain_db_reads, drain_background, shut_down_im, close_redis, stop_io_loops,
  call_quit, one_of, no_connections, new, new_connection, create_connection, add_connection,
  remove_connection, stop_in_base_loop, try_finish_stop, finish_stop, finalize_stop, close_all,
  Step, accept, create, add, remove, stop, finalize, Reach, here, next,
}

-- What a stop has done so far, by how far it is; the last thing first.
abbrev pub begun : Parts → List Effect
begun p = stop_acceptor ∷ (one_of p.maintenance stop_maintenance ++ (stop_accepting_messages ∷ []))

abbrev pub drained : Parts → List Effect
drained p =
    one_of p.db_read_executor drain_db_reads
    ++ (one_of p.message_executor drain_messages
        ++ (one_of p.redis_executor discard_redis ++ begun p))

abbrev pub ended : Parts → List Effect
ended p =
    one_of p.quit_callback call_quit
    ++ (stop_io_loops
        ∷ (one_of p.redis_client close_redis ++ (shut_down_im ∷ drain_background ∷ drained p)))

-- The state of a stop and what it has done.
pub data Phase (s : TcpServer) : Type 0 where
  running :
      s.stopping ≡ false
      → s.final_stop_queued ≡ false
      → s.stopped ≡ false
      → s.finalize_queued ≡ false
      → s.log ≡ []
      → Phase s
  closing :
      s.stopping ≡ true
      → s.final_stop_queued ≡ false
      → s.stopped ≡ false
      → s.finalize_queued ≡ false
      → s.log ≡ begun s.parts
      → Phase s
  draining :
      s.stopping ≡ true
      → s.final_stop_queued ≡ true
      → s.stopped ≡ false
      → s.finalize_queued ≡ true
      → s.connections ≡ []
      → s.log ≡ drained s.parts
      → Phase s
  over :
      s.stopping ≡ true
      → s.final_stop_queued ≡ true
      → s.stopped ≡ true
      → s.finalize_queued ≡ false
      → s.connections ≡ []
      → s.log ≡ ended s.parts
      → Phase s

empty_of : (m : Map ℕ ℕ) → no_connections m ≡ true → m ≡ []
empty_of [] h = refl
empty_of (c ∷ m) h = cc

erase_empty : (fd : ℕ) (m : Map ℕ ℕ) → m ≡ [] → Map.erase fd m ≡ []
unfolding Map.erase
erase_empty fd [] h = refl
erase_empty fd (c ∷ m) h = cc

-- From the closing phase, the stop goes on when no connection is left.
closing-try_finish :
    (s : TcpServer)
    → s.stopping ≡ true
    → s.final_stop_queued ≡ false
    → s.stopped ≡ false
    → s.finalize_queued ≡ false
    → s.log ≡ begun s.parts
    → Phase (try_finish_stop s)
unfolding try_finish_stop finish_stop
closing-try_finish s a b c d e =
    if-cases Phase (not s.stopping) (λ no. absurd (ground arith))
      (λ _.
        if-cases Phase (not (no_connections s.connections)) (λ _. closing a b c d e)
          (λ none.
            if-cases Phase s.final_stop_queued (λ no. absurd (ground arith))
              (λ _. draining a refl c refl (empty_of s.connections (ground arith)) (
                ap
                  (λ (l : List Effect).
                    one_of s.parts.db_read_executor drain_db_reads
                    ++ (one_of s.parts.message_executor drain_messages
                        ++ (one_of s.parts.redis_executor discard_redis ++ l)))
                  e))))

still_running : (s : TcpServer) → s.stopping ≡ false → Phase s → Phase (try_finish_stop s)
unfolding try_finish_stop
still_running s h p = if-cases Phase (not s.stopping) (λ _. p) (λ no. absurd (ground arith))

queued-try_finish :
    (s : TcpServer) → s.final_stop_queued ≡ true → Phase s → Phase (try_finish_stop s)
unfolding try_finish_stop finish_stop
queued-try_finish s q p =
    if-cases Phase (not s.stopping) (λ _. p)
      (λ _.
        if-cases Phase (not (no_connections s.connections)) (λ _. p)
          (λ _. if-cases Phase s.final_stop_queued (λ _. p) (λ no. absurd (ground arith))))

-- Fields that no phase speaks of.
apart :
    (s : TcpServer) (closed forced disconnected : List ℕ)
    → Phase s
    → Phase (record s { closed_fds = closed; forced = forced; disconnected = disconnected })
apart s x y z (running a b c d e) = running a b c d e
apart s x y z (closing a b c d e) = closing a b c d e
apart s x y z (draining a b c d e f) = draining a b c d e f
apart s x y z (over a b c d e f) = over a b c d e f

-- A new connection is only kept before the stop.
added :
    (s : TcpServer) (fd connection : ℕ)
    → s.stopping ≡ false
    → Phase s
    → Phase (record s { connections = assign fd connection s.connections })
added s fd connection h (running a b c d e) = running a b c d e
added s fd connection h (closing a b c d e) = absurd (ground arith)
added s fd connection h (draining a b c d e f) = absurd (ground arith)
added s fd connection h (over a b c d e f) = absurd (ground arith)

removed :
    (s : TcpServer) (fd : ℕ) (gone : List ℕ)
    → Phase s
    → Phase (
        try_finish_stop
          (record s { connections = Map.erase fd s.connections; disconnected = gone }))
removed s fd gone (running a b c d e) = still_running _ a (running a b c d e)
removed s fd gone (closing a b c d e) = closing-try_finish _ a b c d e
removed s fd gone (draining a b c d e f) =
    queued-try_finish _ b (draining a b c d (erase_empty fd s.connections e) f)
removed s fd gone (over a b c d e f) =
    queued-try_finish _ b (over a b c d (erase_empty fd s.connections e) f)

stopped_now : (s : TcpServer) → Phase s → Phase (stop_in_base_loop s)
unfolding stop_in_base_loop close_all
stopped_now s (running a b c d e) =
    if-cases Phase s.stopping (λ no. absurd (ground arith))
      (λ _. closing-try_finish _ refl b c d (
        ap
          (λ (l : List Effect).
            stop_acceptor
            ∷ (one_of s.parts.maintenance stop_maintenance ++ (stop_accepting_messages ∷ l)))
          e))
stopped_now s (closing a b c d e) =
    if-cases Phase s.stopping (λ _. closing a b c d e) (λ no. absurd (ground arith))
stopped_now s (draining a b c d e f) =
    if-cases Phase s.stopping (λ _. draining a b c d e f) (λ no. absurd (ground arith))
stopped_now s (over a b c d e f) =
    if-cases Phase s.stopping (λ _. over a b c d e f) (λ no. absurd (ground arith))

finalized : (s : TcpServer) → s.finalize_queued ≡ true → Phase s → Phase (finalize_stop s)
unfolding finalize_stop
finalized s h (running a b c d e) = absurd (ground arith)
finalized s h (closing a b c d e) = absurd (ground arith)
finalized s h (draining a b c d e f) =
    if-cases Phase s.stopped (λ no. absurd (ground arith))
      (λ _. over a b refl refl e (
        ap
          (λ (l : List Effect).
            one_of s.parts.quit_callback call_quit
            ++ (stop_io_loops
                ∷ (one_of s.parts.redis_client close_redis
                    ++ (shut_down_im ∷ drain_background ∷ l))))
          f))
finalized s h (over a b c d e f) = absurd (ground arith)

Step-Phase : {s t : TcpServer} → Step s t → Phase s → Phase t
unfolding new_connection create_connection add_connection remove_connection
Step-Phase (accept s fd) p =
    if-cases (λ (x : Bool × TcpServer). Phase x.1) (s.stopping || has fd s.connections)
      (λ _. apart s _ _ _ p) (λ _. p)
Step-Phase (create s fd) p =
    if-cases (λ (x : Bool × TcpServer). Phase x.1) s.stopping (λ _. apart s _ _ _ p) (λ _. p)
Step-Phase (add s fd connection) p =
    if-cases Phase s.stopping (λ _. apart s _ _ _ p) (λ h. added s fd connection h p)
Step-Phase (remove s fd connection) p = removed s fd (connection ∷ s.disconnected) p
Step-Phase (stop s) p = stopped_now s p
Step-Phase (finalize s h) p = finalized s h p

-- Whatever connections are accepted, added and removed, and however often the server is stopped, a
-- new server is in one of four phases, and has done to its other parts exactly what the phase says,
-- each once and in order: it runs and has done nothing; it has begun to stop; it has no connection
-- any more, its executors are drained and its end is queued once; or it has no connection, has shut
-- the rest down and called back to quit, with nothing queued.
pub Reach-Phase : (parts : Parts) {s : TcpServer} → Reach (new parts) s → Phase s
Reach-Phase parts here = running refl refl refl refl refl
Reach-Phase parts (next r st) = Step-Phase st (Reach-Phase parts r)
