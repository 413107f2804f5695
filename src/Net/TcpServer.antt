-- ===== src/Net/TcpServer.antt =====
-- src/TcpServer.cpp: the connections that the base loop keeps, and the way to a stop. Each method runs
-- on the base loop, one at a time. `log` lists, the last one first, what the stop does to the other
-- parts. A connection is known by its file descriptor; which loop it is on, the timers and what is
-- only logged are left out. That a connection is told to close is in `forced`: it answers with a
-- removal later.
pub mod Stop
pub mod Batch
use project_chat.Common.{
  ℕ, ◌≡◌, Bool, true, false, not, ◌||◌, List, [], ◌∷◌, ◌++◌, map, if◌then◌else◌, nat_key,
}
use project_chat.Common.Map
use project_chat.Common.Map.{Map, assign, has}

pub data Effect : Type 0 where
  stop_accepting_messages stop_maintenance stop_acceptor : Effect
  discard_redis drain_messages drain_db_reads : Effect
  drain_background shut_down_im close_redis stop_io_loops call_quit : Effect

-- Which parts the configuration made.
pub record Parts : Type 0 where
  pub maintenance : Bool
  pub redis_executor : Bool
  pub redis_client : Bool
  pub message_executor : Bool
  pub db_read_executor : Bool
  pub quit_callback : Bool

-- `connections_` has a number for each connection object.
pub record TcpServer : Type 0 where
  pub parts : Parts
  pub stopping : Bool
  pub final_stop_queued : Bool
  pub stopped : Bool
  pub connections : Map ℕ ℕ
  pub closed_fds : List ℕ
  pub forced : List ℕ
  pub disconnected : List ℕ
  -- `finalizeStopInBaseLoop` waits in the base loop.
  pub finalize_queued : Bool
  pub log : List Effect

abbrev pub one_of : Bool → Effect → List Effect
one_of b e = if b then e ∷ [] else []

-- `newConnection`, up to the loop of the connection: `true` when a connection is to be made.
pub new_connection : TcpServer → ℕ → Bool × TcpServer
new_connection s fd =
    if s.stopping || has fd s.connections
    then (false, record s { closed_fds = fd ∷ s.closed_fds })
    else (true, s)

-- On the loop of the connection: `true` when it is made.
pub create_connection : TcpServer → ℕ → Bool × TcpServer
create_connection s fd =
    if s.stopping then (false, record s { closed_fds = fd ∷ s.closed_fds }) else (true, s)

-- Back on the base loop, with `addConnectionInBaseLoop`.
unfoldable pub add_connection : TcpServer → ℕ → ℕ → TcpServer
add_connection s fd connection =
    if s.stopping
    then record s { forced = connection ∷ s.forced }
    else record s { connections = assign fd connection s.connections }

unfoldable pub finish_stop : TcpServer → TcpServer
finish_stop s = if s.final_stop_queued then s else record s {
  final_stop_queued = true;
  finalize_queued = true;
  log =
      one_of s.parts.db_read_executor drain_db_reads
      ++ (one_of s.parts.message_executor drain_messages
          ++ (one_of s.parts.redis_executor discard_redis ++ s.log));
}

abbrev pub no_connections : Map ℕ ℕ → Bool
no_connections [] = true
no_connections (c ∷ cs) = false

unfoldable pub try_finish_stop : TcpServer → TcpServer
unfolding finish_stop
try_finish_stop s =
    if not s.stopping then s else if not (no_connections s.connections) then s else finish_stop s

unfoldable pub remove_connection : TcpServer → ℕ → ℕ → TcpServer
unfolding try_finish_stop
remove_connection s fd connection = try_finish_stop (record s {
  connections = Map.erase fd s.connections;
  disconnected = connection ∷ s.disconnected;
})

-- `closeAllConnections`
unfoldable pub close_all : TcpServer → TcpServer
close_all s = record s { forced = map (λ c. c.1) s.connections ++ s.forced }

unfoldable pub stop_in_base_loop : TcpServer → TcpServer
unfolding close_all try_finish_stop
stop_in_base_loop s =
    if s.stopping
    then s
    else try_finish_stop (
        close_all (record s {
          stopping = true;
          log =
              stop_acceptor
              ∷ (one_of s.parts.maintenance stop_maintenance ++ (stop_accepting_messages ∷ s.log));
        }))

-- The queued call.
pub finalize_stop : TcpServer → TcpServer
finalize_stop s = if s.stopped then record s { finalize_queued = false } else record s {
  finalize_queued = false;
  stopped = true;
  log =
      one_of s.parts.quit_callback call_quit
      ++ (stop_io_loops
          ∷ (one_of s.parts.redis_client close_redis ++ (shut_down_im ∷ drain_background ∷ s.log)));
}

abbrev pub new : Parts → TcpServer
new parts = record {
  parts = parts;
  stopping = false;
  final_stop_queued = false;
  stopped = false;
  connections = [];
  closed_fds = [];
  forced = [];
  disconnected = [];
  finalize_queued = false;
  log = [];
}

-- What happens to a server: connections come and go, it is stopped, and the queued call runs.
pub data Step : TcpServer → TcpServer → Type 0 where
  accept : (s : TcpServer) (fd : ℕ) → Step s (new_connection s fd).1
  create : (s : TcpServer) (fd : ℕ) → Step s (create_connection s fd).1
  add : (s : TcpServer) (fd connection : ℕ) → Step s (add_connection s fd connection)
  remove : (s : TcpServer) (fd connection : ℕ) → Step s (remove_connection s fd connection)
  stop : (s : TcpServer) → Step s (stop_in_base_loop s)
  finalize : (s : TcpServer) → s.finalize_queued ≡ true → Step s (finalize_stop s)

pub data Reach (s : TcpServer) : TcpServer → Type 0 where
  here : Reach s s
  next : {t u : TcpServer} → Reach s t → Step t u → Reach s u
