-- ===== src/Storage/SqlConnectionPool.antt =====
-- src/storage/sql/SqlConnectionPool.cpp and SqlConnectionGuard.cpp: the connections that are lent
-- to guards. A connection is a number, as its address is; whether a new one connects is a
-- parameter. `mutex_` is held over each change, so an operation is one step on the pool.
pub mod Exclusive
pub mod Capacity
use project_chat.Common.{
  ℕ, zero, suc, ◌+◌, ◌-◌, ◌%◌, ◌^◌, Bool, true, false, ◌&&◌, Option, none, some, List, [], ◌∷◌,
  ◌++◌, length, eqb, if◌then◌else◌,
}
use project_chat.Common.Counts.{mem, remove_first}

-- The number of the next connection stands for the allocation of it.
pub record SqlConnectionPool : Type 0 where
  pub pool_size : ℕ
  pub connections : List ℕ
  pub idle : List ℕ
  pub started : Bool
  pub reconnects : ℕ
  pub replace_failures : ℕ
  pub acquire_count : ℕ
  pub acquire_timeouts : ℕ
  pub next_connection : ℕ

unfoldable pub new : ℕ → SqlConnectionPool
new pool_size = record {
  pool_size = pool_size;
  connections = [];
  idle = [];
  started = false;
  reconnects = 0;
  replace_failures = 0;
  acquire_count = 0;
  acquire_timeouts = 0;
  next_connection = 0;
}

-- `fetch_add(1)` on 64 bits.
abbrev pub add_one : ℕ → ℕ
add_one n = (n + 1) % 2 ^ 64

-- The loop of `start`, over as many connections as are still to come.
unfoldable pub connect_all : (ℕ → Bool) → ℕ → SqlConnectionPool → Bool × SqlConnectionPool
connect_all connects zero p = (true, p)
connect_all connects (suc n) p =
    let conn = p.next_connection in
    let rest = connect_all connects n (record p {
      idle = p.idle ++ (conn ∷ []);
      connections = p.connections ++ (conn ∷ []);
      next_connection = suc conn;
    }) in
    if connects conn
    then rest
    else (false, record p { idle = []; connections = []; next_connection = suc conn })

unfoldable pub start : (ℕ → Bool) → SqlConnectionPool → Bool × SqlConnectionPool
unfolding connect_all
start connects p =
    let (connected, after) = connect_all connects p.pool_size p in
    if p.started
    then (true, p)
    else if connected
    then (true, record after { started = true })
    else (false, after)

pub stop : SqlConnectionPool → SqlConnectionPool
stop p = record p { idle = []; connections = []; started = false }

-- When the wait is over. `none` is a guard without a connection.
pub acquire_for : SqlConnectionPool → Option ℕ × SqlConnectionPool
acquire_for p = elim p.idle [
  | [] ↦
      if p.started
      then (none, record p { acquire_timeouts = add_one p.acquire_timeouts })
      else (none, p)
  | conn ∷ idle ↦
      if p.started
      then (some conn, record p { idle = idle; acquire_count = add_one p.acquire_count })
      else (none, p)
]

-- The first of them that is `old` becomes `new`; `none` if there is none.
pub replace_in : ℕ → ℕ → List ℕ → Option (List ℕ)
replace_in old conn [] = none
replace_in old conn (c ∷ cs) =
    let rest = replace_in old conn cs in
    if eqb c old then some (conn ∷ cs) else elim rest [ none ↦ none | some cs' ↦ some (c ∷ cs') ]

pub replace_connection : (ℕ → Bool) → ℕ → SqlConnectionPool → Bool × SqlConnectionPool
unfolding replace_in
replace_connection connects old p =
    let conn = p.next_connection in
    let p' : SqlConnectionPool = record p { next_connection = suc conn } in
    let failed : SqlConnectionPool = record p' { replace_failures = add_one p.replace_failures } in
    if connects conn && p.started
    then elim (replace_in old conn p.connections) [
      | none ↦ (false, failed)
      | some connections ↦ (
        true,
        record p' {
          connections = connections;
          idle = p.idle ++ (conn ∷ []);
          reconnects = add_one p.reconnects;
        },
      )
    ]
    else (false, failed)

-- What a guard does at its end: `reusable` is what the connection says of itself.
pub release : (ℕ → Bool) → ℕ → Bool → SqlConnectionPool → SqlConnectionPool
unfolding replace_connection
release connects conn reusable p =
    if reusable
    then (if p.started then record p { idle = p.idle ++ (conn ∷ []) } else p)
    else (replace_connection connects conn p).1

pub record SqlConnectionPoolStats : Type 0 where
  pub total : ℕ
  pub idle : ℕ
  pub in_use : ℕ
  pub acquire_timeouts : ℕ
  pub reconnects : ℕ
  pub replace_failures : ℕ
  pub acquire_count : ℕ
  pub started : Bool

-- The subtraction wraps around at 64 bits. The time limit is left out.
pub stats : SqlConnectionPool → SqlConnectionPoolStats
stats p =
    let total = length p.connections in
    let idle = length p.idle in
    record {
      total = total;
      idle = idle;
      in_use = (total + 2 ^ 64 - idle) % 2 ^ 64;
      acquire_timeouts = p.acquire_timeouts;
      reconnects = p.reconnects;
      replace_failures = p.replace_failures;
      acquire_count = p.acquire_count;
      started = p.started;
    }

pub size : SqlConnectionPool → ℕ
size p = length p.connections

all_ping : (ℕ → Bool) → List ℕ → Bool
all_ping ping [] = true
all_ping ping (c ∷ cs) = ping c && all_ping ping cs

pub healthy : (ℕ → Bool) → SqlConnectionPool → Bool
unfolding all_ping
healthy ping p = all_ping ping p.connections

-- A pool with the connections that living guards hold.
pub record Lending : Type 0 where
  pub pool : SqlConnectionPool
  pub held : List ℕ

-- A guard is made by `acquire` and ends by giving back what it holds.
pub data Event : Type 0 where
  start_pool stop_pool acquire : Event
  give_back : ℕ → Bool → Event

abbrev pub hold : Option ℕ → List ℕ → List ℕ
hold none held = held
hold (some conn) held = conn ∷ held

pub step : (ℕ → Bool) → Lending → Event → Lending
unfolding start stop acquire_for release
step connects l start_pool = record l { pool = (start connects l.pool).1 }
step connects l stop_pool = record l { pool = stop l.pool }
step connects l acquire =
    let (got, pool) = acquire_for l.pool in record { pool = pool; held = hold got l.held }
step connects l (give_back conn reusable) =
    if mem conn l.held
    then record { pool = release connects conn reusable l.pool; held = remove_first conn l.held }
    else l

pub run : (ℕ → Bool) → Lending → List Event → Lending
unfolding step
run connects l [] = l
run connects l (e ∷ es) = run connects (step connects l e) es
