-- ===== src/Net/Batch.antt =====
-- include/net/SendTypes.h, `BatchSendResult`: what became of the sends of one broadcast, counted.
pub mod Totals
use project_chat.Common.{ℕ, List, [], ◌∷◌, ltb, if◌then◌else◌}
use project_chat.Net.Connection.{
  add_size, SendResult, ok, no_such_connection, closed, overloaded, failed,
}

pub record BatchSendResult : Type 0 where
  pub sent : ℕ
  pub no_such_connections : ℕ
  pub closed_connections : ℕ
  pub overloaded_connections : ℕ
  pub failures : ℕ

abbrev pub no_results : BatchSendResult
no_results = record {
  sent = 0;
  no_such_connections = 0;
  closed_connections = 0;
  overloaded_connections = 0;
  failures = 0;
}

pub add : BatchSendResult → SendResult → BatchSendResult
add b ok = record b { sent = add_size b.sent 1 }
add b no_such_connection = record b { no_such_connections = add_size b.no_such_connections 1 }
add b closed = record b { closed_connections = add_size b.closed_connections 1 }
add b overloaded = record b { overloaded_connections = add_size b.overloaded_connections 1 }
add b failed = record b { failures = add_size b.failures 1 }

-- `add` for one result after the other.
pub add_all : BatchSendResult → List SendResult → BatchSendResult
unfolding add
add_all b [] = b
add_all b (r ∷ rs) = add_all (add b r) rs

pub dropped : BatchSendResult → ℕ
dropped b =
    add_size
      (add_size (add_size b.no_such_connections b.closed_connections) b.overloaded_connections)
      b.failures

pub total : BatchSendResult → ℕ
unfolding dropped
total b = add_size b.sent (dropped b)

pub single_result : BatchSendResult → SendResult
single_result b =
    if ltb 0 b.sent
    then ok
    else if ltb 0 b.overloaded_connections
    then overloaded
    else if ltb 0 b.closed_connections
    then closed
    else if ltb 0 b.no_such_connections
    then no_such_connection
    else failed
