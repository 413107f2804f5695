-- ===== src/Tests/Servers.antt =====
-- A server with every part, that is stopped while it has one connection; and a frame for one connection
-- twice, one of another loop and one that is not there.
use project_chat.Common.{ℕ, ◌%◌, ◌≡◌, refl, true, List, [], ◌∷◌, some, arith}
use project_chat.Common.Map
use project_chat.Net.TcpServer.{
  TcpServer, Parts, new, add, remove, stop, finalize, Reach, here, next, add_connection,
  stop_in_base_loop, remove_connection, try_finish_stop, finish_stop, finalize_stop, close_all,
}
use project_chat.Net.TcpServer.Stop.{Phase, Reach-Phase}
use project_chat.Net.TcpServer.Batch.{Loops, send_batch}
use project_chat.Net.TcpServer.Batch.Fanout.{Delivers, send_batch-Delivers}
use project_chat.Net.Connection.{Config, Connection}
use project_chat.Net.Connection.Backlog.{established}

abbrev every_part : Parts
every_part = record {
  maintenance = true;
  redis_executor = true;
  redis_client = true;
  message_executor = true;
  db_read_executor = true;
  quit_callback = true;
}

abbrev connected : TcpServer
connected = add_connection (new every_part) 5 50

abbrev empty_again : TcpServer
empty_again = remove_connection (stop_in_base_loop connected) 5 50

waits : empty_again.finalize_queued ≡ true
unfolding add_connection stop_in_base_loop close_all remove_connection try_finish_stop finish_stop
    Map.assign Map.erase
waits = refl

stopped : Reach (new every_part) (finalize_stop empty_again)
stopped =
    next
      (next (next (next here (add (new every_part) 5 50)) (stop connected))
        (remove (stop_in_base_loop connected) 5 50))
      (finalize empty_again waits)

Reach-Phase_example : Phase (finalize_stop empty_again)
Reach-Phase_example = Reach-Phase every_part stopped

abbrev small : Config
small = record {
  max_frame_len = 100;
  high_water_mark = 8;
  low_water_mark = 4;
  hard_limit = 10;
  max_overload_drop_count = 3;
}

-- Its hard limit has room for one of the two frames below.
abbrev narrow : Connection
narrow = (established small).connection

abbrev two_loops : Loops
two_loops = record { connections = (5, narrow) ∷ (6, narrow) ∷ []; tasks = [] }

abbrev loop_number : ℕ → ℕ
loop_number fd = fd % 2

abbrev keys : List ℕ
keys = 5 ∷ 9 ∷ 6 ∷ 5 ∷ []

send_batch-Delivers_example :
    Delivers loop_number two_loops keys
      (104 ∷ 105 ∷ [])
      5
      narrow
      (send_batch loop_number 100 two_loops keys (some (104 ∷ 105 ∷ [])))
unfolding Map.find established
send_batch-Delivers_example =
    send_batch-Delivers loop_number two_loops keys (104 ∷ 105 ∷ []) 5 narrow (omega arith) refl
