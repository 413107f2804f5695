-- ===== src/Tests/Statements.antt =====
-- A cache of two statements, asked for three.
use project_chat.Common.{ℕ, some, none, List, [], ◌∷◌, arith}
use project_chat.Storage.PreparedStatementCache.{Call, ask, new, run, get_or_prepare}
use project_chat.Storage.PreparedStatementCache.Recency.{Served, run-Served}

abbrev calls : List (Call ℕ)
calls =
    ask "find_user" "SELECT 1" (some 1)
    ∷ ask "find_group" "SELECT 2" (some 2)
    ∷ ask "find_user" "SELECT 1" none
    ∷ []

run-Served_example :
    Served "find_friend" "SELECT 3"
      (get_or_prepare (run (new 2) calls) "find_friend" "SELECT 3" (some 3))
run-Served_example = run-Served 2 calls "find_friend" "SELECT 3" (some 3) (omega arith)
