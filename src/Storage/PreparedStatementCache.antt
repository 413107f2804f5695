-- ===== src/Storage/PreparedStatementCache.antt =====
-- src/storage/sql/PreparedStatementCache.cpp: the statements of one connection, at most a given
-- number of them. A statement is a value of any type. `lruIterator` is the place of the name in
-- `lru`, which has each name once. The constructor refuses a capacity of 0.
pub mod Names
pub mod Recency
use project_chat.Common.{
  ℕ, String, not, Option, none, some, List, [], ◌∷◌, length, leb, if◌then◌else◌, ◌==◌, string_key,
  is_empty,
}
use project_chat.Common.KeySet
use project_chat.Common.Map
use project_chat.Common.Map.{Map, find, assign}

pub record Entry (S : Type 0) : Type 0 where
  pub sql_text : String
  pub statement : S

pub record PreparedStatementCache (S : Type 0) : Type 0 where
  pub capacity : ℕ
  pub lru : List String
  pub entries : Map String (Entry S)

-- `lru_.back()` and `lru_.pop_back()`
pub back : String → List String → String
back n [] = n
back n (m ∷ ns) = back m ns

pub pop_back : String → List String → List String
pop_back n [] = []
pop_back n (m ∷ ns) = n ∷ pop_back m ns

module _ {S : Type 0} where
  pub clear : PreparedStatementCache S → PreparedStatementCache S
  clear c = record c { lru = []; entries = [] }

  pub touch : PreparedStatementCache S → String → PreparedStatementCache S
  touch c name = record c { lru = name ∷ KeySet.erase name c.lru }

  pub evict_one : PreparedStatementCache S → PreparedStatementCache S
  evict_one c = elim c.lru [
    | [] ↦ c
    | n ∷ ns ↦ record c { lru = pop_back n ns; entries = Map.erase (back n ns) c.entries }
  ]

  -- After a miss; `prepared` is what the connection prepares, `none` a failure, which throws.
  pub prepare :
      PreparedStatementCache S → String → String → Option S → Option S × PreparedStatementCache S
  prepare c name sql_text prepared =
      let room : PreparedStatementCache S =
        if leb c.capacity (length c.entries) then evict_one c else c in
      elim prepared [
        | none ↦ (none, room)
        | some s ↦ (
          some s,
          record room {
            lru = name ∷ room.lru;
            entries = assign name (record { sql_text = sql_text; statement = s }) room.entries;
          },
        )
      ]

  -- `none` is an exception.
  pub get_or_prepare :
      PreparedStatementCache S → String → String → Option S → Option S × PreparedStatementCache S
  get_or_prepare c name sql_text prepared =
      let dropped : PreparedStatementCache S = record c {
        lru = KeySet.erase name c.lru;
        entries = Map.erase name c.entries;
      } in
      if is_empty name then (none, c) else elim (find name c.entries) [
        | none ↦ prepare c name sql_text prepared
        | some e ↦
            if not (e.sql_text == sql_text)
            then prepare dropped name sql_text prepared
            else (some e.statement, touch c name)
      ]

  abbrev pub new : ℕ → PreparedStatementCache S
  new capacity = record { capacity = capacity; lru = []; entries = [] }

-- A call of a cache; `ask` has what the connection would prepare.
pub data Call (S : Type 0) : Type 0 where
  ask : String → String → Option S → Call S
  reset : Call S

pub step : {S : Type 0} → PreparedStatementCache S → Call S → PreparedStatementCache S
step c (ask name sql_text prepared) = (get_or_prepare c name sql_text prepared).1
step c reset = clear c

pub run : {S : Type 0} → PreparedStatementCache S → List (Call S) → PreparedStatementCache S
run c [] = c
run c (call ∷ calls) = run (step c call) calls
