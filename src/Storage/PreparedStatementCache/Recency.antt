-- ===== src/Storage/PreparedStatementCache/Recency.antt =====
-- The names of a cache and its entries, over any calls.
use project_chat.Common.{
  ℕ, ◌≤◌, ◌<◌, ◌≡◌, refl, sym, ◌∙◌, ap, String, true, false, not, Option, none, some, List, [], ◌∷◌,
  length, leb, if◌then◌else◌, ◌==◌, string_key, is_empty, arith, text_iff, eq_sound, if-cases,
  Option-both, Bool-cases, ◌⊎◌, inl, inr,
}
use project_chat.Common.KeySet
use project_chat.Common.KeySet.{contains, contains-erase}
use project_chat.Common.Map
use project_chat.Common.Map.{Map, find, assign, has, find-erase, find-assign, is_some}
use project_chat.Storage.PreparedStatementCache.{
  Entry, PreparedStatementCache, back, clear, touch, evict_one, prepare, get_or_prepare, new, Call,
  ask, reset, step, run,
}
use project_chat.Storage.PreparedStatementCache.Names.{
  Distinct, Distinct-pop_back, Distinct-erase, contains-pop_back, contains-back, length-erase,
  length-erase_found, length-assign,
}

module _ {S : Type 0} where
  pub record IsRecent (c : PreparedStatementCache S) : Type 0 where
    pub agrees : (n : String) → contains n c.lru ≡ has n c.entries
    pub distinct : Distinct c.lru
    pub positive : 0 < c.capacity
    pub bounded : length c.entries ≤ c.capacity

  -- Room for one more.
  record HasRoom (c : PreparedStatementCache S) : Type 0 where
    recent : IsRecent c
    room : length c.entries < c.capacity

  no_entries : (m : Map String (Entry S)) → ((n : String) → false ≡ has n m) → length m ≡ 0
  unfolding find
  no_entries [] h = refl
  no_entries ((k, e) ∷ m) h = absurd (ground (arith, h k, text_iff k k))

  evicted :
      (capacity : ℕ) (lru : List String) (m : Map String (Entry S))
      → IsRecent (record { capacity = capacity; lru = lru; entries = m })
      → HasRoom (evict_one (record { capacity = capacity; lru = lru; entries = m }))
  unfolding evict_one contains
  evicted capacity [] m r = record {
    recent = r;
    room = omega (arith, no_entries m r.agrees, r.positive);
  }
  evicted capacity (n ∷ ns) m r =
      let last : String = back n ns in
      let there : has last m ≡ true = sym (r.agrees last) ∙ contains-back n ns in
      let shorter : length (Map.erase last m) < length m = length-erase_found last m there in
      record {
        recent = record {
          agrees = λ j.
              ground (arith, find-erase last j m, r.agrees j, contains-pop_back j n ns r.distinct);
          distinct = Distinct-pop_back n ns r.distinct;
          positive = r.positive;
          bounded = omega (arith, shorter, r.bounded);
        };
        room = omega (arith, shorter, r.bounded);
      }

  evict_one-HasRoom : (c : PreparedStatementCache S) → IsRecent c → HasRoom (evict_one c)
  evict_one-HasRoom c r = evicted c.capacity c.lru c.entries r

  still_missing :
      (j : String) (lru : List String) (capacity : ℕ) (m : Map String (Entry S))
      → has j m ≡ false
      → has j (evict_one (record { capacity = capacity; lru = lru; entries = m })).entries ≡ false
  unfolding evict_one
  still_missing j [] capacity m h = h
  still_missing j (n ∷ ns) capacity m h = ground (arith, find-erase (back n ns) j m)

  touch-IsRecent :
      (c : PreparedStatementCache S) (name : String)
      → IsRecent c
      → has name c.entries ≡ true
      → IsRecent (touch c name)
  unfolding touch contains
  touch-IsRecent c name r h = record {
    agrees = λ j. elim (Bool-cases (name == j)) [
      | inl e ↦
          let same : name ≡ j = eq_sound name j e in
          let kept : has j c.entries ≡ true = rw (← same) h in ground (arith, e, kept)
      | inr e ↦ ground (arith, e, contains-erase name j c.lru, r.agrees j)
    ];
    distinct = (
      contains-erase name name c.lru ∙ ground (arith, text_iff name name),
      Distinct-erase name c.lru r.distinct,
    );
    positive = r.positive;
    bounded = r.bounded;
  }

  -- What a call answers is kept under the name, with the text.
  pub record Served (name sql_text : String) (out : Option S × PreparedStatementCache S)
      : Type 0 where
    pub recent : IsRecent out.1
    pub kept :
        (out.0 ≡ none)
        ⊎ ((s : S) × ((out.0 ≡ some s)
              × (find name out.1.entries ≡ some (record { sql_text = sql_text; statement = s }))))

  added :
      (c : PreparedStatementCache S) (name sql_text : String) (s : S)
      → HasRoom c
      → has name c.entries ≡ false
      → Served name sql_text (
        some s,
        record c {
          lru = name ∷ c.lru;
          entries = assign name (record { sql_text = sql_text; statement = s }) c.entries;
        },
      )
  unfolding contains
  added c name sql_text s h missing =
      let e : Entry S = record { sql_text = sql_text; statement = s } in
      record {
        recent = record {
          agrees = λ j. ground (arith, find-assign name j e c.entries, h.recent.agrees j);
          distinct = (h.recent.agrees name ∙ missing, h.recent.distinct);
          positive = h.recent.positive;
          bounded = omega (arith, length-assign name e c.entries, h.room);
        };
        kept =
            inr (s, (refl, find-assign name name e c.entries ∙ ground (arith, text_iff name name)));
      }

  prepare-Served :
      (c : PreparedStatementCache S) (name sql_text : String) (prepared : Option S)
      → IsRecent c
      → has name c.entries ≡ false
      → Served name sql_text (prepare c name sql_text prepared)
  unfolding prepare
  prepare-Served c name sql_text prepared r missing =
      let Fine = λ (x : PreparedStatementCache S). HasRoom x × (has name x.entries ≡ false) in
      let room : PreparedStatementCache S =
        if leb c.capacity (length c.entries) then evict_one c else c in
      let fine : Fine room =
        if-cases Fine (leb c.capacity (length c.entries))
          (λ _. (evict_one-HasRoom c r, still_missing name c.lru c.capacity c.entries missing))
          (λ b. (record { recent = r; room = ground (arith, b) }, missing)) in
      Option-both (Served name sql_text) prepared
        (λ _. record { recent = fine.0.recent; kept = inl refl })
        (λ s _. added room name sql_text s fine.0 fine.1)

  dropped-IsRecent :
      (c : PreparedStatementCache S) (name : String)
      → IsRecent c
      → IsRecent (record c { lru = KeySet.erase name c.lru; entries = Map.erase name c.entries })
  dropped-IsRecent c name r = record {
    agrees =
        λ j. ground (arith, contains-erase name j c.lru, find-erase name j c.entries, r.agrees j);
    distinct = Distinct-erase name c.lru r.distinct;
    positive = r.positive;
    bounded = omega (arith, length-erase name c.entries, r.bounded);
  }

  -- A hit, with the same text or another one.
  found-Served :
      (c : PreparedStatementCache S) (name sql_text : String) (prepared : Option S) (e : Entry S)
      → IsRecent c
      → find name c.entries ≡ some e
      → Served name sql_text (
          if not (e.sql_text == sql_text)
          then prepare
              (record c { lru = KeySet.erase name c.lru; entries = Map.erase name c.entries })
              name
              sql_text
              prepared
          else (some e.statement, touch c name))
  unfolding touch
  found-Served c name sql_text prepared e r h =
      if-cases (Served name sql_text) (not (e.sql_text == sql_text))
        (λ _.
          prepare-Served _ name sql_text prepared (dropped-IsRecent c name r)
            (ground (arith, find-erase name name c.entries, text_iff name name)))
        (λ b.
          let same : e.sql_text ≡ sql_text = eq_sound e.sql_text sql_text (ground (arith, b)) in
          record {
            recent = touch-IsRecent c name r (rw (h) refl);
            kept = inr (
              e.statement,
              (refl, h ∙ ap (λ t. some (record { sql_text = t; statement = e.statement })) same),
            );
          })

  get_or_prepare-Served :
      (c : PreparedStatementCache S) (name sql_text : String) (prepared : Option S)
      → IsRecent c
      → Served name sql_text (get_or_prepare c name sql_text prepared)
  unfolding get_or_prepare
  get_or_prepare-Served c name sql_text prepared r =
      if-cases (Served name sql_text) (is_empty name) (λ _. record { recent = r; kept = inl refl })
        (λ _.
          Option-both (Served name sql_text) (find name c.entries)
            (λ h. prepare-Served c name sql_text prepared r (ap is_some h))
            (λ e h. found-Served c name sql_text prepared e r h))

  run-IsRecent :
      (c : PreparedStatementCache S) (cs : List (Call S)) → IsRecent c → IsRecent (run c cs)
  unfolding run step clear contains find
  run-IsRecent c [] r = r
  run-IsRecent c (ask name sql_text prepared ∷ cs) r =
      run-IsRecent (get_or_prepare c name sql_text prepared).1 cs
        (get_or_prepare-Served c name sql_text prepared r).recent
  run-IsRecent c (reset ∷ cs) r = run-IsRecent (clear c) cs (record {
    agrees = λ _. refl;
    distinct = tt;
    positive = r.positive;
    bounded = omega (arith, r.positive);
  })

  -- After any calls of a new cache with room for one statement at least, failed calls included, the
  -- names in the order of use are those of the statements, each once, and there are no more than the
  -- capacity; and a statement that the next call answers with is kept under its name with just the
  -- text that was asked for.
  pub run-Served :
      (capacity : ℕ) (cs : List (Call S)) (name sql_text : String) (prepared : Option S)
      → 0 < capacity
      → Served name sql_text (get_or_prepare (run (new capacity) cs) name sql_text prepared)
  unfolding contains find
  run-Served capacity cs name sql_text prepared h =
      get_or_prepare-Served (run (new capacity) cs) name sql_text prepared (
        run-IsRecent (new capacity) cs
          (record { agrees = λ _. refl; distinct = tt; positive = h; bounded = omega (arith, h) }))
