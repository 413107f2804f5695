-- ===== src/Im/ImCodec/Parsers/Limits.antt =====
-- What the parsers let through.
use project_chat.Common.{
  ℕ, ◌+◌, ◌≤◌, ◌<◌, String, ◌≡◌, true, false, not, ◌&&◌, Option, none, some, List, [], ◌∷◌, ◌++◌,
  arith, length, length-append, ◌⊎◌, inl, inr, is_empty, ltb, eqb, le_of_ltb, if-cases, Option-both,
}
use project_chat.Common.Int.{ℤ, pos, negsuc, is_positive, to_uint64}
use project_chat.Im.Json.{Json}
use project_chat.Im.ErrorCode.{ErrorCode}
use project_chat.Im.ImMessage.{Request, Response}
use project_chat.Im.MessageSyncService.{SyncCursor, ConversationType, unknown, direct, group}
use project_chat.Im.ImCodec.Parsers.{
  HistoryQuery, HistoryQueryMode, latest, before, after, acknowledged, ack_refused, parsed, refused,
  read_id, read_ids, parse_uint64_array_field, parse_message_ack, query_mode, parse_history_query,
  parse_cursor, parse_cursors, parse_sync_cursors, parse_cursor_target, parse_cursor_numbers,
  cursor_limit, read_type, read_field, read_positive, read_non_negative, ack_of,
  MessageAckParseResult, SyncParseResult,
}

-- The two cursors of a query exclude each other, and the mode says which one it has.
abbrev pub FitsMode : HistoryQueryMode → ℕ → ℕ → Type 0
FitsMode latest b l = (b ≡ 0) × (l ≡ 0)
FitsMode before b l = (0 < b) × (l ≡ 0)
FitsMode after b l = (b ≡ 0) × (0 < l)

abbrev pub AllPositive : List ℕ → Type 0
AllPositive [] = Unit
AllPositive (n ∷ ns) = (0 < n) × AllPositive ns

abbrev pub IsKnown : ConversationType → Type 0
IsKnown unknown = ⊥
IsKnown _ = Unit

-- A cursor that names a conversation, with a limit in the range.
pub record IsBounded (max_limit : ℕ) (c : SyncCursor) : Type 0 where
  pub known : IsKnown c.type
  pub named : is_empty c.target_id ≡ false
  pub some_messages : 0 < c.limit
  pub few_messages : c.limit ≤ max_limit

abbrev pub AllBounded : ℕ → List SyncCursor → Type 0
AllBounded m [] = Unit
AllBounded m (c ∷ cs) = IsBounded m c × AllBounded m cs

AllPositive-append : (ns : List ℕ) (n : ℕ) → AllPositive ns → 0 < n → AllPositive (ns ++ (n ∷ []))
AllPositive-append [] n h p = (p, tt)
AllPositive-append (m ∷ ns) n h p = (h.0, AllPositive-append ns n h.1 p)

AllBounded-append :
    (m : ℕ) (cs : List SyncCursor) (c : SyncCursor)
    → AllBounded m cs
    → IsBounded m c
    → AllBounded m (cs ++ (c ∷ []))
AllBounded-append m [] c h p = (p, tt)
AllBounded-append m (d ∷ cs) c h p = (h.0, AllBounded-append m cs c h.1 p)

query_mode_lem : (b l : ℕ) → (ltb 0 b && ltb 0 l) ≡ false → FitsMode (query_mode b l) b l
unfolding query_mode
query_mode_lem b l h =
    let Fits = λ (mode : HistoryQueryMode). FitsMode mode b l in
    if-cases Fits (eqb b 0 && eqb l 0) (λ e. (ground arith, ground arith))
      (λ e.
        if-cases Fits (ltb 0 b && eqb l 0) (λ f. (ground arith, ground arith))
          (λ f.
            if-cases Fits (eqb b 0 && ltb 0 l) (λ g. (ground arith, ground arith))
              (λ g. absurd (ground arith))))

cursor_limit_bounds :
    (d m n : ℕ) → 0 < d → 0 < m → (0 < cursor_limit d m n) × (cursor_limit d m n ≤ m)
unfolding cursor_limit
cursor_limit_bounds d m n hd hm = ground arith

to_uint64_pos : (z : ℤ) → is_positive z ≡ true → 0 < to_uint64 z
to_uint64_pos (pos n) h = ground arith
to_uint64_pos (negsuc n) h = cc

read_type_known : (s : String) (t : ConversationType) → read_type s ≡ some t → IsKnown t
unfolding read_type
read_type_known s unknown h = absurd (ground arith)
read_type_known s direct h = tt
read_type_known s group h = tt

-- What a history query, the ids of an acknowledgement and the cursors of a synchronisation are like
-- when they are not refused.
abbrev pub QueryFits : ℕ → Option HistoryQuery → Type 0
QueryFits m none = Unit
QueryFits m (some q) = (q.limit ≤ m) × FitsMode q.mode q.before_msg_id q.last_msg_id

abbrev pub IdsFit : ℕ → List ℕ → Type 0
IdsFit m ns = AllPositive ns × (length ns ≤ m)

abbrev pub AckFits : ℕ → MessageAckParseResult → Type 0
AckFits m (ack_refused code message) = Unit
AckFits m (acknowledged p) =
    IdsFit m p.msg_ids
    × IdsFit m p.offline_msg_ids
    × (0 < length p.msg_ids + length p.offline_msg_ids)

abbrev pub CursorsFit : ℕ → SyncParseResult → Type 0
CursorsFit m (refused code message) = Unit
CursorsFit m (parsed cs) = AllBounded m cs

module _ {J : Type 0} (json : Json J) where
  read_id-pos : (v : J) (n : ℕ) → read_id json v ≡ some n → 0 < n
  unfolding read_id
  read_id-pos v n h = ground (arith, to_uint64_pos (json.tested_int64 v))

  abbrev IdsRead : List ℕ → List J → Option (List ℕ) → Type 0
  IdsRead out vs none = Unit
  IdsRead out vs (some ns) = AllPositive ns × (length ns ≡ length out + length vs)

  IdsRead-longer :
      (out : List ℕ) (n : ℕ) (v : J) (vs : List J) (r : Option (List ℕ))
      → IdsRead (out ++ (n ∷ [])) vs r
      → IdsRead out (v ∷ vs) r
  IdsRead-longer out n v vs none h = tt
  IdsRead-longer out n v vs (some ns) h = (h.0, omega (arith, length-append out (n ∷ []), h.1))

  read_ids-IdsRead :
      (out : List ℕ) (vs : List J) → AllPositive out → IdsRead out vs (read_ids json out vs)
  unfolding read_ids
  read_ids-IdsRead out [] a = (a, omega arith)
  read_ids-IdsRead out (v ∷ vs) a =
      Option-both (IdsRead out (v ∷ vs)) (read_id json v) (λ bad. tt)
        (λ n e.
          IdsRead-longer out n v vs _ (
            read_ids-IdsRead (out ++ (n ∷ [])) vs (AllPositive-append out n a (read_id-pos v n e))))

  abbrev FieldFits : ℕ → Response J ⊎ List ℕ → Type 0
  FieldFits m (inl e) = Unit
  FieldFits m (inr ns) = IdsFit m ns

  FieldFits-read :
      (m : ℕ) (vs : List J) (r : Option (List ℕ)) (e : Response J)
      → length vs ≤ m
      → IdsRead [] vs r
      → FieldFits m (elim r [ none ↦ inl e | some ids ↦ inr ids ])
  FieldFits-read m vs none e h i = tt
  FieldFits-read m vs (some ns) e h i = (i.0, omega (arith, i.1))

  field-FieldFits :
      (req : Request J) (field : String) (m : ℕ)
      → FieldFits m (parse_uint64_array_field json req field [] m)
  unfolding parse_uint64_array_field
  field-FieldFits req field m =
      let items = json.items (json.at req.body field) in
      if-cases (FieldFits m) (not (json.contains req.body field)) (λ _. (tt, omega arith))
        (λ _.
          if-cases (FieldFits m) (not (json.is_array (json.at req.body field))) (λ _. tt)
            (λ _.
              if-cases (FieldFits m) (eqb (length items) 0) (λ _. tt)
                (λ _.
                  if-cases (FieldFits m) (ltb m (length items)) (λ _. tt)
                    (λ e.
                      FieldFits-read m items _ _ (le_of_ltb m (length items) e)
                        (read_ids-IdsRead [] items tt)))))

  AckFits-both :
      (m : ℕ) (a b : Response J ⊎ List ℕ)
      → FieldFits m a
      → FieldFits m b
      → AckFits m (ack_of json a b)
  unfolding ack_of
  AckFits-both m (inl e) b h k = tt
  AckFits-both m (inr ns) (inl e) h k = tt
  AckFits-both m (inr ns) (inr ms) h k =
      if-cases (AckFits m) (eqb (length ns) 0 && eqb (length ms) 0) (λ _. tt)
        (λ e. (h, k, ground arith))

  ack-AckFits : (req : Request J) (m : ℕ) → AckFits m (parse_message_ack json req m)
  unfolding parse_message_ack
  ack-AckFits req m =
      AckFits-both m _ _ (field-FieldFits req "msgIds" m) (field-FieldFits req "offlineMsgIds" m)

  query-QueryFits : (req : Request J) (d m : ℕ) → QueryFits m (parse_history_query json req d m)
  unfolding parse_history_query
  query-QueryFits req d m =
      Option-both (QueryFits m) (read_field json (read_positive json) req.body "limit" d) (λ _. tt)
        (λ limit _.
          Option-both (QueryFits m) (read_field json (read_positive json) req.body "beforeMsgId" 0)
            (λ _. tt)
            (λ b _.
              Option-both (QueryFits m)
                (read_field json (read_positive json) req.body "lastMsgId" 0) (λ _. tt)
                (λ l _.
                  if-cases (QueryFits m) (ltb 0 b && ltb 0 l) (λ _. tt)
                    (λ e. (ground arith, query_mode_lem b l e)))))

  module _ (d m : ℕ) (some_default : 0 < d) (some_max : 0 < m) where
    abbrev CursorFits : (ErrorCode × String) ⊎ SyncCursor → Type 0
    CursorFits (inl e) = Unit
    CursorFits (inr c) = IsBounded m c

    numbers-CursorFits :
        (item : J) (t : ConversationType) (target : String)
        → IsKnown t
        → is_empty target ≡ false
        → CursorFits (parse_cursor_numbers json item t target d m)
    unfolding parse_cursor_numbers
    numbers-CursorFits item t target k e =
        Option-both CursorFits (read_field json (read_non_negative json) item "lastMsgId" 0)
          (λ _. tt)
          (λ last _.
            Option-both CursorFits (read_field json (read_positive json) item "limit" d) (λ _. tt)
              (λ n _. record {
                known = k;
                named = e;
                some_messages = (cursor_limit_bounds d m n some_default some_max).0;
                few_messages = (cursor_limit_bounds d m n some_default some_max).1;
              }))

    target-CursorFits :
        (item : J) (t : ConversationType)
        → IsKnown t
        → CursorFits (parse_cursor_target json item t d m)
    unfolding parse_cursor_target
    target-CursorFits item t k =
        let target = json.at item "targetId" in
        if-cases CursorFits (not (json.contains item "targetId")) (λ _. tt)
          (λ _.
            if-cases CursorFits (not (json.is_string target)) (λ _. tt)
              (λ _.
                if-cases CursorFits (is_empty (json.tested_string target)) (λ _. tt)
                  (λ e. numbers-CursorFits item t (json.tested_string target) k e)))

    cursor-CursorFits : (item : J) → CursorFits (parse_cursor json item d m)
    unfolding parse_cursor
    cursor-CursorFits item =
        let kind = json.at item "conversationType" in
        if-cases CursorFits (not (json.is_object item)) (λ _. tt)
          (λ _.
            if-cases CursorFits (not (json.contains item "conversationType")) (λ _. tt)
              (λ _.
                if-cases CursorFits (not (json.is_string kind)) (λ _. tt)
                  (λ _.
                    Option-both CursorFits (read_type (json.tested_string kind)) (λ _. tt)
                      (λ t e.
                        target-CursorFits item t (read_type_known (json.tested_string kind) t e)))))

    CursorsFit-next :
        (cs : List SyncCursor) (rest : List J) (r : (ErrorCode × String) ⊎ SyncCursor)
        → AllBounded m cs
        → CursorFits r
        → ((c : SyncCursor)
            → AllBounded m (cs ++ (c ∷ []))
            → CursorsFit m (parse_cursors json d m (cs ++ (c ∷ [])) rest))
        → CursorsFit m (elim r [
          | inl (code, message) ↦ refused code message
          | inr c ↦ parse_cursors json d m (cs ++ (c ∷ [])) rest
        ])
    CursorsFit-next cs rest (inl (code, message)) h f go = tt
    CursorsFit-next cs rest (inr c) h f go = go c (AllBounded-append m cs c h f)

    cursors-CursorsFit :
        (cs : List SyncCursor) (items : List J)
        → AllBounded m cs
        → CursorsFit m (parse_cursors json d m cs items)
    unfolding parse_cursors
    cursors-CursorsFit cs [] h = h
    cursors-CursorsFit cs (item ∷ rest) h =
        CursorsFit-next cs rest (parse_cursor json item d m) h (cursor-CursorFits item)
          (λ c k. cursors-CursorsFit (cs ++ (c ∷ [])) rest k)

    sync-CursorsFit : (req : Request J) → CursorsFit m (parse_sync_cursors json req d m)
    unfolding parse_sync_cursors
    sync-CursorsFit req =
        if-cases (CursorsFit m) (not (json.contains req.body "cursors")) (λ _. tt)
          (λ _.
            if-cases (CursorsFit m) (not (json.is_array (json.at req.body "cursors"))) (λ _. tt)
              (λ _. cursors-CursorsFit [] (json.items (json.at req.body "cursors")) tt))

    -- What the parsers let through, whatever the values of JSON are, for a default and a largest
    -- limit of at least one: a history query keeps to the largest limit and has at most one of its
    -- two cursors, the one that its mode names; the ids of an acknowledgement are positive, no more
    -- than the batch may have in either list, and at least one; each cursor of a synchronisation
    -- names a target of a known type and has a limit from one to the largest.
    pub parsers_lem :
        (req : Request J)
        → QueryFits m (parse_history_query json req d m)
          × AckFits m (parse_message_ack json req m)
          × CursorsFit m (parse_sync_cursors json req d m)
    parsers_lem req = (query-QueryFits req d m, ack-AckFits req m, sync-CursorsFit req)
