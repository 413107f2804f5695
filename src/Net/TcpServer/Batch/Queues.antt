-- ===== src/Net/TcpServer/Batch/Queues.antt =====
-- The frames that wait for one connection, in the tasks of the loops.
use mathlib.Core.List.{append_assoc, append-nil}
use project_chat.Common.{
  ℕ, ◌≡◌, refl, sym, ◌∙◌, ap, Bool, true, false, List, [], ◌∷◌, ◌++◌, some, eqb, arith,
  if◌then◌else◌, Bool-cases, Option-cases, nat_key, inl, inr, eq_sound,
}
use project_chat.Common.Map.{Map, find, assign, has, find-assign, find-nil, is_some}
use project_chat.Net.Connection.{Frame}
use project_chat.Net.TcpServer.Batch.{
  Task, Loops, list_or_none, list_at, push_at, enqueue_frame_batch, enqueue_all,
}

-- A frame for each time that a key is in a list.
abbrev pub copies : ℕ → List ℕ → Frame → List Frame
copies fd [] f = []
copies fd (k ∷ ks) f = if eqb k fd then f ∷ copies fd ks f else copies fd ks f

abbrev pub flights : ℕ → List Task → List Frame
flights fd [] = []
flights fd ((keys, f) ∷ tasks) = copies fd keys f ++ flights fd tasks

pub copies-append :
    (fd k : ℕ) (ks : List ℕ) (f : Frame)
    → copies fd (ks ++ (k ∷ [])) f ≡ copies fd ks f ++ copies fd (k ∷ []) f
copies-append fd k [] f = refl
copies-append fd k (j ∷ ks) f = elim (Bool-cases (eqb j fd)) [
  | inl h ↦ rw (h) (ap (◌∷◌ f) (copies-append fd k ks f))
  | inr h ↦ rw (h) (copies-append fd k ks f)
]

pub flights-append :
    (fd : ℕ) (tasks : List Task) (t : Task)
    → flights fd (tasks ++ (t ∷ [])) ≡ flights fd tasks ++ copies fd t.0 t.1
flights-append fd [] t = append-nil (copies fd t.0 t.1)
flights-append fd ((keys, f) ∷ tasks) t =
    ap (◌++◌ (copies fd keys f)) (flights-append fd tasks t)
    ∙ sym (append_assoc (copies fd keys f) (flights fd tasks) (copies fd t.0 t.1))

-- Maps of lists.
module _ {A : Type 0} where
  pub list_at-push_same :
      (k j : ℕ) (a : A) (m : Map ℕ (List A))
      → eqb k j ≡ true
      → list_at j (push_at k a m) ≡ list_at j m ++ (a ∷ [])
  list_at-push_same k j a m h =
      let pushed : List A = list_at k m ++ (a ∷ []) in
      ap list_or_none (find-assign k j pushed m)
      ∙ ap (λ b. list_or_none (if b then some pushed else find j m)) h
      ∙ ap (λ i. list_at i m ++ (a ∷ [])) (eq_sound k j h)

  pub list_at-push_other :
      (k j : ℕ) (a : A) (m : Map ℕ (List A))
      → eqb k j ≡ false
      → list_at j (push_at k a m) ≡ list_at j m
  list_at-push_other k j a m h =
      let pushed : List A = list_at k m ++ (a ∷ []) in
      ap list_or_none (find-assign k j pushed m)
      ∙ ap (λ b. list_or_none (if b then some pushed else find j m)) h

  -- Each key once.
  abbrev pub Unique : Map ℕ (List A) → Type 0
  Unique [] = Unit
  Unique ((k, l) ∷ m) = (has k m ≡ false) × Unique m

  find-assign_missing :
      (k j : ℕ) (l : List A) (m : Map ℕ (List A))
      → eqb k j ≡ false
      → has j m ≡ false
      → has j (assign k l m) ≡ false
  find-assign_missing k j l m h missing = rw (find-assign k j l m, h) missing

  pub Unique-assign : (k : ℕ) (l : List A) (m : Map ℕ (List A)) → Unique m → Unique (assign k l m)
  unfolding assign
  Unique-assign k l [] u = (ap is_some (find-nil k), tt)
  Unique-assign k l ((j, x) ∷ m) u = elim (Bool-cases (eqb j k)) [
    | inl h ↦ rw (h) (let same : j ≡ k = eq_sound j k h in rw (← same) u)
    | inr h ↦ rw (h) (find-assign_missing k j l m (ground (arith, h)) u.0, Unique-assign k l m u.1)
  ]

-- Once queued, the frames of a batch wait behind those of before; nothing else changes.
module _ (fd : ℕ) (loop : ℕ) where
  abbrev pub waiting : Loops → List Frame
  waiting s = flights fd (list_at loop s.tasks)

  waiting-enqueue_same :
      (s : Loops) (other : ℕ) (keys : List ℕ) (f : Frame)
      → eqb other loop ≡ true
      → waiting (enqueue_frame_batch s (some other) keys (some f)) ≡ waiting s ++ copies fd keys f
  unfolding enqueue_frame_batch
  waiting-enqueue_same s other [] f h = sym (append-nil (waiting s))
  waiting-enqueue_same s other (k ∷ ks) f h =
      ap (flights fd) (list_at-push_same other loop (k ∷ ks, f) s.tasks h)
      ∙ flights-append fd (list_at loop s.tasks) (k ∷ ks, f)

  waiting-enqueue_other :
      (s : Loops) (other : ℕ) (keys : List ℕ) (f : Frame)
      → eqb other loop ≡ false
      → waiting (enqueue_frame_batch s (some other) keys (some f)) ≡ waiting s
  unfolding enqueue_frame_batch
  waiting-enqueue_other s other [] f h = refl
  waiting-enqueue_other s other (k ∷ ks) f h =
      ap (flights fd) (list_at-push_other other loop (k ∷ ks, f) s.tasks h)

  list_at-missing : (m : Map ℕ (List ℕ)) → has loop m ≡ false → list_at loop m ≡ []
  list_at-missing m h = elim (Option-cases (find loop m)) [
    | inl e ↦ ap list_or_none e
    | inr (l, e) ↦ absurd (let no : true ≡ false = sym (ap is_some e) ∙ h in cc)
  ]

  pub waiting-enqueue_all :
      (s : Loops) (f : Frame) (batches : Map ℕ (List ℕ))
      → Unique batches
      → waiting (enqueue_all s f batches) ≡ waiting s ++ copies fd (list_at loop batches) f
  unfolding enqueue_all find
  waiting-enqueue_all s f [] u = sym (append-nil (waiting s))
  waiting-enqueue_all s f ((other, keys) ∷ batches) u =
      let next : Loops = enqueue_frame_batch s (some other) keys (some f) in
      let rest = waiting-enqueue_all next f batches u.1 in
      let at = λ (b : Bool). list_or_none (if b then some keys else find loop batches) in
      elim (Bool-cases (eqb other loop)) [
        | inl h ↦
            let same : other ≡ loop = eq_sound other loop h in
            let gone : list_at loop batches ≡ [] = list_at-missing batches (rw (← same) u.0) in
            rest
            ∙ ap (λ l. waiting next ++ copies fd l f) gone
            ∙ append-nil (waiting next)
            ∙ waiting-enqueue_same s other keys f h
            ∙ ap (λ b. waiting s ++ copies fd (at b) f) (sym h)
        | inr h ↦
            rest
            ∙ ap (λ l. l ++ copies fd (list_at loop batches) f)
                (waiting-enqueue_other s other keys f h)
            ∙ ap (λ b. waiting s ++ copies fd (at b) f) (sym h)
      ]

pub connections-enqueue_all :
    (s : Loops) (f : Frame) (batches : Map ℕ (List ℕ))
    → (enqueue_all s f batches).connections ≡ s.connections
unfolding enqueue_all enqueue_frame_batch
connections-enqueue_all s f [] = refl
connections-enqueue_all s f ((loop, []) ∷ batches) = connections-enqueue_all s f batches
connections-enqueue_all s f ((loop, k ∷ ks) ∷ batches) =
    connections-enqueue_all (record s { tasks = push_at loop (k ∷ ks, f) s.tasks }) f batches
