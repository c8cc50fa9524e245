-- ===== src/Client/Entering.antt =====
-- What `Enqueue` and `EnqueueAt` of internal/taskmq/client/enqueue.go return against what they did.
use taskmq.Prelude.{
  ℕ, ◌≡◌, ◌⊎◌, inl, inr, refl, sym, ◌∙◌, subst, Bytes, List, [], ◌∷◌, ◌++◌, drop, ◌=b◌, =b_refl,
  if-both, arith, Option, none, some,
}
use taskmq.Prelude.Int.{ℤ}
use taskmq.Errors.{Error}
use taskmq.Task.{Task, milliseconds}
use taskmq.Keys.{stream, unique}
use taskmq.Redis.{Db, Stream, Commands, StringValue, set_stream}
use taskmq.Redis.Laws.{Laws}
use taskmq.Lifecycle.Config.{stream_limits}
use taskmq.Lifecycle.Metrics.{Lifecycle, check_payload_size}
use taskmq.Lifecycle.Scripts.{
  Reply, enqueue_stream, enqueue_unique_with_limit, at_limit, held_by_other, append, lock_and,
  ok_reply,
}
use taskmq.Lifecycle.Streams.{append-Added}
use taskmq.Lifecycle.Admission.{mapped, note_soft_limit_if_needed, limits_of}
use taskmq.Lifecycle.Replies.{IsRefusal, mapped-Outcome, note_soft_limit-db}
use taskmq.World.{Env, World, run}
use taskmq.Broker.Outcomes.{Outcome}
use taskmq.Client.{
  Client, TaskOption, reported, checked, with_result, apply_task_options, unique_ttl, identified,
  stream_script, enqueue_task, enqueue, report_enqueued,
}

-- An entry with the payload is the last of the stream, behind the old entries or the newest of them.
abbrev pub IsLast : Bytes → Stream → Stream → Type 0
IsLast payload s s' =
    (dropped : ℕ) × (id : ℕ) × (s'.entries
      ≡ drop dropped s.entries ++ (record { id = id; task = payload } ∷ []))

-- A script refused with nothing done, or the server is as `done` says.
abbrev pub Admission : Db × Reply → Db → (Db → Type 0) → Type 0
Admission r db done = IsRefusal r.1 × (r.0 ≡ db) ⊎ done r.0

module _ (P : Db → Type 0) where
  abbrev pub Ends : Option Error × World → World → Type 0
  Ends r w = Outcome r w (P r.1.db)

  pub checked-Ends :
      (r : Option Error × Option Lifecycle) (next : World → Option Error × World) (w w' : World)
      → w'.db ≡ w.db
      → ((w' : World) → w'.db ≡ w.db → Ends (next w') w)
      → Ends (checked r next w') w
  checked-Ends (some e, l) next w w' same h = inl (ground arith, same)
  checked-Ends (none, l) next w w' same h = h _ same

  pub with_result-Ends :
      {A : Type 0} (r : Error ⊎ A) (next : A → World → Option Error × World) (w w' : World)
      → w'.db ≡ w.db
      → ((a : A) → r ≡ inr a → Ends (next a w') w)
      → Ends (with_result r next w') w
  with_result-Ends (inl e) next w w' same h = inl (ground arith, same)
  with_result-Ends (inr a) next w w' same h = h a refl

  pub reported-Ends :
      (f : World → World) (r : Option Error × World) (w : World)
      → ((w : World) → (f w).db ≡ w.db)
      → Ends r w
      → Ends (reported f r) w
  reported-Ends f (none, w') w keeps (inl (failed, same)) = elim (failed refl) [ ]
  reported-Ends f (none, w') w keeps (inr did) = inr (subst P (sym (keeps w')) did)
  reported-Ends f (some e, w') w keeps h = h

  pub mapped-Ends :
      (env : Env) (script : Db → Db × Reply) (w w' : World)
      → w'.db ≡ w.db
      → Admission (script w'.db) w'.db P
      → Ends (mapped (run env script w')) w
  mapped-Ends env script w w' same h = elim (mapped-Outcome P env script w' h) [
    | inl (failed, kept) ↦ inl (failed, kept ∙ same)
    | inr did ↦ inr did
  ]

module _ (c : Commands) (laws : Laws c) where
  append-IsLast : (maxlen : ℤ) (p : Bytes) (s : Stream) → IsLast p s (append c maxlen p s).0
  append-IsLast maxlen p s = (
    (append-Added c laws maxlen p s).dropped,
    (append c maxlen p s).1,
    (append-Added c laws maxlen p s).entries,
  )

  enqueue_stream-Admission :
      (key payload : Bytes) (hard maxlen : ℤ) (db : Db)
      → Admission
          (enqueue_stream c key hard maxlen payload db)
          db
          (λ db'. IsLast payload (db.streams key) (db'.streams key))
  unfolding enqueue_stream
  enqueue_stream-Admission key payload hard maxlen db =
      if-both
        (λ (r : Db × Reply).
          Admission r db (λ db'. IsLast payload (db.streams key) (db'.streams key)))
        (at_limit hard (c.xlen (db.streams key))) (inl (inr (inl refl), refl))
        (inr (simp =b_refl (append-IsLast maxlen payload (db.streams key))))

  enqueue_unique-Admission :
      (lock key owner payload : Bytes) (ttl hard maxlen : ℤ) (db : Db)
      → Admission
          (enqueue_unique_with_limit c lock key owner ttl payload hard maxlen db)
          db
          (λ db'. IsLast payload (db.streams key) (db'.streams key))
  unfolding enqueue_unique_with_limit
  enqueue_unique-Admission lock key owner payload ttl hard maxlen db =
      if-both P (held_by_other (db.strings lock) owner) (inl (inl refl, refl)) (
        if-both P (at_limit hard (c.xlen (db.streams key))) (inl (inr (inl refl), refl))
          (locked (c.set_px owner ttl)))
    where
      P : Db × Reply → Type 0
      P r = Admission r db (λ db'. IsLast payload (db.streams key) (db'.streams key))

      push : Db → Db × Reply
      push d = (set_stream key (append c maxlen payload (db.streams key)).0 d, ok_reply)

      locked : (v : Option StringValue) → P (lock_and c lock v push db)
      locked none = inl (inr (inr (inr refl)), refl)
      locked (some v) = inr (simp =b_refl (append-IsLast maxlen payload (db.streams key)))

module _ (c : Client) (laws : Laws c.env.commands) where
  stream_script-Admission :
      (t : Task) (serialized : Bytes) (w : World) (db : Db)
      → Admission
          (stream_script c t serialized w db)
          db
          (λ db'. IsLast serialized (db.streams (stream t.queue)) (db'.streams (stream t.queue)))
  stream_script-Admission t serialized w db =
      if-both
        (λ (script : Db → Db × Reply).
          Admission (script db) db
            (λ db'. IsLast serialized (db.streams (stream t.queue)) (db'.streams (stream t.queue))))
        (t.unique_key =b [])
        (enqueue_stream-Admission c.env.commands laws (stream t.queue) serialized hard maxlen db)
        (enqueue_unique-Admission c.env.commands laws (unique t.queue t.unique_key) (stream t.queue)
          t.id serialized (milliseconds (unique_ttl c t)) hard maxlen db)
    where
      hard : ℤ
      hard = (stream_limits (limits_of w.lifecycle)).0

      maxlen : ℤ
      maxlen = (stream_limits (limits_of w.lifecycle)).1

  -- The task's encoding is the last of its stream.
  abbrev pub IsEntered : Task → Db → Db → Type 0
  IsEntered t db db' =
      (s : Bytes) × (c.codec.marshal t ≡ inr s)
      × IsLast s (db.streams (stream t.queue)) (db'.streams (stream t.queue))

  -- What the admission script does, `Enqueue` of a task with an id does, or nothing.
  pub enqueue_task-Ends :
      (P : Db → Type 0) (t : Task) (w : World)
      → ((s : Bytes) (w' : World)
          → c.codec.marshal t ≡ inr s
          → w'.db ≡ w.db
          → Admission (stream_script c t s w' w'.db) w'.db P)
      → Ends P (enqueue_task c t w) w
  unfolding enqueue_task
  enqueue_task-Ends P t w admitted =
      checked-Ends P (check_payload_size t.payload w.lifecycle) encoded w w refl (λ w' same.
        with_result-Ends P (c.codec.marshal t) push w w' same (λ s encodes.
          reported-Ends P (report_enqueued c t) (ran s w') w (λ w. refl)
            (mapped-Ends P c.env (stream_script c t s (noted w')) w (noted w') (unnoted w' same)
              (admitted s (noted w') encodes (unnoted w' same)))))
    where
      noted : World → World
      noted w' = note_soft_limit_if_needed c.env t.queue w'

      ran : Bytes → World → Option Error × World
      ran s w' = mapped (run c.env (stream_script c t s (noted w')) (noted w'))

      push : Bytes → World → Option Error × World
      push s w' = reported (report_enqueued c t) (ran s w')

      encoded : World → Option Error × World
      encoded w' = with_result (c.codec.marshal t) push w'

      unnoted : (w' : World) → w'.db ≡ w.db → (noted w').db ≡ w.db
      unnoted w' same = note_soft_limit-db c.env t.queue w' ∙ same

  pub enqueue_task-Outcome :
      (t : Task) (w : World)
      → Outcome (enqueue_task c t w) w (IsEntered t w.db (enqueue_task c t w).1.db)
  enqueue_task-Outcome t w = enqueue_task-Ends (IsEntered t w.db) t w admitted
    where
      admitted :
          (s : Bytes) (w' : World)
          → c.codec.marshal t ≡ inr s
          → w'.db ≡ w.db
          → Admission (stream_script c t s w' w'.db) w'.db (IsEntered t w.db)
      admitted s w' encodes same = elim (stream_script-Admission t s w' w'.db) [
        | inl refuses ↦ inl refuses
        | inr last ↦ inr (
          s,
          encodes,
          subst
              (λ d.
                IsLast s (d.streams (stream t.queue))
                  ((stream_script c t s w' w'.db).0.streams (stream t.queue)))
              same last,
        )
      ]

  -- Whatever the network does: `Enqueue` returns an error and leaves the server as it was, or the
  -- options and the codec took the task, and its encoding is the last entry of its queue's stream,
  -- behind the old entries or the newest of them.
  pub enqueue-Outcome :
      (t : Task) (opts : List TaskOption) (w : World)
      → Outcome (enqueue c t opts w) w (
          (t' : Task) × (apply_task_options opts t ≡ inr t')
          × IsEntered (identified c t') w.db (enqueue c t opts w).1.db)
  unfolding enqueue
  enqueue-Outcome t opts w =
      with_result-Ends
        (λ db.
          (t' : Task) × (apply_task_options opts t ≡ inr t') × IsEntered (identified c t') w.db db)
        (apply_task_options opts t) (λ t'. enqueue_task c (identified c t')) w w refl
        (λ t' took. elim (enqueue_task-Outcome (identified c t') w) [
          | inl undone ↦ inl undone
          | inr did ↦ inr (t', took, did)
        ])
