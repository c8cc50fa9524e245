-- ===== src/Lifecycle/Streams.antt =====
-- What the admission scripts of internal/taskmq/lifecycle/scripts guarantee of the stream.
use taskmq.Prelude.{
  ℕ, suc, ◌≡◌, ◌≢◌, ◌≤◌, ◌<◌, ◌⊎◌, inl, inr, refl, ap, ◌∙◌, Bytes, =b_refl, =b_ne, [], ◌∷◌, ◌++◌,
  length, drop, length-append, length-drop, drop-append, arith, Bool-cases,
}
use taskmq.Prelude.Int.{ℤ, pos, ◌<ℤ◌, ◌≤ℤ◌, ltb_ℤ}
use taskmq.Redis.{Db, Stream, Commands}
use taskmq.Redis.Laws.{Laws, Trimmed}
use taskmq.Lifecycle.Scripts.{
  entry_id, ok_reply, queue_full_reply, duplicate_reply, append, at_limit, enqueue_stream,
  enqueue_unique_with_limit,
}

-- The stream ends with a new entry; what stands before it is the old stream, less what
-- `MAXLEN` dropped from the front.
pub record Added (maxlen : ℤ) (payload : Bytes) (s s' : Stream) (id : ℕ) : Type 0 where
  pub dropped : ℕ
  pub entries : s'.entries ≡ drop dropped s.entries ++ (record { id = id; task = payload } ∷ [])
  pub untrimmed : (pos 0 <ℤ maxlen) ⊎ (dropped ≡ 0)

module _ (c : Commands) (laws : Laws c) where
  Trimmed-Added :
      (maxlen : ℤ) (p : Bytes) (s s' : Stream) (id : ℕ)
      → pos 0 <ℤ maxlen
      → Trimmed maxlen p s s' id
      → Added maxlen p s s' id
  Trimmed-Added maxlen p s s' id h t = record {
    dropped = t.dropped;
    entries = t.entries ∙ drop-append t.dropped s.entries _ within;
    untrimmed = inl h;
  }
    where
      within : t.dropped ≤ length s.entries
      within = omega (
        arith,
        t.kept,
        ap length t.entries,
        length-drop t.dropped (s.entries ++ (record { id = id; task = p } ∷ [])),
        length-append s.entries (record { id = id; task = p } ∷ []),
      )

  pub append-Added :
      (maxlen : ℤ) (p : Bytes) (s : Stream)
      → Added maxlen p s (append c maxlen p s).0 (append c maxlen p s).1
  unfolding append
  append-Added maxlen p s = elim (Bool-cases (ltb_ℤ (pos 0) maxlen)) [
    | inl yes_trim ↦
        rw yes_trim
          (Trimmed-Added maxlen p s _ _ (ground arith) (laws.xadd_maxlen_trims maxlen p s))
    | inr no_trim ↦
        rw no_trim
          (record { dropped = 0; entries = (laws.xadd_appends p s).entries; untrimmed = inr refl })
  ]

  -- Without MAXLEN nothing is dropped; with it, the stream still grows by one at most.
  pub append-entries :
      (maxlen : ℤ) (p : Bytes) (s : Stream)
      → maxlen ≤ℤ pos 0
      → (append c maxlen p s).0.entries
        ≡ s.entries ++ (record { id = (append c maxlen p s).1; task = p } ∷ [])
  append-entries maxlen p s off = elim added.untrimmed [
    | inl on ↦ absurd (omega arith)
    | inr none_dropped ↦
        added.entries
        ∙ ap
            (λ (k : ℕ).
              drop k s.entries ++ (record { id = (append c maxlen p s).1; task = p } ∷ []))
            none_dropped
  ]
    where
      added : Added maxlen p s (append c maxlen p s).0 (append c maxlen p s).1
      added = append-Added maxlen p s

  pub append_grows :
      (maxlen : ℤ) (p : Bytes) (s : Stream)
      → length (append c maxlen p s).0.entries ≤ suc (length s.entries)
  append_grows maxlen p s = omega (
    arith,
    ap length added.entries,
    length-append (drop added.dropped s.entries)
        (record { id = (append c maxlen p s).1; task = p } ∷ []),
    length-drop added.dropped s.entries,
  )
    where
      added : Added maxlen p s (append c maxlen p s).0 (append c maxlen p s).1
      added = append-Added maxlen p s

  -- Under a hard limit a stream enqueue is refused at it, with nothing changed, or it appends the
  -- payload and stays within it.
  pub enqueue_stream_bounded :
      (stream payload : Bytes) (hard : ℕ) (maxlen : ℤ) (db : Db)
      → 0 < hard
      → let r = enqueue_stream c stream (pos hard) maxlen payload db in
        (r.1 ≡ queue_full_reply) × (r.0 ≡ db) × (hard ≤ length (db.streams stream).entries)
        ⊎ ((id : ℕ) × (r.1 ≡ entry_id id)
            × Added maxlen payload (db.streams stream) (r.0.streams stream) id
            × (length (r.0.streams stream).entries ≤ hard))
  unfolding enqueue_stream
  enqueue_stream_bounded stream payload hard maxlen db h =
      elim (Bool-cases (at_limit (pos hard) (c.xlen s))) [
        | inl full ↦ rw full (inl (refl, refl, ground (arith, laws.xlen_length s)))
        | inr room ↦
            rw room
              (simp =b_refl (inr (new.1, refl, added, within (ground (arith, laws.xlen_length s)))))
      ]
    where
      s : Stream
      s = db.streams stream

      new : Stream × ℕ
      new = append c maxlen payload s

      added : Added maxlen payload s new.0 new.1
      added = append-Added maxlen payload s

      within : length s.entries < hard → length new.0.entries ≤ hard
      within below = omega (
        arith,
        ap length added.entries,
        length-append (drop added.dropped s.entries) (record { id = new.1; task = payload } ∷ []),
        length-drop added.dropped s.entries,
      )

  -- A unique key that one task has taken lets no other task in: after an accepted unique enqueue, on
  -- the same lock any enqueue for another task is a duplicate and changes nothing.
  pub enqueue_unique_exclusive :
      (lock stream a b pa pb : Bytes) (ttl_a ttl_b hard maxlen : ℤ) (db : Db)
      → a ≢ b
      → (enqueue_unique_with_limit c lock stream a ttl_a pa hard maxlen db).1 ≡ ok_reply
      → let db' = (enqueue_unique_with_limit c lock stream a ttl_a pa hard maxlen db).0 in
        enqueue_unique_with_limit c lock stream b ttl_b pb hard maxlen db' ≡ (db', duplicate_reply)
  unfolding enqueue_unique_with_limit
  enqueue_unique_exclusive lock stream a b pa pb ttl_a ttl_b hard maxlen db ne h =
      ground (arith, laws.set_px_sets a ttl_a, =b_refl lock, =b_ne a b ne)
