-- ===== src/Runner/Retention/Cancelled/Sweep.antt =====
-- The purge of cancelled tasks in internal/taskmq/runner/retention_janitor.go ends, and removes no other
-- task.
use taskmq.Prelude.{
  ℕ, zero, suc, ◌+◌, ◌*◌, ◌≤◌, ◌<◌, ◌≡◌, ◌⊎◌, inl, inr, refl, ap, subst, Bytes, Bool, true, false,
  List, [], ◌∷◌, ◌=b◌, =b_iff, =b_refl, length, ltb, if-both, if-split, is_some, Bool-cases, Option,
  some, arith,
}
use taskmq.Errors.{Error}
use taskmq.Task.{Task, zero_task}
use taskmq.Keys.{delayed}
use taskmq.Redis.{Db, ZSet}
use taskmq.Redis.Reference.{has, without}
use taskmq.Redis.Laws.{Laws}
use taskmq.Redis.Members.{has-without}
use taskmq.World.{World, delivered, refused, lost, carry, call}
use taskmq.World.Run.{call-keeps}
use taskmq.Runner.Retention.{RetentionJanitor}
use taskmq.Runner.Retention.Cancelled.{
  Swept, swept, stopped, Round, ended, more, batch, last_cursor, marker, remove, removed, checked,
  is_marked, sweep_decoded, sweep_each, swept_batch, listed, list, purge_round, purge_batches,
  purge_cancelled_delayed,
}

module _ (j : RetentionJanitor) (laws : Laws j.env.commands) (db₀ : Db) where
  abbrev waiting : Db → ZSet
  waiting db = db.zsets (delayed j.queue)

  -- The payload is the encoding of a task that is marked as cancelled.
  abbrev pub IsCancelled : Bytes → Type 0
  IsCancelled p =
      (t : Task) × (j.codec.unmarshal p zero_task ≡ inr t)
      × (is_some (db₀.strings (marker j t)) ≡ true)

  -- Only cancelled tasks have left the delayed set, and the strings and streams are the same.
  pub record IsSwept (db : Db) : Type 0 where
    pub strings : db.strings ≡ db₀.strings
    pub streams : db.streams ≡ db₀.streams
    pub kept :
        (p : Bytes) → has p (waiting db₀) ≡ true → (has p (waiting db) ≡ true) ⊎ IsCancelled p

  abbrev AllSwept : Swept → Type 0
  AllSwept (swept n w) = IsSwept w.db
  AllSwept (stopped n e w) = IsSwept w.db

  remove-IsSwept : (m : Bytes) (db : Db) → IsCancelled m → IsSwept db → IsSwept (remove j m db).0
  remove-IsSwept m db marked h = record {
    strings = h.strings;
    streams = h.streams;
    kept = λ p there. simp (=b_refl, laws.zrem_removes) (step p (h.kept p there));
  }
    where
      step :
          (p : Bytes)
          → (has p (waiting db) ≡ true) ⊎ IsCancelled p
          → (has p (without m (waiting db)) ≡ true) ⊎ IsCancelled p
      step p (inr gone) = inr gone
      step p (inl there) = elim (Bool-cases (m =b p)) [
        | inl same ↦ inr (subst IsCancelled ((=b_iff m p).0 same) marked)
        | inr other ↦ inl (ground (arith, has-without m p (waiting db)))
      ]

  module _ (rest : ℕ → World → Swept)
      (goes : (n : ℕ) (w : World) → IsSwept w.db → AllSwept (rest n w)) where
    removed-AllSwept :
        (n : ℕ) (r : (Error ⊎ ℕ) × World) → IsSwept r.1.db → AllSwept (removed j n rest r)
    removed-AllSwept n (inl e, w) h = h
    removed-AllSwept n (inr k, w) h = goes (suc n) w h

    checked-AllSwept :
        (m : Bytes) (n : ℕ) (r : (Error ⊎ Bool) × World)
        → (r.0 ≡ inr true → IsCancelled m)
        → IsSwept r.1.db
        → AllSwept (checked j m n rest r)
    checked-AllSwept m n (inl e, w) marked h = goes n w h
    checked-AllSwept m n (inr false, w) marked h = goes n w h
    checked-AllSwept m n (inr true, w) marked h =
        removed-AllSwept n (call j.env (remove j m) w)
          (call-keeps IsSwept j.env (remove j m) w h (remove-IsSwept m w.db (marked refl) h))

    sweep_decoded-AllSwept :
        (m : Bytes) (d : Error ⊎ Task) (n : ℕ) (w : World)
        → j.codec.unmarshal m zero_task ≡ d
        → IsSwept w.db
        → AllSwept (sweep_decoded j m d n rest w)
    unfolding call
    sweep_decoded-AllSwept m (inl e) n w decodes h = goes n w h
    sweep_decoded-AllSwept m (inr t) n w decodes h =
        if-both AllSwept (t.id =b []) (goes n w h)
          (elim (j.env.net w.calls)
            as (λ f. AllSwept (checked j m n rest (carry f (is_marked j t) w))) [
              | delivered ↦
                  checked-AllSwept m n (carry delivered (is_marked j t) w)
                    (λ e. (t, decodes, mark e)) h
              | refused ↦ goes n (record w { calls = suc w.calls }) h
              | lost ↦ goes n (record w { calls = suc w.calls }) h
            ])
      where
        truth : Error ⊎ Bool → Bool
        truth (inl e) = false
        truth (inr b) = b

        mark :
            (carry delivered (is_marked j t) w).0 ≡ inr true
            → is_some (db₀.strings (marker j t)) ≡ true
        mark e = subst (λ (s : Bytes → _). is_some (s (marker j t)) ≡ true) h.strings (ap truth e)

  sweep_each-AllSwept :
      (ms : List Bytes) (n : ℕ) (w : World) → IsSwept w.db → AllSwept (sweep_each j ms n w)
  unfolding sweep_each
  sweep_each-AllSwept [] n w h = h
  sweep_each-AllSwept (m ∷ ms) n w h =
      sweep_decoded-AllSwept (sweep_each j ms) (sweep_each-AllSwept ms) m
        (j.codec.unmarshal m zero_task) n w refl h

  -- A round that asks for another one is within the cap on the cursor.
  abbrev RoundSwept : ℕ → Round → Type 0
  RoundSwept cursor (ended n e w) = IsSwept w.db
  RoundSwept cursor (more n w) = IsSwept w.db × (cursor + batch ≤ last_cursor)

  swept_batch-RoundSwept :
      (n cursor : ℕ) (s : Swept) → AllSwept s → RoundSwept cursor (swept_batch j n cursor s)
  swept_batch-RoundSwept n cursor (stopped k e w) h = h
  swept_batch-RoundSwept n cursor (swept k w) h = if-both (RoundSwept cursor) (ltb n batch) h (
      if-split (RoundSwept cursor) (ltb last_cursor (cursor + batch)) (λ far. h)
        (λ near. (h, ground arith)))

  listed-RoundSwept :
      (cursor n : ℕ) (r : (Error ⊎ List Bytes) × World)
      → IsSwept r.1.db
      → RoundSwept cursor (listed j cursor n r)
  listed-RoundSwept cursor n (inl e, w) h = h
  listed-RoundSwept cursor n (inr [], w) h = h
  listed-RoundSwept cursor n (inr (m ∷ ms), w) h =
      swept_batch-RoundSwept (length (m ∷ ms)) cursor (sweep_each j (m ∷ ms) n w)
        (sweep_each-AllSwept (m ∷ ms) n w h)

  purge_round-RoundSwept :
      (cursor n : ℕ) (w : World) → IsSwept w.db → RoundSwept cursor (purge_round j cursor n w)
  unfolding purge_round
  purge_round-RoundSwept cursor n w h =
      listed-RoundSwept cursor n (call j.env (list j cursor) w)
        (call-keeps IsSwept j.env (list j cursor) w h h)

  -- The purge has returned a count and an error or none.
  abbrev pub HasPurged : Option (ℕ × Option Error × World) → Type 0
  HasPurged r = (n : ℕ) × (e : Option Error) × (w' : World) × (r ≡ some (n, e, w')) × IsSwept w'.db

  purge_batches-HasPurged :
      (fuel cursor n : ℕ) (w : World)
      → last_cursor < cursor + fuel * batch
      → IsSwept w.db
      → cursor ≤ last_cursor
      → HasPurged (purge_batches j fuel cursor n w)
  unfolding purge_batches
  purge_batches-HasPurged zero cursor n w enough h within = absurd (omega arith)
  purge_batches-HasPurged (suc fuel) cursor n w enough h within =
      step (purge_round j cursor n w) (purge_round-RoundSwept cursor n w h)
        (purge_batches-HasPurged fuel (cursor + batch))
    where
      step :
          (r : Round)
          → RoundSwept cursor r
          → ((n : ℕ) (w : World)
              → last_cursor < cursor + batch + fuel * batch
              → IsSwept w.db
              → cursor + batch ≤ last_cursor
              → HasPurged (purge_batches j fuel (cursor + batch) n w))
          → HasPurged (elim r as (λ r. Option (ℕ × Option Error × World)) [
            | ended n e w' ↦ some (n, e, w')
            | more n w' ↦ purge_batches j fuel (cursor + batch) n w'
          ])
      step (ended k e w') s rest = (k, e, w', refl, s)
      step (more k w') s rest = rest k w' (omega arith) s.0 s.1

-- Whatever calls fail, the purge of cancelled tasks returns within 21 rounds. Every other task of the
-- delayed set is still there, and no stream and no cancellation has changed.
pub purge_cancelled_delayed-HasPurged :
    (j : RetentionJanitor) (laws : Laws j.env.commands) (fuel : ℕ) (w : World)
    → 21 ≤ fuel
    → HasPurged j laws w.db (purge_cancelled_delayed j fuel w)
unfolding purge_cancelled_delayed
purge_cancelled_delayed-HasPurged j laws fuel w enough =
    purge_batches-HasPurged j laws w.db fuel 0 0 w (omega arith)
      (record { strings = refl; streams = refl; kept = λ p there. inl there }) (omega arith)
