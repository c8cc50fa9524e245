-- ===== src/Runner/Retention/Aged/Emptied.antt =====
-- What `purgeDLQByAge` of internal/taskmq/runner/retention_janitor.go leaves of the dead letters.
use taskmq.Prelude.{
  ℕ, zero, suc, ◌+◌, ◌≡◌, ◌≤◌, ◌<◌, inr, refl, ap, sym, ◌∙◌, Bytes, true, List, [], ◌∷◌, ◌++◌,
  length, take, length-take, ltb, ltb→lt, if-split, Option, none, some, arith, subst,
}
use taskmq.Prelude.Int.{ℤ}
use taskmq.Errors.{Error}
use taskmq.Keys.{dlq}
use taskmq.Redis.{Db, ZSet}
use taskmq.Redis.Laws.{Laws}
use taskmq.Redis.Reference.{has, upto_score, members, without}
use taskmq.Redis.Members.{IsDistinct, length-without-le}
use taskmq.Redis.Ranks.{among, among-members}
use taskmq.Redis.Scores.{
  without_each, has-without_each, IsDistinct-without_each, IsDistinct-take, has-of-has-take,
  length-without_each, length-members,
}
use taskmq.Redis.Ages.{
  has-of-has-upto_score, IsDistinct-upto_score, among-append, upto_score_gone,
  upto_score-without_each,
}
use taskmq.World.{World, delivered, refused, lost, carry, call, now}
use taskmq.Runner.Retention.{RetentionJanitor}
use taskmq.Runner.Retention.Cancelled.{Round, ended, more, batch}
use taskmq.Runner.Retention.Aged.{
  delete_each, deleted, listed, list_aged, purge_aged, purge_aged_batches, cutoff_of,
  purge_dlq_by_age,
}
use taskmq.Runner.Retention.Aged.Deleting.{
  IsDeleted, nothing-IsDeleted, then-IsDeleted, HasRun, delete_each-HasRun,
}

-- Some dead letters are gone and some entries of the index, all of letters that were up to the cutoff;
-- every other letter and entry is as it was, and so are all streams and strings.
pub record IsAged (queue : Bytes) (cutoff : ℤ) (gone unindexed : List Bytes) (db db' : Db)
    : Type 0 where
  pub removed : IsDeleted queue gone unindexed db db'
  pub letters_aged :
      (id : Bytes) → among id gone ≡ true → has id (upto_score cutoff (db.zsets (dlq queue))) ≡ true
  pub entries_aged :
      (id : Bytes)
      → among id unindexed ≡ true
      → has id (upto_score cutoff (db.zsets (dlq queue))) ≡ true

length-without_each-le : (ms : List Bytes) (z : ZSet) → length (without_each ms z) ≤ length z
unfolding without_each
length-without_each-le [] z = omega arith
length-without_each-le (m ∷ ms) z =
    omega (arith, length-without_each-le ms (without m z), length-without-le m z)

take-nil : (n : ℕ) (z : ZSet) → take (suc n) z ≡ [] → z ≡ []
take-nil n [] e = refl
take-nil n (x ∷ z) e = cc

module _ (j : RetentionJanitor) (laws : Laws j.env.commands) (start : Db) (cutoff : ℤ)
    (distinct : IsDistinct (start.zsets (dlq j.queue))) where
  abbrev letters_of : Db → ZSet
  letters_of db = db.zsets (dlq j.queue)

  abbrev old_of : Db → ZSet
  old_of db = take batch (upto_score cutoff (letters_of db))

  -- Letters and entries are gone, and at least as many letters as are counted.
  abbrev Fewer : ℕ → Db → Type 0
  Fewer n db =
      (gone unindexed : List Bytes) × IsAged j.queue cutoff gone unindexed start db
      × (n + length (letters_of db) ≤ length (letters_of start))

  -- Letters are gone with their entries, and as many as are counted.
  abbrev Counted : ℕ → Db → Type 0
  Counted n db =
      (gone : List Bytes) × IsAged j.queue cutoff gone gone start db
      × (n + length (letters_of db) ≡ length (letters_of start))

  -- Without an error no letter is left up to the cutoff.
  abbrev pub Emptied : ℕ → Option Error → Db → Type 0
  Emptied n (some e) db = Fewer n db
  Emptied n none db = Counted n db × (upto_score cutoff (letters_of db) ≡ [])

  abbrev RoundAged : ZSet → Round → Type 0
  RoundAged z (ended n e w) = Emptied n e w.db
  RoundAged z (more n w) = Counted n w.db × (length (letters_of w.db) < length z)

  Counted-Fewer : (n : ℕ) (db : Db) → Counted n db → Fewer n db
  Counted-Fewer n db (gone, aged, count) = (gone, gone, aged, omega arith)

  old-IsOld :
      (gone : List Bytes) (db : Db) (id : Bytes)
      → letters_of db ≡ without_each gone (letters_of start)
      → has id (old_of db) ≡ true
      → has id (upto_score cutoff (letters_of start)) ≡ true
  old-IsOld gone db id e h = ground (
    arith,
    has-of-has-take batch id (upto_score cutoff (letters_of db)) h,
    ap (λ z. has id (upto_score cutoff z)) e,
    ap (has id) (upto_score-without_each cutoff gone (letters_of start)),
    has-without_each gone (upto_score cutoff (letters_of start)) id,
  )

  -- Commands on letters that were listed
  run-IsAged :
      (gone : List Bytes) (db : Db) (r : Option Error × World)
      → IsAged j.queue cutoff gone gone start db
      → (h : HasRun j.queue (members (old_of db)) (members (old_of db)) db r)
      → IsAged j.queue cutoff (gone ++ h.gone) (gone ++ h.unindexed) start r.1.db
  run-IsAged gone db r a h = record {
    removed = then-IsDeleted j.queue a.removed h.deleted;
    letters_aged = λ id m. ground (
      arith,
      a.letters_aged id,
      among-append id gone h.gone,
      h.some_letters id,
      among-members id (old_of db),
      old-IsOld gone db id a.removed.letters,
    );
    entries_aged = λ id m. ground (
      arith,
      a.entries_aged id,
      among-append id gone h.unindexed,
      h.some_entries id,
      among-members id (old_of db),
      old-IsOld gone db id a.removed.letters,
    );
  }

  run-Fewer :
      (n : ℕ) (db : Db) (r : Option Error × World)
      → Counted n db
      → HasRun j.queue (members (old_of db)) (members (old_of db)) db r
      → Fewer n r.1.db
  run-Fewer n db r (gone, a, count) h = (
    gone ++ h.gone,
    gone ++ h.unindexed,
    run-IsAged gone db r a h,
    omega (arith, ap length h.deleted.letters, length-without_each-le h.gone (letters_of db)),
  )

  length-run :
      (gone : List Bytes) (db db' : Db)
      → IsAged j.queue cutoff gone gone start db
      → letters_of db' ≡ without_each (members (old_of db)) (letters_of db)
      → length (letters_of db') + length (old_of db) ≡ length (letters_of db)
  length-run gone db db' a e =
      ap (λ z. length z + length (old_of db)) e
      ∙ length-without_each (old_of db) (letters_of db)
          (IsDistinct-take batch (upto_score cutoff (letters_of db))
            (IsDistinct-upto_score cutoff (letters_of db) once))
          once
          (λ id h.
            has-of-has-upto_score cutoff id (letters_of db)
              (has-of-has-take batch id (upto_score cutoff (letters_of db)) h))
    where
      once : IsDistinct (letters_of db)
      once =
          subst IsDistinct (sym a.removed.letters)
            (IsDistinct-without_each gone (letters_of start) distinct)

  -- Where no command has failed, all the letters that were listed are gone with their entries.
  run-letters :
      (db : Db) (r : Option Error × World)
      → r.0 ≡ none
      → (h : HasRun j.queue (members (old_of db)) (members (old_of db)) db r)
      → letters_of r.1.db ≡ without_each (members (old_of db)) (letters_of db)
  run-letters db r e h =
      h.deleted.letters ∙ ap (λ ids. without_each ids (letters_of db)) (h.complete e).0

  run-Counted :
      (n : ℕ) (db : Db) (r : Option Error × World)
      → r.0 ≡ none
      → Counted n db
      → HasRun j.queue (members (old_of db)) (members (old_of db)) db r
      → Counted (n + length (old_of db)) r.1.db
  run-Counted n db r e (gone, a, count) h = (
    gone ++ h.gone,
    subst (λ u. IsAged j.queue cutoff (gone ++ h.gone) (gone ++ u) start r.1.db)
        ((h.complete e).1 ∙ sym (h.complete e).0) (run-IsAged gone db r a h),
    omega (arith, length-run gone db r.1.db a (run-letters db r e h)),
  )

  -- Fewer letters than a batch are all that were up to the cutoff.
  short-gone :
      (db db' : Db)
      → letters_of db' ≡ without_each (members (old_of db)) (letters_of db)
      → length (old_of db) < batch
      → upto_score cutoff (letters_of db') ≡ []
  short-gone db db' e short =
      ap (upto_score cutoff) e
      ∙ upto_score_gone batch cutoff (letters_of db)
          (omega (arith, length-take batch (upto_score cutoff (letters_of db))))

  -- A pipeline over k letters, a batch at most
  answered-RoundAged :
      (n k : ℕ) (w : World) (r : Option Error × World)
      → Counted n w.db
      → k ≡ length (old_of w.db)
      → 0 < k
      → HasRun j.queue (members (old_of w.db)) (members (old_of w.db)) w.db r
      → RoundAged (letters_of w.db) (deleted j n k r)
  answered-RoundAged n k w (some e, w') c all positive h = run-Fewer n w.db (some e, w') c h
  answered-RoundAged n k w (none, w') c all positive h =
      if-split (RoundAged (letters_of w.db)) (ltb k batch)
        (λ below. (counted, short-gone w.db w'.db rest (omega (arith, ltb→lt k batch below, all))))
        (λ full. (counted, omega (arith, fewer c, all)))
    where
      rest : letters_of w'.db ≡ without_each (members (old_of w.db)) (letters_of w.db)
      rest = run-letters w.db (none, w') refl h

      counted : Counted (n + k) w'.db
      counted =
          subst (λ k. Counted (n + k) w'.db) (sym all) (run-Counted n w.db (none, w') refl c h)

      fewer :
          Counted n w.db
          → length (letters_of w'.db) + length (old_of w.db) ≡ length (letters_of w.db)
      fewer (gone, a, count) = length-run gone w.db w'.db a rest

  -- Any command of the pipeline may fail, or be executed and lose its answer.
  listed-RoundAged :
      (n : ℕ) (w : World) (y : ZSet)
      → Counted n w.db
      → old_of w.db ≡ y
      → RoundAged (letters_of w.db) (listed j n (inr (members y), w))
  listed-RoundAged n w [] c e = (c, none_old)
    where
      none_old : upto_score cutoff (letters_of w.db) ≡ []
      none_old = take-nil 99 (upto_score cutoff (letters_of w.db)) e
  listed-RoundAged n w (x ∷ y) c e =
      answered-RoundAged n (length (members (x ∷ y))) w (delete_each j (members (x ∷ y)) w) c
        (length-members (x ∷ y) ∙ ap length (sym e)) (omega arith)
        (subst
          (λ z. HasRun j.queue (members z) (members z) w.db (delete_each j (members (x ∷ y)) w))
          (sym e) (delete_each-HasRun j laws (members (x ∷ y)) w))

  purge_aged-RoundAged :
      (n : ℕ) (w : World) → Counted n w.db → RoundAged (letters_of w.db) (purge_aged j cutoff n w)
  unfolding purge_aged call
  purge_aged-RoundAged n w c =
      elim (j.env.net w.calls)
        as (λ f. RoundAged (letters_of w.db) (listed j n (carry f (list_aged j cutoff) w))) [
          | delivered ↦
              rw (laws.zrangebyscore_upto_lists cutoff batch (letters_of w.db))
                (listed-RoundAged n (record w { calls = suc w.calls }) (old_of w.db) c refl)
          | refused ↦ Counted-Fewer n w.db c
          | lost ↦ Counted-Fewer n w.db c
        ]

  -- The purge has returned a count and an error or none.
  abbrev pub HasPurged : Option (ℕ × Option Error × World) → Type 0
  HasPurged r =
      (n : ℕ) × (e : Option Error) × (w' : World) × (r ≡ some (n, e, w')) × Emptied n e w'.db

  purge_aged_batches-HasPurged :
      (fuel n : ℕ) (w : World)
      → length (letters_of w.db) < fuel
      → Counted n w.db
      → HasPurged (purge_aged_batches j cutoff fuel n w)
  unfolding purge_aged_batches
  purge_aged_batches-HasPurged zero n w enough c = absurd (omega arith)
  purge_aged_batches-HasPurged (suc fuel) n w enough c =
      step (purge_aged j cutoff n w) (purge_aged-RoundAged n w c)
        (purge_aged_batches-HasPurged fuel)
    where
      step :
          (r : Round)
          → RoundAged (letters_of w.db) r
          → ((n : ℕ) (w : World)
              → length (letters_of w.db) < fuel
              → Counted n w.db
              → HasPurged (purge_aged_batches j cutoff fuel n w))
          → HasPurged (elim r as (λ r. Option (ℕ × Option Error × World)) [
            | ended n e w' ↦ some (n, e, w')
            | more n w' ↦ purge_aged_batches j cutoff fuel n w'
          ])
      step (ended k e w') s rest = (k, e, w', refl, s)
      step (more k w') s rest = rest k w' (omega arith) s.0

-- With each dead letter once, no one else at them, and whatever commands fail: the purge by age returns,
-- in a round more than there are dead letters at most. It removes only letters up to the cutoff and
-- entries of the index for these, and counts no letter that is still there. Without an error each letter
-- is removed with its entry, all that are removed are counted, and no letter up to the cutoff is left.
pub purge_dlq_by_age-HasPurged :
    (j : RetentionJanitor) (laws : Laws j.env.commands) (max_age : ℤ) (fuel : ℕ) (w : World)
    (distinct : IsDistinct (w.db.zsets (dlq j.queue)))
    → length (w.db.zsets (dlq j.queue)) < fuel
    → HasPurged j laws w.db (cutoff_of j max_age w) distinct (purge_dlq_by_age j max_age fuel w)
unfolding purge_dlq_by_age
purge_dlq_by_age-HasPurged j laws max_age fuel w distinct enough =
    purge_aged_batches-HasPurged j laws w.db (cutoff_of j max_age w) distinct fuel 0 (now j.env w).1
      enough
      (
        [],
        record {
          removed = nothing-IsDeleted j.queue w.db;
          letters_aged = λ id h. absurd (unfold among in cc);
          entries_aged = λ id h. absurd (unfold among in cc);
        },
        omega arith,
      )
