-- ===== src/Meta/Completed.antt =====
-- `MarkCompleted` and `PurgeExpiredCompleted` of internal/taskmq/meta/meta.go.
use taskmq.Prelude.{
  ℕ, ◌≡◌, ◌≤◌, ◌<◌, refl, ◌∙◌, ap, ap, Bytes, codes, ◌=b◌, =b_refl, ◌||◌, false, inl, inr, [], ◌∷◌,
  length, drop, if◌then◌else◌, if-split, Option, none, some, arith, ◌⊎◌,
}
use taskmq.Prelude.Int.{ℤ, pos, ltb_ℤ, leb_ℤ, pos_part, ◌<ℤ◌, ◌≤ℤ◌, negsuc}
use taskmq.Prelude.Decimal.{decimal}
use taskmq.Task.{Task, unix_milli}
use taskmq.Keys.{meta, completed}
use taskmq.Redis.{Db, ZSet, Commands, Hash}
use taskmq.Redis.Laws.{Laws, Inserted}
use taskmq.Redis.Reference.{has}
use taskmq.Redis.Members.{
  IsDistinct, length-without-le, length-insert, has-insert, IsDistinct-inserted,
}
use taskmq.Redis.Ranks.{
  out_of_ranks_oldest, length-out_of_ranks_oldest, IsDistinct-out_of_ranks_oldest,
}
use taskmq.World.{Env, World, call, TaskState, delivered}
use taskmq.Meta.{
  expire_ms, state_name, completed_fields, index_completed, completed_script, cap_completed,
  mark_completed,
}
use taskmq.Meta.Fields.{found, hset_all-found}

-- What a completion has recorded, from the server before and after it.
pub record IsRecorded (t : Task) (retention max_count now_ms : ℤ) (db db' : Db) : Type 0 where
  pub state : db'.hashes (meta t.queue t.id) (codes "state") ≡ some (state_name TaskState.completed)
  pub completed_at : db'.hashes (meta t.queue t.id) (codes "completed_at") ≡ some (decimal now_ms)
  pub expires : db'.expiries (meta t.queue t.id) ≡ some (expire_ms retention)
  pub capped : pos 0 <ℤ max_count → length (db'.zsets (completed t.queue)) ≤ pos_part max_count
  pub distinct : IsDistinct (db'.zsets (completed t.queue))
  pub indexed :
      (length (db.zsets (completed t.queue)) < pos_part max_count) ⊎ (max_count ≤ℤ pos 0)
      → (j : Bytes)
      → has j (db'.zsets (completed t.queue)) ≡ (t.id =b j) || has j (db.zsets (completed t.queue))
  pub others : (key : Bytes) → (meta t.queue t.id =b key) ≡ false → db'.hashes key ≡ db.hashes key

found_state :
    (t : Task) (r : Bytes) (at : ℤ) (old : Option Bytes)
    → found (completed_fields t r at) (codes "state") old ≡ some (state_name TaskState.completed)
unfolding found ◌=b◌
found_state t [] at old = refl
found_state t (_ ∷ _) at old = refl

found_completed_at :
    (t : Task) (r : Bytes) (at : ℤ) (old : Option Bytes)
    → found (completed_fields t r at) (codes "completed_at") old ≡ some (decimal at)
unfolding found ◌=b◌
found_completed_at t [] at old = refl
found_completed_at t (_ ∷ _) at old = refl

module _ (c : Commands) (laws : Laws c) where
  abbrev cut : ℤ → ZSet → ZSet
  cut max_count z =
      if ltb_ℤ (pos 0) max_count
      then c.zremrangebyrank (pos 0) (negsuc (pos_part max_count)) z
      else z

  cap_completed-cut :
      (k : Bytes) (max_count : ℤ) (db : Db)
      → (cap_completed c k max_count db).zsets k ≡ cut max_count (db.zsets k)
  cap_completed-cut k max_count db =
      if-split (λ (d : Db). d.zsets k ≡ cut max_count (db.zsets k)) (ltb_ℤ (pos 0) max_count)
        (λ limited. rw (limited, =b_refl k) refl) (λ unlimited. rw unlimited refl)

  cap_hashes :
      (k : Bytes) (max_count : ℤ) (db : Db)
      → ((cap_completed c k max_count db).hashes ≡ db.hashes)
        × ((cap_completed c k max_count db).expiries ≡ db.expiries)
  cap_hashes k max_count db =
      if-split (λ (d : Db). (d.hashes ≡ db.hashes) × (d.expiries ≡ db.expiries))
        (ltb_ℤ (pos 0) max_count) (λ _. (refl, refl)) (λ _. (refl, refl))

  length-cut :
      (max_count : ℤ) (z : ZSet)
      → pos 0 <ℤ max_count
      → length (cut max_count z) ≤ pos_part max_count
  length-cut max_count z h =
      if-split (λ (y : ZSet). length y ≤ pos_part max_count) (ltb_ℤ (pos 0) max_count)
        (λ _.
          rw (laws.zremrangebyrank_removes (pos 0) (negsuc (pos_part max_count)) z)
            (length-out_of_ranks_oldest (pos_part max_count) z))
        (λ unlimited. absurd (ground arith))

  IsDistinct-cut : (max_count : ℤ) (z : ZSet) → IsDistinct z → IsDistinct (cut max_count z)
  IsDistinct-cut max_count z d =
      if-split IsDistinct (ltb_ℤ (pos 0) max_count)
        (λ _.
          rw (laws.zremrangebyrank_removes (pos 0) (negsuc (pos_part max_count)) z)
            (IsDistinct-out_of_ranks_oldest (pos_part max_count) z d))
        (λ _. d)

  cut_whole :
      (max_count : ℤ) (z : ZSet)
      → (length z ≤ pos_part max_count) ⊎ (max_count ≤ℤ pos 0)
      → cut max_count z ≡ z
  cut_whole max_count z h =
      if-split (λ (y : ZSet). y ≡ z) (ltb_ℤ (pos 0) max_count)
        (λ limited.
          laws.zremrangebyrank_removes (pos 0) (negsuc (pos_part max_count)) z
          ∙ out_of_ranks_oldest (pos_part max_count) z
          ∙ ap (λ (k : ℕ). drop k z) {y = 0} (ground arith))
        (λ _. refl)

  module _ (t : Task) (result : Bytes) (retention max_count now_ms : ℤ) (db : Db) where
    abbrev key : Bytes
    key = meta t.queue t.id

    abbrev index : Bytes
    index = completed t.queue

    abbrev recorded : Db
    recorded = (completed_script c t result retention max_count now_ms db).0

    abbrev listed : ZSet
    listed = c.zadd now_ms t.id (db.zsets index)

    recorded-cut : recorded.zsets index ≡ cut max_count listed
    recorded-cut =
        cap_completed-cut index max_count (index_completed c t result retention now_ms db)
        ∙ rw (=b_refl index) refl

    recorded_field :
        (g : Bytes)
        → recorded.hashes key g ≡ found (completed_fields t result now_ms) g (db.hashes key g)
    recorded_field g =
        ap (λ (h : Bytes → Hash). h key g)
          (cap_hashes index max_count (index_completed c t result retention now_ms db)).0
        ∙ (rw (=b_refl key)
            (hset_all-found c laws (completed_fields t result now_ms) (db.hashes key) g))

    recorded-IsRecorded :
        IsDistinct (db.zsets index) → IsRecorded t retention max_count now_ms db recorded
    recorded-IsRecorded d = record {
      state =
          recorded_field (codes "state")
          ∙ found_state t result now_ms (db.hashes key (codes "state"));
      completed_at =
          recorded_field (codes "completed_at")
          ∙ found_completed_at t result now_ms (db.hashes key (codes "completed_at"));
      expires =
          ap (λ (e : Bytes → Option ℤ). e key)
            (cap_hashes index max_count (index_completed c t result retention now_ms db)).1
          ∙ rw (=b_refl key) refl;
      capped = λ limited. rw recorded-cut (length-cut max_count listed limited);
      distinct = rw recorded-cut (IsDistinct-cut max_count listed (IsDistinct-inserted ins d));
      indexed = λ room j.
          ap (has j) (recorded-cut ∙ cut_whole max_count listed (fits room)) ∙ has-insert ins j;
      others = λ k other.
          ap (λ (h : Bytes → Hash). h k)
            (cap_hashes index max_count (index_completed c t result retention now_ms db)).0
          ∙ rw other refl;
    }
      where
        ins : Inserted now_ms t.id (db.zsets index) listed
        ins = laws.zadd_inserts now_ms t.id (db.zsets index)

        fits :
            (length (db.zsets index) < pos_part max_count) ⊎ (max_count ≤ℤ pos 0)
            → (length listed ≤ pos_part max_count) ⊎ (max_count ≤ℤ pos 0)
        fits (inl room) =
            inl (omega (arith, length-insert ins, length-without-le t.id (db.zsets index)))
        fits (inr unlimited) = inr unlimited

-- For a task with an id, a positive retention, an index with each id once, and the call delivered,
-- MarkCompleted returns no error, and the task's hash says that it completed at the clock's time and
-- expires after the retention in milliseconds; the index has each id once and, under a cap, no more than that, and
-- with room or without a cap has gained the id and nothing else; no other hash changes, so the ids
-- that the cap cuts from the index keep theirs.
pub mark_completed-IsRecorded :
    (env : Env)
    → Laws env.commands
    → (t : Task) (result : Bytes) (retention max_count : ℤ) (w : World) → (t.id =b []) ≡ false
    → pos 0 <ℤ retention
    → IsDistinct (w.db.zsets (completed t.queue))
    → env.net w.calls ≡ delivered
    → ((mark_completed env t result retention max_count w).0 ≡ none)
      × IsRecorded t retention max_count
          (unix_milli (env.clock w.reads))
          w.db
          (mark_completed env t result retention max_count w).1.db
unfolding mark_completed call
mark_completed-IsRecorded env laws t result retention max_count w named long d arrives =
    rw (named, positive, arrives)
      (
        refl,
        recorded-IsRecorded env.commands laws t result retention max_count
            (unix_milli (env.clock w.reads)) w.db d,
      )
  where
    positive : leb_ℤ retention (pos 0) ≡ false
    positive = ground arith
