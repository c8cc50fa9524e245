-- ===== src/Client/Cron/Entries.antt =====
-- What the registration and the deletion of a cron job in internal/taskmq/client/cron.go leave behind.
use taskmq.Prelude.{
  ℕ, suc, ◌≡◌, ◌≢◌, ◌≤◌, ◌<◌, length, ◌⊎◌, inl, inr, refl, ap, ◌∙◌, Bytes, true, false, ◌=b◌,
  =b_iff, =b_refl, if-split, Option, none, some, arith,
}
use taskmq.Prelude.Int.{ℤ, pos, pos_part, ◌<ℤ◌, ◌≤ℤ◌}
use taskmq.Keys.{delayed, cron_configs}
use taskmq.Redis.{Db, Commands, ZSet}
use taskmq.Redis.Reference.{has}
use taskmq.Redis.Laws.{Laws}
use taskmq.Redis.Members.{has-insert, has-without}
use taskmq.Lifecycle.Capacity.{has-zadd}
use taskmq.Lifecycle.Scripts.{Reply, number, ok_reply, delayed_full_reply, make_room}
use taskmq.World.{World, delivered, call}
use taskmq.Client.{Client}
use taskmq.Client.Cron.{with_job, new_job, job_set, register_cron_script, delete_cron_job}

-- A delayed set at its limit, where the flag does not ask to drop from it
abbrev pub HasNoRoom : ℤ → ℤ → ZSet → Type 0
HasNoRoom max_count overflow z =
    (pos 0 <ℤ max_count) × (pos_part max_count ≤ length z) × (overflow ≢ pos 1)

abbrev pub HasRoom : ℤ → ℤ → ZSet → Type 0
HasRoom max_count overflow z =
    (max_count ≤ℤ pos 0) ⊎ (length z < pos_part max_count) ⊎ (overflow ≡ pos 1)

-- Why a job is set: it is new and there is room, or it had another entry, whose run no longer waits.
abbrev pub IsSettable : Bytes → ℤ → ℤ → ZSet → ZSet → Option Bytes → Type 0
IsSettable serialized max_count overflow z z' none = HasRoom max_count overflow z
IsSettable serialized max_count overflow z z' (some existing) =
    ((existing =b serialized) ≡ false) × (has existing z' ≡ false)

-- The three ends: the job is new, there was no room, and nothing changed; the job was registered just
-- so and nothing changed; or the job is registered and its first run waits.
abbrev pub IsRegistered : Bytes → Bytes → Bytes → Bytes → ℤ → ℤ → Db → Db × Reply → Type 0
IsRegistered configs delayed_key job serialized max_count overflow db r =
    (r.1 ≡ delayed_full_reply)
      × (r.0 ≡ db)
      × (db.hashes configs job ≡ none)
      × HasNoRoom max_count overflow (db.zsets delayed_key)
    ⊎ (r.1 ≡ number (pos 0)) × (r.0 ≡ db) × (db.hashes configs job ≡ some serialized)
    ⊎ (r.1 ≡ ok_reply)
      × (r.0.hashes configs job ≡ some serialized)
      × (has serialized (r.0.zsets delayed_key) ≡ true)
      × IsSettable serialized max_count overflow (db.zsets delayed_key) (r.0.zsets delayed_key)
          (db.hashes configs job)

module _ (c : Commands) (laws : Laws c) (configs delayed_key job serialized : Bytes) (score : ℤ)
    (db : Db) (max_count overflow : ℤ) where
  abbrev Is : Db × Reply → Type 0
  Is = IsRegistered configs delayed_key job serialized max_count overflow db

  full-HasNoRoom :
      (z : ZSet) → make_room c max_count overflow z ≡ none → HasNoRoom max_count overflow z
  unfolding make_room
  full-HasNoRoom z e = ground (arith, laws.zcard_length z)

  made-HasRoom :
      (z z' : ZSet) → make_room c max_count overflow z ≡ some z' → HasRoom max_count overflow z
  unfolding make_room
  made-HasRoom z z' e = ground (arith, laws.zcard_length z)

  -- The run of the entry before is taken out, and the new one does not bring it back.
  replaced :
      (existing : Bytes) (z : ZSet)
      → (existing =b serialized) ≡ false
      → has existing (c.zadd score serialized (c.zrem existing z).0) ≡ false
  replaced existing z other = ground (
    arith,
    has-insert (laws.zadd_inserts score serialized (c.zrem existing z).0) existing,
    laws.zrem_removes existing z,
    has-without existing existing z,
    =b_iff serialized existing,
    =b_iff existing serialized,
    =b_refl existing,
  )

  with_job-Is :
      (z : ZSet)
      → IsSettable serialized max_count overflow
          (db.zsets delayed_key)
          (c.zadd score serialized z)
          (db.hashes configs job)
      → Is (with_job c configs delayed_key job serialized score db z)
  with_job-Is z settable = inr (
      inr (
        refl,
        simp =b_refl
            (ground (arith, laws.hset_sets job serialized (db.hashes configs) job, =b_refl job)),
        simp =b_refl (has-zadd c laws score serialized z),
        rw (=b_refl delayed_key) settable,
      ))

  new_job-Is :
      (room : Option ZSet)
      → make_room c max_count overflow (db.zsets delayed_key) ≡ room
      → db.hashes configs job ≡ none
      → Is (new_job c configs delayed_key job serialized score db room)
  new_job-Is none full new = inl (refl, refl, new, full-HasNoRoom (db.zsets delayed_key) full)
  new_job-Is (some z) made new = with_job-Is z (rw new (made-HasRoom (db.zsets delayed_key) z made))

  job_set-Is :
      (o : Option Bytes)
      → db.hashes configs job ≡ o
      → Is (job_set c configs delayed_key job serialized score db max_count overflow o)
  job_set-Is none e = new_job-Is (make_room c max_count overflow (db.zsets delayed_key)) refl e
  job_set-Is (some existing) e =
      if-split Is (existing =b serialized)
        (λ same. inr (inl (refl, refl, e ∙ ap some ((=b_iff existing serialized).0 same))))
        (λ other.
          with_job-Is (c.zrem existing (db.zsets delayed_key)).0
            (rw e (other, replaced existing (db.zsets delayed_key) other)))

  -- A registration changes nothing and replies that the set is full where the job is new, the delayed
  -- set is at its limit, and the flag is not 1; it changes nothing where the same entry is there; or it
  -- sets the job and puts its first run into the delayed set, where the job is new and there is no
  -- limit, room under it, or the flag 1, or where the job had another entry, whose own run then waits
  -- no longer.
  pub register_cron_script-IsRegistered :
      IsRegistered configs delayed_key job serialized max_count overflow db
        (register_cron_script c configs delayed_key job serialized score db max_count overflow)
  unfolding register_cron_script
  register_cron_script-IsRegistered = job_set-Is (db.hashes configs job) refl

-- A cron job is deleted and all calls arrive: its entry is gone, and a run of it that waits in the
-- delayed set under another encoding than the entry's, as every run after the first does, still waits.
pub delete_cron_job-keeps_next_run :
    (c : Client) (laws : Laws c.env.commands) (queue job serialized next_run : Bytes) (w : World)
    → ((n : ℕ) → c.env.net n ≡ delivered)
    → w.db.hashes (cron_configs queue) job ≡ some serialized
    → (serialized =b next_run) ≡ false
    → has next_run (w.db.zsets (delayed queue)) ≡ true
    → let r = delete_cron_job c queue job w in
      (r.0 ≡ none)
      × (r.1.db.hashes (cron_configs queue) job ≡ none)
      × (has next_run (r.1.db.zsets (delayed queue)) ≡ true)
unfolding delete_cron_job call
delete_cron_job-keeps_next_run c laws queue job serialized next_run w reliable there other waits =
    rw (reliable w.calls, there, reliable (suc w.calls), reliable (suc (suc w.calls)))
      (
        refl,
        simp =b_refl (
            ground
              (arith, laws.hdel_deletes job (w.db.hashes (cron_configs queue)) job, =b_refl job)),
        simp (=b_refl, laws.zrem_removes)
            (ground (arith, has-without serialized next_run (w.db.zsets (delayed queue)))),
      )
