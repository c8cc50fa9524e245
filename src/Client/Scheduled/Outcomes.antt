-- ===== src/Client/Scheduled/Outcomes.antt =====
-- What `RunScheduledTask` and `DeleteScheduledTask` of internal/taskmq/client/scheduled.go leave behind.
use taskmq.Prelude.{
  ℕ, suc, ◌≡◌, ◌⊎◌, inl, inr, refl, sym, ap, ◌∙◌, subst, Bytes, true, false, ◌=b◌, =b_refl, List,
  [], ◌∷◌, take_all, if-both, if-split, Option, none, some, arith,
}
use taskmq.Prelude.Int.{ℤ, pos, negsuc}
use taskmq.Errors.{Error}
use taskmq.Task.{Task, zero_task}
use taskmq.Keys.{stream, delayed, unique}
use taskmq.Redis.{Db, ZSet}
use taskmq.Redis.Reference.{has, without, members, in_ranks}
use taskmq.Redis.Laws.{Laws}
use taskmq.Redis.Ranks.{among, among-members}
use taskmq.Lifecycle.Config.{stream_limits}
use taskmq.Lifecycle.Scripts.{Reply, force_promote_member}
use taskmq.Lifecycle.Streams.{Added}
use taskmq.Lifecycle.Promotion.{IsPromotion, force_promote_member-IsPromotion}
use taskmq.Lifecycle.Admission.{limits_of, promoted, force_promote}
use taskmq.World.{World, Fault, delivered, refused, lost, carry, call, deliver, run}
use taskmq.Broker.Outcomes.{Outcome}
use taskmq.Client.{Client}
use taskmq.Client.Scheduled.{
  matched, find_scheduled, all_scheduled, chosen, on_scheduled, gone_named, run_member,
  run_scheduled_task, remove_member, member_removed, delete_member, delete_scheduled_task,
}

module _ (c : Client) (laws : Laws c.env.commands) (queue task_id : Bytes) where
  -- The member is listed and decodes to a task with the id.
  abbrev IsNamed : List Bytes → Bytes → Task → Type 0
  IsNamed ms m t =
      (among m ms ≡ true) × (c.codec.unmarshal m zero_task ≡ inr t) × ((t.id =b task_id) ≡ true)

  abbrev FoundIn : List Bytes → Option (Bytes × Task) → Type 0
  FoundIn ms none = Unit {0}
  FoundIn ms (some (m, t)) = IsNamed ms m t

  matched-FoundIn :
      (m : Bytes) (ms : List Bytes) (d : Error ⊎ Task) (later : Option (Bytes × Task))
      → c.codec.unmarshal m zero_task ≡ d
      → FoundIn ms later
      → FoundIn (m ∷ ms) (matched c queue task_id m d later)
  matched-FoundIn m ms (inl e) none decodes h = tt
  matched-FoundIn m ms (inl e) (some (n, t)) decodes h =
      (unfold among in ground (arith, h.0), h.1, h.2)
  matched-FoundIn m ms (inr t) none decodes h =
      if-split (FoundIn (m ∷ ms)) (t.id =b task_id)
        (λ same. (unfold among in ground (arith, =b_refl m), decodes, same)) (λ other. tt)
  matched-FoundIn m ms (inr t) (some (n, u)) decodes h =
      if-split (FoundIn (m ∷ ms)) (t.id =b task_id)
        (λ same. (unfold among in ground (arith, =b_refl m), decodes, same))
        (λ other. (unfold among in ground (arith, h.0), h.1, h.2))

  find_scheduled-FoundIn : (ms : List Bytes) → FoundIn ms (find_scheduled c queue task_id ms)
  unfolding find_scheduled
  find_scheduled-FoundIn [] = tt
  find_scheduled-FoundIn (m ∷ ms) =
      matched-FoundIn m ms (c.codec.unmarshal m zero_task) (find_scheduled c queue task_id ms) refl
        (find_scheduled-FoundIn ms)

  abbrev waiting : Db → ZSet
  waiting db = db.zsets (delayed queue)

  listed : (db : Db) → (all_scheduled c queue task_id db).1 ≡ members (waiting db)
  unfolding in_ranks
  listed db =
      laws.zrange_lists (pos 0) (negsuc 0) (waiting db)
      ∙ ap members (take_all _ (waiting db) (omega arith))

  -- A member of the delayed set that decodes to a task with the id.
  abbrev pub IsScheduledAs : Db → Bytes → Task → Type 0
  IsScheduledAs db m t =
      (has m (waiting db) ≡ true)
      × (c.codec.unmarshal m zero_task ≡ inr t)
      × ((t.id =b task_id) ≡ true)

  module _ (P : World → Type 0) (next : Bytes → Task → World → Option Error × World) where
    abbrev Ends : Option Error × World → World → Type 0
    Ends r w = Outcome r w (P r.1)

    chosen-Ends :
        (o : Option (Bytes × Task)) (w w₁ : World)
        → w₁.db ≡ w.db
        → FoundIn (members (waiting w.db)) o
        → ((m : Bytes) (t : Task) → IsScheduledAs w.db m t → Ends (next m t w₁) w)
        → Ends (chosen c queue task_id next o w₁) w
    chosen-Ends none w w₁ same found h = inl (ground arith, same)
    chosen-Ends (some (m, t)) w w₁ same found h =
        if-both (λ r. Ends r w) (m =b []) (inl (ground arith, same))
          (h m t (sym (among-members m (waiting w.db)) ∙ found.0, found.1, found.2))

    on_scheduled-Ends :
        (w : World)
        → ((m : Bytes) (t : Task)
            → IsScheduledAs w.db m t
            → Ends (next m t (record w { calls = suc w.calls })) w)
        → Ends (on_scheduled c queue task_id next (call c.env (all_scheduled c queue task_id) w)) w
    unfolding call
    on_scheduled-Ends w h =
        elim (c.env.net w.calls)
          as (λ f.
            Ends (on_scheduled c queue task_id next (carry f (all_scheduled c queue task_id) w))
              w) [
                | delivered ↦ rw (listed w.db) (
                    chosen-Ends (find_scheduled c queue task_id (members (waiting w.db))) w
                      (record w { calls = suc w.calls }) refl
                      (find_scheduled-FoundIn (members (waiting w.db))) h)
                | refused ↦ inl (ground arith, refl)
                | lost ↦ inl (ground arith, refl)
              ]

  -- The task with the id has left the delayed set, and is the last entry of the stream.
  abbrev pub IsRunNow : World → World → Type 0
  IsRunNow w w' =
      (m : Bytes) × (t : Task) × IsScheduledAs w.db m t
      × (has m (waiting w'.db) ≡ false)
      × ((id : ℕ) × Added (stream_limits (limits_of w.lifecycle)).1 m (w.db.streams (stream queue))
            (w'.db.streams (stream queue)) id)

  -- The task with the id has left the delayed set, in which all others stay, and nothing has left a stream.
  abbrev pub IsRemoved : World → World → Type 0
  IsRemoved w w' =
      (m : Bytes) × (t : Task) × IsScheduledAs w.db m t
      × (waiting w'.db ≡ without m (waiting w.db))
      × (w'.db.streams ≡ w.db.streams)

  -- What the script does to the server when it moves a member.
  abbrev IsMoved : Bytes → ℤ → Db → Db → Type 0
  IsMoved m maxlen db db' =
      (has m (waiting db') ≡ false)
      × ((id : ℕ) × Added maxlen m (db.streams (stream queue)) (db'.streams (stream queue)) id)

  promoted-Ends :
      (m : Bytes) (maxlen : ℤ) (f : Fault) (script : Db → Db × Reply) (w : World)
      → has m (waiting w.db) ≡ true
      → IsPromotion (delayed queue) (stream queue) m maxlen w.db (script w.db)
      → let r = gone_named c queue task_id (promoted c.env (deliver f script w)) in
        Outcome r w (IsMoved m maxlen w.db r.1.db)
  promoted-Ends m maxlen delivered script w there (inl (full, same)) =
      rw full (inl (ground arith, same))
  promoted-Ends m maxlen delivered script w there (inr (inl (_, gone, _))) = absurd (cc gone)
  promoted-Ends m maxlen delivered script w there (inr (inr (moved, _, left, added))) =
      rw moved (inr (left, added))
  promoted-Ends m maxlen refused script w there h = inl (ground arith, refl)
  promoted-Ends m maxlen lost script w there (inl (full, same)) = inl (ground arith, same)
  promoted-Ends m maxlen lost script w there (inr (inl (_, gone, _))) = absurd (cc gone)
  promoted-Ends m maxlen lost script w there (inr (inr (moved, _, left, added))) = inr (left, added)

  run_member-Ends :
      (m : Bytes) (t : Task) (w : World)
      → has m (waiting w.db) ≡ true
      → Outcome (run_member c queue task_id m t w) w (
          IsMoved m
            (stream_limits (limits_of w.lifecycle)).1
            w.db
            (run_member c queue task_id m t w).1.db)
  unfolding force_promote run
  run_member-Ends m t w there =
      promoted-Ends m maxlen (c.env.net w.calls)
        (force_promote_member c.env.commands (delayed queue) (stream queue) m hard maxlen) w there
        (force_promote_member-IsPromotion c.env.commands laws (delayed queue) (stream queue) m hard
          maxlen w.db)
    where
      hard : ℤ
      hard = (stream_limits (limits_of w.lifecycle)).0

      maxlen : ℤ
      maxlen = (stream_limits (limits_of w.lifecycle)).1

  -- Whatever the network does: `RunScheduledTask` returns an error and leaves the server as it was, or a
  -- member of the delayed set that decodes to a task with the id has left the set and is the last entry
  -- of the stream.
  pub run_scheduled_task-Outcome :
      (w : World)
      → Outcome
          (run_scheduled_task c queue task_id w)
          w
          (IsRunNow w (run_scheduled_task c queue task_id w).1)
  unfolding run_scheduled_task
  run_scheduled_task-Outcome w =
      on_scheduled-Ends (IsRunNow w) (run_member c queue task_id) w (λ m t named.
        elim (run_member-Ends m t (record w { calls = suc w.calls }) named.0) [
          | inl failed ↦ inl failed
          | inr moved ↦ inr (m, t, named, moved.0, moved.1)
        ])

  -- Deleting the lock changes no sorted set and no stream.
  member_removed-db :
      (t : Task) (r : (Error ⊎ ℕ) × World)
      → ((member_removed c queue task_id t r).1.db.zsets ≡ r.1.db.zsets)
        × ((member_removed c queue task_id t r).1.db.streams ≡ r.1.db.streams)
  unfolding call
  member_removed-db t (inl e, w) = (refl, refl)
  member_removed-db t (inr n, w) = ground arith

  remove_member-waiting :
      (m : Bytes) (db : Db)
      → waiting (remove_member c queue task_id m db).0 ≡ without m (waiting db)
  remove_member-waiting m db = simp =b_refl (laws.zrem_removes m (waiting db))

  abbrev IsWithout : Bytes → Db → Db → Type 0
  IsWithout m db db' = (waiting db' ≡ without m (waiting db)) × (db'.streams ≡ db.streams)

  delete_member-Ends :
      (m : Bytes) (t : Task) (w : World)
      → Outcome
          (delete_member c queue task_id m t w)
          w
          (IsWithout m w.db (delete_member c queue task_id m t w).1.db)
  unfolding call
  delete_member-Ends m t w =
      elim (c.env.net w.calls)
        as (λ f.
          let r = member_removed c queue task_id t (carry f (remove_member c queue task_id m) w) in
          Outcome r w (IsWithout m w.db r.1.db)) [
            | delivered ↦
                inr (after (carry delivered (remove_member c queue task_id m) w) refl refl)
            | refused ↦ inl (ground arith, refl)
            | lost ↦ inr (remove_member-waiting m w.db, refl)
          ]
    where
      after :
          (r : (Error ⊎ ℕ) × World)
          → waiting r.1.db ≡ waiting (remove_member c queue task_id m w.db).0
          → r.1.db.streams ≡ w.db.streams
          → IsWithout m w.db (member_removed c queue task_id t r).1.db
      after r z s = (
        ap (λ (f : Bytes → ZSet). f (delayed queue)) (member_removed-db t r).0
            ∙ z
            ∙ remove_member-waiting m w.db,
        (member_removed-db t r).1 ∙ s,
      )

  -- Whatever the network does: `DeleteScheduledTask` returns an error and leaves the server as it was, or
  -- a member of the delayed set that decodes to a task with the id is no longer there; the other members
  -- and all streams are as they were.
  pub delete_scheduled_task-Outcome :
      (w : World)
      → Outcome
          (delete_scheduled_task c queue task_id w)
          w
          (IsRemoved w (delete_scheduled_task c queue task_id w).1)
  unfolding delete_scheduled_task
  delete_scheduled_task-Outcome w =
      on_scheduled-Ends (IsRemoved w) (delete_member c queue task_id) w (λ m t named.
        elim (delete_member-Ends m t (record w { calls = suc w.calls })) [
          | inl failed ↦ inl failed
          | inr done ↦ inr (m, t, named, done.0, done.1)
        ])

-- A task with a unique key is deleted by its id, and all calls arrive: then its lock is free, whichever
-- task held it.
pub delete_scheduled_task-frees_lock :
    (c : Client) (laws : Laws c.env.commands) (queue task_id m : Bytes) (t : Task) (w : World)
    → ((n : ℕ) → c.env.net n ≡ delivered)
    → find_scheduled c queue task_id (members (w.db.zsets (delayed queue))) ≡ some (m, t)
    → (m =b []) ≡ false
    → (t.unique_key =b []) ≡ false
    → (delete_scheduled_task c queue task_id w).1.db.strings (unique queue t.unique_key) ≡ none
unfolding delete_scheduled_task call
delete_scheduled_task-frees_lock c laws queue task_id m t w reliable found named keyed =
    rw
      (
        reliable w.calls,
        listed c laws queue task_id w.db,
        found,
        named,
        reliable (suc w.calls),
        laws.zrem_counts m (w.db.zsets (delayed queue)),
        there,
        keyed,
        reliable (suc (suc w.calls)),
      )
      (simp =b_refl refl)
  where
    ms : List Bytes
    ms = members (w.db.zsets (delayed queue))

    there : has m (w.db.zsets (delayed queue)) ≡ true
    there =
        sym (among-members m (w.db.zsets (delayed queue)))
        ∙ (subst (FoundIn c laws queue task_id ms) found
            (find_scheduled-FoundIn c laws queue task_id ms)).0
