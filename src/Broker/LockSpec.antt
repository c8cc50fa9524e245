-- ===== src/Broker/LockSpec.antt =====
-- The unique lock as an abstract lock with an owner, which the scripts of internal/taskmq/broker/broker.go
-- and internal/taskmq/lifecycle/scripts implement on a string key.
use taskmq.Prelude.{
  ℕ, ◌≡◌, ◌≢◌, ◌⊎◌, inl, inr, refl, sym, ap, ◌∙◌, subst, Bytes, true, false, ◌&&◌, not, List, [],
  ◌∷◌, All, ◌=b◌, =b_iff, =b_refl, if-both, if-split, Option, none, some, arith,
}
use taskmq.Prelude.Int.{ℤ, pos, ltb_ℤ}
use taskmq.Redis.{Db, StringValue, ZSet, Commands}
use taskmq.Redis.Laws.{Laws}
use taskmq.Lifecycle.Scripts.{
  Reply, equals, held_by_other, at_limit, enqueue_unique_with_limit, enqueue_unique_delayed_limit,
  lock_and_insert, make_room,
}
use taskmq.Broker.Scripts.{
  settle_entry, release_lock, dead_letter, handle_failure_dlq, complete, unlock, renew_unique_lock,
}

-- The scripts that a task with an id runs on its lock, each with its other arguments.
pub data Op : Type 0 where
  enqueue_now : (owner stream serialized : Bytes) (ttl hard maxlen : ℤ) → Op
  enqueue_later : (owner delayed serialized : Bytes) (ttl score max_count overflow : ℤ) → Op
  complete_by : (owner stream group : Bytes) (msg_id : ℕ) → Op
  die :
      (owner target stream dlq_index group serialized task_id : Bytes) (msg_id : ℕ)
      (score max_count : ℤ)
      → Op
  unlock_by : (owner : Bytes) → Op
  renew_by : (owner : Bytes) (ttl : ℤ) → Op

abbrev pub owner_of : Op → Bytes
owner_of (enqueue_now o _ _ _ _ _) = o
owner_of (enqueue_later o _ _ _ _ _ _) = o
owner_of (complete_by o _ _ _) = o
owner_of (die o _ _ _ _ _ _ _ _ _) = o
owner_of (unlock_by o) = o
owner_of (renew_by o _) = o

-- Who holds the lock.
abbrev pub holder_of : Option StringValue → Option Bytes
holder_of none = none
holder_of (some v) = some v.value

-- What a task may do to an abstract lock: nothing, take it if it is free or its own, or give it back if it
-- is its own.
abbrev pub LockStep : Bytes → Option Bytes → Option Bytes → Type 0
LockStep a o o' = (o' ≡ o) ⊎ (o' ≡ some a) × (o ≡ none) ⊎ (o' ≡ none) × (o ≡ some a)

module _ (c : Commands) (lock : Bytes) where
  abbrev pub apply : Op → Db → Db × Reply
  apply (enqueue_now o stream serialized ttl hard maxlen) =
      enqueue_unique_with_limit c lock stream o ttl serialized hard maxlen
  apply (enqueue_later o delayed serialized ttl score max_count overflow) =
      enqueue_unique_delayed_limit c lock delayed o ttl serialized score max_count overflow
  apply (complete_by o stream group msg_id) = complete c stream lock msg_id group o
  apply (die o target stream dlq_index group serialized task_id msg_id score max_count) =
      handle_failure_dlq c target stream lock dlq_index msg_id group score serialized o task_id
        max_count
  apply (unlock_by o) = unlock c lock o
  apply (renew_by o ttl) = renew_unique_lock c lock o ttl

  abbrev pub holder : Db → Option Bytes
  holder db = holder_of (db.strings lock)

  -- The scripts of several tasks, in order.
  unfoldable pub apply_all : List Op → Db → Db
  apply_all [] db = db
  apply_all (op ∷ ops) db = apply_all ops (apply op db).0

equals-holder :
    (v : Option StringValue) (owner : Bytes) → equals v owner ≡ true → holder_of v ≡ some owner
equals-holder none owner h = cc
equals-holder (some v) owner h = ap some ((=b_iff v.value owner).0 h)

free_or_own :
    (v : Option StringValue) (owner : Bytes)
    → held_by_other v owner ≡ false
    → (holder_of v ≡ none) ⊎ (holder_of v ≡ some owner)
free_or_own none owner h = inl refl
free_or_own (some v) owner h = inr (ground (arith, =b_iff v.value owner))

-- The owner's lock after it is taken.
taken-LockStep :
    (owner : Bytes) (o : Option Bytes)
    → (o ≡ none) ⊎ (o ≡ some owner)
    → LockStep owner o (some owner)
taken-LockStep owner o (inl free) = inr (inl (refl, free))
taken-LockStep owner o (inr own) = inl (sym own)

module _ (c : Commands) (laws : Laws c) (lock : Bytes) where
  abbrev Steps : Bytes → Db → Db → Type 0
  Steps owner db db' = LockStep owner (holder c lock db) (holder c lock db')

  release_lock-Steps : (owner : Bytes) (db : Db) → Steps owner db (release_lock c lock owner db)
  unfolding release_lock
  release_lock-Steps owner db =
      if-split (Steps owner db)
        (not (lock =b []) && (not (owner =b []) && equals (db.strings lock) owner))
        (λ own. inr (inr (simp =b_refl refl, equals-holder (db.strings lock) owner (ground arith))))
        (λ other. inl refl)

  unlock-Steps : (owner : Bytes) (db : Db) → Steps owner db (unlock c lock owner db).0
  unfolding unlock
  unlock-Steps owner db =
      if-split (λ (r : Db × Reply). Steps owner db r.0) (equals (db.strings lock) owner)
        (λ own. inr (inr (simp =b_refl refl, equals-holder (db.strings lock) owner own)))
        (λ other. inl refl)

  -- A lock that is renewed has its owner, or is gone.
  renewed :
      (ttl : ℤ) (v : Option StringValue) (owner : Bytes)
      → equals v owner ≡ true
      → LockStep owner (holder_of v) (holder_of (c.pexpire ttl v))
  renewed ttl none owner own = cc
  renewed ttl (some v) owner own = rw (laws.pexpire_some ttl v) (
      if-split (λ (o : Option StringValue). LockStep owner (some v.value) (holder_of o))
        (ltb_ℤ (pos 0) ttl) (λ longer. inl refl)
        (λ over. inr (inr (refl, equals-holder (some v) owner own))))

  renew-Steps :
      (owner : Bytes) (ttl : ℤ) (db : Db) → Steps owner db (renew_unique_lock c lock owner ttl db).0
  unfolding renew_unique_lock
  renew-Steps owner ttl db =
      if-split (λ (r : Db × Reply). Steps owner db r.0) (equals (db.strings lock) owner)
        (λ own. simp =b_refl (renewed ttl (db.strings lock) owner own)) (λ other. inl refl)

  set_px_value :
      (owner : Bytes) (ttl : ℤ)
      → (c.set_px owner ttl ≡ none)
        ⊎ ((v : StringValue) × (c.set_px owner ttl ≡ some v) × (v.value ≡ owner))
  set_px_value owner ttl = rw (laws.set_px_sets owner ttl) (
      if-both
        (λ (o : Option StringValue).
          (o ≡ none) ⊎ ((v : StringValue) × (o ≡ some v) × (v.value ≡ owner)))
        (ltb_ℤ (pos 0) ttl) (inr (record { value = owner; ttl_ms = ttl }, refl, refl)) (inl refl))

  enqueue_now-Steps :
      (owner stream serialized : Bytes) (ttl hard maxlen : ℤ) (db : Db)
      → Steps owner db
          (enqueue_unique_with_limit c lock stream owner ttl serialized hard maxlen db).0
  unfolding enqueue_unique_with_limit
  enqueue_now-Steps owner stream serialized ttl hard maxlen db =
      if-split P (held_by_other (db.strings lock) owner) (λ held. inl refl)
        (λ mine.
          if-both P (at_limit hard (c.xlen (db.streams stream))) (inl refl)
            (elim (set_px_value owner ttl) [
              | inl bad ↦ rw bad (inl refl)
              | inr (v, set, owned) ↦ rw set (
                  simp (=b_refl, owned)
                    (taken-LockStep owner (holder c lock db)
                      (free_or_own (db.strings lock) owner mine)))
            ]))
    where
      P : Db × Reply → Type 0
      P r = Steps owner db r.0

  enqueue_later-Steps :
      (owner delayed serialized : Bytes) (ttl score max_count overflow : ℤ) (db : Db)
      → Steps owner db
          (enqueue_unique_delayed_limit c lock delayed owner ttl serialized score max_count overflow
            db).0
  unfolding enqueue_unique_delayed_limit
  enqueue_later-Steps owner delayed serialized ttl score max_count overflow db =
      if-split P (held_by_other (db.strings lock) owner) (λ held. inl refl)
        (λ mine. inserted mine (make_room c max_count overflow (db.zsets delayed)))
    where
      P : Db × Reply → Type 0
      P r = Steps owner db r.0

      inserted :
          held_by_other (db.strings lock) owner ≡ false
          → (o : Option ZSet)
          → P (lock_and_insert c lock delayed (c.set_px owner ttl) score serialized o db)
      inserted mine none = inl refl
      inserted mine (some z) = elim (set_px_value owner ttl) [
        | inl bad ↦ rw bad (inl refl)
        | inr (v, set, owned) ↦ rw set (
            simp (=b_refl, owned)
              (taken-LockStep owner (holder c lock db) (free_or_own (db.strings lock) owner mine)))
      ]

  -- Every script is a step of its task on the abstract lock: it leaves the holder, takes a free lock,
  -- or gives its own lock back.
  pub apply-LockStep :
      (op : Op) (db : Db)
      → LockStep (owner_of op) (holder c lock db) (holder c lock (apply c lock op db).0)
  apply-LockStep (enqueue_now o stream serialized ttl hard maxlen) db =
      enqueue_now-Steps o stream serialized ttl hard maxlen db
  apply-LockStep (enqueue_later o delayed serialized ttl score max_count overflow) db =
      enqueue_later-Steps o delayed serialized ttl score max_count overflow db
  apply-LockStep (complete_by o stream group msg_id) db =
      unfold complete settle_entry in release_lock-Steps o (settle_entry c stream group msg_id db)
  apply-LockStep (die o target stream dlq_index group serialized task_id msg_id score max_count)
        db =
      unfold handle_failure_dlq dead_letter settle_entry in release_lock-Steps o _
  apply-LockStep (unlock_by o) db = unlock-Steps o db
  apply-LockStep (renew_by o ttl) db = renew-Steps o ttl db

  -- A sequence of steps on the abstract lock, each by the task of its operation.
  abbrev pub Trace : List Op → Option Bytes → Option Bytes → Type 0
  Trace [] o o' = o' ≡ o
  Trace (op ∷ ops) o o' = (m : Option Bytes) × LockStep (owner_of op) o m × Trace ops m o'

  -- Any sequence of scripts on a lock, by any tasks, is a sequence of steps of the abstract lock.
  pub apply_all-Trace :
      (ops : List Op) (db : Db)
      → Trace ops (holder c lock db) (holder c lock (apply_all c lock ops db))
  unfolding apply_all
  apply_all-Trace [] db = refl
  apply_all-Trace (op ∷ ops) db = (
    holder c lock (apply c lock op db).0,
    apply-LockStep op db,
    apply_all-Trace ops (apply c lock op db).0,
  )

  other_step : (a b : Bytes) (o : Option Bytes) → b ≢ a → LockStep b (some a) o → o ≡ some a
  other_step a b o ne (inl same) = same
  other_step a b o ne (inr (inl (taken, free))) = cc
  other_step a b o ne (inr (inr (freed, own))) = ground arith

  other_steps :
      (a : Bytes) (ops : List Op) (o o' : Option Bytes)
      → All (λ op. owner_of op ≢ a) ops
      → o ≡ some a
      → Trace ops o o'
      → o' ≡ some a
  other_steps a [] o o' ne e t = t ∙ e
  other_steps a (op ∷ ops) o o' ne e (m, step, rest) =
      other_steps a ops m o' ne.1
        (other_step a (owner_of op) m ne.0
          (subst (λ (o : Option Bytes). LockStep (owner_of op) o m) e step))
        rest

  -- While a task holds the lock, no sequence of scripts of other tasks takes it away.
  pub apply_all-holder :
      (a : Bytes) (ops : List Op) (db : Db)
      → All (λ op. owner_of op ≢ a) ops
      → holder c lock db ≡ some a
      → holder c lock (apply_all c lock ops db) ≡ some a
  apply_all-holder a ops db ne held =
      other_steps a ops (holder c lock db) (holder c lock (apply_all c lock ops db)) ne held
        (apply_all-Trace ops db)
