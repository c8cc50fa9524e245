-- ===== src/Meta/Progress.antt =====
-- What the hashes of internal/taskmq/meta/meta.go hold whatever the store does: a progress and a state.
use taskmq.Prelude.{
  ◌≡◌, refl, ap, Bytes, codes, ◌=b◌, ◌⊎◌, inl, inr, List, [], ◌∷◌, if-both, Option, none, some,
  arith, ℕ, length, All,
}
use taskmq.Prelude.Int.{ℤ, pos, negsuc, ◌≤ℤ◌, ltb_ℤ, IsInt64, leb_ℤ}
use taskmq.Prelude.Decimal.Parse.{parse_int64, parse_int64-decimal}
use taskmq.Errors.{Error}
use taskmq.Task.{Task}
use taskmq.Keys.{meta, completed}
use taskmq.Redis.{Db, Hash, update}
use taskmq.Redis.Laws.{Laws}
use taskmq.World.{Env, World, call, now, TaskState, dlq, retry}
use taskmq.World.Run.{call-keeps}
use taskmq.Meta.{
  Fields, state_name, put_fields, state_fields, completed_fields, progress_fields, clamp, err, put,
  set_state, mark_completed, mark_dlq, mark_retry, delete, set_progress, purge_expired_completed,
  purged, purge_each, hset_script, del_script, completed_script, cap_completed, expired,
  purge_script, counted, hset_all, index_completed, batch_or_default,
}
use taskmq.Meta.Ops.{
  MetaOp, put_op, set_state_op, mark_completed_op, mark_dlq_op, mark_retry_op, delete_op,
  set_progress_op, purge_op, meta_op, meta_ops,
}
use taskmq.Meta.Fields.{found, hset_all-found}
use taskmq.Meta.Info.{number_of}

-- The progress reads as a percentage, and the state, if set, is one of the constants.
abbrev pub IsPercent : Option Bytes → Type 0
IsPercent o = (pos 0 ≤ℤ number_of o) × (number_of o ≤ℤ pos 100)

abbrev pub IsStateName : Option Bytes → Type 0
IsStateName o = (o ≡ none) ⊎ ((s : TaskState) × (o ≡ some (state_name s)))

-- The state that a caller gives is one of the constants.
abbrev pub IsConstant : Bytes → Type 0
IsConstant state = (s : TaskState) × (state ≡ state_name s)

abbrev pub IsSound : Hash → Type 0
IsSound h = IsPercent (h (codes "progress")) × IsStateName (h (codes "state"))

abbrev pub AllSound : Db → Type 0
AllSound db = (key : Bytes) → IsSound (db.hashes key)

-- Setting the fields keeps soundness.
abbrev Keeps : Fields → Type 0
Keeps fs =
    (o s : Option Bytes)
    → IsPercent o
    → IsStateName s
    → IsPercent (found fs (codes "progress") o) × IsStateName (found fs (codes "state") s)

put_fields-Keeps : (t : Task) (s : Bytes) (at : ℤ) → IsConstant s → Keeps (put_fields t s at)
unfolding found ◌=b◌
put_fields-Keeps t state at (n, e) o s percent name = (percent, inr (n, ap some e))

state_fields-Keeps : (s e i : Bytes) (at : ℤ) → IsConstant s → Keeps (state_fields s e i at)
unfolding found ◌=b◌
state_fields-Keeps state [] [] at (n, e) o s percent name = (percent, inr (n, ap some e))
state_fields-Keeps state [] (_ ∷ _) at (n, e) o s percent name = (percent, inr (n, ap some e))
state_fields-Keeps state (_ ∷ _) [] at (n, e) o s percent name = (percent, inr (n, ap some e))
state_fields-Keeps state (_ ∷ _) (_ ∷ _) at (n, e) o s percent name = (percent, inr (n, ap some e))

completed_fields-Keeps : (t : Task) (r : Bytes) (at : ℤ) → Keeps (completed_fields t r at)
unfolding found ◌=b◌
completed_fields-Keeps t [] at o s percent name = (percent, inr (TaskState.completed, refl))
completed_fields-Keeps t (_ ∷ _) at o s percent name = (percent, inr (TaskState.completed, refl))

clamp-within : (p : ℤ) → (pos 0 ≤ℤ clamp p) × (clamp p ≤ℤ pos 100) × IsInt64 (clamp p)
unfolding clamp
clamp-within (pos n) = ground arith
clamp-within (negsuc n) = ground arith

progress_fields-Keeps : (p : ℤ) (text : Bytes) (at : ℤ) → Keeps (progress_fields p text at)
unfolding found ◌=b◌
progress_fields-Keeps p text at o s percent name =
    let (low, high, fits) = clamp-within p in
    (rw (parse_int64-decimal (clamp p) fits) (low, high), name)

err_db : {A : Type 0} (r : (Error ⊎ A) × World) → (err r).1.db ≡ r.1.db
err_db (inl e, w) = refl
err_db (inr x, w) = refl

module _ (env : Env) (laws : Laws env.commands) where
  -- Writing a sound hash keeps all sound.
  set-AllSound :
      (k : Bytes) (h : Hash) (db : Db)
      → AllSound db
      → IsSound h
      → (key : Bytes) → IsSound (update db.hashes k h key)
  set-AllSound k h db all sound key = if-both IsSound (k =b key) sound (all key)

  hset-AllSound :
      (k : Bytes) (fs : Fields) (db : Db)
      → Keeps fs
      → AllSound db
      → AllSound (hset_script env.commands k fs db).0
  hset-AllSound k fs db keeps all = set-AllSound k (hset_all env.commands fs (db.hashes k)) db all (
      rw
        (
          hset_all-found env.commands laws fs (db.hashes k) (codes "progress"),
          hset_all-found env.commands laws fs (db.hashes k) (codes "state"),
        )
        (keeps (db.hashes k (codes "progress")) (db.hashes k (codes "state")) (all k).0 (all k).1))

  empty-IsSound : IsSound (λ f. none)
  unfolding parse_int64
  empty-IsSound = ((omega arith, omega arith), inl refl)

  del-AllSound : (k : Bytes) (db : Db) → AllSound db → AllSound (del_script env.commands k db).0
  del-AllSound k db all = set-AllSound k (λ f. none) db all empty-IsSound

  purge_each-AllSound :
      (queue : Bytes) (ids : List Bytes) (db : Db)
      → AllSound db
      → AllSound (purge_each env.commands queue ids db)
  unfolding purge_each
  purge_each-AllSound queue [] db all = all
  purge_each-AllSound queue (id ∷ ids) db all =
      purge_each-AllSound queue ids _ (del-AllSound (meta queue id) db all)

  cap_completed-AllSound :
      (k : Bytes) (max_count : ℤ) (db : Db)
      → AllSound db
      → AllSound (cap_completed env.commands k max_count db)
  cap_completed-AllSound k max_count db all = if-both AllSound (ltb_ℤ (pos 0) max_count) all all

  -- A call whose script keeps all sound.
  err-AllSound :
      {A : Type 0} (script : Db → Db × A) (w : World)
      → AllSound w.db
      → AllSound (script w.db).0
      → AllSound (err (call env script w)).1.db
  unfolding call
  err-AllSound script w all all' =
      rw (err_db (call env script w)) (call-keeps AllSound env script w all all')

  hset_call-AllSound :
      (k : Bytes) (fs : Fields) (w : World)
      → Keeps fs
      → AllSound w.db
      → AllSound (err (call env (hset_script env.commands k fs) w)).1.db
  hset_call-AllSound k fs w keeps all =
      err-AllSound (hset_script env.commands k fs) w all (hset-AllSound k fs w.db keeps all)

  put-AllSound :
      (t : Task) (s : Bytes) (w : World)
      → IsConstant s
      → AllSound w.db
      → AllSound (put env t s w).1.db
  unfolding put
  put-AllSound t s w constant all =
      if-both (λ (r : Option Error × World). AllSound r.1.db) (t.id =b []) all
        (hset_call-AllSound _ _ (now env w).1 (put_fields-Keeps t s _ constant) all)

  completed_script-AllSound :
      (t : Task) (r : Bytes) (retention max_count at : ℤ) (db : Db)
      → AllSound db
      → AllSound (completed_script env.commands t r retention max_count at db).0
  completed_script-AllSound t r retention max_count at db all =
      cap_completed-AllSound (completed t.queue) max_count
        (index_completed env.commands t r retention at db)
        (hset-AllSound (meta t.queue t.id) (completed_fields t r at) db
          (completed_fields-Keeps t r at) all)

  mark_completed-AllSound :
      (t : Task) (r : Bytes) (retention max_count : ℤ) (w : World)
      → AllSound w.db
      → AllSound (mark_completed env t r retention max_count w).1.db
  unfolding mark_completed
  mark_completed-AllSound t r retention max_count w all =
      if-both (λ (r : Option Error × World). AllSound r.1.db) (t.id =b []) all
        (if-both (λ (r : Option Error × World). AllSound r.1.db) (leb_ℤ retention (pos 0))
          (err-AllSound (del_script env.commands (meta t.queue t.id)) w all
            (del-AllSound (meta t.queue t.id) w.db all))
          (err-AllSound (completed_script env.commands t r retention max_count _) (now env w).1 all
            (completed_script-AllSound t r retention max_count _ w.db all)))

  counted_db : (n : ℕ) (r : Option Error × World) → (counted env n r).1.1.db ≡ r.1.db
  counted_db n (some e, w) = refl
  counted_db n (none, w) = refl

  purged-AllSound :
      (queue : Bytes) (r : (Error ⊎ List Bytes) × World) (others : Db → Db)
      → ((db : Db) → AllSound db → AllSound (others db))
      → AllSound r.1.db
      → AllSound (purged env queue r others).1.1.db
  purged-AllSound queue (inl e, w) others keep all = all
  purged-AllSound queue (inr [], w) others keep all = all
  purged-AllSound queue (inr (id ∷ ids), w) others keep all =
      rw
        (counted_db (length (id ∷ ids))
          (err (call env (purge_script env queue (id ∷ ids)) (record w { db = others w.db }))))
        (err-AllSound (purge_script env queue (id ∷ ids)) (record w { db = others w.db })
          (keep w.db all) (purge_each-AllSound queue (id ∷ ids) (others w.db) (keep w.db all)))

  -- Put and SetState are given one of the constants, and what others do in the midst of a purge keeps
  -- soundness.
  abbrev pub IsCareful : MetaOp → Type 0
  IsCareful (put_op t state) = IsConstant state
  IsCareful (set_state_op queue id state e i) = IsConstant state
  IsCareful (purge_op queue before_ms batch others) = (db : Db) → AllSound db → AllSound (others db)
  IsCareful _ = Unit

  meta_op-AllSound :
      (op : MetaOp) (w : World) → IsCareful op → AllSound w.db → AllSound (meta_op env op w).db
  unfolding set_state mark_dlq mark_retry delete set_progress purge_expired_completed
  meta_op-AllSound (put_op t s) w keep all = put-AllSound t s w keep all
  meta_op-AllSound (set_state_op queue id s e i) w keep all =
      if-both (λ (r : Option Error × World). AllSound r.1.db) (id =b []) all
        (hset_call-AllSound _ _ (now env w).1 (state_fields-Keeps s e i _ keep) all)
  meta_op-AllSound (mark_completed_op t r retention max_count) w keep all =
      mark_completed-AllSound t r retention max_count w all
  meta_op-AllSound (mark_dlq_op t e) w keep all = put-AllSound _ (state_name dlq) w (dlq, refl) all
  meta_op-AllSound (mark_retry_op t e) w keep all =
      put-AllSound _ (state_name retry) w (retry, refl) all
  meta_op-AllSound (delete_op queue id) w keep all =
      err-AllSound (del_script env.commands (meta queue id)) w all
        (del-AllSound (meta queue id) w.db all)
  meta_op-AllSound (set_progress_op queue id p text) w keep all =
      if-both (λ (r : Option Error × World). AllSound r.1.db) (id =b []) all
        (hset_call-AllSound _ _ (now env w).1 (progress_fields-Keeps p text _) all)
  meta_op-AllSound (purge_op queue before_ms batch others) w keep all =
      purged-AllSound queue
        (call env (expired env.commands queue before_ms (batch_or_default batch)) w) others keep
        (call-keeps AllSound env (expired env.commands queue before_ms (batch_or_default batch)) w
          all all)

  -- When each hash of the server has a progress that reads as a number from 0 to 100 and a state, if
  -- set, that is one of the constants, this is so after any operations of the store, whatever calls
  -- fail, where Put and SetState are given one of the constants, and what others do in the midst of a
  -- purge keeps it too.
  pub meta_ops-AllSound :
      (ops : List MetaOp) (w : World)
      → All IsCareful ops
      → AllSound w.db
      → AllSound (meta_ops env ops w).db
  unfolding meta_ops
  meta_ops-AllSound [] w keep all = all
  meta_ops-AllSound (op ∷ ops) w keep all =
      meta_ops-AllSound ops (meta_op env op w) keep.1 (meta_op-AllSound op w keep.0 all)
