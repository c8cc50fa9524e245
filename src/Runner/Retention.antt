-- ===== src/Runner/Retention.antt =====
-- `safeTrim` of internal/taskmq/runner/retention_janitor.go. It makes three calls, and between them other
-- clients act on the server: what they do is an argument.
pub mod SafeTrim
pub mod Race
pub mod Cancelled
pub mod Aged
use taskmq.Prelude.{
  ℕ, Bytes, codes, Bool, ◌||◌, ◌⊎◌, inl, inr, ◌==◌, if◌then◌else◌, Option, none, some,
}
use taskmq.Prelude.Int.{ℤ, pos, leb_ℤ}
use taskmq.Errors.{Error, text}
use taskmq.Codec.Interface.{Codec}
use taskmq.Keys.{stream}
use taskmq.Redis.{Db, set_stream}
use taskmq.Lifecycle.Config.{Config}
use taskmq.World.{Env, World, call}
use taskmq.Broker.Transitions.{lifecycle_config}
use taskmq.Runner.Cron.{contains}

pub record RetentionJanitor : Type 0 where
  pub env : Env
  pub queue : Bytes
  pub group : Bytes
  pub codec : Codec

-- What other clients do to the server between two calls.
abbrev pub meanwhile : (Db → Db) → World → World
meanwhile others w = record w { db = others w.db }

-- `isIgnorableStreamErr` of an error that is not nil
unfoldable pub is_ignorable_stream_err : Error → Bool
is_ignorable_stream_err e =
    contains (text e) (codes "NOGROUP")
    || (contains (text e) (codes "no such key") || contains (text e) (codes "NOPERM"))

module _ (j : RetentionJanitor) where
  abbrev pub key : Bytes
  key = stream j.queue

  -- An ignorable error is no threshold.
  abbrev pub unless_ignorable : Error → Error ⊎ Option ℕ
  unless_ignorable e = if is_ignorable_stream_err e then inr none else inl e

  -- The group's last-delivered id in `XINFO GROUPS`, unless it is 0-0
  abbrev pub delivered_threshold : (Error ⊎ ℕ) × World → (Error ⊎ Option ℕ) × World
  delivered_threshold (inl e, w) = (unless_ignorable e, w)
  delivered_threshold (inr id, w) = (inr (if id == 0 then none else some id), w)

  abbrev pub read_last_delivered : Db → Db × ℕ
  read_last_delivered db = (db, (db.streams key).last_delivered j.group)

  abbrev pub pending_threshold : (Db → Db) → (Error ⊎ Option ℕ) × World → (Error ⊎ Option ℕ) × World
  pending_threshold others (inl e, w) = (unless_ignorable e, w)
  pending_threshold others (inr (some low), w) = (inr (some low), w)
  pending_threshold others (inr none, w) =
      delivered_threshold (call j.env read_last_delivered (meanwhile others w))

  abbrev pub read_pending : Db → Db × Option ℕ
  read_pending db = (db, j.env.commands.xpending_lower j.group (db.streams key))

  unfoldable pub safe_trim_threshold : (Db → Db) → World → (Error ⊎ Option ℕ) × World
  safe_trim_threshold others w = pending_threshold others (call j.env read_pending w)

  abbrev pub trim : ℕ → ℤ → Db → Db × ℕ
  trim min_id limit db =
      let (s, n) = j.env.commands.xtrim_minid min_id limit (db.streams key) in
      (set_stream key s db, n)

  abbrev pub batch_limit : World → ℤ
  batch_limit w =
      let limit = (lifecycle_config w).safe_trim_batch_limit in
      if leb_ℤ limit (pos 0) then pos 1000 else limit

  abbrev pub trimmed : (Db → Db) → (Error ⊎ Option ℕ) × World → (Error ⊎ ℕ) × World
  trimmed others (inl e, w) = (inl e, w)
  trimmed others (inr none, w) = (inr 0, w)
  trimmed others (inr (some min_id), w) =
      call j.env (trim min_id (batch_limit w)) (meanwhile others w)

  -- The others act before the call of XINFO and before that of XTRIM.
  unfoldable pub safe_trim : (Db → Db) → (Db → Db) → World → (Error ⊎ ℕ) × World
  safe_trim before_info before_trim w = trimmed before_trim (safe_trim_threshold before_info w)
