-- ===== src/Meta/Info.antt =====
-- `TaskInfo`, `Get` and `mapToInfo` of internal/taskmq/meta/meta.go: reading what was written.
use mathlib.Core.Path.{fun_ext}
use taskmq.Prelude.{
  ℕ, suc, [], false, =b_refl, ◌=b◌, ◌≡◌, ◌∙◌, ap, Bytes, codes, ◌⊎◌, inl, inr, ◌==◌, if◌then◌else◌,
  Option, none, some,
}
use taskmq.Prelude.Int.{ℤ, pos, ltb_ℤ, IsInt64}
use taskmq.Prelude.Decimal.Parse.{parse_int64, parse_int64-decimal}
use taskmq.Errors.{Error}
use taskmq.Task.{Task, unix_milli}
use taskmq.Keys.{meta}
use taskmq.Redis.{Db, Hash}
use taskmq.Redis.Laws.{Laws}
use taskmq.World.{Env, World, call, delivered}
use taskmq.Meta.{put_fields, created_ms, hset_all, put}
use taskmq.Meta.Fields.{found, hset_all-found}

-- The times are in milliseconds, and `none` where they are zero.
pub record TaskInfo : Type 0 where
  pub id : Bytes
  pub queue : Bytes
  pub name : Bytes
  pub state : Bytes
  pub retry : ℤ
  pub max_retry : ℤ
  pub last_error : Bytes
  pub timeout_ms : ℤ
  pub deadline_ms : ℤ
  pub unique_key : Bytes
  pub group_key : Bytes
  pub stream_id : Bytes
  pub result : Bytes
  pub progress : ℤ
  pub progress_data : Bytes
  pub created_at : Option ℤ
  pub updated_at : Option ℤ
  pub completed_at : Option ℤ

-- `m[field]`
abbrev pub text_of : Option Bytes → Bytes
text_of none = codes ""
text_of (some v) = v

-- `atoi(m[field])` and `atoi64(m[field])`
abbrev pub number_of : Option Bytes → ℤ
number_of o = parse_int64 (text_of o)

-- `if v > 0 { ... = time.UnixMilli(v) }`
abbrev pub time_of : ℤ → Option ℤ
time_of v = if ltb_ℤ (pos 0) v then some v else none

abbrev pub map_to_info : Hash → TaskInfo
map_to_info m = record {
  id = text_of (m (codes "id"));
  queue = text_of (m (codes "queue"));
  name = text_of (m (codes "name"));
  state = text_of (m (codes "state"));
  retry = number_of (m (codes "retry"));
  max_retry = number_of (m (codes "max_retry"));
  last_error = text_of (m (codes "last_error"));
  timeout_ms = number_of (m (codes "timeout_ms"));
  deadline_ms = number_of (m (codes "deadline_ms"));
  unique_key = text_of (m (codes "unique_key"));
  group_key = text_of (m (codes "group_key"));
  stream_id = text_of (m (codes "stream_id"));
  result = text_of (m (codes "result"));
  progress = number_of (m (codes "progress"));
  progress_data = text_of (m (codes "progress_data"));
  created_at = time_of (number_of (m (codes "created_at")));
  updated_at = time_of (number_of (m (codes "updated_at")));
  completed_at = time_of (number_of (m (codes "completed_at")));
}

-- `hlen` is how many fields the reply of `HGETALL` has.
module _ (hlen : Hash → ℕ) where
  abbrev pub info_of : (Error ⊎ Hash) × World → (Error ⊎ Option TaskInfo) × World
  info_of (inl e, w) = (inl e, w)
  info_of (inr m, w) = (inr (if hlen m == 0 then none else some (map_to_info m)), w)

  abbrev pub hgetall : Bytes → Db → Db × Hash
  hgetall key db = (db, db.hashes key)

  unfoldable pub get : Env → Bytes → Bytes → World → (Error ⊎ Option TaskInfo) × World
  get env queue task_id w = info_of (call env (hgetall (meta queue task_id)) w)

-- The numbers of the task fit into the int64 of their fields.
pub record HasInts (t : Task) (at : ℤ) : Type 0 where
  pub retry : IsInt64 t.retry
  pub max_retry : IsInt64 t.max_retry
  pub timeout_ms : IsInt64 t.timeout_ms
  pub deadline_ms : IsInt64 t.deadline_ms
  pub created : IsInt64 (created_ms t at)
  pub now_ms : IsInt64 at

-- The task's own fields are replaced; those that Put leaves out stay.
abbrev pub info_after_put : TaskInfo → Task → Bytes → ℤ → TaskInfo
info_after_put old t state now_ms = record old {
  id = t.id;
  queue = t.queue;
  name = t.name;
  state = state;
  retry = t.retry;
  max_retry = t.max_retry;
  last_error = t.last_error;
  timeout_ms = t.timeout_ms;
  deadline_ms = t.deadline_ms;
  unique_key = t.unique_key;
  group_key = t.group_key;
  created_at = time_of (created_ms t now_ms);
  updated_at = time_of now_ms;
}

map_to_info-put_fields :
    (t : Task) (state : Bytes) (now_ms : ℤ) (h : Hash)
    → HasInts t now_ms
    → map_to_info (λ g. found (put_fields t state now_ms) g (h g))
      ≡ info_after_put (map_to_info h) t state now_ms
unfolding found ◌=b◌
map_to_info-put_fields t state now_ms h fits = simp (
  parse_int64-decimal t.retry fits.retry,
  parse_int64-decimal t.max_retry fits.max_retry,
  parse_int64-decimal t.timeout_ms fits.timeout_ms,
  parse_int64-decimal t.deadline_ms fits.deadline_ms,
  parse_int64-decimal (created_ms t now_ms) fits.created,
  parse_int64-decimal now_ms fits.now_ms,
)

module _ (hlen : Hash → ℕ)
    (counts : (m : Hash) (v : Bytes) → m (codes "id") ≡ some v → (hlen m == 0) ≡ false) (env : Env)
    (laws : Laws env.commands) (t : Task) (state : Bytes) (w : World) where
  abbrev now_ms : ℤ
  now_ms = unix_milli (env.clock w.reads)

  abbrev old : Hash
  old = w.db.hashes (meta t.queue t.id)

  abbrev new : Hash
  new = hset_all env.commands (put_fields t state now_ms) old

  new-found : new ≡ (λ g. found (put_fields t state now_ms) g (old g))
  new-found = fun_ext (hset_all-found env.commands laws (put_fields t state now_ms) old)

  new_has_id : new (codes "id") ≡ some t.id
  unfolding found ◌=b◌
  new_has_id = hset_all-found env.commands laws (put_fields t state now_ms) old (codes "id")

  -- For a task with an id, whose numbers fit into an int64, and with both calls delivered, Get after
  -- Put returns the task's fields, its state and the times, and beside them the stream id, the result,
  -- the progress and the completion time that were there before; `counts` says that a reply with the
  -- field id is not empty.
  pub get-put :
      (t.id =b []) ≡ false
      → HasInts t now_ms
      → env.net w.calls ≡ delivered
      → env.net (suc w.calls) ≡ delivered
      → (get hlen env t.queue t.id (put env t state w).1).0
        ≡ inr (some (info_after_put (map_to_info old) t state now_ms))
  unfolding get put call
  get-put named fits first second =
      rw (named, first, second, =b_refl (meta t.queue t.id), counts new t.id new_has_id)
        (ap (λ m. inr (some (map_to_info m))) new-found
          ∙ ap (λ i. inr (some i)) (map_to_info-put_fields t state now_ms old fits))
