-- ===== src/Task.antt =====
-- internal/taskmq/task/task.go: the task, its options, and its effective timeout.
pub mod Timeout
use taskmq.Prelude.{ℕ, ◌*◌, ◌-◌, Bytes, codes, Bool, Option, none, some, [], ◌||◌, if◌then◌else◌}
use taskmq.Prelude.Int.{
  ℤ, pos, negsuc, ltb_ℤ, leb_ℤ, scale, div_trunc, div_floor, ◌-ℤ◌, wrap64, saturate64,
}
use taskmq.Prelude.{◌=b◌}

-- `type UniqueScope int`: a decoded task may hold any other number.
abbrev pub unique_until_succeeded : ℤ
unique_until_succeeded = pos 0

abbrev pub unique_until_start : ℤ
unique_until_start = pos 1

abbrev pub unique_until_success : ℤ
unique_until_success = pos 2

-- Strings and byte slices are bytes; `created_at` is in nanoseconds since the Unix epoch.
pub record Task : Type 0 where
  pub id : Bytes
  pub queue : Bytes
  pub name : Bytes
  pub payload : Bytes
  pub retry : ℤ
  pub max_retry : ℤ
  pub timeout_ms : ℤ
  pub deadline_ms : ℤ
  pub unique_key : Bytes
  pub unique_ttl_ms : ℤ
  pub unique_scope : ℤ
  pub last_error : Bytes
  pub cron_spec : Bytes
  pub group_key : Bytes
  pub created_at : ℤ
  pub result : Bytes

-- `time.Time{}`, the start of the year 1
abbrev pub zero_time : ℤ
zero_time = negsuc (62135596800 * 1000000000 - 1)

-- `var t Task`
abbrev pub zero_task : Task
zero_task = record {
  id = [];
  queue = [];
  name = [];
  payload = [];
  retry = pos 0;
  max_retry = pos 0;
  timeout_ms = pos 0;
  deadline_ms = pos 0;
  unique_key = [];
  unique_ttl_ms = pos 0;
  unique_scope = pos 0;
  last_error = [];
  cron_spec = [];
  group_key = [];
  created_at = zero_time;
  result = [];
}

-- Durations are int64 nanoseconds; a zero `Deadline` is `none`.
pub record TaskOptions : Type 0 where
  pub id : Bytes
  pub queue : Bytes
  pub max_retry : Option ℤ
  pub timeout : ℤ
  pub deadline : Option ℤ
  pub unique_key : Bytes
  pub unique_ttl : ℤ
  pub unique_scope : ℤ
  pub group_key : Bytes

-- `d.Milliseconds()` and `t.UnixMilli()`
abbrev pub milliseconds : ℤ → ℤ
milliseconds d = div_trunc d 1000000

abbrev pub unix_milli : ℤ → ℤ
unix_milli t = div_floor t 1000000

-- The option's value where it is set, as by `if opt.X != "" { task.X = opt.X }`.
abbrev pub or_bytes : Bytes → Bytes → Bytes
or_bytes new old = if new =b [] then old else new

abbrev pub or_int : Option ℤ → ℤ → ℤ
or_int none old = old
or_int (some new) old = new

abbrev pub or_deadline : Option ℤ → ℤ → ℤ
or_deadline none old = old
or_deadline (some at) old = unix_milli at

apply_options : TaskOptions → Task → Task
apply_options opt t = record t {
  id = or_bytes opt.id t.id;
  queue = or_bytes opt.queue t.queue;
  max_retry = or_int opt.max_retry t.max_retry;
  timeout_ms = if ltb_ℤ (pos 0) opt.timeout then milliseconds opt.timeout else t.timeout_ms;
  deadline_ms = or_deadline opt.deadline t.deadline_ms;
  unique_key = or_bytes opt.unique_key t.unique_key;
  unique_ttl_ms = if opt.unique_key =b [] then t.unique_ttl_ms else milliseconds opt.unique_ttl;
  unique_scope = if opt.unique_key =b [] then t.unique_scope else opt.unique_scope;
  group_key = or_bytes opt.group_key t.group_key;
}

default_task : Bytes → Bytes → ℤ → Task
default_task name payload now = record zero_task {
  queue = codes "default";
  name = name;
  payload = payload;
  max_retry = pos 3;
  timeout_ms = pos 30000;
  created_at = now;
}

-- `now` is the clock's reading; of the variadic options only the first counts.
unfoldable pub new_task : Bytes → Bytes → ℤ → Option TaskOptions → Task
unfolding default_task apply_options
new_task name payload now none = default_task name payload now
new_task name payload now (some opt) = apply_options opt (default_task name payload now)

-- `time.Duration(t.TimeoutMs) * time.Millisecond`, an int64 product
timeout_duration : Task → ℤ
timeout_duration t =
    if ltb_ℤ (pos 0) t.timeout_ms then wrap64 (scale t.timeout_ms 1000000) else pos 0

-- `now` and the result are in nanoseconds; a nil task is `none`.
unfoldable pub effective_timeout : Option Task → ℤ → ℤ
unfolding timeout_duration
effective_timeout none now = pos 0
effective_timeout (some t) now =
    let until = timeout_duration t in
    let d = saturate64 (scale t.deadline_ms 1000000 -ℤ now) in
    if ltb_ℤ (pos 0) t.deadline_ms
    then (if leb_ℤ d (pos 0)
        then pos 1
        else if leb_ℤ until (pos 0) || ltb_ℤ d until
        then d
        else until)
    else until
