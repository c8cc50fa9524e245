-- ===== src/Tests/Data.antt =====
-- The inputs of the concrete runs.
use taskmq.Prelude.{
  ◌*◌, if◌then◌else◌, ◌==◌, inl, inr, ◌⊎◌, ◌++◌, ℕ, zero, suc, Bytes, codes, [], ◌∷◌, none, some,
  true, false,
}
use taskmq.Prelude.Int.{pos}
use taskmq.Errors.{Error}
use taskmq.Task.{Task, zero_task}
use taskmq.Codec.Interface.{Codec}
use taskmq.Redis.Memory.{memory}
use taskmq.World.{Env, World, delivered, lost}
use taskmq.Redis.{Db, Stream, ZSet}

abbrev pub sample : Task
sample = record zero_task {
  id = codes "t1";
  queue = codes "mail";
  name = codes "send";
  payload = codes "hi";
  created_at = pos 0;
  max_retry = pos 3;
  unique_key = codes "u1";
}

-- One message in every stream, three members in every sorted set, the lock of "t1" at every string.
abbrev pub messages : Stream
messages = record {
  entries = record { id = 7; task = codes "x" } ∷ [];
  pending = λ g i. true;
  last_delivered = λ g. 7;
  groups = λ g. true;
}

abbrev pub three : ZSet
three =
    record { score = pos 1; member = codes "a" }
    ∷ (record { score = pos 2; member = codes "b" }
        ∷ (record { score = pos 3; member = codes "c" } ∷ []))

abbrev pub busy : Db
busy = record {
  streams = λ k. messages;
  zsets = λ k. three;
  hashes = λ k f. none;
  expiries = λ k. none;
  strings = λ k. some (record { value = codes "t1"; ttl_ms = pos 1000 });
}

abbrev pub empty : Db
empty = record {
  streams = λ k. record {
    entries = [];
    pending = λ g i. false;
    last_delivered = λ g. 0;
    groups = λ g. true;
  };
  zsets = λ k. [];
  hashes = λ k f. none;
  expiries = λ k. none;
  strings = λ k. none;
}

pub zeros : ℕ → Bytes
zeros zero = []
zeros (suc n) = 0 ∷ zeros n

abbrev pub one : ℕ
one = 1

-- The second call is executed and its answer is lost; later calls arrive.
abbrev pub flaky : Env
flaky = record {
  commands = memory;
  net = λ n. if n == 1 then lost else delivered;
  clock = λ n. pos n;
}

-- No lock and no cancellation.
abbrev pub quiet : Db
quiet = record busy { strings = λ k. none }

abbrev pub start : World
start = record { db = quiet; calls = 0; reads = 0; lifecycle = none; effects = [] }

-- A codec that keeps the id and the retry count, and decodes the sample.
abbrev pub short_codec : Codec
short_codec = record { marshal = λ t. inr (t.id ++ t.last_error); unmarshal = λ b t. inr sample }

abbrev pub task_or : Error ⊎ Task → Task
task_or (inl e) = sample
task_or (inr t) = t

-- All calls arrive, and the clock shows a second for each reading.
abbrev pub steady : Env
steady = record { commands = memory; net = λ n. delivered; clock = λ n. pos (n * 1000000000) }
