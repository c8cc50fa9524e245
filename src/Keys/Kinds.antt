-- ===== src/Keys/Kinds.antt =====
-- The keys of one queue, from internal/taskmq/keys/keys.go: no two of them have one name.
use taskmq.Prelude.{
  ◌≡◌, refl, sym, ap, ◌∙◌, Bytes, codes, [], ◌∷◌, ◌++◌, ◌=b◌, if◌then◌else◌, drop, length,
  drop_prefix,
}
use taskmq.Keys
use taskmq.Keys.{key, has_prefix}

-- What a key is for.
pub data Kind : Type 0 where
  stream delayed dlq dlq_index cron_configs cron_self_healing_lock paused control : Kind
  cancel_channel delayed_wakeup_channel completed metrics events : Kind
  unique cancelled meta heartbeat rate_limit : Bytes → Kind

-- The function of `QueueKeys` for each kind.
pub name : Bytes → Kind → Bytes
name q stream = Keys.stream q
name q delayed = Keys.delayed q
name q dlq = Keys.dlq q
name q dlq_index = Keys.dlq_index q
name q cron_configs = Keys.cron_configs q
name q cron_self_healing_lock = Keys.cron_self_healing_lock q
name q paused = Keys.paused q
name q control = Keys.control q
name q cancel_channel = Keys.cancel_channel q
name q delayed_wakeup_channel = Keys.delayed_wakeup_channel q
name q completed = Keys.completed q
name q metrics = Keys.metrics q
name q events = Keys.events q
name q (unique k) = Keys.unique q k
name q (cancelled k) = Keys.cancelled q k
name q (meta k) = Keys.meta q k
name q (heartbeat k) = Keys.heartbeat q k
name q (rate_limit k) = Keys.rate_limit q k

-- What stands behind the queue's name.
pub rest : Kind → Bytes
rest stream = codes "queue"
rest delayed = codes "delayed"
rest dlq = codes "dlq"
rest dlq_index = codes "dlq_index"
rest cron_configs = codes "cron_configs"
rest cron_self_healing_lock = codes "cron_self_healing_lock"
rest paused = codes "paused"
rest control = codes "control"
rest cancel_channel = codes "cancel"
rest delayed_wakeup_channel = codes "delayed_wakeup"
rest completed = codes "completed"
rest metrics = codes "metrics"
rest events = codes "events"
rest (unique k) = codes "unique:" ++ k
rest (cancelled k) = codes "cancelled:" ++ k
rest (meta k) = codes "meta:" ++ k
rest (heartbeat k) = codes "heartbeat:" ++ k
rest (rate_limit []) = codes "rate_limit"
rest (rate_limit (g ∷ gs)) = codes "rate_limit:" ++ (g ∷ gs)

pub name-key : (q : Bytes) (k : Kind) → name q k ≡ key q (rest k)
unfolding name rest ◌=b◌
name-key q (rate_limit []) = refl
name-key q (rate_limit (g ∷ gs)) = refl
name-key q _ = refl

-- The kind is read back from that.
kind_of : Bytes → Kind
kind_of xs =
    if xs =b codes "queue"
    then stream
    else if xs =b codes "delayed"
    then delayed
    else if xs =b codes "dlq"
    then dlq
    else if xs =b codes "dlq_index"
    then dlq_index
    else if xs =b codes "cron_configs"
    then cron_configs
    else if xs =b codes "cron_self_healing_lock"
    then cron_self_healing_lock
    else if xs =b codes "paused"
    then paused
    else if xs =b codes "control"
    then control
    else if xs =b codes "cancel"
    then cancel_channel
    else if xs =b codes "delayed_wakeup"
    then delayed_wakeup_channel
    else if xs =b codes "completed"
    then completed
    else if xs =b codes "metrics"
    then metrics
    else if xs =b codes "events"
    then events
    else if xs =b codes "rate_limit"
    then rate_limit []
    else if has_prefix xs (codes "unique:")
    then unique (drop 7 xs)
    else if has_prefix xs (codes "cancelled:")
    then cancelled (drop 10 xs)
    else if has_prefix xs (codes "meta:")
    then meta (drop 5 xs)
    else if has_prefix xs (codes "heartbeat:")
    then heartbeat (drop 10 xs)
    else rate_limit (drop 11 xs)

kind_of-rest : (k : Kind) → kind_of (rest k) ≡ k
unfolding kind_of rest ◌=b◌ has_prefix
kind_of-rest (rate_limit []) = refl
kind_of-rest (rate_limit (g ∷ gs)) = refl
kind_of-rest _ = refl

pub rest-injective : (a b : Kind) → rest a ≡ rest b → a ≡ b
rest-injective a b h = sym (kind_of-rest a) ∙ ap kind_of h ∙ kind_of-rest b

key-rest : (q xs ys : Bytes) → key q xs ≡ key q ys → xs ≡ ys
key-rest q xs ys h = sym (cut xs) ∙ ap (λ zs. drop 2 (drop (length q) (drop 8 zs))) h ∙ cut ys
  where
    cut : (zs : Bytes) → drop 2 (drop (length q) (drop 8 (key q zs))) ≡ zs
    cut zs = ap (drop 2) (drop_prefix q (codes "}:" ++ zs))

-- Two keys of a queue have one name only if they are the same key, whatever the queue's name, the
-- unique keys, task ids, consumers and groups are.
pub name-injective : (q : Bytes) (a b : Kind) → name q a ≡ name q b → a ≡ b
name-injective q a b h =
    rest-injective a b (key-rest q (rest a) (rest b) (sym (name-key q a) ∙ h ∙ name-key q b))
