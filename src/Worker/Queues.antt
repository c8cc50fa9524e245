-- ===== src/Worker/Queues.antt =====
-- The order in which a priority worker polls its queues: `shuffleQueues` and `sortQueues` of
-- internal/taskmq/worker/worker.go, and the poll of internal/taskmq/worker/multi_worker.go.
pub mod Orders
use taskmq.Prelude.{
  ℕ, zero, suc, ◌+◌, Bytes, codes, Bool, List, [], ◌∷◌, ◌=b◌, length, ltb, if◌then◌else◌, Option,
  none, some, map,
}
use taskmq.Prelude.Int.{ℤ, pos, pos_part, leb_ℤ}

pub record QueuePriority : Type 0 where
  pub name : Bytes
  pub weight : ℤ
  pub rate_limit_max : ℤ
  pub rate_limit_duration : ℤ
  pub rate_limit_key_field : Bytes

-- A weight that is not positive counts as 1.
abbrev pub effective_weight : QueuePriority → ℕ
effective_weight q = if leb_ℤ q.weight (pos 0) then 1 else pos_part q.weight

-- An `int` sum in the source: the weights are taken to add up within one.
unfoldable pub total_weight : List QueuePriority → ℕ
total_weight [] = 0
total_weight (q ∷ qs) = effective_weight q + total_weight qs

abbrev pub behind :
    QueuePriority
    → Option (QueuePriority × List QueuePriority)
    → Option (QueuePriority × List QueuePriority)
behind q none = none
behind q (some (x, qs)) = some (x, q ∷ qs)

-- The queue in whose share of the weights r falls, and the others; `none` beyond all of them.
unfoldable pub pick : ℕ → ℕ → List QueuePriority → Option (QueuePriority × List QueuePriority)
pick r current_sum [] = none
pick r current_sum (q ∷ qs) =
    let sum = current_sum + effective_weight q in
    let later = behind q (pick r sum qs) in if ltb r sum then some (q, qs) else later

-- Beyond all of them the first is taken.
abbrev pub picked :
    QueuePriority
    → List QueuePriority
    → Option (QueuePriority × List QueuePriority)
    → QueuePriority × List QueuePriority
picked q qs none = (q, qs)
picked q qs (some p) = p

-- `rand.Intn`: the n-th draw below a bound.
abbrev pub Random : Type 0
Random = ℕ → ℕ → ℕ

-- Each round takes one queue out; the fuel is the number of queues.
unfoldable pub shuffle : Random → ℕ → ℕ → List QueuePriority → List Bytes
shuffle random draw zero qs = []
shuffle random draw (suc fuel) [] = []
shuffle random draw (suc fuel) (q ∷ qs) =
    let (x, rest) = picked q qs (pick (random draw (total_weight (q ∷ qs))) 0 (q ∷ qs)) in
    x.name ∷ shuffle random (suc draw) fuel rest

unfoldable pub shuffle_queues : Random → ℕ → List QueuePriority → List Bytes
shuffle_queues random draw qs = shuffle random draw (length qs) qs

-- `sort.Slice` by falling weights, which orders equal weights in any way.
abbrev pub Sort : Type 0
Sort = List QueuePriority → List QueuePriority

unfoldable pub sort_queues : Sort → List QueuePriority → List Bytes
sort_queues sort qs = map (λ q. q.name) (sort qs)

-- The names in the order of a strategy; any but "strict" is weighted.
unfoldable pub queue_order : Sort → Random → ℕ → Bytes → List QueuePriority → List Bytes
queue_order sort random draw strategy qs =
    if strategy =b codes "strict" then sort_queues sort qs else shuffle_queues random draw qs
