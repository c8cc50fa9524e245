-- ===== src/Policy/Decision.antt =====
-- The decisions of internal/taskmq/policy/retry.go.
use taskmq.Prelude.{◌≡◌, refl, true, false, ◌&&◌, not, List, [], ◌∷◌, ◌++◌, arith}
use taskmq.Errors.{Error, Sentinel, is}
use taskmq.Task.{Task}
use taskmq.Policy.{RetryPolicy, matches_any, error_filter}

matches_any-append :
    (err : Error) (xs ys : List Sentinel)
    → not (matches_any err (xs ++ ys)) ≡ not (matches_any err xs) && not (matches_any err ys)
unfolding matches_any
matches_any-append err [] ys = refl
matches_any-append err (x ∷ xs) ys = ground (arith, matches_any-append err xs ys)

-- A filter over a filter decides as one filter with both lists, and delays as its base.
pub error_filter-append :
    (p : RetryPolicy) (xs ys : List Sentinel) (t : Task) (err : Error)
    → ((error_filter (error_filter p xs) ys).should_retry t err
        ≡ (error_filter p (xs ++ ys)).should_retry t err)
      × ((error_filter (error_filter p xs) ys).next_backoff t ≡ p.next_backoff t)
unfolding error_filter
error_filter-append p xs ys t err = (ground (arith, matches_any-append err xs ys), refl)

-- No stack of filters tries again what the error marks as permanent or as one of the listed errors,
-- however deep the mark is wrapped.
pub error_filter_refuses :
    (p : RetryPolicy) (xs ys : List Sentinel) (s : Sentinel) (t : Task) (err : Error)
    → is err s ≡ true
    → (error_filter p (xs ++ (s ∷ ys))).should_retry t err ≡ false
unfolding error_filter matches_any
error_filter_refuses p xs ys s t err h = ground (arith, matches_any-append err xs (s ∷ ys))
