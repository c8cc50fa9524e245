-- ===== src/Errors.antt =====
-- Go errors as the source builds and tests them: internal/taskmq/task/errors.go,
-- internal/taskmq/worker/errors.go, and `errors.Is` of the standard library.
pub mod Laws
use taskmq.Prelude.{
  ℕ, Bytes, codes, Bool, true, false, ◌&&◌, ◌||◌, Option, none, some, ◌++◌, ◌==◌, if◌then◌else◌,
}

-- The values that are compared by identity: the package variables made by `errors.New` (also those
-- of internal/taskmq/lifecycle/lifecycle.go), and an application's own ones, told apart by a number.
pub data Sentinel : Type 0 where
  err_skip_retry err_unrecoverable err_no_handler err_handled : Sentinel
  err_queue_full err_delayed_full err_delay_too_far err_payload_too_large : Sentinel
  err_duplicate_task err_member_gone : Sentinel
  user : ℕ → Bytes → Sentinel

-- An error is a sentinel, some other message, or a wrapper around its cause: `wrappedSentinel`,
-- `handledError`, `fmt.Errorf("before%wafter", cause)` and `errors.Join`.
pub data Error : Type 0 where
  sentinel : Sentinel → Error
  message : Bytes → Error
  wrapped_sentinel : Sentinel → Error → Error
  handled_error : Error → Error
  wrap : Bytes → Error → Bytes → Error
  join : Error → Error → Error

unfoldable pub same : Sentinel → Sentinel → Bool
same err_skip_retry err_skip_retry = true
same err_unrecoverable err_unrecoverable = true
same err_no_handler err_no_handler = true
same err_handled err_handled = true
same err_queue_full err_queue_full = true
same err_delayed_full err_delayed_full = true
same err_delay_too_far err_delay_too_far = true
same err_payload_too_large err_payload_too_large = true
same err_duplicate_task err_duplicate_task = true
same err_member_gone err_member_gone = true
same (user n _) (user m _) = n == m
same _ _ = false

-- `errors.Is(err, target)`: the error itself, its `Is` method, then what it unwraps to.
unfoldable pub is : Error → Sentinel → Bool
is (sentinel s) target = same s target
is (message _) target = false
is (wrapped_sentinel s cause) target = same s target || is cause target
is (handled_error cause) target = same err_handled target || is cause target
is (wrap _ cause _) target = is cause target
is (join a b) target = is a target || is b target

unfoldable pub sentinel_text : Sentinel → Bytes
sentinel_text err_skip_retry = codes "taskmq: skip retry"
sentinel_text err_unrecoverable = codes "taskmq: unrecoverable"
sentinel_text err_no_handler = codes "taskmq: no handler registered"
sentinel_text err_handled = codes "taskmq: message outcome already handled"
sentinel_text err_queue_full = codes "taskmq: queue depth exceeded hard limit"
sentinel_text err_delayed_full = codes "taskmq: delayed queue capacity exceeded"
sentinel_text err_delay_too_far = codes "taskmq: delay exceeds max_delay policy"
sentinel_text err_payload_too_large = codes "taskmq: task payload exceeds max_payload_bytes"
sentinel_text err_duplicate_task = codes "taskmq: duplicate task in queue"
sentinel_text err_member_gone = codes "taskmq: task already processed or deleted"
sentinel_text (user _ text) = text

-- `err.Error()`
unfoldable pub text : Error → Bytes
unfolding sentinel_text
text (sentinel s) = sentinel_text s
text (message m) = m
text (wrapped_sentinel s cause) = sentinel_text s ++ (codes ": " ++ text cause)
text (handled_error cause) = codes "taskmq: handled: " ++ text cause
text (wrap before cause after) = before ++ (text cause ++ after)
text (join a b) = text a ++ (codes "\n" ++ text b)

unfoldable pub is_skip_retry : Error → Bool
is_skip_retry e = is e err_skip_retry || is e err_unrecoverable

-- `none` is a nil cause.
unfoldable pub skip_retry : Option Error → Error
skip_retry none = sentinel err_skip_retry
skip_retry (some cause) =
    if is cause err_skip_retry || is cause err_unrecoverable
    then cause
    else wrapped_sentinel err_skip_retry cause

unfoldable pub unrecoverable : Option Error → Error
unrecoverable none = sentinel err_unrecoverable
unrecoverable (some cause) =
    if is cause err_skip_retry || is cause err_unrecoverable
    then cause
    else wrapped_sentinel err_unrecoverable cause

unfoldable pub is_handled : Error → Bool
is_handled e = is e err_handled

unfoldable pub handled : Option Error → Error
handled none = sentinel err_handled
handled (some cause) = if is cause err_handled then cause else handled_error cause
