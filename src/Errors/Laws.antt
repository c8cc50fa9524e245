-- ===== src/Errors/Laws.antt =====
-- What the error wrappers promise to the callers that test errors with `errors.Is`.
use taskmq.Prelude.{◌≡◌, refl, true, Option, none, some, inl, inr, ◌⊎◌, arith, Bool-cases}
use taskmq.Errors.{
  Sentinel, Error, err_handled, handled_error, same, is, is_skip_retry, skip_retry, unrecoverable,
  is_handled, handled,
}

-- Both wrappers give an error that is never retried, whatever the cause, and wrapping once more by
-- either of them changes nothing.
pub skip_retry-permanent :
    (cause : Option Error)
    → (is_skip_retry (skip_retry cause) ≡ true)
      × (is_skip_retry (unrecoverable cause) ≡ true)
      × (unrecoverable (some (skip_retry cause)) ≡ skip_retry cause)
      × (skip_retry (some (unrecoverable cause)) ≡ unrecoverable cause)
unfolding skip_retry unrecoverable is_skip_retry is same
skip_retry-permanent none = (refl, refl, refl, refl)
skip_retry-permanent (some cause) = ground arith

-- The sentinels other than `err_handled` are found through a settled mark as before.
is-handled_mark :
    (cause : Error) (s : Sentinel) → (s ≡ err_handled) ⊎ (is (handled_error cause) s ≡ is cause s)
unfolding is same
is-handled_mark cause err_handled = inl refl
is-handled_mark cause _ = inr refl

-- A settled mark is seen by `IsHandled`, is put on once, and hides no other sentinel of the cause.
pub handled-transparent :
    (cause : Error) (s : Sentinel)
    → (is_handled (handled (some cause)) ≡ true)
      × (handled (some (handled (some cause))) ≡ handled (some cause))
      × ((s ≡ err_handled) ⊎ (is (handled (some cause)) s ≡ is cause s))
unfolding handled is_handled
handled-transparent cause s = elim (Bool-cases (is cause err_handled)) [
  | inl old ↦ (simp old, simp old, simp old (inr refl))
  | inr new ↦ (simp (new, mark_is), simp (new, mark_is), simp new (is-handled_mark cause s))
]
  where
    mark_is : is (handled_error cause) err_handled ≡ true
    mark_is = unfold is same in refl
