-- ===== src/Runner/Scheduler/Quiet.antt =====
-- A delayed set without cron jobs, as a round of internal/taskmq/runner/delayed_scheduler.go treats it.
use taskmq.Prelude.{
  ◌≡◌, ◌⊎◌, inl, inr, refl, Bytes, true, List, [], ◌∷◌, ◌=b◌, =b_refl, length, ltb, if◌then◌else◌,
  arith,
}
use taskmq.Errors.{Error}
use taskmq.Task.{Task, zero_task}
use taskmq.Redis.{ZSet}
use taskmq.Redis.Reference.{has, members}
use taskmq.Redis.Members.{IsDistinct}
use taskmq.Redis.Scores.{length-members, without_each, has-without_each, IsDistinct-without_each}
use taskmq.World.{World}
use taskmq.Runner.Scheduler.{
  Scheduler, returned, again, batch_size, reschedule_decoded, reschedule_each, answered,
}

module _ (s : Scheduler) where
  -- The payload is not the encoding of a cron job's task.
  abbrev pub IsPlain : Bytes → Type 0
  IsPlain m = (t : Task) → s.codec.unmarshal m zero_task ≡ inr t → (t.cron_spec =b []) ≡ true

  -- A sorted set with each member once, and none of a cron job.
  pub record IsQuiet (z : ZSet) : Type 0 where
    pub distinct : IsDistinct z
    pub plain : (m : Bytes) → has m z ≡ true → IsPlain m

  reschedule_decoded_plain :
      (d : Error ⊎ Task) (w : World)
      → ((t : Task) → d ≡ inr t → (t.cron_spec =b []) ≡ true)
      → reschedule_decoded s d w ≡ inr w
  reschedule_decoded_plain (inl e) w h = refl
  reschedule_decoded_plain (inr t) w h = rw (h t refl)

  reschedule_each_plain :
      (z : ZSet) (w : World)
      → ((m : Bytes) → has m z ≡ true → IsPlain m)
      → reschedule_each s (members z) w ≡ inr w
  unfolding reschedule_each
  reschedule_each_plain [] w h = refl
  reschedule_each_plain (x ∷ z) w h =
      rw (reschedule_decoded_plain (s.codec.unmarshal x.member zero_task) w here, reschedule_each)
        (reschedule_each_plain z w (λ m there. h m (unfold has in ground arith)))
    where
      here : (t : Task) → s.codec.unmarshal x.member zero_task ≡ inr t → (t.cron_spec =b []) ≡ true
      here = h x.member (unfold has in ground (arith, =b_refl x.member))

  -- Plain members that have moved end the loop, or make it go on if they are a full batch.
  pub answered_plain :
      (y : ZSet) (w : World)
      → ((m : Bytes) → has m y ≡ true → IsPlain m)
      → answered s (inr (members y), w)
        ≡ (if ltb (length y) batch_size then returned w else again w)
  answered_plain [] w h = refl
  answered_plain (x ∷ y) w h = rw (reschedule_each_plain (x ∷ y) w h, length-members (x ∷ y))

  pub IsQuiet-without_each : (ms : List Bytes) (z : ZSet) → IsQuiet z → IsQuiet (without_each ms z)
  IsQuiet-without_each ms z q = record {
    distinct = IsDistinct-without_each ms z q.distinct;
    plain = λ m h. q.plain m (ground (arith, has-without_each ms z m));
  }
