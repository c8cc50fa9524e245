-- ===== src/QueueMetrics/Doubling.antt =====
-- The counters that the broker asks for, carried out, and what the text for Prometheus makes of them.
use taskmq.Prelude.{
  ℕ, zero, suc, ◌*◌, ◌^◌, ◌≡◌, ◌<◌, refl, ◌∙◌, ap, sym, subst, Bytes, false, ◌=b◌, =b_refl, ◌⊎◌,
  inl, inr, List, [], ◌∷◌, ◌++◌, none, some, arith,
}
use taskmq.Prelude.Int.{pos, ◌+ℤ◌, add64_exact}
use taskmq.Prelude.Decimal.{decimal}
use taskmq.Prelude.Decimal.Parse.{parse_int64-decimal}
use taskmq.Task.{Task}
use taskmq.Keys.{metrics}
use taskmq.Redis.{Hash}
use taskmq.Redis.Laws.{Laws}
use taskmq.Lifecycle.Scripts.{Reply}
use taskmq.World.{
  Env, World, call, delivered, Effect, Field, EventType, processed, mark_completed, emit,
}
use taskmq.Broker.Transitions.{report_completed, mark_done}
use taskmq.QueueMetrics.{field_name, inc, parsed, snapshot_script, processed_value}

module _ (env : Env) where
  -- A recorded call of `metrics.Inc` is carried out; others do not touch the counters.
  abbrev count_effect : Effect → World → World
  count_effect (Effect.inc queue field) w = inc env queue (field_name field) (pos 1) w
  count_effect _ w = w

  unfoldable pub count_effects : List Effect → World → World
  count_effects [] w = w
  count_effects (e ∷ es) w = count_effects es (count_effect e w)

-- What the broker reports of n completed tasks
unfoldable pub completions : Task → Reply → ℕ → World → World
completions t r zero w = w
completions t r (suc n) w = report_completed t r (completions t r n w)

-- A counter of a hash, where a missing field counts 0
abbrev HasCount : Hash → Bytes → ℕ → Type 0
HasCount h f k = (h f ≡ some (decimal (pos k))) ⊎ ((h f ≡ none) × (pos k ≡ pos 0))

parsed-HasCount :
    (h : Hash) (f : Bytes) (k : ℕ) → k < 2 ^ 63 → HasCount h f k → parsed (h f) ≡ pos k
parsed-HasCount h f k fits (inl there) =
    rw there (parse_int64-decimal (pos k) (omega arith, omega arith))
parsed-HasCount h f k fits (inr (absent, is_zero)) = rw absent (sym is_zero)

module _ (env : Env) (laws : Laws env.commands) (reliable : (n : ℕ) → env.net n ≡ delivered)
    (queue : Bytes) (named : (queue =b []) ≡ false) where
  abbrev counters : World → Hash
  counters w = w.db.hashes (metrics queue)

  -- An increment adds one to its field and leaves the others.
  inc-HasCount :
      (f : Bytes) (k : ℕ) (w : World)
      → (f =b []) ≡ false
      → suc k < 2 ^ 63
      → HasCount (counters w) f k
      → counters (inc env queue f (pos 1) w) f ≡ some (decimal (pos (suc k)))
  unfolding inc call
  inc-HasCount f k w other fits count =
      rw
        (
          named,
          other,
          reliable w.calls,
          =b_refl (metrics queue),
          laws.hincrby_adds f (pos k) (pos 1) (counters w) (omega arith, omega arith)
              (ground arith, ground arith) count,
        )
        (laws.hset_sets f (decimal (pos k +ℤ pos 1)) (counters w) f
          ∙ rw (=b_refl f) (ap (λ n. some (decimal n)) (ground arith)))

  inc-other :
      (f g : Bytes) (k : ℕ) (w : World)
      → (f =b []) ≡ false
      → (f =b g) ≡ false
      → suc k < 2 ^ 63
      → HasCount (counters w) f k
      → counters (inc env queue f (pos 1) w) g ≡ counters w g
  unfolding inc call
  inc-other f g k w other apart fits count =
      rw
        (
          named,
          other,
          reliable w.calls,
          =b_refl (metrics queue),
          laws.hincrby_adds f (pos k) (pos 1) (counters w) (omega arith, omega arith)
              (ground arith, ground arith) count,
        )
        (laws.hset_sets f (decimal (pos k +ℤ pos 1)) (counters w) g ∙ rw apart refl)

  count_effects-append :
      (es fs : List Effect) (w : World)
      → count_effects env (es ++ fs) w ≡ count_effects env fs (count_effects env es w)
  unfolding count_effects
  count_effects-append [] fs w = refl
  count_effects-append (e ∷ es) fs w = count_effects-append es fs (count_effect env e w)

  -- Both counters of a completion stand at k.
  abbrev BothCount : ℕ → World → Type 0
  BothCount k w =
      HasCount (counters w) (field_name processed) k
      × HasCount (counters w) (field_name Field.completed) k

  both-BothCount :
      (k : ℕ) (w : World)
      → suc k < 2 ^ 63
      → BothCount k w
      → BothCount (suc k) (
          inc env queue
            (field_name processed)
            (pos 1)
            (inc env queue (field_name Field.completed) (pos 1) w))
  unfolding ◌=b◌
  both-BothCount k w fits (done, finished) =
      let w' = inc env queue (field_name Field.completed) (pos 1) w in
      let apart =
        inc-other (field_name Field.completed) (field_name processed) k w refl refl fits finished in
      let done' =
        subst (λ o. (o ≡ some (decimal (pos k))) ⊎ ((o ≡ none) × (pos k ≡ pos 0))) (sym apart)
          done in
      (
        inl (inc-HasCount (field_name processed) k w' refl fits done'),
        inl (
            inc-other (field_name processed) (field_name Field.completed) k w' refl refl fits done'
            ∙ inc-HasCount (field_name Field.completed) k w refl fits finished),
      )

  mark_done-uncounted : (t : Task) (w v : World) → count_effect env (mark_done t w) v ≡ v
  mark_done-uncounted t w v =
      elim w.lifecycle
        as (λ l.
          count_effect env
            (elim l [
              | none ↦ mark_completed t t.result (pos 0) (pos 0)
              | some l ↦
                  mark_completed t t.result l.cfg.completed_retention l.cfg.completed_max_count
            ])
            v
          ≡ v) [ none ↦ refl | some l ↦ refl ]

  counted_last :
      (es : List Effect) (e : Effect) (v : World)
      → count_effects env (es ++ (e ∷ [])) v ≡ count_effect env e (count_effects env es v)
  counted_last es e v = count_effects-append es (e ∷ []) v ∙ (unfold count_effects in refl)

  -- What is carried out of the report of a completion
  report_completed-counted :
      (t : Task) (r : Reply) (b v : World)
      → t.queue ≡ queue
      → count_effects env (report_completed t r b).effects v
        ≡ inc env queue
            (field_name processed)
            (pos 1)
            (inc env queue (field_name Field.completed) (pos 1) (count_effects env b.effects v))
  report_completed-counted t r b v own =
      let m = mark_done t b in
      let c = Effect.inc t.queue Field.completed in
      let p = Effect.inc t.queue processed in
      counted_last (((b.effects ++ (m ∷ [])) ++ (c ∷ [])) ++ (p ∷ []))
        (emit t.queue EventType.completed t.id t.name []) v
      ∙ counted_last ((b.effects ++ (m ∷ [])) ++ (c ∷ [])) p v
      ∙ ap (count_effect env p) (
          counted_last (b.effects ++ (m ∷ [])) c v
          ∙ ap (count_effect env c) (
              counted_last b.effects m v ∙ mark_done-uncounted t b (count_effects env b.effects v)))
      ∙ ap
          (λ q.
            inc env q (field_name processed) (pos 1)
              (inc env q (field_name Field.completed) (pos 1) (count_effects env b.effects v)))
          own

  completions-BothCount :
      (t : Task) (r : Reply) (n : ℕ) (w v : World)
      → t.queue ≡ queue
      → n < 2 ^ 63
      → w.effects ≡ []
      → BothCount 0 v
      → BothCount n (count_effects env (completions t r n w).effects v)
  unfolding completions
  completions-BothCount t r zero w v own fits fresh both = rw fresh (unfold count_effects in both)
  completions-BothCount t r (suc n) w v own fits fresh both =
      let b = completions t r n w in
      subst (BothCount (suc n)) (sym (report_completed-counted t r b v own)) (
        both-BothCount n (count_effects env b.effects v) fits
          (completions-BothCount t r n w v own (omega arith) fresh both))

  -- Over a reliable network, for a queue with a name whose counters of processed and completed tasks are
  -- not set yet, when the counter updates that the broker asks for on completing n of its tasks are
  -- carried out, each counter reads n, and the value that the text for Prometheus gives as the number of
  -- tasks successfully completed is 2 n.
  pub processed_value_doubles :
      (t : Task) (r : Reply) (n : ℕ) (w v : World)
      → t.queue ≡ queue
      → n * 2 < 2 ^ 63
      → w.effects ≡ []
      → counters v (field_name processed) ≡ none
      → counters v (field_name Field.completed) ≡ none
      → let snap =
          (snapshot_script queue (count_effects env (completions t r n w).effects v).db).1 in
        (snap (field_name processed) ≡ pos n)
        × (snap (field_name Field.completed) ≡ pos n)
        × (processed_value snap ≡ pos (n * 2))
  processed_value_doubles t r n w v own fits fresh unset unset' =
      let v' = count_effects env (completions t r n w).effects v in
      let (done, finished) =
        completions-BothCount t r n w v own (omega arith) fresh
          (inr (unset, refl), inr (unset', refl)) in
      let done' = parsed-HasCount (counters v') (field_name processed) n (omega arith) done in
      let finished' =
        parsed-HasCount (counters v') (field_name Field.completed) n (omega arith) finished in
      (
        done',
        finished',
        rw (done', finished')
            (add64_exact (pos n) (pos n) (omega arith, omega arith) (omega arith, omega arith)
                (ground arith, ground arith)
              ∙ ground arith),
      )
