-- ===== src/Runner/Retention/SafeTrim.antt =====
-- What `safeTrim` of internal/taskmq/runner/retention_janitor.go keeps.
use taskmq.Prelude.{
  ℕ, zero, suc, ◌≡◌, ◌≤◌, ◌<◌, ◌⊎◌, inl, inr, refl, sym, subst, Bytes, true, false, ◌==◌, =b_refl,
  List, [], ◌∷◌, All, take, drop, if-both, Bool-cases, Option, none, some, arith,
}
use taskmq.Prelude.Int.{ℤ}
use taskmq.Errors.{Error}
use taskmq.Redis.{Db, Entry, Stream}
use taskmq.Redis.Reference.{has_id}
use taskmq.Redis.Laws.{Laws, AtLeast}
use taskmq.World.{redis_error, World, delivered, refused, lost, carry, call}
use taskmq.World.Run.{call-keeps}
use taskmq.Runner.Retention.{
  RetentionJanitor, meanwhile, key, unless_ignorable, delivered_threshold, read_last_delivered,
  is_ignorable_stream_err, pending_threshold, read_pending, safe_trim_threshold, trim, batch_limit,
  trimmed, safe_trim,
}

-- An entry that a worker of the group has still to process: pending, or not delivered yet.
abbrev pub IsOpen : Bytes → Stream → ℕ → Type 0
IsOpen group s i = (s.pending group i ≡ true) ⊎ (s.last_delivered group < i)

-- Only what was delivered is pending.
abbrev pub IsConsistent : Bytes → Stream → Type 0
IsConsistent group s = (i : ℕ) → s.pending group i ≡ true → i ≤ s.last_delivered group

-- Others have delivered nothing of the stream to the group.
pub record Undelivered (group : Bytes) (s s' : Stream) : Type 0 where
  pub pending : (i : ℕ) → s'.pending group i ≡ true → s.pending group i ≡ true
  pub last : s'.last_delivered group ≡ s.last_delivered group

-- What becomes open or pending has an id above those that were delivered.
abbrev pub IsForward : Bytes → Stream → Stream → Type 0
IsForward group s s' = (i : ℕ) → IsOpen group s' i → IsOpen group s i

-- Every open entry has this id at least.
abbrev IsBelow : Bytes → Stream → ℕ → Type 0
IsBelow group s m = (i : ℕ) → IsOpen group s i → m ≤ i

-- Dropping entries below an id keeps the others.
kept_above :
    (m i n : ℕ) (es : List Entry)
    → m ≤ i
    → All (λ e. e.id < m) (take n es)
    → has_id i es ≡ true
    → has_id i (drop n es) ≡ true
unfolding has_id
kept_above m i zero es le below h = h
kept_above m i (suc n) [] le below h = h
kept_above m i (suc n) (e ∷ es) le below h =
    kept_above m i n es le below.1 (ground (arith, below.0))

module _ (j : RetentionJanitor) (laws : Laws j.env.commands) where
  abbrev queue_stream : Db → Stream
  queue_stream db = db.streams (key j)

  trim_keeps :
      (m i : ℕ) (limit : ℤ) (db : Db)
      → m ≤ i
      → has_id i (queue_stream db).entries ≡ true
      → has_id i (queue_stream (trim j m limit db).0).entries ≡ true
  trim_keeps m i limit db le h = simp =b_refl (
      subst (λ es. has_id i es ≡ true)
        (sym (laws.xtrim_minid_trims m limit (queue_stream db)).entries)
        (kept_above m i (j.env.commands.xtrim_minid m limit (queue_stream db)).1
          (queue_stream db).entries le (laws.xtrim_minid_trims m limit (queue_stream db)).below h))

  abbrev counted : World → World
  counted w = record w { calls = suc w.calls }

  abbrev Bounded : (Error ⊎ Option ℕ) × World → Type 0
  Bounded (inl e, w) = Unit {0}
  Bounded (inr none, w) = Unit {0}
  Bounded (inr (some m), w) = IsBelow j.group (queue_stream w.db) m

  ignorable-Bounded : (e : Error) (w : World) → Bounded (unless_ignorable j e, w)
  ignorable-Bounded e w =
      if-both (λ (r : Error ⊎ Option ℕ). Bounded (r, w)) (is_ignorable_stream_err e) tt tt

  -- Without pending ids the last delivered id is below every open entry.
  last-Bounded :
      (w : World)
      → ((i : ℕ) → (queue_stream w.db).pending j.group i ≡ false)
      → Bounded (delivered_threshold j (call j.env (read_last_delivered j) w))
  unfolding call
  last-Bounded w free =
      elim (j.env.net w.calls)
        as (λ f. Bounded (delivered_threshold j (carry f (read_last_delivered j) w))) [
          | delivered ↦
              if-both (λ (o : Option ℕ). Bounded (inr o, counted w))
                ((queue_stream w.db).last_delivered j.group == 0) tt (λ i. below i)
          | refused ↦ ignorable-Bounded redis_error (counted w)
          | lost ↦ ignorable-Bounded redis_error (counted w)
        ]
    where
      below :
          (i : ℕ)
          → IsOpen j.group (queue_stream w.db) i
          → (queue_stream w.db).last_delivered j.group ≤ i
      below i (inl pends) = absurd (cc (free i))
      below i (inr later) = omega arith

  lowest-IsBelow :
      (s : Stream) (low : ℕ)
      → IsConsistent j.group s
      → j.env.commands.xpending_lower j.group s ≡ some low
      → IsBelow j.group s low
  lowest-IsBelow s low ok e i (inl pends) =
      subst (λ o. AtLeast o i) e (laws.xpending_lower_bounds j.group s i (ok i pends) pends)
  lowest-IsBelow s low ok e i (inr later) =
      omega (arith, ok low (laws.xpending_lower_pending j.group s low e))

  none_pending :
      (s : Stream) (i : ℕ)
      → IsConsistent j.group s
      → j.env.commands.xpending_lower j.group s ≡ none
      → s.pending j.group i ≡ false
  none_pending s i ok e = elim (Bool-cases (s.pending j.group i)) [
    | inl pends ↦
        absurd
          (subst (λ o. AtLeast o i) e (laws.xpending_lower_bounds j.group s i (ok i pends) pends))
    | inr free ↦ free
  ]

  pending-Bounded :
      (others : Db → Db) (o : Option ℕ) (w : World)
      → ((db : Db) → Undelivered j.group (queue_stream db) (queue_stream (others db)))
      → IsConsistent j.group (queue_stream w.db)
      → j.env.commands.xpending_lower j.group (queue_stream w.db) ≡ o
      → Bounded (pending_threshold j others (inr o, w))
  pending-Bounded others none w quiet ok e =
      last-Bounded (meanwhile others w) (λ i. still i (none_pending (queue_stream w.db) i ok e))
    where
      still :
          (i : ℕ)
          → (queue_stream w.db).pending j.group i ≡ false
          → (queue_stream (others w.db)).pending j.group i ≡ false
      still i free = elim (Bool-cases ((queue_stream (others w.db)).pending j.group i)) [
        | inl pends ↦ cc ((quiet w.db).pending i pends)
        | inr free' ↦ free'
      ]
  pending-Bounded others (some low) w quiet ok e = lowest-IsBelow (queue_stream w.db) low ok e

  threshold-Bounded :
      (others : Db → Db) (w : World)
      → ((db : Db) → Undelivered j.group (queue_stream db) (queue_stream (others db)))
      → IsConsistent j.group (queue_stream w.db)
      → Bounded (safe_trim_threshold j others w)
  unfolding safe_trim_threshold call
  threshold-Bounded others w quiet ok =
      elim (j.env.net w.calls)
        as (λ f. Bounded (pending_threshold j others (carry f (read_pending j) w))) [
          | delivered ↦
              pending-Bounded others (j.env.commands.xpending_lower j.group (queue_stream w.db)) _
                quiet ok refl
          | refused ↦ ignorable-Bounded redis_error (counted w)
          | lost ↦ ignorable-Bounded redis_error (counted w)
        ]

  -- Without a threshold nothing happens on the server; with one, the entries stay that are open when
  -- XTRIM is called.
  abbrev pub IsSafeTrim : (Db → Db) → (Error ⊎ Option ℕ) × World → World → Type 0
  IsSafeTrim others (inl e, w) w' = w'.db ≡ w.db
  IsSafeTrim others (inr none, w) w' = w'.db ≡ w.db
  IsSafeTrim others (inr (some m), w) w' =
      (i : ℕ)
      → IsOpen j.group (queue_stream (others w.db)) i
      → has_id i (queue_stream (others w.db)).entries ≡ true
      → has_id i (queue_stream w'.db).entries ≡ true

  trimmed-IsSafeTrim :
      (others : Db → Db) (r : (Error ⊎ Option ℕ) × World)
      → ((db : Db) → IsForward j.group (queue_stream db) (queue_stream (others db)))
      → Bounded r
      → IsSafeTrim others r (trimmed j others r).1
  trimmed-IsSafeTrim others (inl e, w) forward below = refl
  trimmed-IsSafeTrim others (inr none, w) forward below = refl
  trimmed-IsSafeTrim others (inr (some m), w) forward below = λ i opens there.
      call-keeps (λ db. has_id i (queue_stream db).entries ≡ true) j.env
        (trim j m (batch_limit j w)) (meanwhile others w) there
        (trim_keeps m i (batch_limit j w) (others w.db) (below i (forward w.db i opens)) there)

  -- While only delivered entries are pending, a safe trim, whatever calls fail and whatever limit is
  -- configured, keeps every entry that a worker has still to process. Others may act between its calls, but for this: before XINFO they deliver no
  -- entry of the stream to the group, and before XTRIM they make none open that is not.
  pub safe_trim-IsSafeTrim :
      (before_info before_trim : Db → Db) (w : World)
      → IsConsistent j.group (queue_stream w.db)
      → ((db : Db) → Undelivered j.group (queue_stream db) (queue_stream (before_info db)))
      → ((db : Db) → IsForward j.group (queue_stream db) (queue_stream (before_trim db)))
      → IsSafeTrim before_trim
          (safe_trim_threshold j before_info w)
          (safe_trim j before_info before_trim w).1
  unfolding safe_trim
  safe_trim-IsSafeTrim before_info before_trim w ok quiet forward =
      trimmed-IsSafeTrim before_trim (safe_trim_threshold j before_info w) forward
        (threshold-Bounded before_info w quiet ok)
