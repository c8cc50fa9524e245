-- ===== src/Runner/Promotion.antt =====
-- The Lua script of internal/taskmq/runner/delayed_scheduler.go, which moves the tasks that are due
-- from the delayed set to the stream.
use taskmq.Prelude.{
  ℕ, zero, suc, ◌≡◌, ◌≤◌, ◌<◌, refl, ap, sym, ◌∙◌, ◌⊎◌, inl, inr, Bytes, true, List, [], ◌∷◌, ◌++◌,
  append-nil, append_assoc, length, take, max, if-both, if-split, =b_refl, if◌then◌else◌, arith,
}
use taskmq.Prelude.Int.{ℤ, pos, negsuc, pos_part, ◌≤ℤ◌, ◌<ℤ◌}
use mathlib.Core.List.{map-append}
use taskmq.Redis.{Db, Stream, ZSet, Commands, set_stream, set_zset}
use taskmq.Redis.Reference.{in_scores, members, payloads}
use taskmq.Redis.Laws.{Laws}
use taskmq.Redis.Scores.{without_each}
use taskmq.Lifecycle.Scripts.{append, at_limit}
use taskmq.Lifecycle.Streams.{append-entries, append_grows}

module _ (c : Commands) where
  -- The loop over the members: XADD while the stream is below the limit. It gives the moved ones.
  unfoldable pub append_each : ℤ → ℤ → List Bytes → Stream → Stream × List Bytes
  append_each hard maxlen [] s = (s, [])
  append_each hard maxlen (m ∷ ms) s =
      let rest = append_each hard maxlen ms (append c maxlen m s).0 in
      if at_limit hard (c.xlen s) then (s, []) else (rest.0, m ∷ rest.1)

  unfoldable pub zrem_each : List Bytes → ZSet → ZSet
  zrem_each [] z = z
  zrem_each (m ∷ ms) z = zrem_each ms (c.zrem m z).0

  -- KEYS are the delayed set and the stream; ARGV the scores, the batch and the limits.
  unfoldable pub promote : Bytes → Bytes → ℤ → ℤ → ℕ → ℤ → ℤ → Db → Db × List Bytes
  promote delayed stream lo hi batch hard maxlen db =
      let elements = c.zrangebyscore lo hi batch (db.zsets delayed) in
      let (s, moved) = append_each hard maxlen elements (db.streams stream) in
      if at_limit hard (c.xlen (db.streams stream))
      then (db, [])
      else (set_zset delayed (zrem_each moved (db.zsets delayed)) (set_stream stream s db), moved)

-- What a promotion of the members with scores from lo to hi has done: the moved ones are the first
-- that are due, they stand in order at the end of the stream and no longer in the set, and members
-- that were due stayed only with the stream at its limit.
pub record IsPromoted (delayed stream : Bytes) (lo hi : ℤ) (batch : ℕ) (hard : ℤ) (db db' : Db)
    (moved : List Bytes) : Type 0 where
  pub count : ℕ
  pub first : moved ≡ take count (members (take batch (in_scores lo hi (db.zsets delayed))))
  pub appended :
      payloads (db'.streams stream).entries ≡ payloads (db.streams stream).entries ++ moved
  pub left : db'.zsets delayed ≡ without_each moved (db.zsets delayed)
  pub within :
      (hard ≤ℤ pos 0)
      ⊎ (length (db'.streams stream).entries
          ≤ max (pos_part hard) (length (db.streams stream).entries))
  pub stayed :
      (moved ≡ members (take batch (in_scores lo hi (db.zsets delayed))))
      ⊎ (pos 0 <ℤ hard) × (hard ≤ℤ pos (length (db'.streams stream).entries))

module _ (c : Commands) (laws : Laws c) where
  zrem_each-without_each : (ms : List Bytes) (z : ZSet) → zrem_each c ms z ≡ without_each ms z
  unfolding zrem_each without_each
  zrem_each-without_each [] z = refl
  zrem_each-without_each (m ∷ ms) z =
      zrem_each-without_each ms (c.zrem m z).0 ∙ ap (without_each ms) (laws.zrem_removes m z)

  -- Without MAXLEN the moved members are appended in their order.
  append-payloads :
      (maxlen : ℤ) (m : Bytes) (s : Stream)
      → maxlen ≤ℤ pos 0
      → payloads (append c maxlen m s).0.entries ≡ payloads s.entries ++ (m ∷ [])
  append-payloads maxlen m s off =
      ap payloads (append-entries c laws maxlen m s off) ∙ map-append _ s.entries _

  append_each-payloads :
      (hard maxlen : ℤ) (ms : List Bytes) (s : Stream)
      → maxlen ≤ℤ pos 0
      → payloads (append_each c hard maxlen ms s).0.entries
        ≡ payloads s.entries ++ (append_each c hard maxlen ms s).1
  unfolding append_each
  append_each-payloads hard maxlen [] s off = sym (append-nil _)
  append_each-payloads hard maxlen (m ∷ ms) s off =
      if-both (λ (r : Stream × List Bytes). payloads r.0.entries ≡ payloads s.entries ++ r.1)
        (at_limit hard (c.xlen s)) (sym (append-nil _))
        (append_each-payloads hard maxlen ms (append c maxlen m s).0 off
          ∙ ap (λ ps. ps ++ (append_each c hard maxlen ms (append c maxlen m s).0).1)
              (append-payloads maxlen m s off)
          ∙ append_assoc (payloads s.entries) (m ∷ []) _)

  -- The moved members are a prefix, and all of them unless the stream is full.
  abbrev IsPrefix : ℤ → List Bytes → Stream × List Bytes → Type 0
  IsPrefix hard ms r =
      (n : ℕ) × (r.1 ≡ take n ms) × ((r.1 ≡ ms) ⊎ (at_limit hard (c.xlen r.0) ≡ true))

  append_each-IsPrefix :
      (hard maxlen : ℤ) (ms : List Bytes) (s : Stream)
      → IsPrefix hard ms (append_each c hard maxlen ms s)
  unfolding append_each
  append_each-IsPrefix hard maxlen [] s = (0, refl, inl refl)
  append_each-IsPrefix hard maxlen (m ∷ ms) s =
      if-split (IsPrefix hard (m ∷ ms)) (at_limit hard (c.xlen s)) (λ full. (0, refl, inr full))
        (λ room. extend (append_each-IsPrefix hard maxlen ms (append c maxlen m s).0))
    where
      extend :
          IsPrefix hard ms (append_each c hard maxlen ms (append c maxlen m s).0)
          → IsPrefix hard (m ∷ ms) (
            (append_each c hard maxlen ms (append c maxlen m s).0).0,
            m ∷ (append_each c hard maxlen ms (append c maxlen m s).0).1,
          )
      extend (n, e, inl whole) = (suc n, ap (◌∷◌ m) e, inl (ap (◌∷◌ m) whole))
      extend (n, e, inr full) = (suc n, ap (◌∷◌ m) e, inr full)

  -- The loop never takes the stream beyond the limit.
  append_each-within :
      (hard : ℕ) (maxlen : ℤ) (ms : List Bytes) (s : Stream)
      → 0 < hard
      → length (append_each c (pos hard) maxlen ms s).0.entries ≤ max hard (length s.entries)
  unfolding append_each
  append_each-within hard maxlen [] s h = omega arith
  append_each-within hard maxlen (m ∷ ms) s h =
      if-split (λ (r : Stream × List Bytes). length r.0.entries ≤ max hard (length s.entries))
        (at_limit (pos hard) (c.xlen s)) (λ full. omega arith)
        (λ room.
          below (append_each-within hard maxlen ms (append c maxlen m s).0 h)
            (append_grows c laws maxlen m s) (ground (arith, laws.xlen_length s)))
    where
      below :
          {n : ℕ}
          → n ≤ max hard (length (append c maxlen m s).0.entries)
          → length (append c maxlen m s).0.entries ≤ suc (length s.entries)
          → length s.entries < hard
          → n ≤ max hard (length s.entries)
      below a b d = omega arith

  within_limit :
      (hard maxlen : ℤ) (ms : List Bytes) (s : Stream)
      → (hard ≤ℤ pos 0)
        ⊎ (length (append_each c hard maxlen ms s).0.entries
            ≤ max (pos_part hard) (length s.entries))
  within_limit (negsuc n) maxlen ms s = inl (omega arith)
  within_limit (pos zero) maxlen ms s = inl (omega arith)
  within_limit (pos (suc n)) maxlen ms s =
      inr (append_each-within (suc n) maxlen ms s (omega arith))

  at_limit_reached :
      (hard : ℤ) (s : Stream)
      → at_limit hard (c.xlen s) ≡ true
      → (pos 0 <ℤ hard) × (hard ≤ℤ pos (length s.entries))
  at_limit_reached hard s h = (ground arith, ground (arith, laws.xlen_length s))

  -- Without MAXLEN a promotion moves the first members that are due, in order, to the end of
  -- the stream, keeps a hard limit, and leaves members of the first batch of due ones only at that limit.
  pub promote-IsPromoted :
      (delayed stream : Bytes) (lo hi : ℤ) (batch : ℕ) (hard maxlen : ℤ) (db : Db)
      → maxlen ≤ℤ pos 0
      → let r = promote c delayed stream lo hi batch hard maxlen db in
        IsPromoted delayed stream lo hi batch hard db r.0 r.1
  unfolding promote without_each
  promote-IsPromoted delayed stream lo hi batch hard maxlen db off =
      if-split (λ (r : Db × List Bytes). IsPromoted delayed stream lo hi batch hard db r.0 r.1)
        (at_limit hard (c.xlen (db.streams stream)))
        (λ full. record {
          count = 0;
          first = refl;
          appended = sym (append-nil _);
          left = refl;
          within = inr (omega arith);
          stayed = inr (at_limit_reached hard (db.streams stream) full);
        })
        (λ room. record {
          count = prefix.0;
          first = prefix.1 ∙ ap (take prefix.0) listed;
          appended = simp =b_refl (append_each-payloads hard maxlen elements s off);
          left = simp =b_refl (zrem_each-without_each new.1 (db.zsets delayed));
          within = simp =b_refl (within_limit hard maxlen elements s);
          stayed = simp =b_refl (elim prefix.2 [
            | inl whole ↦ inl (whole ∙ listed)
            | inr full ↦ inr (at_limit_reached hard new.0 full)
          ]);
        })
    where
      s : Stream
      s = db.streams stream

      elements : List Bytes
      elements = c.zrangebyscore lo hi batch (db.zsets delayed)

      listed : elements ≡ members (take batch (in_scores lo hi (db.zsets delayed)))
      listed = laws.zrangebyscore_lists lo hi batch (db.zsets delayed)

      new : Stream × List Bytes
      new = append_each c hard maxlen elements s

      prefix : IsPrefix hard elements new
      prefix = append_each-IsPrefix hard maxlen elements s
