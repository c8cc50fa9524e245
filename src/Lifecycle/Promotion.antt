-- ===== src/Lifecycle/Promotion.antt =====
-- The script force_promote_member.lua of internal/taskmq/lifecycle/scripts moves a member or nothing.
use taskmq.Prelude.{
  ℕ, ◌≡◌, ◌⊎◌, inl, inr, refl, Bytes, true, false, ◌==◌, ◌=b◌, =b_refl, if◌then◌else◌, if-split,
  arith,
}
use taskmq.Prelude.Int.{ℤ, pos}
use taskmq.Redis.{Db, ZSet, Stream, Commands}
use taskmq.Redis.Reference.{has}
use taskmq.Redis.Laws.{Laws}
use taskmq.Redis.Members.{has-without}
use taskmq.Lifecycle.Scripts.{
  Reply, number, ok_reply, queue_full_reply, at_limit, append, force_promote_member,
}
use taskmq.Lifecycle.Streams.{Added, append-Added}

-- The three ends: the stream was full and nothing changed; the member was gone and no stream changed; or
-- the member was there, is no longer, and is the last entry of the stream.
abbrev pub IsPromotion : Bytes → Bytes → Bytes → ℤ → Db → Db × Reply → Type 0
IsPromotion delayed stream member maxlen db r =
    (r.1 ≡ queue_full_reply) × (r.0 ≡ db)
    ⊎ (r.1 ≡ number (pos 0)) × (has member (db.zsets delayed) ≡ false) × (r.0.streams ≡ db.streams)
    ⊎ (r.1 ≡ ok_reply)
      × (has member (db.zsets delayed) ≡ true)
      × (has member (r.0.zsets delayed) ≡ false)
      × ((id : ℕ) × Added maxlen member (db.streams stream) (r.0.streams stream) id)

module _ (c : Commands) (laws : Laws c) where
  -- A promotion under any limits finds the stream full and changes nothing, finds the member gone and
  -- changes no stream, or takes the member out of the delayed set and appends it to the stream.
  pub force_promote_member-IsPromotion :
      (delayed stream member : Bytes) (hard maxlen : ℤ) (db : Db)
      → IsPromotion delayed stream member maxlen db
          (force_promote_member c delayed stream member hard maxlen db)
  unfolding force_promote_member
  force_promote_member-IsPromotion delayed stream member hard maxlen db =
      if-split P (at_limit hard (c.xlen (db.streams stream))) (λ full. inl (refl, refl))
        (λ room.
          if-split P (removed.1 == 0) (λ none_removed. inr (inl (refl, gone none_removed, refl)))
            (λ some_removed.
              inr (inr (refl, was_there some_removed, simp =b_refl taken, promoted))))
    where
      P : Db × Reply → Type 0
      P = IsPromotion delayed stream member maxlen db

      removed : ZSet × ℕ
      removed = c.zrem member (db.zsets delayed)

      gone : (removed.1 == 0) ≡ true → has member (db.zsets delayed) ≡ false
      gone h = ground (arith, laws.zrem_counts member (db.zsets delayed))

      was_there : (removed.1 == 0) ≡ false → has member (db.zsets delayed) ≡ true
      was_there h = ground (arith, laws.zrem_counts member (db.zsets delayed))

      taken : has member removed.0 ≡ false
      taken =
          rw (laws.zrem_removes member (db.zsets delayed))
            (ground (arith, has-without member member (db.zsets delayed), =b_refl member))

      new : Stream × ℕ
      new = append c maxlen member (db.streams stream)

      promoted :
          (id : ℕ) × Added maxlen member
            (db.streams stream)
            (if stream =b stream then new.0 else db.streams stream)
            id
      promoted = (new.1, simp =b_refl (append-Added c laws maxlen member (db.streams stream)))
