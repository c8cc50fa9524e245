-- ===== src/Worker/Pause/Waking.antt =====
-- A consumer that waits for the end of a pause is woken, and one that asks for its channel after the end
-- may not be: internal/taskmq/worker/pause.go.
use taskmq.Prelude.{
  ℕ, ◌≡◌, ◌⊎◌, inl, inr, refl, sym, ap, ◌∙◌, subst, Bytes, Bool, true, false, ◌&&◌, not, ◌=b◌,
  =b_iff, =b_refl, List, [], ◌∷◌, All, if◌then◌else◌, if-both, Bool-cases, Option, none, some,
  arith,
}
use taskmq.Worker.Pause.{
  PauseController, closing, set_paused, made_for, wait_chan, PauseOp, set, wait, pause_op,
  pause_ops,
}
use taskmq.Worker.Pause.Orderly.{IsOrderly, set_paused-IsOrderly, wait_chan-IsOrderly}

-- The operation does not begin a pause of the queue.
abbrev pub IsNoPause : Bytes → PauseOp → Type 0
IsNoPause queue (set q b) = ((q =b queue) ≡ false) ⊎ (b ≡ false)
IsNoPause queue (wait q) = Unit {0}

closing-flags :
    (q : Bytes) (o : Option ℕ) (p : PauseController)
    → (closing q o p).paused_queues ≡ p.paused_queues
closing-flags q none p = refl
closing-flags q (some ch) p = refl

closing-other :
    (q queue : Bytes) (o : Option ℕ) (p : PauseController)
    → (q =b queue) ≡ false
    → (closing q o p).pause_chans queue ≡ p.pause_chans queue
closing-other q queue none p h = refl
closing-other q queue (some ch) p h = ground arith

closing-closed :
    (q : Bytes) (o : Option ℕ) (p : PauseController) (ch : ℕ)
    → p.closed ch ≡ true
    → (closing q o p).closed ch ≡ true
closing-closed q none p ch h = h
closing-closed q (some c) p ch h = ground arith

module _ (queue : Bytes) where
  set_paused-flag :
      (q : Bytes) (b : Bool) (p : PauseController)
      → (set_paused q b p).paused_queues queue ≡ (if q =b queue then b else p.paused_queues queue)
  unfolding set_paused
  set_paused-flag q b p =
      if-both
        (λ (r : PauseController).
          r.paused_queues queue ≡ (if q =b queue then b else p.paused_queues queue))
        (p.paused_queues q && not b)
        (ap (λ (f : Bytes → Bool). f queue) (closing-flags q (p.pause_chans q) _)) refl

  set_paused-other :
      (q : Bytes) (b : Bool) (p : PauseController)
      → (q =b queue) ≡ false
      → (set_paused q b p).pause_chans queue ≡ p.pause_chans queue
  unfolding set_paused
  set_paused-other q b p h =
      if-both (λ (r : PauseController). r.pause_chans queue ≡ p.pause_chans queue)
        (p.paused_queues q && not b) (closing-other q queue (p.pause_chans q) _ h) refl

  -- Without the end of a pause no channel is touched.
  set_paused-quiet :
      (q : Bytes) (b : Bool) (p : PauseController)
      → (p.paused_queues q && not b) ≡ false
      → (set_paused q b p).pause_chans queue ≡ p.pause_chans queue
  unfolding set_paused
  set_paused-quiet q b p h = rw h refl

  set_paused-closed :
      (q : Bytes) (b : Bool) (p : PauseController) (ch : ℕ)
      → p.closed ch ≡ true
      → (set_paused q b p).closed ch ≡ true
  unfolding set_paused
  set_paused-closed q b p ch h =
      if-both (λ (r : PauseController). r.closed ch ≡ true) (p.paused_queues q && not b)
        (closing-closed q (p.pause_chans q) _ ch h) h

  set_paused-closes :
      (p : PauseController) (ch : ℕ)
      → p.paused_queues queue ≡ true
      → p.pause_chans queue ≡ some ch
      → (set_paused queue false p).closed ch ≡ true
  unfolding set_paused
  set_paused-closes p ch paused there = rw (paused, there) (ground arith)

  made_for-takes :
      (o : Option ℕ) (p : PauseController)
      → p.pause_chans queue ≡ o
      → (made_for queue o p).1.pause_chans queue ≡ some (made_for queue o p).0
  made_for-takes (some ch) p h = h
  made_for-takes none p h = ground (arith, =b_refl queue)

  wait_chan-takes :
      (p : PauseController) → (wait_chan queue p).1.pause_chans queue ≡ some (wait_chan queue p).0
  unfolding wait_chan
  wait_chan-takes p = made_for-takes (p.pause_chans queue) p refl

  -- Asking for a channel keeps the flags, the closed channels and those in the map.
  wait_chan-keeps :
      (q : Bytes) (p : PauseController)
      → ((wait_chan q p).1.paused_queues ≡ p.paused_queues)
        × ((wait_chan q p).1.closed ≡ p.closed)
        × ((ch : ℕ) → p.pause_chans queue ≡ some ch → (wait_chan q p).1.pause_chans queue ≡ some ch)
  unfolding wait_chan
  wait_chan-keeps q p = step (p.pause_chans q) refl
    where
      step :
          (o : Option ℕ)
          → p.pause_chans q ≡ o
          → ((made_for q o p).1.paused_queues ≡ p.paused_queues)
            × ((made_for q o p).1.closed ≡ p.closed)
            × ((ch : ℕ)
                → p.pause_chans queue ≡ some ch
                → (made_for q o p).1.pause_chans queue ≡ some ch)
      step (some c) e = (refl, refl, (λ ch there. there))
      step none e = (
        refl,
        refl,
        (λ ch there. elim (Bool-cases (q =b queue)) [
          | inl same ↦
              absurd (cc (subst (λ r. p.pause_chans r ≡ none) ((=b_iff q queue).0 same) e, there))
          | inr other ↦ ground (arith, there)
        ]),
      )

  -- The queue is paused and the channel in the map, or the channel is closed.
  abbrev IsHeld : ℕ → PauseController → Type 0
  IsHeld ch p =
      ((p.paused_queues queue ≡ true) × (p.pause_chans queue ≡ some ch)) ⊎ (p.closed ch ≡ true)

  set_paused-IsHeld :
      (q : Bytes) (b : Bool) (ch : ℕ) (p : PauseController)
      → IsHeld ch p
      → IsHeld ch (set_paused q b p)
  set_paused-IsHeld q b ch p (inr is) = inr (set_paused-closed q b p ch is)
  set_paused-IsHeld q b ch p (inl (paused, there)) = elim (Bool-cases (q =b queue)) [
    | inr other ↦ inl (set_paused-flag q b p ∙ ground arith, set_paused-other q b p other ∙ there)
    | inl same ↦ elim (Bool-cases b) [
      | inl begins ↦
          inl (set_paused-flag q b p ∙ ground arith, set_paused-quiet q b p (ground arith) ∙ there)
      | inr ends ↦ inr (
          subst (λ r. (set_paused r b p).closed ch ≡ true) (sym ((=b_iff q queue).0 same))
            (subst (λ f. (set_paused queue f p).closed ch ≡ true) (sym ends)
              (set_paused-closes p ch paused there)))
    ]
  ]

  pause_op-IsHeld :
      (op : PauseOp) (ch : ℕ) (p : PauseController) → IsHeld ch p → IsHeld ch (pause_op op p)
  pause_op-IsHeld (set q b) ch p h = set_paused-IsHeld q b ch p h
  pause_op-IsHeld (wait q) ch p (inl (paused, there)) = inl (
    ap (λ (f : Bytes → Bool). f queue) (wait_chan-keeps q p).0 ∙ paused,
    (wait_chan-keeps q p).2 ch there,
  )
  pause_op-IsHeld (wait q) ch p (inr is) =
      inr (ap (λ (f : ℕ → Bool). f ch) (wait_chan-keeps q p).1 ∙ is)

  pause_ops-IsHeld :
      (ops : List PauseOp) (ch : ℕ) (p : PauseController)
      → IsHeld ch p
      → IsHeld ch (pause_ops ops p)
  unfolding pause_ops
  pause_ops-IsHeld [] ch p h = h
  pause_ops-IsHeld (op ∷ ops) ch p h =
      pause_ops-IsHeld ops ch (pause_op op p) (pause_op-IsHeld op ch p h)

  pause_op-closed :
      (op : PauseOp) (ch : ℕ) (p : PauseController)
      → p.closed ch ≡ true
      → (pause_op op p).closed ch ≡ true
  pause_op-closed (set q b) ch p h = set_paused-closed q b p ch h
  pause_op-closed (wait q) ch p h = ap (λ (f : ℕ → Bool). f ch) (wait_chan-keeps q p).1 ∙ h

  pause_ops-closed :
      (ops : List PauseOp) (ch : ℕ) (p : PauseController)
      → p.closed ch ≡ true
      → (pause_ops ops p).closed ch ≡ true
  unfolding pause_ops
  pause_ops-closed [] ch p h = h
  pause_ops-closed (op ∷ ops) ch p h =
      pause_ops-closed ops ch (pause_op op p) (pause_op-closed op ch p h)

  ends-IsHeld :
      (ch : ℕ) (p : PauseController) → IsHeld ch p → (set_paused queue false p).closed ch ≡ true
  ends-IsHeld ch p (inl (paused, there)) = set_paused-closes p ch paused there
  ends-IsHeld ch p (inr is) = set_paused-closed queue false p ch is

  -- A consumer that asks for the channel of a queue while it is paused is woken: whatever happens before
  -- and after, once the pause is ended its channel is closed and stays so.
  pub pause_ops-wakes :
      (before after : List PauseOp) (p : PauseController)
      → p.paused_queues queue ≡ true
      → let (ch, p') = wait_chan queue p in
        (pause_ops after (set_paused queue false (pause_ops before p'))).closed ch ≡ true
  pause_ops-wakes before after p paused =
      pause_ops-closed after ch (set_paused queue false (pause_ops before p')) (
        ends-IsHeld ch (pause_ops before p') (
          pause_ops-IsHeld before ch p' (
            inl (
              ap (λ (f : Bytes → Bool). f queue) (wait_chan-keeps queue p).0 ∙ paused,
              wait_chan-takes p,
            ))))
    where
      ch : ℕ
      ch = (wait_chan queue p).0

      p' : PauseController
      p' = (wait_chan queue p).1

  -- The queue is not paused, and a channel of it is in the map.
  record IsStuck (ch : ℕ) (p : PauseController) : Type 0 where
    orderly : IsOrderly p
    active : p.paused_queues queue ≡ false
    there : p.pause_chans queue ≡ some ch

  set_paused-IsStuck :
      (q : Bytes) (b : Bool) (ch : ℕ) (p : PauseController)
      → ((q =b queue) ≡ false) ⊎ (b ≡ false)
      → IsStuck ch p
      → IsStuck ch (set_paused q b p)
  set_paused-IsStuck q b ch p free h = record {
    orderly = set_paused-IsOrderly q b p h.orderly;
    active = set_paused-flag q b p ∙ ground (arith, free, h.active);
    there = elim (Bool-cases (q =b queue)) [
      | inr other ↦ set_paused-other q b p other ∙ h.there
      | inl same ↦
          set_paused-quiet q b p (
            ground (
              arith,
              subst (λ r. p.paused_queues r ≡ false) (sym ((=b_iff q queue).0 same)) h.active,
            ))
          ∙ h.there
    ];
  }

  pause_op-IsStuck :
      (op : PauseOp) (ch : ℕ) (p : PauseController)
      → IsNoPause queue op
      → IsStuck ch p
      → IsStuck ch (pause_op op p)
  pause_op-IsStuck (set q b) ch p free h = set_paused-IsStuck q b ch p free h
  pause_op-IsStuck (wait q) ch p free h = record {
    orderly = wait_chan-IsOrderly q p h.orderly;
    active = ap (λ (f : Bytes → Bool). f queue) (wait_chan-keeps q p).0 ∙ h.active;
    there = (wait_chan-keeps q p).2 ch h.there;
  }

  pause_ops-IsStuck :
      (ops : List PauseOp) (ch : ℕ) (p : PauseController)
      → All (IsNoPause queue) ops
      → IsStuck ch p
      → (pause_ops ops p).closed ch ≡ false
  unfolding pause_ops
  pause_ops-IsStuck [] ch p free h = h.orderly.opened queue ch h.there
  pause_ops-IsStuck (op ∷ ops) ch p free h =
      pause_ops-IsStuck ops ch (pause_op op p) free.1 (pause_op-IsStuck op ch p free.0 h)

  -- A consumer that has seen its queue paused, and asks for the channel when the pause has just been
  -- ended, gets one that stays open until the queue is paused again: it waits on an active queue.
  pub pause_ops-lost_wakeup :
      (ops : List PauseOp) (p : PauseController)
      → IsOrderly p
      → p.paused_queues queue ≡ true
      → All (IsNoPause queue) ops
      → let (ch, p') = wait_chan queue (set_paused queue false p) in
        (p'.paused_queues queue ≡ false) × ((pause_ops ops p').closed ch ≡ false)
  pause_ops-lost_wakeup ops p orderly paused free =
      (stuck.active, pause_ops-IsStuck ops (wait_chan queue resumed).0 _ free stuck)
    where
      resumed : PauseController
      resumed = set_paused queue false p

      stuck : IsStuck (wait_chan queue resumed).0 (wait_chan queue resumed).1
      stuck = record {
        orderly = wait_chan-IsOrderly queue resumed (set_paused-IsOrderly queue false p orderly);
        active =
            ap (λ (f : Bytes → Bool). f queue) (wait_chan-keeps queue resumed).0
            ∙ set_paused-flag queue false p
            ∙ ground (arith, =b_refl queue);
        there = wait_chan-takes resumed;
      }
