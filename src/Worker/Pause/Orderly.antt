-- ===== src/Worker/Pause/Orderly.antt =====
-- The channels on which consumers wait: internal/taskmq/worker/pause.go closes none of them twice.
use taskmq.Prelude.{
  ℕ, ◌≡◌, ◌<◌, ◌⊎◌, inl, inr, refl, sym, ap, ◌∙◌, subst, Bytes, Bool, true, false, ◌&&◌, not, ◌==◌,
  ◌=b◌, =b_iff, List, [], ◌∷◌, if◌then◌else◌, if-both, Bool-cases, Option, none, some, arith,
}
use taskmq.Worker.Pause.{
  PauseController, closing, set_paused, made_for, wait_chan, PauseOp, set, wait, pause_op,
  pause_ops, new_pause_controller,
}

-- The channels in the map are open and made, each for one queue, and only made ones are closed. Hence
-- no channel is closed twice.
pub record IsOrderly (p : PauseController) : Type 0 where
  pub opened : (q : Bytes) (ch : ℕ) → p.pause_chans q ≡ some ch → p.closed ch ≡ false
  pub known : (q : Bytes) (ch : ℕ) → p.pause_chans q ≡ some ch → ch < p.made
  pub apart :
      (q r : Bytes) (ch : ℕ)
      → p.pause_chans q ≡ some ch
      → p.pause_chans r ≡ some ch
      → (q =b r) ≡ true
  pub bounded : (ch : ℕ) → p.closed ch ≡ true → ch < p.made

flagged-IsOrderly :
    (f : Bytes → Bool) (p : PauseController)
    → IsOrderly p
    → IsOrderly (record p { paused_queues = f })
flagged-IsOrderly f p h = record {
  opened = h.opened;
  known = h.known;
  apart = h.apart;
  bounded = h.bounded;
}

closing-IsOrderly :
    (queue : Bytes) (o : Option ℕ) (p : PauseController)
    → p.pause_chans queue ≡ o
    → IsOrderly p
    → IsOrderly (closing queue o p)
closing-IsOrderly queue none p e h = h
closing-IsOrderly queue (some ch) p e h = record {
  opened = λ q c there. opens q c (still q c there);
  known = λ q c there. h.known q c (still q c there).0;
  apart = λ q r c a b. h.apart q r c (still q c a).0 (still r c b).0;
  bounded = λ c is. elim (Bool-cases (ch == c)) [
    | inl same ↦ subst (λ (n : ℕ). n < p.made) (ground arith) (h.known queue ch e)
    | inr other ↦ h.bounded c (ground arith)
  ];
}
  where
    still :
        (q : Bytes) (c : ℕ)
        → (if queue =b q then none else p.pause_chans q) ≡ some c
        → (p.pause_chans q ≡ some c) × ((queue =b q) ≡ false)
    still q c there = elim (Bool-cases (queue =b q)) [
      | inl same ↦ absurd (ground arith)
      | inr other ↦ (ground arith, other)
    ]

    opens :
        (q : Bytes) (c : ℕ)
        → (p.pause_chans q ≡ some c) × ((queue =b q) ≡ false)
        → (if ch == c then true else p.closed c) ≡ false
    opens q c (there, other) = elim (Bool-cases (ch == c)) [
      | inl same ↦ absurd (
          cc (
            h.apart queue q c (e ∙ ap some (subst (λ (n : ℕ). ch ≡ n) (ground arith) refl)) there,
            other,
          ))
      | inr differs ↦ ground (arith, h.opened q c there)
    ]

pub set_paused-IsOrderly :
    (queue : Bytes) (b : Bool) (p : PauseController)
    → IsOrderly p
    → IsOrderly (set_paused queue b p)
unfolding set_paused
set_paused-IsOrderly queue b p h =
    if-both IsOrderly (p.paused_queues queue && not b)
      (closing-IsOrderly queue (p.pause_chans queue) (record p { paused_queues = _ }) refl
        (flagged-IsOrderly _ p h))
      (flagged-IsOrderly _ p h)

made_for-IsOrderly :
    (queue : Bytes) (o : Option ℕ) (p : PauseController)
    → IsOrderly p
    → IsOrderly (made_for queue o p).1
made_for-IsOrderly queue (some ch) p h = h
made_for-IsOrderly queue none p h = record {
  opened = λ q c there. elim (old q c there) [
    | inl (_, new) ↦ subst (λ (n : ℕ). p.closed n ≡ false) (sym new) unused
    | inr was ↦ h.opened q c was
  ];
  known = λ q c there. elim (old q c there) [
    | inl (_, new) ↦ omega (arith, new)
    | inr was ↦ omega (arith, h.known q c was)
  ];
  apart = λ q r c a b. elim (old q c a) [
    | inl (q_is, new) ↦ elim (old r c b) [
      | inl (r_is, _) ↦ subst (λ s. (s =b r) ≡ true) ((=b_iff queue q).0 q_is) r_is
      | inr was ↦ absurd (omega (arith, h.known r c was, new))
    ]
    | inr was ↦ elim (old r c b) [
      | inl (_, new) ↦ absurd (omega (arith, h.known q c was, new))
      | inr was' ↦ h.apart q r c was was'
    ]
  ];
  bounded = λ c is. omega (arith, h.bounded c is);
}
  where
    old :
        (q : Bytes) (c : ℕ)
        → (if queue =b q then some p.made else p.pause_chans q) ≡ some c
        → (((queue =b q) ≡ true) × (c ≡ p.made)) ⊎ (p.pause_chans q ≡ some c)
    old q c there = elim (Bool-cases (queue =b q)) [
      | inl same ↦ inl (same, ground arith)
      | inr other ↦ inr (ground arith)
    ]

    unused : p.closed p.made ≡ false
    unused = elim (Bool-cases (p.closed p.made)) [
      | inl is ↦ absurd (omega (arith, h.bounded p.made is))
      | inr is ↦ is
    ]

pub wait_chan-IsOrderly :
    (queue : Bytes) (p : PauseController) → IsOrderly p → IsOrderly (wait_chan queue p).1
unfolding wait_chan
wait_chan-IsOrderly queue p h = made_for-IsOrderly queue (p.pause_chans queue) p h

pause_op-IsOrderly : (op : PauseOp) (p : PauseController) → IsOrderly p → IsOrderly (pause_op op p)
pause_op-IsOrderly (set queue b) p h = set_paused-IsOrderly queue b p h
pause_op-IsOrderly (wait queue) p h = wait_chan-IsOrderly queue p h

ops-IsOrderly :
    (ops : List PauseOp) (p : PauseController) → IsOrderly p → IsOrderly (pause_ops ops p)
unfolding pause_ops
ops-IsOrderly [] p h = h
ops-IsOrderly (op ∷ ops) p h = ops-IsOrderly ops (pause_op op p) (pause_op-IsOrderly op p h)

-- Whatever flags are set and channels asked for, every channel in the map of a controller is open, was
-- made and belongs to one queue, so that no channel is closed twice.
pub pause_ops-IsOrderly : (ops : List PauseOp) → IsOrderly (pause_ops ops new_pause_controller)
pause_ops-IsOrderly ops = ops-IsOrderly ops new_pause_controller (record {
  opened = λ q ch there. refl;
  known = λ q ch there. absurd (cc there);
  apart = λ q r ch a b. absurd (cc a);
  bounded = λ ch is. absurd (cc is);
})
