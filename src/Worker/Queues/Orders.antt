-- ===== src/Worker/Queues/Orders.antt =====
-- A priority worker polls each of its queues once in a round, in either order.
use mathlib.Core.List.Perm
use mathlib.Core.List.{Perm, perm_middle, map-append}
use taskmq.Prelude.{
  ℕ, zero, suc, ◌+◌, ◌≡◌, ◌≤◌, ◌<◌, refl, ap, ◌∙◌, subst, Bytes, codes, List, [], ◌∷◌, ◌++◌, map,
  ◌=b◌, length, length-append, ltb, if-both, if-split, Option, none, some, arith,
}
use taskmq.Worker.Queues.{
  behind, QueuePriority, effective_weight, total_weight, pick, picked, Random, shuffle,
  shuffle_queues, Sort, sort_queues, queue_order,
}

-- The picked queue, the queues before and behind it, and the share of the weights in which r falls.
pub record IsPicked (r current_sum : ℕ) (qs : List QueuePriority) (x : QueuePriority)
    (rest : List QueuePriority) : Type 0 where
  pub before : List QueuePriority
  pub after : List QueuePriority
  pub whole : qs ≡ before ++ (x ∷ after)
  pub others : rest ≡ before ++ after
  pub from : current_sum + total_weight before ≤ r
  pub below : r < current_sum + total_weight before + effective_weight x

abbrev PickedOr : ℕ → ℕ → List QueuePriority → Option (QueuePriority × List QueuePriority) → Type 0
PickedOr r sum qs none = sum + total_weight qs ≤ r
PickedOr r sum qs (some (x, rest)) = IsPicked r sum qs x rest

behind-PickedOr :
    (r sum : ℕ) (q : QueuePriority) (qs : List QueuePriority)
    (o : Option (QueuePriority × List QueuePriority))
    → PickedOr r (sum + effective_weight q) qs o
    → PickedOr r sum (q ∷ qs) (behind q o)
unfolding total_weight
behind-PickedOr r sum q qs none h = omega (arith, h)
behind-PickedOr r sum q qs (some (x, rest)) h = record {
  before = q ∷ h.before;
  after = h.after;
  whole = ap (◌∷◌ q) h.whole;
  others = ap (◌∷◌ q) h.others;
  from = omega (arith, h.from);
  below = omega (arith, h.below);
}

pick-IsPicked : (r sum : ℕ) (qs : List QueuePriority) → sum ≤ r → PickedOr r sum qs (pick r sum qs)
unfolding pick
pick-IsPicked r sum [] h = unfold total_weight in omega arith
pick-IsPicked r sum (q ∷ qs) h =
    if-split (PickedOr r sum (q ∷ qs)) (ltb r (sum + effective_weight q))
      (λ here. record {
        before = [];
        after = qs;
        whole = refl;
        others = refl;
        from = unfold total_weight in omega arith;
        below = unfold total_weight in ground arith;
      })
      (λ later.
        behind-PickedOr r sum q qs (pick r (sum + effective_weight q) qs)
          (pick-IsPicked r (sum + effective_weight q) qs (ground arith)))

-- One queue is taken out of the list.
abbrev IsTaken : List QueuePriority → QueuePriority × List QueuePriority → Type 0
IsTaken qs p =
    (before : List QueuePriority) × (after : List QueuePriority) × (qs ≡ before ++ (p.0 ∷ after))
    × (p.1 ≡ before ++ after)

picked-IsTaken :
    (r sum : ℕ) (q : QueuePriority) (qs : List QueuePriority)
    (o : Option (QueuePriority × List QueuePriority))
    → PickedOr r sum (q ∷ qs) o
    → IsTaken (q ∷ qs) (picked q qs o)
picked-IsTaken r sum q qs none h = ([], qs, refl, refl)
picked-IsTaken r sum q qs (some (x, rest)) h = (h.before, h.after, h.whole, h.others)

abbrev names : List QueuePriority → List Bytes
names = map (λ q. q.name)

taken-perm :
    (qs : List QueuePriority) (p : QueuePriority × List QueuePriority) (ns : List Bytes)
    → IsTaken qs p
    → Perm ns (names p.1)
    → Perm (p.0.name ∷ ns) (names qs)
taken-perm qs (x, rest) ns (before, after, whole, others) h =
    rw (whole, map-append (λ q. q.name) before (x ∷ after))
      (Perm.trans
        (Perm.cons x.name (
          subst (λ (l : List Bytes). Perm ns l)
            (ap names others ∙ map-append (λ q. q.name) before after) h))
        (Perm.symm (perm_middle (names before) (names after))))

taken-length :
    (qs : List QueuePriority) (p : QueuePriority × List QueuePriority)
    → IsTaken qs p
    → length qs ≡ suc (length p.1)
taken-length qs (x, rest) (before, after, whole, others) = omega (
  arith,
  ap length whole,
  ap length others,
  length-append before (x ∷ after),
  length-append before after,
)

shuffle-perm :
    (random : Random) (draw fuel : ℕ) (qs : List QueuePriority)
    → length qs ≤ fuel
    → Perm (shuffle random draw fuel qs) (names qs)
unfolding shuffle
shuffle-perm random draw zero [] h = Perm.refl []
shuffle-perm random draw zero (q ∷ qs) h = absurd (omega arith)
shuffle-perm random draw (suc fuel) [] h = Perm.refl []
shuffle-perm random draw (suc fuel) (q ∷ qs) h =
    taken-perm (q ∷ qs) taken (shuffle random (suc draw) fuel taken.1) is_taken (
      shuffle-perm random (suc draw) fuel taken.1
        (omega (arith, taken-length (q ∷ qs) taken is_taken)))
  where
    r : ℕ
    r = random draw (total_weight (q ∷ qs))

    taken : QueuePriority × List QueuePriority
    taken = picked q qs (pick r 0 (q ∷ qs))

    is_taken : IsTaken (q ∷ qs) taken
    is_taken =
        picked-IsTaken r 0 q qs (pick r 0 (q ∷ qs)) (pick-IsPicked r 0 (q ∷ qs) (omega arith))

-- Under both strategies, and whatever numbers `rand.Intn` draws, a round polls each queue once: the
-- names are those of the queues in some order.
pub queue_order-perm :
    (sort : Sort) (random : Random) (draw : ℕ) (strategy : Bytes) (qs : List QueuePriority)
    → Perm (sort qs) qs
    → Perm (queue_order sort random draw strategy qs) (names qs)
unfolding queue_order sort_queues shuffle_queues
queue_order-perm sort random draw strategy qs sorts =
    if-both (λ (ns : List Bytes). Perm ns (names qs)) (strategy =b codes "strict")
      (Perm.map (λ q. q.name) sorts) (shuffle-perm random draw (length qs) qs (omega arith))
