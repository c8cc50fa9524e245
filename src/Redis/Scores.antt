-- ===== src/Redis/Scores.antt =====
-- Members of a sorted set by their scores, as the scheduler takes those that are due.
use taskmq.Prelude.{
  ℕ, zero, suc, ◌+◌, ◌≡◌, refl, ap, ◌∙◌, Bytes, true, false, ◌&&◌, not, List, [], ◌∷◌, =b_iff,
  =b_refl, length, take, arith,
}
use taskmq.Prelude.Int.{ℤ}
use taskmq.Redis.{Member, ZSet}
use taskmq.Redis.Reference.{has, without, in_scores, members}
use taskmq.Redis.Members.{IsDistinct, length-without, IsDistinct-without, has-without}
use taskmq.Redis.Ranks.{among, among-members}

pub in_scores-without :
    (lo hi : ℤ) (m : Bytes) (z : ZSet)
    → in_scores lo hi (without m z) ≡ without m (in_scores lo hi z)
unfolding in_scores without
in_scores-without lo hi m [] = refl
in_scores-without lo hi m (x ∷ z) = ground (arith, in_scores-without lo hi m z)

pub has-of-has-in_scores :
    (lo hi : ℤ) (j : Bytes) (z : ZSet) → has j (in_scores lo hi z) ≡ true → has j z ≡ true
unfolding in_scores has
has-of-has-in_scores lo hi j [] h = h
has-of-has-in_scores lo hi j (x ∷ z) h = ground (arith, has-of-has-in_scores lo hi j z)

pub has-of-has-take : (n : ℕ) (j : Bytes) (z : ZSet) → has j (take n z) ≡ true → has j z ≡ true
unfolding has
has-of-has-take zero j z h = absurd (cc)
has-of-has-take (suc n) j [] h = h
has-of-has-take (suc n) j (x ∷ z) h = ground (arith, has-of-has-take n j z)

pub IsDistinct-in_scores : (lo hi : ℤ) (z : ZSet) → IsDistinct z → IsDistinct (in_scores lo hi z)
unfolding in_scores
IsDistinct-in_scores lo hi [] d = tt
IsDistinct-in_scores lo hi (x ∷ z) d =
    ground (arith, IsDistinct-in_scores lo hi z d.1, has-of-has-in_scores lo hi x.member z)

pub IsDistinct-take : (n : ℕ) (z : ZSet) → IsDistinct z → IsDistinct (take n z)
IsDistinct-take zero z d = tt
IsDistinct-take (suc n) [] d = tt
IsDistinct-take (suc n) (x ∷ z) d =
    (ground (arith, has-of-has-take n x.member z), IsDistinct-take n z d.1)

pub length-members : (z : ZSet) → length (members z) ≡ length z
length-members [] = refl
length-members (x ∷ z) = ap (λ (n : ℕ). suc n) (length-members z)

pub take-members : (n : ℕ) (z : ZSet) → take n (members z) ≡ members (take n z)
take-members zero z = refl
take-members (suc n) [] = refl
take-members (suc n) (x ∷ z) = ap (◌∷◌ x.member) (take-members n z)

-- A set in which nothing is found is empty.
pub nil_of_absent : (z : ZSet) → ((j : Bytes) → has j z ≡ false) → z ≡ []
unfolding has
nil_of_absent [] h = refl
nil_of_absent (x ∷ z) h = ground (arith, h x.member, =b_refl x.member)

-- Members that are elsewhere, each once.
abbrev pub Within : ZSet → ZSet → Type 0
Within y z = (j : Bytes) → has j y ≡ true → has j z ≡ true

Within-without :
    (x : Member) (y z : ZSet)
    → has x.member y ≡ false
    → Within (x ∷ y) z
    → Within y (without x.member z)
unfolding has
Within-without x y z d h j there = ground (arith, h j, has-without x.member j z, =b_iff x.member j)

-- Removing each of some members, as `without` removes one.
unfoldable pub without_each : List Bytes → ZSet → ZSet
without_each [] z = z
without_each (m ∷ ms) z = without_each ms (without m z)

pub length-without_each :
    (y z : ZSet)
    → IsDistinct y
    → IsDistinct z
    → Within y z
    → length (without_each (members y) z) + length y ≡ length z
unfolding without_each
length-without_each [] z d e h = omega arith
length-without_each (x ∷ y) z d e h = omega (
  arith,
  length-without_each y (without x.member z) d.1 (IsDistinct-without x.member z e)
      (Within-without x y z d.0 h),
  one_less,
)
  where
    one_less : length (without x.member z) + 1 ≡ length z
    one_less =
        unfold has in ground (arith, length-without x.member z e, h x.member, =b_refl x.member)

pub IsDistinct-without_each :
    (ms : List Bytes) (z : ZSet) → IsDistinct z → IsDistinct (without_each ms z)
unfolding without_each
IsDistinct-without_each [] z d = d
IsDistinct-without_each (m ∷ ms) z d =
    IsDistinct-without_each ms (without m z) (IsDistinct-without m z d)

pub has-without_each :
    (ms : List Bytes) (z : ZSet) (j : Bytes)
    → has j (without_each ms z) ≡ has j z && not (among j ms)
unfolding without_each among
has-without_each [] z j = ground arith
has-without_each (m ∷ ms) z j =
    ground (arith, has-without_each ms (without m z) j, has-without m j z)

pub in_scores-without_each :
    (lo hi : ℤ) (ms : List Bytes) (z : ZSet)
    → in_scores lo hi (without_each ms z) ≡ without_each ms (in_scores lo hi z)
unfolding without_each
in_scores-without_each lo hi [] z = refl
in_scores-without_each lo hi (m ∷ ms) z =
    in_scores-without_each lo hi ms (without m z)
    ∙ ap (without_each ms) (in_scores-without lo hi m z)

-- Without those that are due, none is due.
pub in_scores_gone :
    (lo hi : ℤ) (z : ZSet) → in_scores lo hi (without_each (members (in_scores lo hi z)) z) ≡ []
in_scores_gone lo hi z =
    in_scores-without_each lo hi (members due) z
    ∙ nil_of_absent (without_each (members due) due)
        (λ j. ground (arith, has-without_each (members due) due j, among-members j due))
  where
    due : ZSet
    due = in_scores lo hi z
