-- ===== src/Redis/Ages.antt =====
-- The members of a sorted set up to a score, as the janitor lists what is too old.
use taskmq.Prelude.{
  ℕ, ◌≡◌, ◌≤◌, refl, ap, ◌∙◌, Bytes, true, ◌||◌, List, [], ◌∷◌, ◌++◌, length, take, arith, take_all,
}
use taskmq.Prelude.Int.{ℤ}
use taskmq.Redis.{ZSet}
use taskmq.Redis.Reference.{has, without, upto_score, members}
use taskmq.Redis.Members.{IsDistinct}
use taskmq.Redis.Ranks.{among, among-members}
use taskmq.Redis.Scores.{without_each, has-without_each, nil_of_absent}

upto_score-without :
    (hi : ℤ) (m : Bytes) (z : ZSet) → upto_score hi (without m z) ≡ without m (upto_score hi z)
unfolding upto_score without
upto_score-without hi m [] = refl
upto_score-without hi m (x ∷ z) = ground (arith, upto_score-without hi m z)

pub upto_score-without_each :
    (hi : ℤ) (ms : List Bytes) (z : ZSet)
    → upto_score hi (without_each ms z) ≡ without_each ms (upto_score hi z)
unfolding without_each
upto_score-without_each hi [] z = refl
upto_score-without_each hi (m ∷ ms) z =
    upto_score-without_each hi ms (without m z) ∙ ap (without_each ms) (upto_score-without hi m z)

pub has-of-has-upto_score :
    (hi : ℤ) (j : Bytes) (z : ZSet) → has j (upto_score hi z) ≡ true → has j z ≡ true
unfolding upto_score has
has-of-has-upto_score hi j [] h = h
has-of-has-upto_score hi j (x ∷ z) h = ground (arith, has-of-has-upto_score hi j z)

pub IsDistinct-upto_score : (hi : ℤ) (z : ZSet) → IsDistinct z → IsDistinct (upto_score hi z)
unfolding upto_score
IsDistinct-upto_score hi [] d = tt
IsDistinct-upto_score hi (x ∷ z) d =
    ground (arith, IsDistinct-upto_score hi z d.1, has-of-has-upto_score hi x.member z)

pub without_each-append :
    (ms ns : List Bytes) (z : ZSet)
    → without_each (ms ++ ns) z ≡ without_each ns (without_each ms z)
unfolding without_each
without_each-append [] ns z = refl
without_each-append (m ∷ ms) ns z = without_each-append ms ns (without m z)

pub among-append : (j : Bytes) (ms ns : List Bytes) → among j (ms ++ ns) ≡ among j ms || among j ns
unfolding among
among-append j [] ns = refl
among-append j (m ∷ ms) ns = ground (arith, among-append j ms ns)

-- Without all up to a score, none is left up to it.
pub upto_score_gone :
    (n : ℕ) (hi : ℤ) (z : ZSet)
    → length (upto_score hi z) ≤ n
    → upto_score hi (without_each (members (take n (upto_score hi z))) z) ≡ []
upto_score_gone n hi z all =
    ap (λ y. upto_score hi (without_each (members y) z)) (take_all n old all)
    ∙ upto_score-without_each hi (members old) z
    ∙ nil_of_absent (without_each (members old) old)
        (λ j. ground (arith, has-without_each (members old) old j, among-members j old))
  where
    old : ZSet
    old = upto_score hi z
