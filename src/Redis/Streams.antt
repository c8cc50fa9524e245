-- ===== src/Redis/Streams.antt =====
-- Facts on the entries of a stream, from the documented behaviour.
use taskmq.Prelude.{ℕ, ◌≡◌, refl, false, ◌||◌, List, [], ◌∷◌, ◌++◌, ◌==◌, if◌then◌else◌, arith}
use taskmq.Redis.{Entry}
use taskmq.Redis.Reference.{delete, has_id}

pub has_id-delete :
    (i j : ℕ) (es : List Entry) → has_id j (delete i es) ≡ (if i == j then false else has_id j es)
unfolding has_id delete
has_id-delete i j [] = ground arith
has_id-delete i j (e ∷ es) = ground (arith, has_id-delete i j es)

pub has_id-append : (i : ℕ) (xs ys : List Entry) → has_id i (xs ++ ys) ≡ has_id i xs || has_id i ys
unfolding has_id
has_id-append i [] ys = refl
has_id-append i (x ∷ xs) ys = ground (arith, has_id-append i xs ys)
