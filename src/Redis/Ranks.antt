-- ===== src/Redis/Ranks.antt =====
-- Cutting a sorted set by ranks, as the scripts do to keep the newest members.
use taskmq.Prelude.{
  ℕ, zero, suc, ◌-◌, ◌≡◌, ◌≤◌, refl, ap, Bytes, Bool, false, ◌&&◌, ◌||◌, not, List, [], ◌∷◌, =b_iff,
  ◌=b◌, length, take, drop, arith, length-drop,
}
use taskmq.Prelude.Int.{pos, negsuc}
use taskmq.Redis.{ZSet}
use taskmq.Redis.Reference.{has, in_ranks, out_of_ranks, members}
use taskmq.Redis.Members.{IsDistinct}

-- A name among some.
unfoldable pub among : Bytes → List Bytes → Bool
among m [] = false
among m (x ∷ xs) = (x =b m) || among m xs

pub among-members : (m : Bytes) (z : ZSet) → among m (members z) ≡ has m z
unfolding among has
among-members m [] = refl
among-members m (x ∷ z) = ground (arith, among-members m z)

has-drop :
    (k : ℕ) (m : Bytes) (z : ZSet)
    → IsDistinct z
    → has m (drop k z) ≡ has m z && not (has m (take k z))
unfolding has
has-drop zero m z d = ground arith
has-drop (suc k) m [] d = refl
has-drop (suc k) m (x ∷ z) d = ground (arith, has-drop k m z d.1, =b_iff x.member m)

IsDistinct-drop : (k : ℕ) (z : ZSet) → IsDistinct z → IsDistinct (drop k z)
IsDistinct-drop zero z d = d
IsDistinct-drop (suc k) [] d = tt
IsDistinct-drop (suc k) (x ∷ z) d = IsDistinct-drop k z d.1

module _ (limit : ℕ) (z : ZSet) where
  -- Ranks from 0 to -(limit + 1) are all but the last `limit`.
  pub in_ranks_oldest : in_ranks (pos 0) (negsuc limit) z ≡ take (length z - limit) z
  unfolding in_ranks
  in_ranks_oldest = refl

  pub out_of_ranks_oldest : out_of_ranks (pos 0) (negsuc limit) z ≡ drop (length z - limit) z
  unfolding out_of_ranks
  out_of_ranks_oldest = ap (λ (k : ℕ). drop k z) (omega arith)

  pub length-out_of_ranks_oldest : length (out_of_ranks (pos 0) (negsuc limit) z) ≤ limit
  length-out_of_ranks_oldest =
      omega (arith, ap length out_of_ranks_oldest, length-drop (length z - limit) z)

  pub has-out_of_ranks_oldest :
      (m : Bytes)
      → IsDistinct z
      → has m (out_of_ranks (pos 0) (negsuc limit) z)
        ≡ has m z && not (among m (members (in_ranks (pos 0) (negsuc limit) z)))
  has-out_of_ranks_oldest m d = ground (
    arith,
    ap (has m) out_of_ranks_oldest,
    ap (λ y. among m (members y)) in_ranks_oldest,
    among-members m (take (length z - limit) z),
    has-drop (length z - limit) m z d,
  )

  pub IsDistinct-out_of_ranks_oldest :
      IsDistinct z → IsDistinct (out_of_ranks (pos 0) (negsuc limit) z)
  IsDistinct-out_of_ranks_oldest d = rw out_of_ranks_oldest (IsDistinct-drop (length z - limit) z d)
