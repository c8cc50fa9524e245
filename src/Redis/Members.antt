-- ===== src/Redis/Members.antt =====
-- Facts on the members of a sorted set and on the ids of a stream, from the documented behaviour.
use taskmq.Prelude.{
  suc, ◌+◌, ◌≡◌, ◌≤◌, refl, ap, Bytes, false, ◌||◌, [], ◌∷◌, ◌++◌, ◌=b◌, =b_iff, length,
  if◌then◌else◌, length-append, arith,
}
use taskmq.Prelude.Int.{ℤ}
use taskmq.Redis.{Member, ZSet}
use taskmq.Redis.Reference.{without, has}
use taskmq.Redis.Laws.{Inserted}

-- No member stands twice.
abbrev pub IsDistinct : ZSet → Type 0
IsDistinct [] = Unit
IsDistinct (x ∷ z) = (has x.member z ≡ false) × IsDistinct z

pub has-append : (m : Bytes) (y z : ZSet) → has m (y ++ z) ≡ has m y || has m z
unfolding has
has-append m [] z = refl
has-append m (x ∷ y) z = ground (arith, has-append m y z)

pub has-without :
    (m j : Bytes) (z : ZSet) → has j (without m z) ≡ (if m =b j then false else has j z)
unfolding has without
has-without m j [] = ground arith
has-without m j (x ∷ z) =
    ground (arith, has-without m j z, =b_iff x.member m, =b_iff x.member j, =b_iff m j)

pub length-without-le : (m : Bytes) (z : ZSet) → length (without m z) ≤ length z
unfolding without
length-without-le m [] = omega arith
length-without-le m (x ∷ z) = ground (arith, length-without-le m z)

pub without_absent : (m : Bytes) (z : ZSet) → has m z ≡ false → without m z ≡ z
unfolding has without
without_absent m [] h = refl
without_absent m (x ∷ z) h = ground (arith, without_absent m z)

pub length-without :
    (m : Bytes) (z : ZSet)
    → IsDistinct z
    → length (without m z) + (if has m z then 1 else 0) ≡ length z
unfolding has without
length-without m [] d = refl
length-without m (x ∷ z) d =
    ground (arith, length-without m z d.1, =b_iff x.member m, without_absent m z)

pub IsDistinct-without : (m : Bytes) (z : ZSet) → IsDistinct z → IsDistinct (without m z)
unfolding without
IsDistinct-without m [] d = tt
IsDistinct-without m (x ∷ z) d =
    ground (arith, IsDistinct-without m z d.1, has-without m x.member z)

pub IsDistinct-insert :
    (x : Member) (y z : ZSet)
    → IsDistinct (y ++ z)
    → has x.member (y ++ z) ≡ false
    → IsDistinct (y ++ (x ∷ z))
unfolding has
IsDistinct-insert x [] z d h = (h, d)
IsDistinct-insert x (w ∷ y) z d h = ground (
  arith,
  IsDistinct-insert x y z d.1,
  has-append w.member y z,
  has-append w.member y (x ∷ z),
  =b_iff w.member x.member,
  =b_iff x.member w.member,
)

-- What an insertion does to the members.
module _ {score : ℤ} {m : Bytes} {z z' : ZSet} (ins : Inserted score m z z') where
  pub length-insert : length z' ≡ suc (length (without m z))
  length-insert = omega (
    arith,
    ap length ins.rest,
    ap length ins.result,
    length-append ins.before ins.after,
    length-append ins.before (record { score = score; member = m } ∷ ins.after),
  )

  pub has-insert : (j : Bytes) → has j z' ≡ ((m =b j) || has j z)
  unfolding has
  has-insert j = ground (
    arith,
    ap (has j) ins.rest,
    ap (has j) ins.result,
    has-without m j z,
    has-append j ins.before ins.after,
    has-append j ins.before (record { score = score; member = m } ∷ ins.after),
  )

  pub IsDistinct-inserted : IsDistinct z → IsDistinct z'
  IsDistinct-inserted d = rw ins.result (
      IsDistinct-insert (record { score = score; member = m }) ins.before ins.after
        (rw ins.rest at (IsDistinct-without m z d)) absent)
    where
      absent : has m (ins.before ++ ins.after) ≡ false
      absent = ground (arith, ap (has m) ins.rest, has-without m m z, =b_iff m m)
