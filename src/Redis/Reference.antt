-- ===== src/Redis/Reference.antt =====
-- What the documentation of the Redis commands says, on lists: ranks, members, ids.
use taskmq.Prelude.{
  ℕ, suc, ◌-◌, Bytes, Bool, true, false, ltb, Option, none, some, ◌&&◌, ◌||◌, List, [], ◌∷◌, ◌++◌,
  map, ◌==◌, ◌=b◌, length, take, drop, if◌then◌else◌, max,
}
use taskmq.Prelude.Int.{ℤ, pos, negsuc, leb_ℤ}
use taskmq.Redis.{Entry, ZSet, Stream}

-- The first position of a range of ranks, and the one behind the last; negative ranks count from
-- the end of n members.
abbrev pub from_rank : ℕ → ℤ → ℕ
from_rank n (pos k) = k
from_rank n (negsuc k) = n - suc k

abbrev pub upto_rank : ℕ → ℤ → ℕ
upto_rank n (pos k) = suc k
upto_rank n (negsuc k) = n - k

unfoldable pub in_ranks : ℤ → ℤ → ZSet → ZSet
in_ranks start stop z = drop (from_rank (length z) start) (take (upto_rank (length z) stop) z)

unfoldable pub out_of_ranks : ℤ → ℤ → ZSet → ZSet
out_of_ranks start stop z =
    let from = from_rank (length z) start in
    take from z ++ drop (max from (upto_rank (length z) stop)) z

-- Every member but one.
unfoldable pub without : Bytes → ZSet → ZSet
without m [] = []
without m (x ∷ z) = let rest = without m z in if x.member =b m then rest else x ∷ rest

unfoldable pub has : Bytes → ZSet → Bool
has m [] = false
has m (x ∷ z) = (x.member =b m) || has m z

unfoldable pub in_scores : ℤ → ℤ → ZSet → ZSet
in_scores lo hi [] = []
in_scores lo hi (x ∷ z) =
    let rest = in_scores lo hi z in if leb_ℤ lo x.score && leb_ℤ x.score hi then x ∷ rest else rest

unfoldable pub upto_score : ℤ → ZSet → ZSet
upto_score hi [] = []
upto_score hi (x ∷ z) = let rest = upto_score hi z in if leb_ℤ x.score hi then x ∷ rest else rest

abbrev pub members : ZSet → List Bytes
members = map (λ x. x.member)

-- The entries of a stream but one, and its payloads.
unfoldable pub delete : ℕ → List Entry → List Entry
delete i [] = []
delete i (e ∷ es) = let rest = delete i es in if e.id == i then rest else e ∷ rest

unfoldable pub has_id : ℕ → List Entry → Bool
has_id i [] = false
has_id i (e ∷ es) = (e.id == i) || has_id i es

-- The first entry behind an id.
unfoldable pub next_entry : ℕ → List Entry → Option Entry
next_entry n [] = none
next_entry n (e ∷ es) = let rest = next_entry n es in if ltb n e.id then some e else rest

-- An entry is delivered to a group: it is pending, and the group has read up to it.
abbrev pub deliver_entry : Bytes → Entry → Stream → Stream
deliver_entry g e s = record s {
  pending = λ h i. if (g =b h) && (i == e.id) then true else s.pending h i;
  last_delivered = λ h. if g =b h then e.id else s.last_delivered h;
}

abbrev pub delivering : Bytes → Stream → Option Entry → Option (Stream × Entry)
delivering g s none = none
delivering g s (some e) = some (deliver_entry g e s, e)

unfoldable pub read_next : Bytes → Stream → Option (Stream × Entry)
read_next g s = delivering g s (next_entry (s.last_delivered g) s.entries)

abbrev pub payloads : List Entry → List Bytes
payloads = map (λ e. e.task)
