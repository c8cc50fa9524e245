-- ===== src/Redis/Memory/Facts.antt =====
-- How the server in memory answers, operation by operation.
use taskmq.Prelude.{
  ℕ, ◌⊎◌, ◌∙◌, sym, zero, suc, ◌≡◌, ◌≤◌, ◌<◌, refl, ap, Bytes, false, ◌&&◌, List, [], ◌∷◌, ◌++◌,
  ◌=b◌, length, =b_refl, take, inl, inr, Bool-cases, ltb, leb, subst, ltb→lt, if◌then◌else◌,
  if-both, if-split, All, Option, none, some, arith, Bool, true,
}
use taskmq.Prelude.Decimal.{decimal}
use taskmq.Prelude.Decimal.Parse.{parse_int64-decimal}
use taskmq.Prelude.Int.{ℤ, ◌+ℤ◌, negsuc, IsInt64, pos, leb_ℤ}
use taskmq.Redis.{Entry, Stream, Member, ZSet, Hash}
use taskmq.Redis.Reference.{without}
use taskmq.Redis.Laws.{Inserted, AtLeast, GroupCreated}
use taskmq.Redis.Memory.{
  next_id, leading, or_next, lowest, insert, new_group, pending_from, in_range, number_in, stored,
  added, hincrby,
}

All-le : {a b : ℕ} (es : List Entry) → a ≤ b → All (λ e. e.id < a) es → All (λ e. e.id < b) es
All-le [] h all = tt
All-le (e ∷ es) h all = (omega (arith, all.0), All-le es h all.1)

pub next_id-above : (es : List Entry) → All (λ e. e.id < next_id es) es
unfolding next_id
next_id-above [] = tt
next_id-above (e ∷ es) = (omega arith, All-le es (omega arith) (next_id-above es))

pub leading-le : (m : ℕ) (es : List Entry) → leading m es ≤ length es
unfolding leading
leading-le m [] = omega arith
leading-le m (e ∷ es) = ground (arith, leading-le m es)

pub leading-below : (m : ℕ) (es : List Entry) → All (λ e. e.id < m) (take (leading m es) es)
unfolding leading
leading-below m [] = tt
leading-below m (e ∷ es) =
    if-split (λ (k : ℕ). All (λ e. e.id < m) (take k (e ∷ es))) (ltb e.id m)
      (λ below. (ltb→lt e.id m below, leading-below m es)) (λ above. tt)

-- What the least number has: it is no greater than n, and has p.
abbrev IsLeast : (ℕ → Bool) → ℕ → Option ℕ → Type 0
IsLeast p n none = (i : ℕ) → i ≤ n → p i ≡ false
IsLeast p n (some k) = (k ≤ n) × (p k ≡ true) × ((i : ℕ) → i ≤ n → p i ≡ true → k ≤ i)

only_zero : (p : ℕ → Bool) (b : Bool) (i : ℕ) → p 0 ≡ b → i ≤ 0 → p i ≡ b
only_zero p b zero e le = e
only_zero p b (suc i) e le = absurd (omega arith)

up_to_suc : (P : ℕ → Type 0) (n i : ℕ) → i ≤ suc n → ((i : ℕ) → i ≤ n → P i) → P (suc n) → P i
up_to_suc P n i le below last = elim (Bool-cases (leb i n)) [
  | inl within ↦ below i (ground arith)
  | inr at_end ↦ subst P (ground arith) last
]

or_next-IsLeast :
    (p : ℕ → Bool) (n : ℕ) (o : Option ℕ)
    → IsLeast p n o
    → IsLeast p (suc n) (or_next o (p (suc n)) (suc n))
or_next-IsLeast p n (some k) (within, holds, least) = (
  omega arith,
  holds,
  λ i le. up_to_suc (λ i. p i ≡ true → k ≤ i) n i le least (λ _. omega arith),
)
or_next-IsLeast p n none none_below =
    if-split (λ (o : Option ℕ). IsLeast p (suc n) o) (p (suc n))
      (λ here. (
        omega arith,
        here,
        λ i le.
            up_to_suc (λ i. p i ≡ true → suc n ≤ i) n i le
              (λ i le' h. absurd (cc (none_below i le'))) (λ _. omega arith),
      ))
      (λ free i le. up_to_suc (λ i. p i ≡ false) n i le none_below free)

pub lowest-IsLeast : (p : ℕ → Bool) (n : ℕ) → IsLeast p n (lowest p n)
unfolding lowest
lowest-IsLeast p zero =
    if-split (λ (o : Option ℕ). IsLeast p 0 o) (p 0)
      (λ here. (omega arith, here, λ i le h. omega arith))
      (λ free i le. only_zero p false i free le)
lowest-IsLeast p (suc n) = or_next-IsLeast p n (lowest p n) (lowest-IsLeast p n)

pub IsLeast-AtLeast :
    (p : ℕ → Bool) (n i : ℕ) (o : Option ℕ) → IsLeast p n o → i ≤ n → p i ≡ true → AtLeast o i
IsLeast-AtLeast p n i none h le e = cc (h i le)
IsLeast-AtLeast p n i (some k) h le e = h.2 i le e

pub IsLeast-holds :
    (p : ℕ → Bool) (n low : ℕ) (o : Option ℕ) → IsLeast p n o → o ≡ some low → p low ≡ true
IsLeast-holds p n low none h e = cc
IsLeast-holds p n low (some k) h e = subst (λ (k : ℕ). p k ≡ true) (ground arith) h.1

-- z' is z with x at some rank.
abbrev IsInsertion : Member → ZSet → ZSet → Type 0
IsInsertion x z z' =
    (before : ZSet) × (after : ZSet) × (z ≡ before ++ after) × (z' ≡ before ++ (x ∷ after))

pub insert-IsInsertion : (x : Member) (z : ZSet) → IsInsertion x z (insert x z)
unfolding insert
insert-IsInsertion x [] = ([], [], refl, refl)
insert-IsInsertion x (y ∷ z) =
    if-both (IsInsertion x (y ∷ z)) (leb_ℤ y.score x.score) (behind (insert-IsInsertion x z))
      ([], y ∷ z, refl, refl)
  where
    behind : IsInsertion x z (insert x z) → IsInsertion x (y ∷ z) (y ∷ insert x z)
    behind (before, after, old, new) =
        (y ∷ before, after, ap (λ (w : ZSet). y ∷ w) old, ap (λ (w : ZSet). y ∷ w) new)

pub insert-Inserted :
    (score : ℤ) (m : Bytes) (z z' : ZSet)
    → IsInsertion (record { score = score; member = m }) (without m z) z'
    → Inserted score m z z'
insert-Inserted score m z z' (before, after, old, new) = record {
  before = before;
  after = after;
  rest = old;
  result = new;
}

pub new_group-GroupCreated : (g : Bytes) (s : Stream) → GroupCreated g s (new_group g s)
new_group-GroupCreated g s = record {
  entries = refl;
  groups = λ h. refl;
  behind = rw (=b_refl g) (All-lt-le (next_id s.entries) s.entries (next_id-above s.entries));
  last_delivered = λ h other. rw other refl;
  pending = λ h i. refl;
}
  where
    All-lt-le : (n : ℕ) (es : List Entry) → All (λ e. e.id < n) es → All (λ e. e.id ≤ n) es
    All-lt-le n [] all = tt
    All-lt-le n (e ∷ es) all = (omega (arith, all.0), All-lt-le n es all.1)

pub pending_from-pending :
    (g : Bytes) (start : ℕ) (s : Stream) (es : List Entry)
    → All (λ e. s.pending g e.id ≡ true) (pending_from g start s es)
unfolding pending_from
pending_from-pending g start s [] = tt
pending_from-pending g start s (e ∷ es) =
    if-split (λ (r : List Entry). All (λ e. s.pending g e.id ≡ true) r)
      (leb start e.id && s.pending g e.id)
      (λ here. (ground (arith, here), pending_from-pending g start s es))
      (λ _. pending_from-pending g start s es)

pub All-take : (P : Entry → Type 0) (n : ℕ) (es : List Entry) → All P es → All P (take n es)
All-take P zero es all = tt
All-take P (suc n) [] all = tt
All-take P (suc n) (e ∷ es) all = (all.0, All-take P n es all.1)

in_range_fits : (n : ℤ) → IsInt64 n → in_range n ≡ some n
in_range_fits (pos n) fits = ground arith
in_range_fits (negsuc n) fits = ground arith

number_in-decimal :
    (n : ℤ) (o : Option Bytes)
    → IsInt64 n
    → (o ≡ some (decimal n)) ⊎ ((o ≡ none) × (n ≡ pos 0))
    → number_in o ≡ some n
number_in-decimal n o fits (inl there) =
    rw (there, parse_int64-decimal n fits, =b_refl (decimal n)) refl
number_in-decimal n o fits (inr (absent, is_zero)) = rw absent (ap (λ n. some n) (sym is_zero))

pub hincrby-adds :
    (f : Bytes) (n d : ℤ) (h : Hash)
    → IsInt64 n
    → IsInt64 (n +ℤ d)
    → (h f ≡ some (decimal n)) ⊎ ((h f ≡ none) × (n ≡ pos 0))
    → hincrby f d h ≡ some (λ g. if f =b g then some (decimal (n +ℤ d)) else h g)
hincrby-adds f n d h fits sum_fits value =
    ap (λ o. stored f h (added o d)) (number_in-decimal n (h f) fits value)
    ∙ ap (stored f h) (in_range_fits (n +ℤ d) sum_fits)
