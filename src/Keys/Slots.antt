-- ===== src/Keys/Slots.antt =====
-- The cluster slot of the keys of internal/taskmq/keys/keys.go: Redis Cluster hashes what stands
-- between the first `{` of a key and the next `}`, if that is not empty, and else the whole key.
use taskmq.Prelude.{
  ◌≡◌, ◌≢◌, refl, sym, ap, ◌∙◌, Bytes, [], ◌∷◌, ◌++◌, ◌==◌, Option, none, some, if◌then◌else◌,
  arith, All,
}
use taskmq.Keys.Kinds.{Kind, name, rest, name-key, name-injective}

-- The text up to the next `}`, if there is one.
upto_close : Bytes → Option Bytes
upto_close [] = none
upto_close (x ∷ xs) =
    let inner = upto_close xs in
    if x == b'}' then some [] else elim inner [ none ↦ none | some t ↦ some (x ∷ t) ]

after_open : Bytes → Option Bytes
after_open [] = none
after_open (x ∷ xs) = let later = after_open xs in if x == b'{' then upto_close xs else later

-- What a cluster hashes of a key.
pub hash_tag : Bytes → Bytes
hash_tag k = elim (after_open k) [ none ↦ k | some [] ↦ k | some (x ∷ xs) ↦ x ∷ xs ]

-- A queue's name that the key format can carry: not empty, and without a `}`.
pub record IsPlain (q : Bytes) : Type 0 where
  pub nonempty : q ≢ []
  pub no_close : All (λ x. x ≢ b'}') q

upto_close-key : (q xs : Bytes) → All (λ x. x ≢ b'}') q → upto_close (q ++ (b'}' ∷ xs)) ≡ some q
unfolding upto_close
upto_close-key [] xs h = refl
upto_close-key (x ∷ q) xs h = ground (arith, upto_close-key q xs h.1)

-- All keys of a queue stand in one slot, that of the queue's name, so that scripts over several of
-- them may run on a cluster.
pub hash_tag-name : (q : Bytes) (k : Kind) → IsPlain q → hash_tag (name q k) ≡ q
unfolding hash_tag after_open
hash_tag-name [] k h = absurd (h.nonempty refl)
hash_tag-name (x ∷ q) k h =
    rw name-key (rw (upto_close-key (x ∷ q) (b':' ∷ rest k) h.no_close, hash_tag))

-- Keys of any two queues have one name only if the queues and the keys are the same.
pub name-injective_queues :
    (q p : Bytes) (a b : Kind) → IsPlain q → IsPlain p → name q a ≡ name p b → (q ≡ p) × (a ≡ b)
name-injective_queues q p a b hq hp h =
    (same, name-injective q a b (h ∙ ap (λ (r : Bytes). name r b) (sym same)))
  where
    same : q ≡ p
    same = sym (hash_tag-name q a hq) ∙ ap hash_tag h ∙ hash_tag-name p b hp
