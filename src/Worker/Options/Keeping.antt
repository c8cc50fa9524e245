-- ===== src/Worker/Options/Keeping.antt =====
-- Options that set one part of a configuration and keep the others.
use taskmq.Prelude.{
  ◌≡◌, refl, ◌∙◌, ap, Bool, true, List, [], ◌∷◌, ◌++◌, if-split, Option, some, All,
}
use taskmq.Worker.Options.{apply_all, applied, chosen}

-- An option that succeeds and keeps a part of the configuration.
abbrev pub Keeps {ℓ κ} : {A : Type ℓ} {B : Type κ} → (A → B) → (A → Option A) → Type (ℓ ⊔ κ)
Keeps {A = A} part f = (a : A) → (b : A) × (f a ≡ some b) × (part b ≡ part a)

apply_all-append {ℓ} :
    {A : Type ℓ} (fs gs : List (A → Option A)) (o : Option A)
    → apply_all (fs ++ gs) o ≡ apply_all gs (apply_all fs o)
unfolding apply_all
apply_all-append [] gs o = refl
apply_all-append (f ∷ fs) gs o = apply_all-append fs gs (applied f o)

module _ {ℓ κ} {A : Type ℓ} {B : Type κ} (part : A → B) where
  pub apply_all-Keeps :
      (fs : List (A → Option A)) → All (Keeps part) fs → Keeps part (λ a. apply_all fs (some a))
  unfolding apply_all
  apply_all-Keeps [] keep a = (a, refl, refl)
  apply_all-Keeps (f ∷ fs) keep a =
      let (b, e, same) = keep.0 a in
      let (c, e', same') = apply_all-Keeps fs keep.1 b in
      (c, ap (apply_all fs) e ∙ e', same' ∙ same)

  -- One option sets the part, and those before and behind it keep it.
  pub apply_all-sets :
      (fs : List (A → Option A)) (f : A → Option A) (rest : List (A → Option A)) (v : B)
      → All (Keeps part) fs
      → ((a : A) → (b : A) × (f a ≡ some b) × (part b ≡ v))
      → All (Keeps part) rest
      → (a : A) → (b : A) × (apply_all (fs ++ (f ∷ rest)) (some a) ≡ some b) × (part b ≡ v)
  unfolding apply_all
  apply_all-sets fs f rest v keep sets keep' a =
      let (b, e, _) = apply_all-Keeps fs keep a in
      let (c, e', set) = sets b in
      let (d, e'', same) = apply_all-Keeps rest keep' c in
      (
        d,
        apply_all-append fs (f ∷ rest) (some a)
            ∙ ap (apply_all (f ∷ rest)) e
            ∙ ap (apply_all rest) e'
            ∙ e'',
        same ∙ set,
      )

-- Options that keep the part where they are chosen
pub chosen-Keeps {ℓ κ} :
    {A : Type ℓ} {B : Type κ} (part : A → B) (choices : List (Bool × (A → Option A)))
    → All (λ c. c.0 ≡ true → Keeps part c.1) choices
    → All (Keeps part) (chosen choices)
unfolding chosen
chosen-Keeps part [] keep = tt
chosen-Keeps part ((b, f) ∷ choices) keep =
    if-split (λ fs. All (Keeps part) fs) b (λ on. (keep.0 on, chosen-Keeps part choices keep.1))
      (λ off. chosen-Keeps part choices keep.1)
