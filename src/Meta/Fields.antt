-- ===== src/Meta/Fields.antt =====
-- What a field of a hash holds after `HSET` of several.
use taskmq.Prelude.{◌≡◌, refl, ◌∙◌, ap, Bytes, [], ◌∷◌, ◌=b◌, if◌then◌else◌, Option, some}
use taskmq.Redis.{Commands, Hash}
use taskmq.Redis.Laws.{Laws}
use taskmq.Meta.{Fields, hset_all}

-- The last value set, or the old one.
unfoldable pub found : Fields → Bytes → Option Bytes → Option Bytes
found [] g old = old
found ((f, v) ∷ rest) g old = found rest g (if f =b g then some v else old)

pub hset_all-found :
    (c : Commands)
    → Laws c
    → (fs : Fields) (h : Hash) (g : Bytes) → hset_all c fs h g ≡ found fs g (h g)
unfolding hset_all found
hset_all-found c laws [] h g = refl
hset_all-found c laws ((f, v) ∷ rest) h g =
    hset_all-found c laws rest (c.hset f v h) g ∙ ap (found rest g) (laws.hset_sets f v h g)
