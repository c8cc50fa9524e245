-- ===== src/World/Run.antt =====
-- What a call of a script can do to the server.
use taskmq.Prelude.{◌≡◌, ◌⊎◌, arith}
use taskmq.Redis.{Db}
use taskmq.Lifecycle.Scripts.{Reply}
use taskmq.World.{Env, World, failed, run, redis_error, call, carry, delivered, refused, lost}

-- The script ran, or nothing changed on the server and the call failed.
pub run-db :
    (env : Env) (script : Db → Db × Reply) (w : World)
    → ((run env script w).1.db ≡ (script w.db).0)
      ⊎ ((run env script w).1.db ≡ w.db) × ((run env script w).0 ≡ failed redis_error)
unfolding run
run-db env script w = ground arith

-- A call with any other result does what its script does, or nothing.
pub call-keeps :
    {A : Type 0} (P : Db → Type 0) (env : Env) (script : Db → Db × A) (w : World)
    → P w.db
    → P (script w.db).0
    → P (call env script w).1.db
unfolding call
call-keeps P env script w h h' = elim (env.net w.calls) as (λ f. P (carry f script w).1.db) [
  | delivered ↦ h'
  | refused ↦ h
  | lost ↦ h'
]
