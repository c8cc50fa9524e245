-- ===== src/Lifecycle/Replies.antt =====
-- The replies of the admission scripts through internal/taskmq/lifecycle: a refused task is an error.
use taskmq.Prelude.{
  zero, suc, ◌≡◌, ◌≢◌, ◌⊎◌, inl, inr, refl, sym, ◌∙◌, Bytes, arith, none, some, if◌then◌else◌,
  if-both, subst,
}
use taskmq.Prelude.Int.{ℤ, pos, negsuc, leb_ℤ}
use taskmq.Keys.{stream}
use taskmq.Redis.{Db}
use taskmq.Lifecycle.Scripts.{
  Reply, number, entry_id, script_error, duplicate_reply, queue_full_reply, delayed_full_reply,
}
use taskmq.Lifecycle.Admission.{
  map_enqueue_script_result, mapped, note_soft_limit_if_needed, soft_limit_seen,
}
use taskmq.World.{
  Env, World, Fault, delivered, refused, lost, deliver, answer, Answer, reply, failed, run,
}
use taskmq.World.Run.{run-db}
use taskmq.Broker.Outcomes.{Outcome}

abbrev pub IsRefusal : Reply → Type 0
IsRefusal r =
    (r ≡ duplicate_reply) ⊎ (r ≡ queue_full_reply) ⊎ (r ≡ delayed_full_reply) ⊎ (r ≡ script_error)

mapped-db : (r : Reply) (w : World) → (mapped (answer r, w)).1.db ≡ w.db
unfolding mapped map_enqueue_script_result
mapped-db (entry_id n) w = refl
mapped-db script_error w = refl
mapped-db (number (pos n)) w = refl
mapped-db (number (negsuc zero)) w = refl
mapped-db (number (negsuc (suc zero))) w = refl
mapped-db (number (negsuc (suc (suc zero)))) w = refl
mapped-db (number (negsuc (suc (suc (suc n))))) w = refl

mapped-refusal : (r : Reply) (w : World) → IsRefusal r → (mapped (answer r, w)).0 ≢ none
unfolding mapped map_enqueue_script_result
mapped-refusal r w (inl e) = rw e (ground arith)
mapped-refusal r w (inr (inl e)) = rw e (ground arith)
mapped-refusal r w (inr (inr (inl e))) = rw e (ground arith)
mapped-refusal r w (inr (inr (inr e))) = rw e (ground arith)

module _ (P : Db → Type 0) where
  deliver-mapped :
      (f : Fault) (script : Db → Db × Reply) (w : World)
      → (IsRefusal (script w.db).1 × ((script w.db).0 ≡ w.db)) ⊎ P (script w.db).0
      → Outcome (mapped (deliver f script w)) w (P (mapped (deliver f script w)).1.db)
  deliver-mapped delivered script w (inl (refuses, same)) =
      inl (mapped-refusal (script w.db).1 _ refuses, mapped-db (script w.db).1 _ ∙ same)
  deliver-mapped delivered script w (inr did) =
      inr (subst P (sym (mapped-db (script w.db).1 _)) did)
  deliver-mapped refused script w h = unfold mapped in inl (ground arith, refl)
  deliver-mapped lost script w (inl (refuses, same)) = unfold mapped in inl (ground arith, same)
  deliver-mapped lost script w (inr did) = unfold mapped in inr did

  -- A script that refuses with nothing done, or does P, gives an error with nothing done, or P.
  pub mapped-Outcome :
      (env : Env) (script : Db → Db × Reply) (w : World)
      → (IsRefusal (script w.db).1 × ((script w.db).0 ≡ w.db)) ⊎ P (script w.db).0
      → Outcome (mapped (run env script w)) w (P (mapped (run env script w)).1.db)
  unfolding run
  mapped-Outcome env script w h = deliver-mapped (env.net w.calls) script w h

soft_limit_seen-db :
    (env : Env) (soft : ℤ) (a : Answer × World) → (soft_limit_seen env soft a).db ≡ a.1.db
soft_limit_seen-db env soft (failed e, w) = refl
soft_limit_seen-db env soft (reply (number n), w) =
    if-both (λ (w' : World). w'.db ≡ w.db) (leb_ℤ soft n) refl refl
soft_limit_seen-db env soft (reply (entry_id n), w) = refl
soft_limit_seen-db env soft (reply script_error, w) = refl

-- Looking at the length changes nothing on the server.
pub note_soft_limit-db :
    (env : Env) (queue : Bytes) (w : World) → (note_soft_limit_if_needed env queue w).db ≡ w.db
unfolding note_soft_limit_if_needed
note_soft_limit-db env queue w =
    elim w.lifecycle
      as (λ l.
        (elim l as (λ l. World) [
          | none ↦ w
          | some l ↦
              (if leb_ℤ l.cfg.enqueue_soft_limit (pos 0)
                then w
                else soft_limit_seen env l.cfg.enqueue_soft_limit (run env look w))
        ]).db
        ≡ w.db) [
          | none ↦ refl
          | some l ↦
              if-both (λ (w' : World). w'.db ≡ w.db) (leb_ℤ l.cfg.enqueue_soft_limit (pos 0)) refl
                (soft_limit_seen-db env l.cfg.enqueue_soft_limit (run env look w) ∙ looked)
        ]
  where
    look : Db → Db × Reply
    look db = (db, number (pos (env.commands.xlen (db.streams (stream queue)))))

    looked : (run env look w).1.db ≡ w.db
    looked = elim (run-db env look w) [ inl ran ↦ ran | inr (kept, _) ↦ kept ]
