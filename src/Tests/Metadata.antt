-- ===== src/Tests/Metadata.antt =====
-- Runs of the store of task metadata.
use taskmq.Prelude.{
  ℕ, ◌≡◌, refl, arith, Bytes, codes, false, ◌=b◌, ◌==◌, List, [], ◌∷◌, inl, inr, none, some,
  is_some, if◌then◌else◌, length, ◌⊎◌,
}
use taskmq.Prelude.Int.{pos, negsuc}
use taskmq.Prelude.Decimal.Parse.{parse_int64}
use taskmq.Keys.{completed}
use taskmq.Redis.{Hash}
use taskmq.Redis.Memory.Lawful.{memory-Laws}
use taskmq.Redis.Reference.{has}
use taskmq.Redis.Members.{IsDistinct}
use taskmq.World.{active}
use taskmq.Meta.{state_name, put, created_ms, mark_completed, purge_expired_completed}
use taskmq.Meta.Ops.{MetaOp, put_op, set_progress_op, mark_completed_op, purge_op, meta_ops}
use taskmq.Meta.Info.{get, map_to_info, info_after_put, HasInts, get-put}
use taskmq.Meta.Progress.{AllSound, meta_ops-AllSound}
use taskmq.Meta.Pipelines.{exec_all, pipeline_all, put_all, pipeline_all-put_all}
use taskmq.Meta.Completed.{IsRecorded, mark_completed-IsRecorded}
use taskmq.Meta.Purge.{expired_ids, IsPurged, purge_expired_completed-IsPurged}
use taskmq.Tests.Data.{sample, busy, start, steady, flaky}

-- A reply counts as long as it has the field id.
abbrev one_field : Hash → ℕ
one_field h = if is_some (h (codes "id")) then 1 else 0

one_field_counts : (m : Hash) (v : Bytes) → m (codes "id") ≡ some v → (one_field m == 0) ≡ false
one_field_counts m v h = rw h refl

sample-HasInts : HasInts sample (pos 0)
unfolding created_ms
sample-HasInts = record {
  retry = (omega arith, omega arith);
  max_retry = (omega arith, omega arith);
  timeout_ms = (omega arith, omega arith);
  deadline_ms = (omega arith, omega arith);
  created = (ground arith, ground arith);
  now_ms = (omega arith, omega arith);
}

get-put_example :
    (get one_field steady
      (codes "mail")
      (codes "t1")
      (put steady sample (state_name active) start).1).0
    ≡ inr (some (info_after_put (map_to_info (λ f. none)) sample (state_name active) (pos 0)))
get-put_example =
    get-put one_field one_field_counts steady memory-Laws sample (state_name active) start
      (unfold ◌=b◌ in refl) sample-HasInts refl refl

empty-AllSound : AllSound start.db
unfolding parse_int64
empty-AllSound key = ((omega arith, omega arith), inl refl)

abbrev operations : List MetaOp
operations =
    put_op sample (state_name active)
    ∷ (set_progress_op (codes "mail") (codes "t1") (negsuc 4) (codes "late")
        ∷ (set_progress_op (codes "mail") (codes "t1") (pos 300) []
            ∷ (mark_completed_op sample (codes "ok") (pos 5000) (pos 2)
                ∷ (purge_op (codes "mail") (pos 1) (pos 0) (λ db. db) ∷ []))))

meta_ops-AllSound_example : AllSound (meta_ops flaky operations start).db
meta_ops-AllSound_example =
    meta_ops-AllSound flaky memory-Laws operations start
      ((active, refl), (tt, (tt, (tt, ((λ db sound. sound), tt))))) empty-AllSound

pipeline_all-put_all_example :
    exec_all (pipeline_all steady [] (sample ∷ (sample ∷ [])) (state_name active) start).0 start.db
    ≡ (put_all steady (sample ∷ (sample ∷ [])) (state_name active) start).db
pipeline_all-put_all_example =
    pipeline_all-put_all steady (λ n. refl) (state_name active) (sample ∷ (sample ∷ [])) start

three-IsDistinct : IsDistinct (busy.zsets (completed (codes "mail")))
unfolding has ◌=b◌
three-IsDistinct = (refl, (refl, (refl, tt)))

-- Three completed ids, under a cap of two
mark_completed-IsRecorded_example :
    ((mark_completed steady sample (codes "ok") (pos 5000) (pos 2) start).0 ≡ none)
    × IsRecorded sample
        (pos 5000)
        (pos 2)
        (pos 0)
        start.db
        (mark_completed steady sample (codes "ok") (pos 5000) (pos 2) start).1.db
mark_completed-IsRecorded_example =
    mark_completed-IsRecorded steady memory-Laws sample (codes "ok") (pos 5000) (pos 2) start
      (unfold ◌=b◌ in refl) (omega arith) three-IsDistinct refl

purge_expired_completed-IsPurged_example :
    let ids = expired_ids (codes "mail") (pos 2) (pos 0) start.db in
    let r = purge_expired_completed steady (codes "mail") (pos 2) (pos 0) (λ db. db) start in
    (r.0 ≡ none)
    × (r.1.0 ≡ length ids)
    × ((ids ≡ []) ⊎ IsPurged (codes "mail") ids start.db r.1.1.db)
purge_expired_completed-IsPurged_example =
    purge_expired_completed-IsPurged steady memory-Laws (codes "mail") (pos 2) (pos 0) (λ db. db)
      start refl refl
