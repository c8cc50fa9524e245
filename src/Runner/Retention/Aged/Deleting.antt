-- ===== src/Runner/Retention/Aged/Deleting.antt =====
-- What the pipeline of `purgeDLQByAge` in internal/taskmq/runner/retention_janitor.go removes.
use taskmq.Prelude.{
  ◌≡◌, refl, sym, ap, ◌∙◌, Bytes, true, List, [], ◌∷◌, ◌++◌, =b_refl, if◌then◌else◌, Option, none,
  some, arith,
}
use taskmq.Errors.{Error}
use taskmq.Keys.{dlq, dlq_index}
use taskmq.Redis.{Db}
use taskmq.Redis.Laws.{Laws}
use taskmq.Redis.Ranks.{among}
use taskmq.Redis.Scores.{without_each}
use taskmq.Redis.Ages.{without_each-append, among-append}
use taskmq.World.{World, delivered, refused, lost, carry, call}
use taskmq.Meta.{err}
use taskmq.Runner.Retention.{RetentionJanitor}
use taskmq.Runner.Retention.Aged.{earlier, remove_letter, remove_entry, delete_each}

-- The dead letters without some, the index without some of its entries, and the rest as it was
pub record IsDeleted (queue : Bytes) (gone unindexed : List Bytes) (db db' : Db) : Type 0 where
  pub letters : db'.zsets (dlq queue) ≡ without_each gone (db.zsets (dlq queue))
  pub index :
      (id : Bytes)
      → db'.hashes (dlq_index queue) id
        ≡ (if among id unindexed then none else db.hashes (dlq_index queue) id)
  pub streams : db'.streams ≡ db.streams
  pub strings : db'.strings ≡ db.strings

pub nothing-IsDeleted : (queue : Bytes) (db : Db) → IsDeleted queue [] [] db db
nothing-IsDeleted queue db = record {
  letters = unfold without_each in refl;
  index = λ id. unfold among in refl;
  streams = refl;
  strings = refl;
}

pub then-IsDeleted :
    (queue : Bytes) {g u g' u' : List Bytes} {db db' db'' : Db}
    → IsDeleted queue g u db db'
    → IsDeleted queue g' u' db' db''
    → IsDeleted queue (g ++ g') (u ++ u') db db''
then-IsDeleted queue {g} {u} {g'} {u'} {db} d d' = record {
  letters = d'.letters ∙ ap (without_each g') d.letters ∙ sym (without_each-append g g' _);
  index = λ id. ground (arith, d'.index id, d.index id, among-append id u u');
  streams = d'.streams ∙ d.streams;
  strings = d'.strings ∙ d.strings;
}

-- What commands on some letters and entries have removed: some of these, and all where none failed.
pub record HasRun (queue : Bytes) (letters entries : List Bytes) (db : Db)
    (r : Option Error × World) : Type 0 where
  pub gone : List Bytes
  pub unindexed : List Bytes
  pub deleted : IsDeleted queue gone unindexed db r.1.db
  pub some_letters : (id : Bytes) → among id gone ≡ true → among id letters ≡ true
  pub some_entries : (id : Bytes) → among id unindexed ≡ true → among id entries ≡ true
  pub complete : r.0 ≡ none → (gone ≡ letters) × (unindexed ≡ entries)

earlier-none : (e e' : Option Error) → earlier e e' ≡ none → (e ≡ none) × (e' ≡ none)
earlier-none none e' h = (refl, h)
earlier-none (some e) e' h = absurd cc

then-HasRun :
    (queue : Bytes) {l e l' e' : List Bytes} {db : Db} (r s : Option Error × World)
    → HasRun queue l e db r
    → HasRun queue l' e' r.1.db s
    → HasRun queue (l ++ l') (e ++ e') db (earlier r.0 s.0, s.1)
then-HasRun queue {l} {e} {l'} {e'} r s h k = record {
  gone = h.gone ++ k.gone;
  unindexed = h.unindexed ++ k.unindexed;
  deleted = then-IsDeleted queue h.deleted k.deleted;
  some_letters = λ id m. ground (
    arith,
    among-append id h.gone k.gone,
    among-append id l l',
    h.some_letters id,
    k.some_letters id,
  );
  some_entries = λ id m. ground (
    arith,
    among-append id h.unindexed k.unindexed,
    among-append id e e',
    h.some_entries id,
    k.some_entries id,
  );
  complete = λ none_failed.
      let (first, second) = earlier-none r.0 s.0 none_failed in
      let (a, b) = h.complete first in let (a', b') = k.complete second in (cc, cc);
}

module _ (j : RetentionJanitor) (laws : Laws j.env.commands) where
  none_run : (l e : List Bytes) (w : World) (x : Error) → HasRun j.queue l e w.db (some x, w)
  none_run l e w x = record {
    gone = [];
    unindexed = [];
    deleted = nothing-IsDeleted j.queue w.db;
    some_letters = λ id h. absurd (unfold among in cc);
    some_entries = λ id h. absurd (unfold among in cc);
    complete = λ h. absurd cc;
  }

  all_run :
      (l e : List Bytes) (db : Db) (r : Option Error × World)
      → IsDeleted j.queue l e db r.1.db
      → HasRun j.queue l e db r
  all_run l e db r d = record {
    gone = l;
    unindexed = e;
    deleted = d;
    some_letters = λ id h. h;
    some_entries = λ id h. h;
    complete = λ h. (refl, refl);
  }

  call-HasRun :
      (l e : List Bytes) (script : Db → Db × Unit {0}) (w : World)
      → IsDeleted j.queue l e w.db (script w.db).0
      → HasRun j.queue l e w.db (err (call j.env script w))
  unfolding call
  call-HasRun l e script w d =
      elim (j.env.net w.calls) as (λ f. HasRun j.queue l e w.db (err (carry f script w))) [
        | delivered ↦ all_run l e w.db _ d
        | refused ↦ none_run l e _ _
        | lost ↦ all_run l e w.db _ d
      ]

  letter-IsDeleted :
      (id : Bytes) (db : Db) → IsDeleted j.queue (id ∷ []) [] db (remove_letter j id db).0
  letter-IsDeleted id db = record {
    letters =
        unfold without_each in
        rw (=b_refl (dlq j.queue)) (laws.zrem_removes id (db.zsets (dlq j.queue)));
    index = λ f. unfold among in refl;
    streams = refl;
    strings = refl;
  }

  entry-IsDeleted :
      (id : Bytes) (db : Db) → IsDeleted j.queue [] (id ∷ []) db (remove_entry j id db).0
  entry-IsDeleted id db = record {
    letters = unfold without_each in refl;
    index = λ f.
        unfold among in
        rw (=b_refl (dlq_index j.queue), laws.hdel_deletes id (db.hashes (dlq_index j.queue)) f)
          (ground arith);
    streams = refl;
    strings = refl;
  }

  -- Whatever commands fail
  pub delete_each-HasRun :
      (ids : List Bytes) (w : World) → HasRun j.queue ids ids w.db (delete_each j ids w)
  unfolding delete_each
  delete_each-HasRun [] w = all_run [] [] w.db (none, w) (nothing-IsDeleted j.queue w.db)
  delete_each-HasRun (id ∷ ids) w =
      let r = err (call j.env (remove_letter j id) w) in
      let s = err (call j.env (remove_entry j id) r.1) in
      then-HasRun j.queue r _
        (call-HasRun (id ∷ []) [] (remove_letter j id) w (letter-IsDeleted id w.db))
        (then-HasRun j.queue s _
          (call-HasRun [] (id ∷ []) (remove_entry j id) r.1 (entry-IsDeleted id r.1.db))
          (delete_each-HasRun ids s.1))
