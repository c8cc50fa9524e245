-- ===== src/Worker/Fetch/Polling.antt =====
-- A priority worker takes a message of a queue only when the queues before it have none.
use taskmq.Prelude.{
  ℕ, suc, ◌≡◌, refl, ◌∙◌, ap, Bytes, Bool, true, false, ◌&&◌, ◌⊎◌, inl, inr, List, [], ◌∷◌, ◌++◌,
  if-split, Option, none, some, All, Option-cases,
}
use taskmq.Keys.{stream}
use taskmq.Redis.{Db, Stream, Entry, set_stream}
use taskmq.Redis.Laws.{Laws}
use taskmq.Redis.Reference.{read_next}
use taskmq.World.{Env, World, call, delivered}
use taskmq.Worker.Fetch.{Polled, fetched, nothing, poll, read_group, not_all_paused, read_into}

module _ (group : Bytes) (paused : Bytes → Bool) where
  -- Paused, or without an entry that the group has not been delivered
  abbrev pub IsIdle : Db → Bytes → Type 0
  IsIdle db q = (paused q ≡ true) ⊎ (read_next group (db.streams (stream q)) ≡ none)

  unfoldable pub all_paused : List Bytes → Bool
  all_paused [] = true
  all_paused (q ∷ qs) = paused q && all_paused qs

  -- The queue of the message is not paused and those before it are idle; only its stream changes, by
  -- the delivery of its next entry. Without a message all are idle and nothing changes.
  abbrev pub IsDominated : List Bytes → Db → Polled × World → Type 0
  IsDominated names db (fetched q e, w) =
      (before : List Bytes) × (after : List Bytes) × (s : Stream) × (names ≡ before ++ (q ∷ after))
      × All (IsIdle db) before
      × (paused q ≡ false)
      × (read_next group (db.streams (stream q)) ≡ some (s, e))
      × (w.db ≡ set_stream (stream q) s db)
  IsDominated names db (nothing all, w) =
      All (IsIdle db) names × (w.db ≡ db) × (all ≡ all_paused names)

module _ (env : Env) (laws : Laws env.commands) (reliable : (n : ℕ) → env.net n ≡ delivered)
    (group : Bytes) (paused : Bytes → Bool) where
  call-read_group :
      (q : Bytes) (w : World) (o : Option (Stream × Entry))
      → read_next group (w.db.streams (stream q)) ≡ o
      → call env (read_group env.commands group q) w ≡ (
        inr (read_into env.commands group q w.db o).1,
        record w { db = (read_into env.commands group q w.db o).0; calls = suc w.calls },
      )
  unfolding call
  call-read_group q w o next =
      rw (reliable w.calls, laws.xreadgroup_reads group (w.db.streams (stream q)) ∙ next) refl

  behind_paused :
      (q : Bytes) (qs : List Bytes) (db : Db) (r : Polled × World)
      → paused q ≡ true
      → IsDominated group paused qs db r
      → IsDominated group paused (q ∷ qs) db r
  unfolding all_paused
  behind_paused q qs db (fetched p e, w) is (before, after, s, split, idle, is_on, next, same) = (
    q ∷ before,
    after,
    s,
    ap (λ (r : List Bytes). q ∷ r) split,
    (inl is, idle),
    is_on,
    next,
    same,
  )
  behind_paused q qs db (nothing all, w) is (idle, same, flag) = ((inl is, idle), same, rw is flag)

  behind_empty :
      (q : Bytes) (qs : List Bytes) (db : Db) (r : Polled × World)
      → paused q ≡ false
      → read_next group (db.streams (stream q)) ≡ none
      → IsDominated group paused qs db r
      → IsDominated group paused (q ∷ qs) db (not_all_paused r)
  unfolding all_paused
  behind_empty q qs db (fetched p e, w) not empty
        (before, after, s, split, idle, is_on, next, same) =
      (
        q ∷ before,
        after,
        s,
        ap (λ (r : List Bytes). q ∷ r) split,
        (inr empty, idle),
        is_on,
        next,
        same,
      )
  behind_empty q qs db (nothing all, w) not empty (idle, same, flag) =
      ((inr empty, idle), same, rw not refl)

  -- Over a reliable network, whatever queues are paused, a round of polls that fetches a message has
  -- found every queue before it, in the order of the round, paused or without a new entry, and delivers
  -- the next entry of a queue that is not paused, and nothing else; a round that fetches none has found
  -- all idle, changes nothing, and says whether all are paused.
  pub poll-IsDominated :
      (names : List Bytes) (w : World)
      → IsDominated group paused names w.db (poll env group paused names w)
  unfolding poll all_paused
  poll-IsDominated [] w = (tt, refl, refl)
  poll-IsDominated (q ∷ qs) w =
      if-split (IsDominated group paused (q ∷ qs) w.db) (paused q)
        (λ is. behind_paused q qs w.db (poll env group paused qs w) is (poll-IsDominated qs w))
        (λ not. elim (Option-cases (read_next group (w.db.streams (stream q)))) [
          | inl empty ↦
              rw (call-read_group q w none empty, call-read_group q w none empty)
                (behind_empty q qs w.db
                  (poll env group paused qs (record w { calls = suc w.calls })) not empty
                  (poll-IsDominated qs (record w { calls = suc w.calls })))
          | inr ((s, e), next) ↦
              rw (call-read_group q w (some (s, e)) next, call-read_group q w (some (s, e)) next)
                ([], qs, s, refl, tt, not, next, refl)
        ])
