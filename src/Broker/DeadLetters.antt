-- ===== src/Broker/DeadLetters.antt =====
-- The dead-letter queue of internal/taskmq/broker/broker.go: a sorted set of task ids by time of
-- death and a hash of the tasks.
use taskmq.Prelude.{
  ℕ, zero, suc, ◌≡◌, ◌≢◌, ◌≤◌, ◌<◌, refl, ap, Bytes, Bool, true, false, ◌&&◌, not, ◌⊎◌, ◌-◌, leb,
  length-drop, List, [], ◌∷◌, ◌=b◌, =b_refl, =b_ne, length, if◌then◌else◌, is_some, arith, none,
  some, drop, take, ◌∙◌, =b_iff, Bool-cases, inl, inr,
}
use taskmq.Prelude.Int.{ℤ, pos, negsuc, ltb_ℤ, ◌<ℤ◌}
use taskmq.Redis.{Db, ZSet, Hash, Commands}
use taskmq.Redis.Reference.{has, members, in_ranks, out_of_ranks}
use taskmq.Redis.Laws.{Laws}
use taskmq.Redis.Members.{IsDistinct, has-insert, IsDistinct-inserted}
use taskmq.Redis.Ranks.{
  among, in_ranks_oldest, out_of_ranks_oldest, has-out_of_ranks_oldest,
  IsDistinct-out_of_ranks_oldest, length-out_of_ranks_oldest,
}
use taskmq.Broker.Scripts.{
  hdel_all, evicted, trim_dlq, release_lock, settle_entry, dead_letter, handle_failure_dlq,
}

-- The ids in the set are the fields of the index, and each stands once.
pub record IsIndexed (z : ZSet) (h : Hash) : Type 0 where
  pub distinct : IsDistinct z
  pub indexed : (id : Bytes) → has id z ≡ is_some (h id)

-- The id is in the set, and unless it is empty the index has its task; or the set is full up to a cap.
abbrev pub IsParked : Bytes → Bytes → ℤ → ZSet → Hash → Type 0
IsParked id serialized cap z h =
    ((has id z ≡ true) × ((id ≡ []) ⊎ (h id ≡ some serialized)))
    ⊎ ((pos 0 <ℤ cap) × (pos (length z) ≡ cap))

module _ (c : Commands) (laws : Laws c) where
  hdel_all_lem :
      (fs : List Bytes) (h : Hash) (g : Bytes)
      → hdel_all c fs h g ≡ (if among g fs then none else h g)
  unfolding hdel_all among
  hdel_all_lem [] h g = refl
  hdel_all_lem (f ∷ fs) h g =
      ground (arith, hdel_all_lem fs (c.hdel f h) g, laws.hdel_deletes f h g)

  -- The set and the index after the insertion of one task.
  insert-IsIndexed :
      (score : ℤ) (id serialized : Bytes) (z : ZSet) (h : Hash)
      → IsIndexed z h
      → IsIndexed (c.zadd score id z) (c.hset id serialized h)
  insert-IsIndexed score id serialized z h ok = record {
    distinct = IsDistinct-inserted (laws.zadd_inserts score id z) ok.distinct;
    indexed = λ j. ground (
      arith,
      has-insert (laws.zadd_inserts score id z) j,
      laws.hset_sets id serialized h j,
      ok.indexed j,
    );
  }

  -- Evicting the oldest keeps set and index in step, and leaves `limit` at most.
  evicted_lem :
      (limit : ℕ) (z : ZSet) → evicted c (pos limit) z ≡ members (in_ranks (pos 0) (negsuc limit) z)
  unfolding evicted
  evicted_lem limit z = ground (arith, laws.zrange_lists (pos 0) (negsuc limit) z)

  trim_dlq_lem :
      (limit : ℕ) (z : ZSet) → trim_dlq c (pos limit) z ≡ out_of_ranks (pos 0) (negsuc limit) z
  unfolding trim_dlq
  trim_dlq_lem limit z = ground (arith, laws.zremrangebyrank_removes (pos 0) (negsuc limit) z)

  evict-IsIndexed :
      (limit : ℕ) (z : ZSet) (h : Hash)
      → IsIndexed z h
      → IsIndexed (trim_dlq c (pos limit) z) (hdel_all c (evicted c (pos limit) z) h)
  evict-IsIndexed limit z h ok =
      simp (trim_dlq_lem limit z, evicted_lem limit z)
        (record {
          distinct = IsDistinct-out_of_ranks_oldest limit z ok.distinct;
          indexed = λ id. ground (
            arith,
            has-out_of_ranks_oldest limit z id ok.distinct,
            hdel_all_lem (members (in_ranks (pos 0) (negsuc limit) z)) h id,
            ok.indexed id,
          );
        })

  pub release_lock-zsets :
      (lock owner : Bytes) (db : Db) (k : Bytes)
      → (release_lock c lock owner db).zsets k ≡ db.zsets k
  unfolding release_lock
  release_lock-zsets lock owner db k = ground arith

  pub release_lock-hashes :
      (lock owner : Bytes) (db : Db) (k : Bytes)
      → (release_lock c lock owner db).hashes k ≡ db.hashes k
  unfolding release_lock
  release_lock-hashes lock owner db k = ground arith

  ltb_ℤ-suc : (n : ℕ) → ltb_ℤ (pos 0) (pos (suc n)) ≡ true
  ltb_ℤ-suc n = ground arith

  -- The set and the index of a move, with the index and the id named.
  dead_letter_keys :
      (target lock dlq_index : Bytes) (score : ℤ) (serialized lock_val task_id : Bytes) (limit : ℕ)
      (db : Db)
      → dlq_index ≢ []
      → task_id ≢ []
      → let r =
          (dead_letter c target lock dlq_index score serialized lock_val task_id
            (pos limit)
            db).0 in
        let z = c.zadd score task_id (db.zsets target) in
        let h = c.hset task_id serialized (db.hashes dlq_index) in
        (limit ≡ 0) × (r.zsets target ≡ z) × (r.hashes dlq_index ≡ h)
        ⊎ (0 < limit)
          × (r.zsets target ≡ trim_dlq c (pos limit) z)
          × (r.hashes dlq_index ≡ hdel_all c (evicted c (pos limit) z) h)
  unfolding dead_letter
  dead_letter_keys target lock dlq_index score serialized lock_val task_id zero db n m = inl (
    refl,
    simp (release_lock-zsets, =b_ne dlq_index [] n, =b_ne task_id [] m, =b_refl),
    unfold hdel_all in
        simp (release_lock-hashes, =b_ne dlq_index [] n, =b_ne task_id [] m, =b_refl),
  )
  dead_letter_keys target lock dlq_index score serialized lock_val task_id (suc limit) db n m =
      inr (
        omega arith,
        simp (
          release_lock-zsets,
          =b_ne dlq_index [] n,
          =b_ne task_id [] m,
          =b_refl,
          ltb_ℤ-suc limit,
        ),
        simp (
          release_lock-hashes,
          =b_ne dlq_index [] n,
          =b_ne task_id [] m,
          =b_refl,
          ltb_ℤ-suc limit,
        ),
      )

  -- The set and the index entry of a letter, cut to the cap.
  cut_set : ℤ → Bool → ZSet → ZSet
  cut_set max_count named z = if ltb_ℤ (pos 0) max_count && named then trim_dlq c max_count z else z

  cut_index : ℤ → Bool → ZSet → Hash → Hash
  cut_index max_count named z h =
      hdel_all c (if ltb_ℤ (pos 0) max_count && named then evicted c max_count z else []) h

  fitting :
      (limit : ℕ) (z : ZSet) (h : Hash)
      → length z ≤ limit
      → (trim_dlq c (pos limit) z ≡ z) × (hdel_all c (evicted c (pos limit) z) h ≡ h)
  unfolding hdel_all
  fitting limit z h fits = (
    trim_dlq_lem limit z ∙ out_of_ranks_oldest limit z ∙ ap (λ (n : ℕ). drop n z) none_over,
    ap (λ fs. hdel_all c fs h)
        (evicted_lem limit z
          ∙ ap members (in_ranks_oldest limit z ∙ ap (λ (n : ℕ). take n z) none_over)),
  )
    where
      none_over : length z - limit ≡ 0
      none_over = omega arith

  not_positive : (n : ℕ) → ltb_ℤ (pos 0) (negsuc n) ≡ false
  not_positive n = ground arith

  cut-IsParked :
      (max_count : ℤ) (named : Bool) (id serialized : Bytes) (z : ZSet) (h : Hash)
      → has id z ≡ true
      → (id ≡ []) ⊎ (h id ≡ some serialized)
      → IsParked id serialized max_count (cut_set max_count named z) (cut_index max_count named z h)
  unfolding cut_set cut_index hdel_all
  cut-IsParked (negsuc n) named id serialized z h there entry =
      rw (not_positive n) (inl (there, entry))
  cut-IsParked (pos zero) named id serialized z h there entry = inl (there, entry)
  cut-IsParked (pos (suc n)) false id serialized z h there entry =
      simp (ltb_ℤ-suc n) (inl (there, entry))
  cut-IsParked (pos (suc n)) true id serialized z h there entry =
      simp (ltb_ℤ-suc n) (elim (Bool-cases (leb (length z) (suc n))) [
        | inl fits ↦
            let same = fitting (suc n) z h (ground (arith, fits)) in
            rw (same.0, same.1) (inl (there, entry))
        | inr over ↦ inr (
          omega arith,
          ap pos (
              ap length (trim_dlq_lem (suc n) z ∙ out_of_ranks_oldest (suc n) z)
              ∙ ground (arith, over, length-drop (length z - suc n) z)),
        )
      ])

  -- The index with the letter's encoding
  indexed_with : Bytes → Bytes → Bytes → Hash → Hash
  indexed_with dlq_index id serialized h =
      if not (dlq_index =b []) && not (id =b []) then c.hset id serialized h else h

  indexed_with_lem :
      (dlq_index id serialized : Bytes) (h : Hash)
      → dlq_index ≢ []
      → (id ≡ []) ⊎ (indexed_with dlq_index id serialized h id ≡ some serialized)
  unfolding indexed_with
  indexed_with_lem dlq_index id serialized h n = elim (Bool-cases (id =b [])) [
    | inl e ↦ inl ((=b_iff id []).0 e)
    | inr e ↦
        inr
          (rw (=b_ne dlq_index [] n, e) (laws.hset_sets id serialized h id ∙ rw (=b_refl id) refl))
  ]

  dead_letter-set :
      (target lock dlq_index : Bytes) (score : ℤ) (serialized lock_val task_id : Bytes)
      (max_count : ℤ) (db : Db)
      → (dead_letter c target lock dlq_index score serialized lock_val task_id max_count db).0.zsets
          target
        ≡ cut_set max_count (not (dlq_index =b [])) (c.zadd score task_id (db.zsets target))
  unfolding dead_letter cut_set
  dead_letter-set target lock dlq_index score serialized lock_val task_id max_count db =
      simp (release_lock-zsets, =b_refl)

  dead_letter-index :
      (target lock dlq_index : Bytes) (score : ℤ) (serialized lock_val task_id : Bytes)
      (max_count : ℤ) (db : Db)
      → (dead_letter c target lock dlq_index score serialized lock_val task_id max_count
            db).0.hashes
          dlq_index
        ≡ cut_index max_count
            (not (dlq_index =b []))
            (c.zadd score task_id (db.zsets target))
            (indexed_with dlq_index task_id serialized (db.hashes dlq_index))
  unfolding dead_letter cut_index indexed_with
  dead_letter-index target lock dlq_index score serialized lock_val task_id max_count db =
      simp (release_lock-hashes, =b_refl)

  -- After a move with a named index the letter is there, or others fill the set up to the cap.
  pub dead_letter-IsParked :
      (target lock dlq_index : Bytes) (score : ℤ) (serialized lock_val task_id : Bytes)
      (max_count : ℤ) (db : Db)
      → dlq_index ≢ []
      → let db' =
          (dead_letter c target lock dlq_index score serialized lock_val task_id max_count db).0 in
        IsParked task_id serialized max_count (db'.zsets target) (db'.hashes dlq_index)
  dead_letter-IsParked target lock dlq_index score serialized lock_val task_id max_count db n =
      rw
        (
          dead_letter-set target lock dlq_index score serialized lock_val task_id max_count db,
          dead_letter-index target lock dlq_index score serialized lock_val task_id max_count db,
        )
        (cut-IsParked max_count (not (dlq_index =b [])) task_id serialized
          (c.zadd score task_id (db.zsets target))
          (indexed_with dlq_index task_id serialized (db.hashes dlq_index)) entered
          (indexed_with_lem dlq_index task_id serialized (db.hashes dlq_index) n))
    where
      entered : has task_id (c.zadd score task_id (db.zsets target)) ≡ true
      entered = ground (
        arith,
        has-insert (laws.zadd_inserts score task_id (db.zsets target)) task_id,
        =b_refl task_id,
      )

  -- Moving a task to the dead letters, with its index and id named: set and index stay in step, a
  -- cap that is not 0 holds afterwards whatever the size before, and the reply is the number evicted.
  pub handle_failure_dlq-IsIndexed :
      (target stream lock dlq_index : Bytes) (msg_id : ℕ) (group : Bytes) (score : ℤ)
      (serialized lock_val task_id : Bytes) (limit : ℕ) (db : Db)
      → dlq_index ≢ []
      → task_id ≢ []
      → IsIndexed (db.zsets target) (db.hashes dlq_index)
      → let r =
          handle_failure_dlq c target stream lock dlq_index msg_id group score serialized lock_val
            task_id
            (pos limit)
            db in
        IsIndexed (r.0.zsets target) (r.0.hashes dlq_index)
        × ((limit ≡ 0) ⊎ (length (r.0.zsets target) ≤ limit))
  unfolding handle_failure_dlq settle_entry
  handle_failure_dlq-IsIndexed target stream lock dlq_index msg_id group score serialized lock_val
        task_id limit db index_named id_named ok =
      elim (dead_letter_keys target lock dlq_index score serialized lock_val task_id limit
        (settle_entry c stream group msg_id db) index_named id_named) [
          | inl (none_kept, same_z, same_h) ↦ simp (same_z, same_h) (fresh, inl none_kept)
          | inr (positive, cut_z, cut_h) ↦
              simp (cut_z, cut_h) (evict-IsIndexed limit _ _ fresh, inr (within))
        ]
    where
      fresh :
          IsIndexed
            (c.zadd score task_id (db.zsets target))
            (c.hset task_id serialized (db.hashes dlq_index))
      fresh = insert-IsIndexed score task_id serialized (db.zsets target) (db.hashes dlq_index) ok

      within : length (trim_dlq c (pos limit) (c.zadd score task_id (db.zsets target))) ≤ limit
      within = simp (trim_dlq_lem limit) (length-out_of_ranks_oldest limit _)
