-- ===== src/Worker/Fetch/Skipping.antt =====
-- What is in a stream before a group is created at "$" is never delivered to the group.
use taskmq.Prelude.{
  ℕ, suc, ◌≡◌, ◌≤◌, ◌<◌, refl, ap, sym, Bytes, true, false, ◌=b◌, =b_refl, =b_iff, inl, inr, List,
  [], ◌∷◌, if◌then◌else◌, Option, none, some, All, arith, Bool-cases,
}
use taskmq.Prelude.Int.{ℤ}
use taskmq.Keys.{stream}
use taskmq.Redis.{Stream, Entry, Commands}
use taskmq.Redis.Laws.{Laws, Creation}
use taskmq.Redis.Reference.{read_next, next_entry, delivering}
use taskmq.World.{Env, World, call, delivered}
use taskmq.Worker.Fetch.{start_groups, create_group, created}

-- What clients and workers do to a stream
pub data StreamOp : Type 0 where
  append : Bytes → StreamOp
  append_maxlen : ℤ → Bytes → StreamOp
  acknowledge : Bytes → ℕ → StreamOp
  remove : ℕ → StreamOp
  read : Bytes → StreamOp

module _ (c : Commands) (group : Bytes) where
  abbrev read_by : Bytes → Stream → Option (Stream × Entry) → Stream × Option Entry
  read_by h s none = (s, none)
  read_by h s (some (s', e)) = (s', if group =b h then some e else none)

  -- The stream after an operation, and what it has delivered to the group
  abbrev stream_op : StreamOp → Stream → Stream × Option Entry
  stream_op (append p) s = ((c.xadd p s).0, none)
  stream_op (append_maxlen n p) s = ((c.xadd_maxlen n p s).0, none)
  stream_op (acknowledge h i) s = (c.xack h i s, none)
  stream_op (remove i) s = (c.xdel i s, none)
  stream_op (read h) s = read_by h s (c.xreadgroup h s)

  abbrev with_delivered : Option Entry → List Entry → List Entry
  with_delivered none es = es
  with_delivered (some e) es = e ∷ es

  -- All that the group is delivered, in order
  unfoldable pub deliveries : List StreamOp → Stream → List Entry
  deliveries [] s = []
  deliveries (op ∷ ops) s = with_delivered (stream_op op s).1 (deliveries ops (stream_op op s).0)

next_entry-behind : (n : ℕ) (es : List Entry) (e : Entry) → next_entry n es ≡ some e → n < e.id
unfolding next_entry
next_entry-behind n [] e h = absurd (cc h)
next_entry-behind n (x ∷ es) e h = ground (arith, next_entry-behind n es e)

All-up : {a b : ℕ} (es : List Entry) → a ≤ b → All (λ e. e.id ≤ a) es → All (λ e. e.id ≤ b) es
All-up [] h all = tt
All-up (e ∷ es) h all = (omega (arith, all.0), All-up es h all.1)

All-below : {a b : ℕ} (es : List Entry) → a < b → All (λ e. e.id ≤ a) es → All (λ e. e.id < b) es
All-below [] h all = tt
All-below (e ∷ es) h all = (omega (arith, all.0), All-below es h all.1)

module _ (c : Commands) (laws : Laws c) (group : Bytes) (old : List Entry) where
  -- The group has read behind all old entries.
  abbrev IsBehind : Stream → Type 0
  IsBehind s = All (λ e. e.id ≤ s.last_delivered group) old

  abbrev IsNew : Option Entry → Type 0
  IsNew none = Unit
  IsNew (some e) = All (λ o. o.id < e.id) old

  same_read :
      (s s' : Stream) → s'.last_delivered group ≡ s.last_delivered group → IsBehind s → IsBehind s'
  same_read s s' e all = rw e all

  read_by-IsNew :
      (h : Bytes) (s : Stream) (o : Option Entry)
      → next_entry (s.last_delivered h) s.entries ≡ o
      → IsBehind s
      → IsBehind (read_by c group h s (delivering h s o)).0
        × IsNew (read_by c group h s (delivering h s o)).1
  read_by-IsNew h s none next all = (all, tt)
  read_by-IsNew h s (some e) next all = elim (Bool-cases (group =b h)) [
    | inl own ↦
        let same = (=b_iff group h).0 own in
        let back : (h =b group) ≡ true = (=b_iff h group).1 (sym same) in
        let above = next_entry-behind (s.last_delivered h) s.entries e next in
        rw (own, back)
          (
            All-up old (omega (arith, ap s.last_delivered same)) all,
            All-below old (omega (arith, ap s.last_delivered same)) all,
          )
    | inr other ↦
        let apart : (h =b group) ≡ false = ground (arith, =b_iff h group, =b_iff group h) in
        rw (other, apart) (all, tt)
  ]

  stream_op-IsNew :
      (op : StreamOp) (s : Stream)
      → IsBehind s
      → IsBehind (stream_op c group op s).0 × IsNew (stream_op c group op s).1
  stream_op-IsNew (append p) s all =
      (same_read s (c.xadd p s).0 ((laws.xadd_appends p s).last_delivered group) all, tt)
  stream_op-IsNew (append_maxlen n p) s all = (
    same_read s (c.xadd_maxlen n p s).0 ((laws.xadd_maxlen_trims n p s).last_delivered group) all,
    tt,
  )
  stream_op-IsNew (acknowledge h i) s all =
      (same_read s (c.xack h i s) (laws.xack_last_delivered h i s group) all, tt)
  stream_op-IsNew (remove i) s all =
      (same_read s (c.xdel i s) (laws.xdel_last_delivered i s group) all, tt)
  stream_op-IsNew (read h) s all =
      rw (laws.xreadgroup_reads h s)
        (unfold read_next in read_by-IsNew h s (next_entry (s.last_delivered h) s.entries) refl all)

  deliveries-AllNew :
      (ops : List StreamOp) (s : Stream)
      → IsBehind s
      → All (λ d. All (λ o. o.id < d.id) old) (deliveries c group ops s)
  unfolding deliveries
  deliveries-AllNew [] s all = tt
  deliveries-AllNew (op ∷ ops) s all =
      let (all', new) = stream_op-IsNew op s all in
      before (stream_op c group op s).1 (deliveries c group ops (stream_op c group op s).0) new
        (deliveries-AllNew ops (stream_op c group op s).0 all')
    where
      before :
          (o : Option Entry) (es : List Entry)
          → IsNew o
          → All (λ d. All (λ o. o.id < d.id) old) es
          → All (λ d. All (λ o. o.id < d.id) old) (with_delivered c group o es)
      before none es new rest = rest
      before (some e) es new rest = (new, rest)

start_one :
    (env : Env) (group queue : Bytes) (w : World)
    → env.net w.calls ≡ delivered
    → start_groups env group (queue ∷ []) w ≡ (
      none,
      record w { db = (create_group env.commands group queue w.db).0; calls = suc w.calls },
    )
unfolding start_groups call
start_one env group queue w arrives = rw arrives refl

-- When the group of a queue does not exist yet and the call arrives, Start creates it and returns no
-- error, and whatever is then added to the stream, acknowledged, deleted and read, by this group or by
-- others, the group is delivered only entries behind all those that were in the stream before.
pub start_groups-skips :
    (env : Env)
    → Laws env.commands
    → (group queue : Bytes) (w : World) → (w.db.streams (stream queue)).groups group ≡ false
    → env.net w.calls ≡ delivered
    → (ops : List StreamOp)
    → let r = start_groups env group (queue ∷ []) w in
      (r.0 ≡ none)
      × All
          (λ d. All (λ o. o.id < d.id) (w.db.streams (stream queue)).entries)
          (deliveries env.commands group ops (r.1.db.streams (stream queue)))
start_groups-skips env laws group queue w absent arrives ops =
    rw (start_one env group queue w arrives) (
      refl,
      deliveries-AllNew env.commands laws group old ops
          (((create_group env.commands group queue w.db).0).streams (stream queue))
          (behind (env.commands.xgroup_create group s) (laws.xgroup_create_creates group s)),
    )
  where
    s : Stream
    s = w.db.streams (stream queue)

    old : List Entry
    old = s.entries

    behind :
        (o : Option Stream)
        → Creation group s o
        → All
            (λ e.
              e.id
              ≤ ((created env.commands group queue w.db o).0.streams (stream queue)).last_delivered
                  group)
            old
    behind none busy = absurd (cc)
    behind (some s') new = rw (=b_refl (stream queue)) new.1.behind
