-- ===== src/Worker/Pause.antt =====
-- internal/taskmq/worker/pause.go: which queues are paused, and the channels on which consumers wait for
-- the end of a pause. Its methods hold a lock, so consumers and subscribers take turns.
pub mod Orderly
pub mod Waking
use taskmq.Prelude.{
  ℕ, suc, Bytes, codes, Bool, true, false, ◌&&◌, not, ◌⊎◌, inl, inr, List, [], ◌∷◌, ◌==◌, ◌=b◌,
  if◌then◌else◌, is_some, Option, none, some,
}
use taskmq.Errors.{Error}
use taskmq.Keys.{paused, control}
use taskmq.Redis.{Db, update}
use taskmq.World.{Env, World, call}

-- Channels are numbered as they are made; a channel that is closed stays so.
pub record PauseController : Type 0 where
  pub paused_queues : Bytes → Bool
  pub pause_chans : Bytes → Option ℕ
  pub closed : ℕ → Bool
  pub made : ℕ

abbrev pub new_pause_controller : PauseController
new_pause_controller = record {
  paused_queues = λ q. false;
  pause_chans = λ q. none;
  closed = λ ch. false;
  made = 0;
}

-- `close` of the channel of a queue, which is deleted from the map.
abbrev pub closing : Bytes → Option ℕ → PauseController → PauseController
closing queue none p = p
closing queue (some ch) p = record p {
  closed = λ i. if ch == i then true else p.closed i;
  pause_chans = update p.pause_chans queue none;
}

unfoldable pub set_paused : Bytes → Bool → PauseController → PauseController
set_paused queue b p =
    let p' = record p { paused_queues = update p.paused_queues queue b } in
    if p.paused_queues queue && not b then closing queue (p.pause_chans queue) p' else p'

abbrev pub made_for : Bytes → Option ℕ → PauseController → ℕ × PauseController
made_for queue (some ch) p = (ch, p)
made_for queue none p =
    (p.made, record p { pause_chans = update p.pause_chans queue (some p.made); made = suc p.made })

unfoldable pub wait_chan : Bytes → PauseController → ℕ × PauseController
wait_chan queue p = made_for queue (p.pause_chans queue) p

-- `Reconcile`: a failed call leaves the flag of its queue.
abbrev pub reconciled : Bytes → (Error ⊎ Bool) × World → PauseController → PauseController × World
reconciled queue (inl e, w) p = (p, w)
reconciled queue (inr b, w) p = (set_paused queue b p, w)

unfoldable pub reconcile : Env → List Bytes → PauseController → World → PauseController × World
reconcile env [] p w = (p, w)
reconcile env (q ∷ qs) p w =
    let (p', w') =
      reconciled q (call env (λ (db : Db). (db, is_some (db.strings (paused q)))) w) p in
    reconcile env qs p' w'

-- The first queue that the channel of a message controls; a queue without a name is none.
unfoldable pub matched_queue : List Bytes → Bytes → Bytes
matched_queue [] channel = []
matched_queue (q ∷ qs) channel =
    let rest = matched_queue qs channel in if channel =b control q then q else rest

-- A control message of the subscription
unfoldable pub handle_message : List Bytes → Bytes → Bytes → PauseController → PauseController
handle_message queues channel payload p =
    let q = matched_queue queues channel in
    if q =b []
    then p
    else if payload =b codes "pause"
    then set_paused q true p
    else if payload =b codes "resume"
    then set_paused q false p
    else p

-- What reaches a controller: a flag is set, or a consumer asks for a channel.
pub data PauseOp : Type 0 where
  set : Bytes → Bool → PauseOp
  wait : Bytes → PauseOp

abbrev pub pause_op : PauseOp → PauseController → PauseController
pause_op (set queue b) p = set_paused queue b p
pause_op (wait queue) p = (wait_chan queue p).1

unfoldable pub pause_ops : List PauseOp → PauseController → PauseController
pause_ops [] p = p
pause_ops (op ∷ ops) p = pause_ops ops (pause_op op p)
