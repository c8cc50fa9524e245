-- ===== src/Client/Control/Listening.antt =====
-- What workers see of a client's Pause and Resume: the marker that they reconcile with, and the message on
-- the control channel.
use taskmq.Prelude.{
  ℕ, suc, ◌≡◌, refl, ◌∙◌, ap, Bytes, codes, Bool, true, false, not, ◌&&◌, ◌=b◌, =b_refl, inr, [],
  ◌∷◌, ◌++◌, if◌then◌else◌, if-split, is_some, Option, none, some,
}
use taskmq.Errors.{Error}
use taskmq.Keys.{paused, control}
use taskmq.Redis.{update}
use taskmq.World.{Env, World, call, notify, delivered}
use taskmq.Worker.Pause.{
  PauseController, set_paused, reconcile, handle_message, matched_queue, closing,
}
use taskmq.Client.Control.{pause, resume, is_paused, publish_to}

set_paused-flag :
    (queue : Bytes) (b : Bool) (p : PauseController)
    → (set_paused queue b p).paused_queues queue ≡ b
unfolding set_paused
set_paused-flag queue b p =
    if-split (λ (q : PauseController). q.paused_queues queue ≡ b) (p.paused_queues queue && not b)
      (λ _. closed (p.pause_chans queue)) (λ _. rw (=b_refl queue) refl)
  where
    closed :
        (ch : Option ℕ)
        → (closing queue ch
              (record p { paused_queues = update p.paused_queues queue b })).paused_queues
            queue
          ≡ b
    closed none = rw (=b_refl queue) refl
    closed (some ch) = rw (=b_refl queue) refl

module _ (env : Env) (reliable : (n : ℕ) → env.net n ≡ delivered) (queue : Bytes)
    (p : PauseController) where
  -- What is published, and whether the marker is there
  abbrev pub IsAnnounced : Bytes → Bool → Option Error × World → World → Type 0
  IsAnnounced payload b (e, w') w =
      (e ≡ none)
      × (w'.effects ≡ w.effects ++ (notify (control queue) payload ∷ []))
      × (is_some (w'.db.strings (paused queue)) ≡ b)

  pause-IsAnnounced : (w : World) → IsAnnounced (codes "pause") true (pause env queue w) w
  unfolding pause publish_to call
  pause-IsAnnounced w =
      rw (reliable w.calls, reliable (suc w.calls), reliable (suc w.calls))
        (refl, refl, rw (=b_refl (paused queue)) refl)

  resume-IsAnnounced : (w : World) → IsAnnounced (codes "resume") false (resume env queue w) w
  unfolding resume publish_to call
  resume-IsAnnounced w =
      rw (reliable w.calls, reliable (suc w.calls), reliable (suc w.calls))
        (refl, refl, rw (=b_refl (paused queue)) refl)

  reconcile-flag :
      (w : World) (b : Bool)
      → is_some (w.db.strings (paused queue)) ≡ b
      → (reconcile env (queue ∷ []) p w).0.paused_queues queue ≡ b
  unfolding reconcile call
  reconcile-flag w b there =
      rw (reliable w.calls)
        (set_paused-flag queue (is_some (w.db.strings (paused queue))) p ∙ there)

  handle_message-flag :
      (b : Bool)
      → (queue =b []) ≡ false
      → (handle_message
            (queue ∷ [])
            (control queue)
            (if b then codes "pause" else codes "resume")
            p).paused_queues
          queue
        ≡ b
  unfolding handle_message matched_queue ◌=b◌
  handle_message-flag true named =
      rw (=b_refl (control queue), named) (set_paused-flag queue true p)
  handle_message-flag false named =
      rw (=b_refl (control queue), named) (set_paused-flag queue false p)

  -- What a client has done to a queue, its worker knows, by the next reconciliation and by the message,
  -- whichever of them reaches it.
  abbrev pub IsKnown : Bool → Option Error × World → World → Type 0
  IsKnown b (e, w') w =
      (e ≡ none)
      × ((is_paused env queue w').0 ≡ inr b)
      × ((reconcile env (queue ∷ []) p w').0.paused_queues queue ≡ b)
      × (payload : Bytes) × (w'.effects ≡ w.effects ++ (notify (control queue) payload ∷ []))
      × ((handle_message (queue ∷ []) (control queue) payload p).paused_queues queue ≡ b)

  known :
      (b : Bool) (w : World) (r : Option Error × World)
      → (queue =b []) ≡ false
      → IsAnnounced (if b then codes "pause" else codes "resume") b r w
      → IsKnown b r w
  unfolding is_paused call
  known b w (e, w') named (fine, sent, there) = (
    fine,
    rw (reliable w'.calls) (ap (λ b. inr b) there),
    reconcile-flag w' b there,
    (if b then codes "pause" else codes "resume"),
    sent,
    handle_message-flag b named,
  )

  -- Over a reliable network, for a queue with a name, Pause and Resume return no error, IsPaused answers
  -- with what was done last, and a worker of the queue, whatever it held for true before, sets its flag
  -- to it both when it reconciles and when it handles the one message that was published.
  pub pause-resume-IsKnown :
      (w : World)
      → (queue =b []) ≡ false
      → IsKnown true (pause env queue w) w × IsKnown false (resume env queue w) w
  pause-resume-IsKnown w named = (
    known true w (pause env queue w) named (pause-IsAnnounced w),
    known false w (resume env queue w) named (resume-IsAnnounced w),
  )
