-- ===== src/Transaction/Process/Answers.antt =====
-- lwis_transaction.c: each transaction of a queue is answered once, in the order of the queue.
use google_modules_lwis.Prelude.{
  ℕ, ◌≡◌, ◌≢◌, refl, sym, ap, ◌∙◌, inl, inr, Bool, false, Option, none, some, List, [], ◌∷◌, ◌++◌,
  map, arith, ◌==◌, if◌then◌else◌, All, Bool-cases,
}
use mathlib.Core.List.{map-append, append_assoc, append-nil}
use google_modules_lwis.Commands.{EventEntry, Payload}
use google_modules_lwis.Io.{Vops}
use google_modules_lwis.Device.{Transaction}
use google_modules_lwis.Event.Pending.{lwis_pending_event_push, pending_entry}
use google_modules_lwis.Transaction.Process.{
  Work, process_transaction, cancel_transaction, cancelled_response, process_queue,
  finished_response,
}

-- The id of the transaction that a pending event answers.
pub answered_id : EventEntry → Option ℕ
answered_id e = elim e.payload [ Payload.response r ↦ some r.id | _ ↦ none ]

push-room :
    (pending : List EventEntry) (mem : List Bool) (event_id : ℕ) (payload : Payload)
    → mem ≡ []
    → lwis_pending_event_push pending mem event_id payload
      ≡ (pending ++ pending_entry event_id payload ∷ [], [])
unfolding lwis_pending_event_push
push-room pending mem event_id payload e = rw (e, lwis_pending_event_push)

module _ {R : Type 0} (vops : Vops R) (in_irq : Bool) where
  -- What the loop does with one transaction of the queue.
  abbrev settle : Work R → Transaction → Work R
  settle w t =
      if (t.resp).error_code == 0
      then (process_transaction vops w t in_irq false).1
      else cancel_transaction w t (t.resp).error_code

  settle-mem : (w : Work R) (t : Transaction) → (w.dev).mem ≡ [] → ((settle w t).dev).mem ≡ []
  unfolding process_transaction cancel_transaction lwis_pending_event_push
  settle-mem w t e = ground arith

  settle-answers :
      (w : Work R) (t : Transaction)
      → (w.dev).mem ≡ []
      → (t.resp).id ≡ (t.info).id
      → map answered_id (settle w t).pending ≡ map answered_id w.pending ++ some (t.info).id ∷ []
  unfolding answered_id process_transaction cancel_transaction cancelled_response finished_response
  settle-answers w t e same = elim (Bool-cases ((t.resp).error_code == 0)) [
    | inl ok ↦
        rw (ok, push-room w.pending (w.dev).mem _ _ e)
          (map-append answered_id w.pending _
            ∙ ap (λ (n : ℕ). map answered_id w.pending ++ some n ∷ []) same)
    | inr bad ↦ rw (bad, push-room w.pending (w.dev).mem _ _ e) (map-append answered_id w.pending _)
  ]

-- With memory for the answers, each transaction of a queue is answered by exactly one event, in
-- the order of the queue: one that runs, whether its entries succeed or fail, and one that was
-- cancelled before.
pub process_queue-answers :
    {R : Type 0} (vops : Vops R) (in_irq : Bool) (w : Work R) (ts : List Transaction)
    → (w.dev).mem ≡ []
    → All (λ t. (t.resp).id ≡ (t.info).id) ts
    → map answered_id (process_queue vops w ts in_irq).pending
      ≡ map answered_id w.pending ++ map (λ t. some (t.info).id) ts
unfolding process_queue
process_queue-answers vops in_irq w [] e same = sym (append-nil (map answered_id w.pending))
process_queue-answers vops in_irq w (t ∷ ts) e same =
    process_queue-answers vops in_irq (settle vops in_irq w t) ts (settle-mem vops in_irq w t e)
      same.1
    ∙ ap (λ (x : List (Option ℕ)). x ++ map (λ t. some (t.info).id) ts)
        (settle-answers vops in_irq w t e same.0)
    ∙ append_assoc (map answered_id w.pending) (some (t.info).id ∷ []) _

-- A queue of cancelled transactions does not touch the device's registers.
pub process_queue-cancelled :
    {R : Type 0} (vops : Vops R) (in_irq : Bool) (w : Work R) (ts : List Transaction)
    → All (λ t. (t.resp).error_code ≢ 0) ts
    → ((process_queue vops w ts in_irq).dev).regs ≡ (w.dev).regs
unfolding process_queue cancel_transaction
process_queue-cancelled vops in_irq w [] h = refl
process_queue-cancelled vops in_irq w (t ∷ ts) h =
    process_queue-cancelled vops in_irq (settle vops in_irq w t) ts h.1 ∙ (ground arith)
