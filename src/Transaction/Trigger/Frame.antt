-- ===== src/Transaction/Trigger/Frame.antt =====
-- Setting transactions off leaves the event queues of the client alone.
use google_modules_lwis.Prelude.{
  ℕ, ◌≡◌, refl, ap, ◌∙◌, inl, inr, Bool, false, List, [], ◌∷◌, arith, Bool-cases, Option-cases,
}
use google_modules_lwis.Device.{DeviceEventState, EventList, Transaction}
use google_modules_lwis.Io.{Vops}
use google_modules_lwis.Transaction.Process.{Work}
use google_modules_lwis.Transaction.Process.Frame.{
  Queues, queues_of, frame_of, process_transaction-frame,
}
use google_modules_lwis.Transaction.Submit.{event_list_find}
use google_modules_lwis.Transaction.Trigger.{
  trigger_one, trigger_loop, after_loop, trigger_list, is_empty, instance_of,
  new_repeating_transaction_iteration, lwis_transaction_event_trigger, defer_transaction_locked,
}

module _ {R : Type 0} (vops : Vops R) (event_counter : ℕ) (in_irq : Bool) where
  abbrev Same : Work R → Work R → Type 0
  Same w w' = frame_of w' ≡ frame_of w

  defer-queues : (w : Work R) (t : Transaction) → Same w (defer_transaction_locked vops w t in_irq)
  unfolding defer_transaction_locked
  defer-queues w t = ground (arith, process_transaction-frame vops w t in_irq false)

  trigger_one-queues :
      (w : Work R) (t : Transaction) → Same w (trigger_one vops w t event_counter in_irq).0
  unfolding trigger_one
  trigger_one-queues w t = ground (
    arith,
    defer-queues w t,
    defer-queues
        (record w {
          dev = record (w.dev) { mem = (new_repeating_transaction_iteration t (w.dev).mem).1 };
        })
        (instance_of t),
  )

  trigger_loop-queues :
      (w : Work R) (ts : List Transaction) → Same w (trigger_loop vops w ts event_counter in_irq).0
  unfolding trigger_loop
  trigger_loop-queues w [] = refl
  trigger_loop-queues w (t ∷ ts) =
      trigger_loop-queues (trigger_one vops w t event_counter in_irq).0 ts ∙ trigger_one-queues w t

  trigger_list-queues :
      (w : Work R) (l : EventList) → Same w (trigger_list vops w event_counter in_irq l)
  unfolding trigger_list after_loop
  trigger_list-queues w l = elim (Bool-cases (is_empty l.list)) [
    | inl e ↦ rw e
    | inr e ↦ rw e (trigger_loop-queues w l.list)
  ]

  trigger-frame :
      (w : Work R) (event_id : ℕ)
      → Same w (lwis_transaction_event_trigger vops w event_id event_counter in_irq)
  unfolding lwis_transaction_event_trigger
  trigger-frame w event_id =
      elim (Option-cases (event_list_find (w.client).transaction_list event_id)) [
        | inl e ↦ rw (e, lwis_transaction_event_trigger)
        | inr (l, e) ↦ rw (e, lwis_transaction_event_trigger) (trigger_list-queues w l)
      ]

  pub trigger-queues :
      (w : Work R) (event_id : ℕ)
      → queues_of (lwis_transaction_event_trigger vops w event_id event_counter in_irq).client
        ≡ queues_of w.client
  trigger-queues w event_id =
      ap (λ (f : Queues × List DeviceEventState). f.0) (trigger-frame w event_id)

  pub trigger-event_states :
      (w : Work R) (event_id : ℕ)
      → (lwis_transaction_event_trigger vops w event_id event_counter in_irq).dev.event_states
        ≡ (w.dev).event_states
  trigger-event_states w event_id =
      ap (λ (f : Queues × List DeviceEventState). f.1) (trigger-frame w event_id)
