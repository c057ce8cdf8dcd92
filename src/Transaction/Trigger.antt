-- ===== src/Transaction/Trigger.antt =====
-- lwis_transaction.c: `lwis_transaction_event_trigger`, which an emitted event calls for each
-- client.
pub mod Calm
pub mod Frame
pub mod Kept
use google_modules_lwis.Prelude.{
  ℕ, Bool, true, false, Option, none, some, List, [], ◌∷◌, ◌++◌, ◌==◌, ◌&&◌, ◌||◌, not,
  if◌then◌else◌,
}
use google_modules_lwis.Prelude.Int.{ℤ, pos, eq_ℤ}
use google_modules_lwis.Errno.{enomem}
use google_modules_lwis.Commands.{on_next_occurrence, every_time}
use google_modules_lwis.Io.{Vops}
use google_modules_lwis.Device.{Device, DeviceType, i2c, Client, EventList, Transaction, kmalloc}
use google_modules_lwis.Transaction.Process.{Work, process_transaction}
use google_modules_lwis.Transaction.Submit.{event_list_find, put_event_list}

-- `new_repeating_transaction_iteration`: the instance, or `none`, and the allocations left. Its
-- response starts with a copy of the header alone.
instance_of : Transaction → Transaction
instance_of t = record t { resp = record (t.resp) { results = [] } }

second_allocation : Transaction → Bool × List Bool → Option Transaction × List Bool
unfolding instance_of
second_allocation t (fits, mem) = (if fits then some (instance_of t) else none, mem)

unfoldable pub new_repeating_transaction_iteration :
    Transaction → List Bool → Option Transaction × List Bool
unfolding second_allocation
new_repeating_transaction_iteration t mem =
    let (fits, mem') = kmalloc mem in
    if fits then second_allocation t (kmalloc mem') else (none, mem')

abbrev pub to_process_queue : Client → Transaction → Client
to_process_queue c t = record c {
  transaction_process_queue = c.transaction_process_queue ++ t ∷ [];
}

abbrev pub to_tasklet_queue : Client → Transaction → Client
to_tasklet_queue c t = record c {
  transaction_process_queue_tasklet = c.transaction_process_queue_tasklet ++ t ∷ [];
}

abbrev pub is_i2c : DeviceType → Bool
is_i2c i2c = true
is_i2c _ = false

abbrev is_empty {ℓ} : {A : Type ℓ} → List A → Bool
is_empty [] = true
is_empty (x ∷ xs) = false

-- Whether the counter of an event sets the transaction off, once.
abbrev pub is_due : ℤ → ℕ → Bool
is_due trigger_counter event_counter =
    eq_ℤ trigger_counter on_next_occurrence || eq_ℤ trigger_counter (pos event_counter)

module _ {R : Type 0} (vops : Vops R) where
  -- `defer_transaction_locked`, after the removal from the event list.
  pub defer_transaction_locked : Work R → Transaction → Bool → Work R
  defer_transaction_locked w t in_irq =
      if in_irq && is_i2c (w.dev).type
      then record w { client = to_process_queue w.client t }
      else if (t.info).run_in_event_context
      then (process_transaction vops w t in_irq false).1
      else if (t.info).run_at_real_time
      then record w { client = to_tasklet_queue w.client t }
      else record w { client = to_process_queue w.client t }

  -- What the round of one transaction leaves: the work, and the transaction if it stays.
  repeat_transaction : Work R → Transaction → Bool → Option Transaction × List Bool → Work R × Bool
  unfolding defer_transaction_locked
  repeat_transaction w t in_irq (none, mem) = (
    record w {
      dev = record (w.dev) { mem = mem };
      client =
          to_process_queue w.client (record t { resp = record (t.resp) { error_code = enomem } });
    },
    false,
  )
  repeat_transaction w t in_irq (some t', mem) =
      (defer_transaction_locked (record w { dev = record (w.dev) { mem = mem } }) t' in_irq, true)

  pub trigger_one : Work R → Transaction → ℕ → Bool → Work R × Bool
  unfolding repeat_transaction new_repeating_transaction_iteration
  trigger_one w t event_counter in_irq =
      if not ((t.resp).error_code == 0)
      then (record w { client = to_process_queue w.client t }, false)
      else if is_due (t.info).trigger_event_counter event_counter
      then (defer_transaction_locked w t in_irq, false)
      else if eq_ℤ (t.info).trigger_event_counter every_time
      then repeat_transaction w t in_irq (new_repeating_transaction_iteration t (w.dev).mem)
      else (w, true)

  -- The loop over the event's transactions, with those that stay in the list.
  pub trigger_loop : Work R → List Transaction → ℕ → Bool → Work R × List Transaction
  unfolding trigger_one
  trigger_loop w [] event_counter in_irq = (w, [])
  trigger_loop w (t ∷ ts) event_counter in_irq =
      let (w', stays) = trigger_one w t event_counter in_irq in
      let (w'', kept) = trigger_loop w' ts event_counter in_irq in
      (w'', if stays then t ∷ kept else kept)

  -- The list that is left, and the two schedules.
  pub after_loop : EventList → Work R × List Transaction → Work R
  after_loop l (w, kept) =
      let c : Client = w.client in
      record w {
        client = record c {
          transaction_list = put_event_list c.transaction_list (record l { list = kept });
          tasklet_scheduled =
              c.tasklet_scheduled || not (is_empty c.transaction_process_queue_tasklet);
          work_queued = c.work_queued || not (is_empty c.transaction_process_queue);
        };
      }

  trigger_list : Work R → ℕ → Bool → EventList → Work R
  unfolding trigger_loop after_loop
  trigger_list w event_counter in_irq l =
      if is_empty l.list then w else after_loop l (trigger_loop w l.list event_counter in_irq)

  -- It returns 0 on every branch.
  unfoldable pub lwis_transaction_event_trigger : Work R → ℕ → ℕ → Bool → Work R
  unfolding trigger_list event_list_find
  lwis_transaction_event_trigger w event_id event_counter in_irq =
      elim (event_list_find (w.client).transaction_list event_id) [
        | none ↦ w
        | some l ↦ trigger_list w event_counter in_irq l
      ]
