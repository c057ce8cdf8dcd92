-- ===== src/Transaction/Trigger/Kept.antt =====
-- lwis_transaction.c: which transactions stay in the list of an event that occurs.
use google_modules_lwis.Prelude.{
  ℕ, zero, suc, true, ◌≡◌, refl, Bool, false, some, List, [], ◌∷◌, arith, ◌==◌, ◌&&◌, not,
  if◌then◌else◌,
}
use google_modules_lwis.Prelude.Int.{ℤ, pos, negsuc}
use google_modules_lwis.Device.{Transaction}
use google_modules_lwis.Io.{Vops}
use google_modules_lwis.Transaction.Process.{Work}
use google_modules_lwis.Transaction.Process.Frame.{process_transaction-mem}
use google_modules_lwis.Transaction.Trigger.{
  trigger_one, trigger_loop, is_due, instance_of, new_repeating_transaction_iteration,
  defer_transaction_locked, repeat_transaction, second_allocation,
}

-- The transaction waits for a later occurrence: for the one of its counter, or, with EVERY_TIME
-- (-2), for all that follow. One of the next occurrence (-1) does not wait.
unfoldable pub waits_for : ℕ → ℤ → Bool
waits_for event_counter (pos counter) = not (counter == event_counter)
waits_for event_counter (negsuc zero) = false
waits_for event_counter (negsuc (suc k)) = true

not_due : (c : ℤ) (event_counter : ℕ) → not (is_due c event_counter) ≡ waits_for event_counter c
unfolding waits_for
not_due (pos n) event_counter = grind arith
not_due (negsuc zero) event_counter = refl
not_due (negsuc (suc k)) event_counter = ground arith

-- A transaction that was cancelled or whose counter is met leaves the list; one that repeats, and
-- one that waits for another counter, stays.
abbrev pub stays : ℕ → Transaction → Bool
stays event_counter t =
    (t.resp).error_code == 0 && waits_for event_counter (t.info).trigger_event_counter

pub staying : ℕ → List Transaction → List Transaction
staying event_counter [] = []
staying event_counter (t ∷ ts) =
    if stays event_counter t then t ∷ staying event_counter ts else staying event_counter ts

module _ {R : Type 0} (vops : Vops R) (event_counter : ℕ) (in_irq : Bool) where
  defer-mem :
      (w : Work R) (t : Transaction)
      → (w.dev).mem ≡ []
      → ((defer_transaction_locked vops w t in_irq).dev).mem ≡ []
  unfolding defer_transaction_locked
  defer-mem w t e = ground (arith, process_transaction-mem vops w t in_irq false)

  fresh-iteration :
      (t : Transaction) (mem : List Bool)
      → mem ≡ []
      → new_repeating_transaction_iteration t mem ≡ (some (instance_of t), [])
  unfolding new_repeating_transaction_iteration second_allocation
  fresh-iteration t mem e = rw (e, new_repeating_transaction_iteration)

  trigger_one-mem :
      (w : Work R) (t : Transaction)
      → (w.dev).mem ≡ []
      → (((trigger_one vops w t event_counter in_irq).0.dev).mem ≡ [])
        × ((trigger_one vops w t event_counter in_irq).1 ≡ stays event_counter t)
  unfolding trigger_one
  trigger_one-mem w t e =
      let due = not_due (t.info).trigger_event_counter event_counter in
      let after : Work R = record w { dev = record (w.dev) { mem = [] } } in
      rw (fresh-iteration t (w.dev).mem e, repeat_transaction)
        (ground (arith, defer-mem w t e, defer-mem after (instance_of t) refl), ground (arith, due))

-- With memory for the new instances, an event leaves in the list exactly the transactions that
-- were not cancelled and whose trigger counter it does not meet, in their order.
pub trigger_loop-keeps :
    {R : Type 0} (vops : Vops R) (event_counter : ℕ) (in_irq : Bool) (w : Work R)
    (ts : List Transaction)
    → (w.dev).mem ≡ []
    → (trigger_loop vops w ts event_counter in_irq).1 ≡ staying event_counter ts
unfolding trigger_loop staying
trigger_loop-keeps vops event_counter in_irq w [] e = refl
trigger_loop-keeps vops event_counter in_irq w (t ∷ ts) e =
    let one = trigger_one-mem vops event_counter in_irq w t e in
    let rest =
      trigger_loop-keeps vops event_counter in_irq (trigger_one vops w t event_counter in_irq).0 ts
        one.0 in
    rw (one.1, rest)
