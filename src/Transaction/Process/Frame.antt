-- ===== src/Transaction/Process/Frame.antt =====
-- What running or cancelling a transaction leaves alone, and how many events it puts off.
use google_modules_lwis.Prelude.{
  ℕ, ◌+◌, ◌≤◌, ◌≡◌, refl, Bool, List, [], ◌∷◌, arith, length, length-append,
}
use google_modules_lwis.Commands.{EventControl, EventEntry, Payload}
use google_modules_lwis.Device.{Client, DeviceEventState, Transaction}
use google_modules_lwis.Io.{Vops}
use google_modules_lwis.Event.Pending.{lwis_pending_event_push, pending_entry}
use google_modules_lwis.Transaction.Process.{Work, process_transaction}

pub length-push :
    (pending : List EventEntry) (mem : List Bool) (event_id : ℕ) (payload : Payload)
    → length (lwis_pending_event_push pending mem event_id payload).0 ≤ length pending + 1
unfolding lwis_pending_event_push
length-push pending mem event_id payload =
    ground (arith, length-append pending (pending_entry event_id payload ∷ []))

pub push-length-le :
    (pending : List EventEntry) (mem : List Bool) (event_id : ℕ) (payload : Payload)
    → length pending ≤ length (lwis_pending_event_push pending mem event_id payload).0
unfolding lwis_pending_event_push
push-length-le pending mem event_id payload =
    ground (arith, length-append pending (pending_entry event_id payload ∷ []))

-- The parts of a client that belong to the events.
pub record Queues : Type 0 where
  pub event_states : List EventControl
  pub event_queue : List EventEntry
  pub event_queue_size : ℕ
  pub error_event_queue : List EventEntry
  pub error_event_queue_size : ℕ

abbrev pub queues_of : Client → Queues
queues_of c = record {
  event_states = c.event_states;
  event_queue = c.event_queue;
  event_queue_size = c.event_queue_size;
  error_event_queue = c.error_event_queue;
  error_event_queue_size = c.error_event_queue_size;
}

-- The queues of the client, and the event states of the device.
abbrev pub frame_of : {R : Type 0} → Work R → Queues × List DeviceEventState
frame_of w = (queues_of w.client, (w.dev).event_states)

module _ {R : Type 0} (vops : Vops R) (w : Work R) (t : Transaction) (in_irq skip_err : Bool) where
  pub process_transaction-lists :
      ((process_transaction vops w t in_irq skip_err).1.client).transaction_list
      ≡ (w.client).transaction_list
  unfolding process_transaction
  process_transaction-lists = refl

  pub length-process_transaction :
      length (process_transaction vops w t in_irq skip_err).1.pending ≤ length w.pending + 1
  unfolding process_transaction
  length-process_transaction = length-push w.pending (w.dev).mem _ _

  pub process_transaction-length-le :
      length w.pending ≤ length (process_transaction vops w t in_irq skip_err).1.pending
  unfolding process_transaction
  process_transaction-length-le = push-length-le w.pending (w.dev).mem _ _

  pub process_transaction-frame :
      frame_of (process_transaction vops w t in_irq skip_err).1 ≡ frame_of w
  unfolding process_transaction
  process_transaction-frame = refl

  -- Memory that is there for all is there for all afterwards.
  pub process_transaction-mem :
      (w.dev).mem ≡ [] → ((process_transaction vops w t in_irq skip_err).1.dev).mem ≡ []
  unfolding process_transaction lwis_pending_event_push
  process_transaction-mem e = ground arith
