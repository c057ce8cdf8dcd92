-- ===== src/Device.antt =====
-- lwis_device.h, lwis_event.h and lwis_transaction.h: the state of a device and of its clients.
-- A kernel hash table is the list of its entries, the newest first, as they stand in a bucket.
-- Locks are not modelled: each function here runs alone on the state that it is given.
use google_modules_lwis.Prelude.{ℕ, ◌+◌, Bool, true, List, [], ◌∷◌, leb, if◌then◌else◌}
use google_modules_lwis.Prelude.Int.{ℤ}
use google_modules_lwis.Commands.{EventControl, EventEntry, TransactionInfo, Response}

-- enum lwis_device_types.
pub data DeviceType : Type 0 where
  unknown top i2c ioreg slc dpm : DeviceType

-- struct lwis_device_event_state.
pub record DeviceEventState : Type 0 where
  pub event_id : ℕ
  pub enable_counter : ℤ
  pub event_counter : ℕ
  pub has_subscriber : Bool

-- struct lwis_device_event_state_history.
pub record EventHistory : Type 0 where
  pub state : DeviceEventState
  pub timestamp : ℕ

-- A call of the top device's `notify_event_subscriber`.
pub record Notification : Type 0 where
  pub event_id : ℕ
  pub event_counter : ℕ
  pub timestamp : ℕ
  pub in_irq : Bool

-- struct lwis_device, over the state `R` of its subclass. `mem` says of the next allocations in
-- turn whether they succeed (all do behind its end), and `now` is the clock of the call.
pub record Device (R : Type 0) : Type 0 where
  pub id : ℕ
  pub type : DeviceType
  pub enabled : ℕ
  pub event_states : List DeviceEventState
  pub event_hist : List EventHistory
  pub cur_event_hist_idx : ℕ
  pub heartbeat : Bool
  pub notified : List Notification
  pub native_value_bitwidth : ℕ
  pub regs : R
  pub mem : List Bool
  pub now : ℕ

-- struct lwis_transaction, once its response is prepared.
pub record Transaction : Type 0 where
  pub info : TransactionInfo
  pub resp : Response

-- struct lwis_transaction_event_list.
pub record EventList : Type 0 where
  pub event_id : ℕ
  pub list : List Transaction

-- struct lwis_client. A queue has its front first. `tasklet_scheduled` and `work_queued` say that
-- the two process queues are going to be run.
pub record Client : Type 0 where
  pub event_states : List EventControl
  pub event_queue : List EventEntry
  pub event_queue_size : ℕ
  pub error_event_queue : List EventEntry
  pub error_event_queue_size : ℕ
  pub transaction_list : List EventList
  pub transaction_process_queue_tasklet : List Transaction
  pub transaction_process_queue : List Transaction
  pub transaction_counter : ℕ
  pub tasklet_scheduled : Bool
  pub work_queued : Bool
  pub transaction_hist : List TransactionInfo
  pub cur_transaction_hist_idx : ℕ

-- EVENT_DEBUG_HISTORY_SIZE and TRANSACTION_DEBUG_HISTORY_SIZE.
abbrev pub event_debug_history_size : ℕ
event_debug_history_size = 16

abbrev pub transaction_debug_history_size : ℕ
transaction_debug_history_size = 8

-- `kmalloc`: whether it succeeds, and what is left to decide the later ones.
abbrev pub kmalloc : List Bool → Bool × List Bool
kmalloc [] = (true, [])
kmalloc (b ∷ bs) = (b, bs)

-- The step of a history index, which starts again at the end of its buffer.
abbrev pub next_index : ℕ → ℕ → ℕ
next_index size i = if leb size (i + 1) then 0 else i + 1
