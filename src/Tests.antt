-- ===== src/Tests.antt =====
-- The theorems at concrete devices, clients and transactions.
pub mod Emissions
pub mod Transactions
pub mod Events
pub mod Registers
pub mod Memory
pub mod Timers
pub mod Subscriptions
pub mod Interrupts
pub mod Partitions
pub mod Enrollments
pub mod Clocks
pub mod Counters
pub mod I2cRegisters
use google_modules_lwis.Prelude.{
  ℕ, ◌+◌, ◌*◌, ◌^◌, ◌≤◌, ◌≡◌, ◌≢◌, refl, ◌⊎◌, ◌↔◌, inl, inr, Bool, true, false, Option, none, some,
  List, [], ◌∷◌, ◌++◌, map, arith, length, All, if◌then◌else◌, ◌==◌, set, ◌||◌,
}
use google_modules_lwis.Prelude.Int.{ℤ, pos, negsuc}
use google_modules_lwis.Errno.{einval, enoent, etimedout}
use google_modules_lwis.Commands.{
  EventControl, EventEntry, IoEntry, Rw, RwBatch, ReadAssert, Payload, null, Response,
  TransactionInfo, error_event_queue_overflow,
}
use google_modules_lwis.Io.{Vops, Reply, lwis_io_entry_poll, lwis_io_entry_read_assert}
use google_modules_lwis.Device.{
  Device, DeviceType, ioreg, DeviceEventState, Client, EventList, Transaction,
}

-- A device of one register, which rejects the block 9.
abbrev pub one_register : ℕ → IoEntry → ℕ → Reply ℕ
one_register reg (IoEntry.read e) width = record {
  ret = if e.bid == 9 then einval else 0;
  val = reg;
  bytes = [];
  regs = reg;
}
one_register reg (IoEntry.write e) width = record {
  ret = if e.bid == 9 then einval else 0;
  val = 0;
  bytes = [];
  regs = e.val;
}
one_register reg _ width = record { ret = 0; val = 0; bytes = []; regs = reg }

abbrev pub vops : Vops ℕ
vops = record {
  register_io = one_register;
  irqs = some (λ reg event_id enabled. (0, reg));
  event_enable = none;
  event_flags_updated = none;
  event_emitted = none;
  jitter = λ elapsed. 0;
}

abbrev pub irq_event : ℕ
irq_event = 2 ^ 61 + 3 * 2 ^ 32 + 5000

abbrev pub irq_state : DeviceEventState
irq_state = record {
  event_id = irq_event;
  enable_counter = pos 1;
  event_counter = 6;
  has_subscriber = false;
}

abbrev pub device : Device ℕ
device = record {
  id = 3;
  type = ioreg;
  enabled = 1;
  event_states = irq_state ∷ [];
  event_hist = [];
  cur_event_hist_idx = 0;
  heartbeat = false;
  notified = [];
  native_value_bitwidth = 32;
  regs = 7;
  mem = [];
  now = 100;
}

abbrev pub read_entry : ℕ → IoEntry
read_entry bid = IoEntry.read (record { bid = bid; offset = 4; val = 0 })

abbrev pub write_entry : ℕ → ℕ → IoEntry
write_entry bid val = IoEntry.write (record { bid = bid; offset = 4; val = val })

abbrev pub info_of : ℕ → ℤ → List IoEntry → TransactionInfo
info_of id counter entries = record {
  trigger_event_id = irq_event;
  trigger_event_counter = counter;
  io_entries = entries;
  run_in_event_context = true;
  run_at_real_time = false;
  emit_success_event_id = 2 ^ 63 + 3 * 2 ^ 32 + 1;
  emit_error_event_id = 2 ^ 62 + 3 * 2 ^ 32 + 1;
  allow_counter_eq = false;
  id = id;
  current_trigger_event_counter = pos 6;
  submission_timestamp_ns = 90;
}

abbrev pub transaction : ℕ → ℕ → ℤ → List IoEntry → Transaction
transaction id error_code counter entries = record {
  info = info_of id counter entries;
  resp = record {
    id = id;
    error_code = error_code;
    completion_index = pos 0;
    num_entries = 1;
    results_size_bytes = 24;
    results = [];
  };
}

-- It waits for the seventh occurrence.
abbrev pub reader : Transaction
reader = transaction 0 0 (pos 7) (write_entry 0 5 ∷ read_entry 0 ∷ [])

abbrev pub failing : Transaction
failing = transaction 1 0 (pos 9) (read_entry 0 ∷ read_entry 9 ∷ write_entry 0 5 ∷ [])

abbrev pub cancelled_one : Transaction
cancelled_one = transaction 2 125 (pos 9) (write_entry 0 5 ∷ [])

abbrev pub entry : ℕ → EventEntry
entry counter = record {
  event_id = irq_event;
  event_counter = counter;
  timestamp_ns = 50;
  payload = null;
}

abbrev pub client : ℕ → List Transaction → Client
client flags waiting = record {
  event_states = record { event_id = irq_event; flags = flags } ∷ [];
  event_queue = entry 6 ∷ [];
  event_queue_size = 1;
  error_event_queue = [];
  error_event_queue_size = 0;
  transaction_list = record { event_id = irq_event; list = waiting } ∷ [];
  transaction_process_queue_tasklet = [];
  transaction_process_queue = [];
  transaction_counter = 3;
  tasklet_scheduled = false;
  work_queued = false;
  transaction_hist = [];
  cur_transaction_hist_idx = 0;
}

-- One client waits with transactions and wants the event in its queue; one does not.
abbrev pub clients : List Client
clients = client 3 (reader ∷ failing ∷ []) ∷ client 1 [] ∷ []
