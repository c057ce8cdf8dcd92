-- ===== src/Commands.antt =====
-- lwis_commands.h: the parts of an event id, the control flags, I/O entries, transactions and
-- their responses. A 64-bit field is the number of its bit pattern, below 2 ^ 64; the trigger
-- counter alone is an integer, since -1 and -2 are special.
use google_modules_lwis.Prelude.{
  ℕ, ◌*◌, ◌/◌, zero, suc, ◌%◌, ◌^◌, ◌+◌, Bool, ◌||◌, List, [], ◌∷◌, length, ltb, leb, ◌==◌,
}
use google_modules_lwis.Prelude.Int.{ℤ, negsuc}

-- Bit `k` of a word.
abbrev pub bit : ℕ → ℕ → Bool
bit x k = (x / 2 ^ k % 2) == 1

-- A 64-bit pattern read as a signed number lies below the small constant `c`.
abbrev pub lt_signed : ℕ → ℕ → Bool
lt_signed x c = leb (2 ^ 63) x || ltb x c

-- LWIS_EVENT_ID_*: numbers of generic and error events.
abbrev pub event_id_none : ℕ
event_id_none = 0

abbrev pub event_id_heartbeat : ℕ
event_id_heartbeat = 1

abbrev pub event_id_client_cleanup : ℕ
event_id_client_cleanup = 2

abbrev pub start_of_error_range : ℕ
start_of_error_range = 2048

abbrev pub error_event_queue_overflow : ℕ
error_event_queue_overflow = 2050

abbrev pub start_of_specialized_range : ℕ
start_of_specialized_range = 4096

-- EVENT_OWNER_DEVICE_ID: bits 32 to 47.
abbrev pub event_owner_device_id : ℕ → ℕ
event_owner_device_id x = x / 2 ^ 32 % 2 ^ 16

-- `event_id & 0xFFFF0000FFFFFFFF`: the id with its device bits cleared.
abbrev pub without_device_id : ℕ → ℕ
without_device_id x = x / 2 ^ 48 * 2 ^ 48 + x % 2 ^ 32

-- The flags in bits 60 to 63 of an event id, by their positions.
abbrev pub is_transaction_event : ℕ → Bool
is_transaction_event x = bit x 63

abbrev pub is_transaction_failure_event : ℕ → Bool
is_transaction_failure_event x = bit x 62

abbrev pub is_hw_irq_event : ℕ → Bool
is_hw_irq_event x = bit x 61

-- LWIS_EVENT_CONTROL_FLAG_*.
abbrev pub has_irq_enable : ℕ → Bool
has_irq_enable flags = bit flags 0

abbrev pub has_queue_enable : ℕ → Bool
has_queue_enable flags = bit flags 1

abbrev pub has_irq_enable_once : ℕ → Bool
has_irq_enable_once flags = bit flags 2

-- struct lwis_event_control.
pub record EventControl : Type 0 where
  pub event_id : ℕ
  pub flags : ℕ

-- The trigger counters -1 and -2.
abbrev pub on_next_occurrence : ℤ
on_next_occurrence = negsuc 0

abbrev pub every_time : ℤ
every_time = negsuc 1

-- struct lwis_io_entry_rw.
pub record Rw : Type 0 where
  pub bid : ℕ
  pub offset : ℕ
  pub val : ℕ

-- struct lwis_io_entry_rw_batch; `buf` holds the bytes to write.
pub record RwBatch : Type 0 where
  pub bid : ℕ
  pub offset : ℕ
  pub size_in_bytes : ℕ
  pub buf : List ℕ
  pub is_offset_fixed : Bool

-- struct lwis_io_entry_modify.
pub record Modify : Type 0 where
  pub bid : ℕ
  pub offset : ℕ
  pub val : ℕ
  pub val_mask : ℕ

-- struct lwis_io_entry_read_assert, which LWIS_IO_ENTRY_POLL uses too.
pub record ReadAssert : Type 0 where
  pub bid : ℕ
  pub offset : ℕ
  pub val : ℕ
  pub mask : ℕ
  pub timeout_ms : ℕ

-- struct lwis_io_entry: `type` and its union. `unrecognized` is any other type number.
pub data IoEntry : Type 0 where
  read : Rw → IoEntry
  read_batch : RwBatch → IoEntry
  write : Rw → IoEntry
  write_batch : RwBatch → IoEntry
  modify : Modify → IoEntry
  poll : ReadAssert → IoEntry
  read_assert : ReadAssert → IoEntry
  unrecognized : ℕ → IoEntry

-- struct lwis_io_result, and the bytes of its flexible array.
pub record IoResult : Type 0 where
  pub bid : ℕ
  pub offset : ℕ
  pub num_value_bytes : ℕ
  pub values : List ℕ

-- sizeof(struct lwis_io_result), under `#pragma pack(push, 4)`.
abbrev pub io_result_size : ℕ
io_result_size = 20

-- struct lwis_transaction_info.
pub record TransactionInfo : Type 0 where
  pub trigger_event_id : ℕ
  pub trigger_event_counter : ℤ
  pub io_entries : List IoEntry
  pub run_in_event_context : Bool
  pub run_at_real_time : Bool
  pub emit_success_event_id : ℕ
  pub emit_error_event_id : ℕ
  pub allow_counter_eq : Bool
  pub id : ℕ
  pub current_trigger_event_counter : ℤ
  pub submission_timestamp_ns : ℕ

-- A write of a result into a response buffer, at a byte position behind the header.
pub record BufferWrite : Type 0 where
  pub at : ℕ
  pub result : IoResult

-- struct lwis_transaction_response_header, and the writes that its buffer has received.
pub record Response : Type 0 where
  pub id : ℕ
  pub error_code : ℕ
  pub completion_index : ℤ
  pub num_entries : ℕ
  pub results_size_bytes : ℕ
  pub results : List BufferWrite

-- sizeof(struct lwis_transaction_response_header).
abbrev pub response_header_size : ℕ
response_header_size = 32

-- struct lwis_periodic_io_info.
pub record PeriodicInfo : Type 0 where
  pub batch_size : ℕ
  pub period_ns : ℕ
  pub io_entries : List IoEntry
  pub emit_success_event_id : ℕ
  pub emit_error_event_id : ℕ
  pub id : ℕ

-- struct lwis_periodic_io_result, at a byte position behind the header of the response.
pub record PeriodicWrite : Type 0 where
  pub at : ℕ
  pub timestamp_ns : ℕ
  pub result : IoResult

-- sizeof(struct lwis_periodic_io_result).
abbrev pub periodic_result_size : ℕ
periodic_result_size = 28

-- struct lwis_periodic_io_response_header, and the writes that its buffer has received.
pub record PeriodicResponse : Type 0 where
  pub id : ℕ
  pub error_code : ℕ
  pub batch_size : ℕ
  pub num_entries_per_period : ℕ
  pub results_size_bytes : ℕ
  pub results : List PeriodicWrite

-- sizeof(struct lwis_periodic_io_response_header).
abbrev pub periodic_header_size : ℕ
periodic_header_size = 32

-- `payload_buffer` with `payload_size`. Of the buffer of a periodic response a first part is sent.
pub data Payload : Type 0 where
  null : Payload
  response : Response → Payload
  periodic : PeriodicResponse → ℕ → Payload
  raw : List ℕ → Payload

abbrev pub payload_size : Payload → ℕ
payload_size null = 0
payload_size (response r) = response_header_size + r.results_size_bytes
payload_size (periodic r size) = size
payload_size (raw bytes) = length bytes

-- struct lwis_event_info, as it stands in a queue.
pub record EventEntry : Type 0 where
  pub event_id : ℕ
  pub event_counter : ℕ
  pub timestamp_ns : ℕ
  pub payload : Payload

-- The first `n` bytes of a value as they lie in memory, the lowest first.
pub value_bytes : ℕ → ℕ → List ℕ
value_bytes zero v = []
value_bytes (suc n) v = v % 256 ∷ value_bytes n (v / 256)
