-- ===== src/Transaction/Submit.antt =====
-- lwis_transaction.c: checking, preparing and queueing a transaction; cancelling and replacing it.
pub mod Checked
pub mod Lists
pub mod Places
use google_modules_lwis.Prelude.{
  ℕ, ◌+◌, ◌*◌, ◌/◌, ◌%◌, ◌^◌, Bool, true, false, Option, none, some, List, [], ◌∷◌, ◌++◌, ◌==◌,
  ◌&&◌, not, if◌then◌else◌,
}
use google_modules_lwis.Prelude.Int.{ℤ, pos, negsuc, eq_ℤ, ltb_ℤ}
use google_modules_lwis.Errno.{enoent, enomem, einval}
use google_modules_lwis.Commands.{
  IoEntry, Response, TransactionInfo, io_result_size, response_header_size, event_id_none,
  on_next_occurrence, every_time,
}
use google_modules_lwis.Device.{Device, Client, DeviceEventState, EventList, Transaction, kmalloc}
use google_modules_lwis.Event.States.{lwis_device_event_state_find, create_states}

-- EXPLICIT_EVENT_COUNTER.
abbrev pub explicit_event_counter : ℤ → Bool
explicit_event_counter x = not (eq_ℤ x on_next_occurrence) && not (eq_ℤ x every_time)

unfoldable pub event_list_find : List EventList → ℕ → Option EventList
event_list_find [] event_id = none
event_list_find (l ∷ ls) event_id =
    if l.event_id == event_id then some l else event_list_find ls event_id

-- The list of an event after a write through the pointer that a search returned.
unfoldable pub put_event_list : List EventList → EventList → List EventList
put_event_list [] l = []
put_event_list (k ∷ ks) l = if k.event_id == l.event_id then l ∷ ks else k ∷ put_event_list ks l

create_list : List EventList → ℕ → Bool × List Bool → Option EventList × List EventList × List Bool
create_list ls event_id (false, mem) = (none, ls, mem)
create_list ls event_id (true, mem) =
    let l : EventList = record { event_id = event_id; list = [] } in (some l, l ∷ ls, mem)

pub event_list_find_or_create :
    List EventList → List Bool → ℕ → Option EventList × List EventList × List Bool
unfolding create_list event_list_find
event_list_find_or_create ls mem event_id = elim (event_list_find ls event_id) [
  | some l ↦ (some l, ls, mem)
  | none ↦ create_list ls event_id (kmalloc mem)
]

-- The response buffer that the entries need: how many results they bring, and the bytes of these.
unfoldable pub read_entries : List IoEntry → ℕ
read_entries [] = 0
read_entries (IoEntry.read e ∷ es) = 1 + read_entries es
read_entries (IoEntry.read_batch e ∷ es) = 1 + read_entries es
read_entries (e ∷ es) = read_entries es

unfoldable pub read_buf_size : ℕ → List IoEntry → ℕ
read_buf_size bytewidth [] = 0
read_buf_size bytewidth (IoEntry.read e ∷ es) = bytewidth + read_buf_size bytewidth es
read_buf_size bytewidth (IoEntry.read_batch e ∷ es) = e.size_in_bytes + read_buf_size bytewidth es
read_buf_size bytewidth (e ∷ es) = read_buf_size bytewidth es

-- The bytes of the results behind the header, as a size_t, and those that are allocated.
unfoldable pub results_bytes : ℕ → List IoEntry → ℕ
unfolding read_entries read_buf_size
results_bytes bytewidth es =
    (read_entries es * io_result_size + read_buf_size bytewidth es) % 2 ^ 64

unfoldable pub resp_size : ℕ → List IoEntry → ℕ
unfolding read_entries read_buf_size
resp_size bytewidth es =
    (response_header_size + read_entries es * io_result_size + read_buf_size bytewidth es) % 2 ^ 64

-- The response as it is allocated.
unfoldable pub prepared_response : ℕ → ℕ → List IoEntry → Response
unfolding results_bytes
prepared_response id bytewidth es = record {
  id = id;
  error_code = 0;
  completion_index = pos 0;
  num_entries = read_entries es;
  results_size_bytes = results_bytes bytewidth es;
  results = [];
}

-- What a call leaves: its return code, the caller's transaction info, the device, the client.
pub record Call (R : Type 0) : Type 0 where
  pub ret : ℕ
  pub info : TransactionInfo
  pub dev : Device R
  pub client : Client

-- What `check_transaction_param_locked` says of the trigger, and the info that it leaves.
pub data Trigger : Type 0 where
  accepted : TransactionInfo → Trigger
  refused : TransactionInfo → Trigger

counter_of : Option DeviceEventState → ℤ
counter_of none = pos 0
counter_of (some s) = pos s.event_counter

-- The event counter that goes back to userspace, -1 without a trigger event.
pub current_counter : {R : Type 0} → Device R → TransactionInfo → ℤ
unfolding counter_of
current_counter d info =
    if info.trigger_event_id == event_id_none
    then negsuc 0
    else counter_of (lwis_device_event_state_find d info.trigger_event_id)

-- A counter that was passed is refused; one that is just met makes the transaction immediate, if
-- the caller allows that.
pub check_trigger : TransactionInfo → Bool → Trigger
check_trigger info allow_counter_eq =
    if not (info.trigger_event_id == event_id_none)
      && explicit_event_counter info.trigger_event_counter
    then if eq_ℤ info.trigger_event_counter info.current_trigger_event_counter
      then if allow_counter_eq
        then accepted (record info { trigger_event_id = event_id_none })
        else refused info
      else if ltb_ℤ info.trigger_event_counter info.current_trigger_event_counter
      then refused info
      else accepted info
    else accepted info

abbrev with_id : Client → TransactionInfo → TransactionInfo
with_id c info = record info { id = c.transaction_counter }

abbrev queue_now : Client → Transaction → Client
queue_now c t =
    if (t.info).run_at_real_time
    then record c {
      transaction_process_queue_tasklet = c.transaction_process_queue_tasklet ++ t ∷ [];
      tasklet_scheduled = true;
      transaction_counter = c.transaction_counter + 1;
    }
    else record c {
      transaction_process_queue = c.transaction_process_queue ++ t ∷ [];
      work_queued = true;
      transaction_counter = c.transaction_counter + 1;
    }

module _ {R : Type 0} where
  -- The event states of both answers, up to the first that cannot be made.
  create_second : TransactionInfo → Bool × Device R × Client → Bool × Device R × Client
  create_second info (false, d, c) = (false, d, c)
  create_second info (true, d, c) = create_states d c info.emit_error_event_id

  created : TransactionInfo → Bool × Device R × Client → Call R
  created info (made, d, c) = record {
    ret = if made then 0 else einval;
    info = info;
    dev = d;
    client = c;
  }

  check_answers : Device R → Client → Trigger → Call R
  unfolding create_second created
  check_answers d c (refused info) = record { ret = enoent; info = info; dev = d; client = c }
  check_answers d c (accepted info) =
      created info (create_second info (create_states d c info.emit_success_event_id))

  pub check_transaction_param_locked : Device R → Client → TransactionInfo → Bool → Call R
  unfolding check_answers check_trigger current_counter
  check_transaction_param_locked d c info allow_counter_eq = check_answers d c (
      check_trigger (record info { current_trigger_event_counter = current_counter d info })
        allow_counter_eq)

  -- `prepare_response_locked`: the response, or `none` for -ENOMEM.
  pub prepare_response_locked : Device R → Client → TransactionInfo → Option Response × Device R
  unfolding prepared_response
  prepare_response_locked d c info =
      let (fits, mem) = kmalloc d.mem in
      (
        if fits
            then some (
                prepared_response c.transaction_counter (d.native_value_bitwidth / 8)
                  info.io_entries)
            else none,
        record d { mem = mem },
      )

  queue_on_event :
      Device R
      → Client
      → TransactionInfo
      → Transaction
      → Option EventList × List EventList × List Bool
      → Call R
  queue_on_event d c info t (none, ls, mem) = record {
    ret = einval;
    info = info;
    dev = record d { mem = mem };
    client = c;
  }
  queue_on_event d c info t (some l, ls, mem) = record {
    ret = 0;
    info = t.info;
    dev = record d { mem = mem };
    client = record c {
      transaction_list = put_event_list ls (record l { list = l.list ++ t ∷ [] });
      transaction_counter = c.transaction_counter + 1;
    };
  }

  -- The time stamp is written to the transaction that was queued.
  pub queue_transaction_locked : Device R → Client → TransactionInfo → Response → Call R
  unfolding queue_on_event event_list_find_or_create
  queue_transaction_locked d c info resp =
      let stamped : TransactionInfo = record info { submission_timestamp_ns = d.now } in
      let t : Transaction = record { info = stamped; resp = resp } in
      if info.trigger_event_id == event_id_none
      then record { ret = 0; info = stamped; dev = d; client = queue_now c t }
      else queue_on_event d c info t
          (event_list_find_or_create c.transaction_list d.mem info.trigger_event_id)

  -- Preparing the response and queueing, which submission and replacement share.
  queue_prepared : Client → TransactionInfo → Option Response × Device R → Call R
  unfolding queue_transaction_locked
  queue_prepared c info (none, d) = record { ret = enomem; info = info; dev = d; client = c }
  queue_prepared c info (some resp, d) = queue_transaction_locked d c info resp

  pub prepare_and_queue : Device R → Client → TransactionInfo → Call R
  unfolding queue_prepared prepare_response_locked
  prepare_and_queue d c info = queue_prepared c (with_id c info) (prepare_response_locked d c info)

  pub lwis_transaction_submit_locked : Device R → Client → TransactionInfo → Call R
  unfolding prepare_and_queue check_transaction_param_locked
  lwis_transaction_submit_locked d c info =
      let r : Call R = check_transaction_param_locked d c info info.allow_counter_eq in
      if r.ret == 0 then prepare_and_queue r.dev r.client r.info else r
