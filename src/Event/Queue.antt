-- ===== src/Event/Queue.antt =====
-- lwis_event.c: the two bounded event queues of a client.
pub mod Frame
pub mod Laws
use google_modules_lwis.Prelude.{
  ℕ, ◌+◌, ◌-◌, Bool, true, false, Option, none, some, List, [], ◌∷◌, ◌++◌, leb, ltb, ◌||◌, not,
  if◌then◌else◌,
}
use google_modules_lwis.Errno.{eoverflow}
use google_modules_lwis.Commands.{
  EventEntry, Payload, start_of_error_range, start_of_specialized_range, lt_signed,
}
use google_modules_lwis.Device.{Client, kmalloc}

-- MAX_NUM_PENDING_EVENTS.
abbrev pub max_num_pending_events : ℕ
max_num_pending_events = 2048

-- A queue and its size, as `event_queue_get_front` leaves them, and the event; `none` is -ENOENT.
pub event_queue_get_front : List EventEntry → ℕ → Bool → Option (EventEntry × List EventEntry × ℕ)
event_queue_get_front [] size should_remove_entry = none
event_queue_get_front (e ∷ es) size should_remove_entry =
    some (
      e,
      if should_remove_entry then es else e ∷ es,
      if should_remove_entry then size - 1 else size,
    )

-- The client with a queue that was taken from; nothing changes where the queue was empty.
store_queue : Client → Option (EventEntry × List EventEntry × ℕ) → Option EventEntry × Client
store_queue c none = (none, c)
store_queue c (some (e, queue, size)) =
    (some e, record c { event_queue = queue; event_queue_size = size })

store_error_queue : Client → Option (EventEntry × List EventEntry × ℕ) → Option EventEntry × Client
store_error_queue c none = (none, c)
store_error_queue c (some (e, queue, size)) =
    (some e, record c { error_event_queue = queue; error_event_queue_size = size })

pub lwis_client_event_pop_front : Client → Option EventEntry × Client
unfolding store_queue event_queue_get_front
lwis_client_event_pop_front c =
    store_queue c (event_queue_get_front c.event_queue c.event_queue_size true)

pub lwis_client_event_peek_front : Client → Option EventEntry × Client
unfolding store_queue event_queue_get_front
lwis_client_event_peek_front c =
    store_queue c (event_queue_get_front c.event_queue c.event_queue_size false)

pub lwis_client_event_queue_clear : Client → Client
lwis_client_event_queue_clear c = record c { event_queue = []; event_queue_size = 0 }

pub lwis_client_error_event_pop_front : Client → Option EventEntry × Client
unfolding store_error_queue event_queue_get_front
lwis_client_error_event_pop_front c =
    store_error_queue c (event_queue_get_front c.error_event_queue c.error_event_queue_size true)

pub lwis_client_error_event_peek_front : Client → Option EventEntry × Client
unfolding store_error_queue event_queue_get_front
lwis_client_error_event_peek_front c =
    store_error_queue c (event_queue_get_front c.error_event_queue c.error_event_queue_size false)

pub lwis_client_error_event_queue_clear : Client → Client
lwis_client_error_event_queue_clear c = record c {
  error_event_queue = [];
  error_event_queue_size = 0;
}

-- `none` is -EOVERFLOW.
pub lwis_client_error_event_push_back : Client → EventEntry → Option Client
lwis_client_error_event_push_back c event =
    if leb max_num_pending_events c.error_event_queue_size
    then none
    else some (record c {
      error_event_queue = c.error_event_queue ++ event ∷ [];
      error_event_queue_size = c.error_event_queue_size + 1;
    })

-- The loop of `lwis_device_error_event_emit` over the clients: it stops at the first failure.
emit_step :
    Client
    → List Client
    → Option Client
    → List Client × List Bool
    → List Bool
    → List Client × List Bool
emit_step c cs none rest mem = (c ∷ cs, mem)
emit_step c cs (some c') (cs', mem') mem = (c' ∷ cs', mem')

pub error_emit_loop : List Client → List Bool → EventEntry → List Client × List Bool
unfolding emit_step
error_emit_loop [] mem event = ([], mem)
error_emit_loop (c ∷ cs) mem event =
    let (fits, mem') = kmalloc mem in
    let rest : List Client × List Bool = error_emit_loop cs mem' event in
    if fits
    then emit_step c cs (lwis_client_error_event_push_back c event) rest mem'
    else (c ∷ cs, mem')

-- An event id outside of the error range is refused.
pub lwis_device_error_event_emit :
    List Client → List Bool → ℕ → ℕ → Payload → List Client × List Bool
lwis_device_error_event_emit clients mem now event_id payload =
    if lt_signed event_id start_of_error_range
      || not (lt_signed event_id start_of_specialized_range)
    then (clients, mem)
    else error_emit_loop clients mem
        (record { event_id = event_id; event_counter = 0; timestamp_ns = now; payload = payload })

-- What a push into the event queue leaves: the client, or an overflow.
pub data Push : Type 0 where
  pushed : Client → Push
  overflow : Push

-- `lwis_client_event_push_back` up to the overflow, at which `push_back` goes on.
unfoldable pub enqueue : Client → EventEntry → Push
enqueue c event =
    if leb max_num_pending_events c.event_queue_size
    then overflow
    else pushed (record c {
      event_queue = c.event_queue ++ event ∷ [];
      event_queue_size = c.event_queue_size + 1;
    })
