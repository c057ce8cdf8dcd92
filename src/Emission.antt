-- ===== src/Emission.antt =====
-- lwis_event.c and lwis_transaction.c: emitting an event to every client of a device, which sets
-- transactions off, whose answers are emitted in turn.
pub mod Ends
pub mod Flush
pub mod Bounded
pub mod Delivery
pub mod Counting
pub mod Runners
use google_modules_lwis.Prelude.{
  ℕ, zero, suc, ◌+◌, ◌*◌, ◌^◌, Bool, true, false, Option, none, some, List, [], ◌∷◌, ◌++◌, ◌==◌,
  not, if◌then◌else◌,
}
use google_modules_lwis.Errno.{enomem, einval, eoverflow}
use google_modules_lwis.Commands.{
  EventControl, EventEntry, Payload, null, has_queue_enable, error_event_queue_overflow,
  event_id_heartbeat,
}
use google_modules_lwis.Io.{Vops}
use google_modules_lwis.Device.{Device, DeviceEventState, Client, Transaction, kmalloc}
use google_modules_lwis.Event.States.{
  lwis_client_event_state_find, lwis_device_event_state_find, put_device_state,
  save_device_event_state_to_history_locked,
}
use google_modules_lwis.Event.Queue.{Push, pushed, overflow, enqueue, lwis_device_error_event_emit}
use google_modules_lwis.Transaction.Process.{Work, process_queue}
use google_modules_lwis.Transaction.Trigger.{lwis_transaction_event_trigger}

-- A device with all of its clients in the middle of an emission, and its return code.
pub record Emission (R : Type 0) : Type 0 where
  pub ret : ℕ
  pub dev : Device R
  pub clients : List Client
  pub pending : List EventEntry

-- A push into the queue of one client leaves that client, or ends the emission.
pub data PushBack (R : Type 0) : Type 0 where
  queued : Client → PushBack R
  full : Device R → List Client → PushBack R

-- The round of one client goes on with the next, or ends the emission.
pub data Round (R : Type 0) : Type 0 where
  go_on : Work R → Round R
  stop : Emission R → Round R

abbrev queue_enabled : Option EventControl → Bool
queue_enabled none = false
queue_enabled (some s) = has_queue_enable s.flags

-- Whether the client asked for the event in its queue.
unfoldable pub wants : Client → ℕ → Bool
wants c event_id = queue_enabled (lwis_client_event_state_find c event_id)

-- The queue without its front.
abbrev pub drop_front : List EventEntry → List EventEntry
drop_front [] = []
drop_front (e ∷ es) = es

module _ {R : Type 0} where
  full_queue : Device R → List Client × List Bool → PushBack R
  full_queue d (clients, mem) = full (record d { mem = mem }) clients

  -- `c` stands between the clients `before` and `after`; its full queue is an error event for all.
  unfoldable pub lwis_client_event_push_back :
      Device R → List Client → Client → List Client → EventEntry → PushBack R
  unfolding full_queue
  lwis_client_event_push_back d before c after event = elim (enqueue c event) [
    | pushed c' ↦ queued c'
    | overflow ↦ full_queue d (
        lwis_device_error_event_emit (before ++ c ∷ after) d.mem d.now error_event_queue_overflow
          null)
  ]

  module _ (vops : Vops R) (in_irq : Bool) where
    trigger_client : Device R → Client → EventEntry → List EventEntry → Round R
    trigger_client d c event pending = go_on (
        lwis_transaction_event_trigger vops (record { dev = d; client = c; pending = pending })
          event.event_id event.event_counter in_irq)

    after_push : Device R → EventEntry → List EventEntry → PushBack R → Round R
    unfolding trigger_client
    after_push d event pending (queued c) = trigger_client d c event pending
    after_push d event pending (full d' clients) =
        stop (record { ret = eoverflow; dev = d'; clients = clients; pending = pending })

    unfoldable pub notify_client :
        Device R → List Client → Client → List Client → EventEntry → List EventEntry → Round R
    unfolding trigger_client after_push
    notify_client d before c after event pending =
        let (fits, mem) = kmalloc d.mem in
        let d' : Device R = record d { mem = mem } in
        if not (wants c event.event_id)
        then trigger_client d c event pending
        else if not fits
        then stop
            (record { ret = enomem; dev = d'; clients = before ++ c ∷ after; pending = pending })
        else after_push d' event pending (lwis_client_event_push_back d' before c after event)

    -- The loop over the clients; those `before` have been notified.
    unfoldable pub notify_clients :
        Device R → List Client → List Client → EventEntry → List EventEntry → Emission R
    notify_clients d before [] event pending = record {
      ret = 0;
      dev = d;
      clients = before;
      pending = pending;
    }
    notify_clients d before (c ∷ cs) event pending =
        elim (notify_client d before c cs event pending) [
          | stop e ↦ e
          | go_on w ↦ notify_clients w.dev (before ++ w.client ∷ []) cs event w.pending
        ]

    -- The device's own state of the event: its counter, the history, the subscriber.
    count_event : DeviceEventState → DeviceEventState
    count_event s = record s { event_counter = s.event_counter + 1 }

    notify_subscriber : Device R → ℕ → DeviceEventState → Device R
    notify_subscriber d event_id s =
        if s.has_subscriber
        then record d {
          notified =
              d.notified
              ++ record {
                event_id = event_id;
                event_counter = s.event_counter;
                timestamp = d.now;
                in_irq = in_irq;
              }
                ∷ [];
        }
        else d

    handle : Device R → ℕ → Payload → Payload × Device R
    handle d event_id payload = elim vops.event_emitted [
      | none ↦ (payload, d)
      | some emitted ↦
          let (payload', regs) = emitted d.regs event_id payload in
          (payload', record d { regs = regs })
    ]

    pub counted : Device R → ℕ → DeviceEventState → Device R
    unfolding notify_subscriber save_device_event_state_to_history_locked
    counted d event_id s =
        notify_subscriber
          (save_device_event_state_to_history_locked
            (record d { event_states = put_device_state d.event_states s }) s d.now)
          event_id s

    emit_to_clients : List Client → ℕ → ℕ → List EventEntry → Payload × Device R → Emission R
    emit_to_clients clients event_id event_counter pending (payload, d) =
        notify_clients d [] clients
          (record {
            event_id = event_id;
            event_counter = event_counter;
            timestamp_ns = d.now;
            payload = payload;
          })
          pending

    emit_found :
        Device R
        → List Client
        → ℕ
        → Payload
        → List EventEntry
        → Option DeviceEventState
        → Emission R
    unfolding count_event handle counted emit_to_clients
    emit_found d clients event_id payload pending none = record {
      ret = einval;
      dev = d;
      clients = clients;
      pending = pending;
    }
    emit_found d clients event_id payload pending (some s) =
        emit_to_clients clients event_id (s.event_counter + 1) pending
          (handle (counted d event_id (count_event s)) event_id payload)

    unfoldable pub lwis_device_event_emit_impl :
        Device R → List Client → ℕ → Payload → List EventEntry → Emission R
    unfolding emit_found notify_clients
    lwis_device_event_emit_impl d clients event_id payload pending =
        emit_found d clients event_id payload pending (lwis_device_event_state_find d event_id)

    -- `lwis_pending_events_emit`: `none` if `fuel` rounds do not empty the queue. The front stays
    -- in the queue while it is emitted. `ret` is the last failure so far.
    pub lwis_pending_events_emit :
        ℕ → ℕ → Device R → List Client → List EventEntry → Option (Emission R)
    lwis_pending_events_emit fuel ret d clients [] =
        some (record { ret = ret; dev = d; clients = clients; pending = [] })
    lwis_pending_events_emit zero ret d clients (e ∷ es) = none
    lwis_pending_events_emit (suc fuel) ret d clients (e ∷ es) =
        let r : Emission R = lwis_device_event_emit_impl d clients e.event_id e.payload (e ∷ es) in
        lwis_pending_events_emit fuel (if r.ret == 0 then ret else r.ret) r.dev r.clients
          (drop_front r.pending)

    -- A failure of the first emission returns at once, and drops what is pending.
    pub lwis_device_event_emit : ℕ → Device R → List Client → ℕ → Payload → Option (Emission R)
    unfolding lwis_device_event_emit_impl lwis_pending_events_emit
    lwis_device_event_emit fuel d clients event_id payload =
        let r : Emission R = lwis_device_event_emit_impl d clients event_id payload [] in
        let rest : Option (Emission R) =
          lwis_pending_events_emit fuel 0 r.dev r.clients r.pending in
        if r.ret == 0 then rest else some r
