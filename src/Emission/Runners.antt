-- ===== src/Emission/Runners.antt =====
-- lwis_event.c, lwis_transaction.c: what starts an emission besides a call of it: an event of another
-- device, the queues of transactions that were put off, and the heartbeat.
use google_modules_lwis.Prelude.{
  ℕ, ◌+◌, ◌*◌, ◌^◌, Bool, true, false, Option, none, some, List, [], ◌∷◌, ◌++◌, ◌==◌, if◌then◌else◌,
}
use google_modules_lwis.Errno.{einval}
use google_modules_lwis.Commands.{null, event_id_heartbeat}
use google_modules_lwis.Io.{Vops}
use google_modules_lwis.Device.{Device, DeviceEventState, Client, Transaction}
use google_modules_lwis.Event.States.{lwis_device_event_state_find, put_device_state}
use google_modules_lwis.Transaction.Process.{Work, process_queue}
use google_modules_lwis.Emission.{
  Emission, notify_clients, lwis_pending_events_emit, lwis_device_event_emit,
}

module _ {R : Type 0} where
  module _ (vops : Vops R) (in_irq : Bool) where
    external_found :
        ℕ → Device R → List Client → ℕ → ℕ → ℕ → Option DeviceEventState → Option (Emission R)
    external_found fuel d clients event_id event_counter timestamp none =
        some (record { ret = einval; dev = d; clients = clients; pending = [] })
    external_found fuel d clients event_id event_counter timestamp (some s) =
        let r : Emission R =
          notify_clients vops in_irq
            (record d {
              event_states =
                  put_device_state d.event_states (record s { event_counter = event_counter });
            })
            [] clients
            (record {
              event_id = event_id;
              event_counter = event_counter;
              timestamp_ns = timestamp;
              payload = null;
            })
            [] in
        let rest : Option (Emission R) =
          lwis_pending_events_emit vops in_irq fuel 0 r.dev r.clients r.pending in
        if r.ret == 0 then rest else some r

    -- The function returns nothing; the return code of the model says why it ended.
    pub lwis_device_external_event_emit :
        ℕ → Device R → List Client → ℕ → ℕ → ℕ → Option (Emission R)
    unfolding external_found
    lwis_device_external_event_emit fuel d clients event_id event_counter timestamp =
        external_found fuel d clients event_id event_counter timestamp
          (lwis_device_event_state_find d event_id)

  module _ (vops : Vops R) where
    -- `process_transactions_in_queue` on a client between others, for the queue that was taken.
    pub process_transactions_in_queue :
        ℕ
        → Device R
        → List Client
        → Client
        → List Client
        → List Transaction
        → Bool
        → Option (Emission R)
    process_transactions_in_queue fuel d before c after queue in_irq =
        let w : Work R =
          process_queue vops (record { dev = d; client = c; pending = [] }) queue in_irq in
        lwis_pending_events_emit vops in_irq fuel 0 w.dev (before ++ w.client ∷ after) w.pending

    pub transaction_tasklet_func :
        ℕ → Device R → List Client → Client → List Client → Option (Emission R)
    unfolding process_transactions_in_queue
    transaction_tasklet_func fuel d before c after =
        process_transactions_in_queue fuel d before
          (record c { transaction_process_queue_tasklet = []; tasklet_scheduled = false }) after
          c.transaction_process_queue_tasklet true

    pub transaction_work_func :
        ℕ → Device R → List Client → Client → List Client → Option (Emission R)
    unfolding process_transactions_in_queue
    transaction_work_func fuel d before c after =
        process_transactions_in_queue fuel d before
          (record c { transaction_process_queue = []; work_queued = false }) after
          c.transaction_process_queue false

    pub lwis_device_event_heartbeat_timer : ℕ → Device R → List Client → Option (Emission R)
    unfolding lwis_device_event_emit
    lwis_device_event_heartbeat_timer fuel d clients =
        lwis_device_event_emit vops false fuel d clients (event_id_heartbeat + d.id * 2 ^ 32) null
