-- ===== src/Tests/Emissions.antt =====
-- Emissions of one event to two clients.
use google_modules_lwis.Prelude.{
  ℕ, ◌+◌, ◌≡◌, refl, false, some, [], map, arith, All, if◌then◌else◌, ◌==◌,
}
use google_modules_lwis.Commands.{null}
use google_modules_lwis.Event.States.{
  lwis_device_event_state_find, find_device_state, lwis_client_event_state_find, find_client_state,
}
use google_modules_lwis.Event.Queue.{enqueue}
use google_modules_lwis.Transaction.Trigger.{lwis_transaction_event_trigger}
use google_modules_lwis.Event.Queue.Laws.{IsBounded}
use google_modules_lwis.Event.Queue.Frame.{lists_of}
use google_modules_lwis.Transaction.Trigger.Calm.{waiting}
use google_modules_lwis.Emission.{
  Emission, notify_client, notify_clients, wants, lwis_client_event_push_back,
  lwis_device_event_emit_impl, lwis_device_event_emit,
}
use google_modules_lwis.Emission.Ends.{AllCalm, waiting_all, device_event_emit-returns}
use google_modules_lwis.Emission.Bounded.{device_event_emit-Bounded}
use google_modules_lwis.Emission.Delivery.{queues, delivered, device_event_emit_impl-Delivers}
use google_modules_lwis.Emission.Counting.{device_event_emit_impl-counts}
use google_modules_lwis.Tests.{vops, irq_event, irq_state, device, clients}

found_irq : lwis_device_event_state_find device irq_event ≡ some irq_state
unfolding lwis_device_event_state_find find_device_state
found_irq = refl

emitted_ret : (lwis_device_event_emit_impl vops false device clients irq_event null []).ret ≡ 0
unfolding lwis_device_event_emit_impl lwis_device_event_state_find find_device_state
    lwis_client_event_state_find find_client_state notify_client notify_clients wants
    lwis_client_event_push_back enqueue lwis_transaction_event_trigger
emitted_ret = refl

device_event_emit_impl-Delivers_example :
    queues (lwis_device_event_emit_impl vops false device clients irq_event null []).clients
    ≡ map
        (delivered (record {
          event_id = irq_event;
          event_counter = 6 + 1;
          timestamp_ns = 100;
          payload = null;
        }))
        clients
device_event_emit_impl-Delivers_example =
    device_event_emit_impl-Delivers vops false device clients irq_event null [] irq_state refl
      found_irq emitted_ret

device_event_emit_impl-counts_example :
    lwis_device_event_state_find
      (lwis_device_event_emit_impl vops false device clients irq_event null []).dev
      irq_event
    ≡ (if irq_event == irq_event
        then some (record irq_state { event_counter = 6 + 1 })
        else lwis_device_event_state_find device irq_event)
device_event_emit_impl-counts_example =
    device_event_emit_impl-counts vops false device clients irq_event irq_event null [] irq_state
      found_irq

clients-IsBounded : All IsBounded clients
clients-IsBounded = (
  record {
    counted = refl;
    limited = omega arith;
    error_counted = refl;
    error_limited = omega arith;
  },
  (
    record {
      counted = refl;
      limited = omega arith;
      error_counted = refl;
      error_limited = omega arith;
    },
    tt,
  ),
)

clients-calm : AllCalm (lists_of clients)
clients-calm = (((refl, (refl, tt)), tt), ((tt, tt), tt))

waiting_two : waiting_all (lists_of clients) ≡ 2
unfolding waiting_all waiting
waiting_two = refl

device_event_emit-returns_example :
    (e : Emission ℕ) × (lwis_device_event_emit vops false 2 device clients irq_event null ≡ some e)
device_event_emit-returns_example =
    device_event_emit-returns vops false 2 device clients irq_event null clients-calm
      (omega (arith, waiting_two))

device_event_emit-Bounded_example : All IsBounded device_event_emit-returns_example.0.clients
device_event_emit-Bounded_example =
    device_event_emit-Bounded vops false 2 device clients irq_event null
      device_event_emit-returns_example.0 clients-IsBounded device_event_emit-returns_example.1
