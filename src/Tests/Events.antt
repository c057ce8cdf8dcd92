-- ===== src/Tests/Events.antt =====
-- Queues, flags and polls.
use google_modules_lwis.Prelude.{
  ℕ, ◌≡◌, ◌≢◌, refl, true, false, Option, none, some, [], ◌∷◌, arith, set, map, ◌==◌, ◌||◌,
}
use google_modules_lwis.Prelude.Int.{pos}
use google_modules_lwis.Commands.{null, EventControl, ReadAssert}
use google_modules_lwis.Io.{lwis_io_entry_poll, lwis_io_entry_read_assert}
use google_modules_lwis.Io.Poll.{Polled, lwis_io_entry_poll-Polled}
use google_modules_lwis.Event.Control.{
  toggle_flags, check_event_control_flags, lwis_device_event_flags_updated,
}
use google_modules_lwis.Event.Control.Counter.{enabled_count, toggle_flags-counts}
use google_modules_lwis.Event.Queue.{lwis_device_error_event_emit}
use google_modules_lwis.Event.Queue.Laws.{
  add_error, error_event_emit-adds, IsBounded, ReaderCall, reader_call, push_all, pop_n,
  pop_n-push_all, reader_call-IsBounded,
}
use google_modules_lwis.Event.States.{
  lwis_client_event_state_find_or_create, lwis_client_event_state_find, find_client_state,
  lwis_device_event_state_find_or_create, lwis_device_event_state_find, find_device_state,
}
use google_modules_lwis.Event.Subscribe.{
  Topology, Site, lwis_client_event_control_set, lwis_client_event_control_get,
}
use google_modules_lwis.Event.Subscribe.Flags.{control_set-get}
use google_modules_lwis.Tests.{vops, irq_event, device, entry, client}

abbrev never : ReadAssert
never = record { bid = 0; offset = 4; val = 1; mask = 2; timeout_ms = 2 }

lwis_io_entry_poll-Polled_example :
    Polled vops never 32 7 false (lwis_io_entry_poll vops 7 never false 32)
lwis_io_entry_poll-Polled_example = lwis_io_entry_poll-Polled vops never 32 7 false

never_holds : (lwis_io_entry_read_assert vops 7 never 32).0 ≢ 0
unfolding lwis_io_entry_read_assert
never_holds e = absurd (omega (arith, e))

toggle_flags-counts_example :
    ((toggle_flags (pos (enabled_count (1 ∷ 2 ∷ 4 ∷ []))) 2 3).enable_counter
      ≡ pos (enabled_count (set (1 ∷ 2 ∷ 4 ∷ []) 1 3)))
    × ((toggle_flags (pos (enabled_count (1 ∷ 2 ∷ 4 ∷ []))) 2 3).event_enabled ≡ true)
    × ((toggle_flags (pos (enabled_count (1 ∷ 2 ∷ 4 ∷ []))) 2 3).call_enable_cb
        ≡ (enabled_count (1 ∷ 2 ∷ 4 ∷ []) == 0 || enabled_count (set (1 ∷ 2 ∷ 4 ∷ []) 1 3) == 0))
toggle_flags-counts_example =
    toggle_flags-counts (1 ∷ 2 ∷ 4 ∷ []) 1 2 3 refl (λ e. absurd (ground (arith, e)))

pop_n-push_all_example :
    pop_n 3 (push_all (client 3 []) (entry 7 ∷ entry 8 ∷ [])) ≡ entry 6 ∷ entry 7 ∷ entry 8 ∷ []
pop_n-push_all_example = pop_n-push_all (client 3 []) (entry 7 ∷ entry 8 ∷ []) (omega arith)

reader_call-IsBounded_example : IsBounded (reader_call ReaderCall.pop (client 3 []))
reader_call-IsBounded_example = reader_call-IsBounded ReaderCall.pop (client 3 []) (record {
  counted = refl;
  limited = omega arith;
  error_counted = refl;
  error_limited = omega arith;
})

abbrev site : Site ℕ ℕ
site = record { dev = device; client = client 3 []; others = 0 }

abbrev no_topology : Option (Topology ℕ)
no_topology = none

abbrev control : EventControl
control = record { event_id = irq_event; flags = 5 }

control_ok : (lwis_client_event_control_set vops no_topology site control).0 ≡ 0
unfolding lwis_client_event_control_set lwis_client_event_state_find_or_create
    lwis_client_event_state_find find_client_state lwis_device_event_state_find_or_create
    lwis_device_event_state_find find_device_state check_event_control_flags
    lwis_device_event_flags_updated
control_ok = refl

control_set-get_example :
    lwis_client_event_control_get
      (lwis_client_event_control_set vops no_topology site control).1
      irq_event
    ≡ (0, some 5, (lwis_client_event_control_set vops no_topology site control).1)
control_set-get_example = control_set-get vops no_topology site control control_ok

error_event_emit-adds_example :
    (lwis_device_error_event_emit (client 3 [] ∷ client 1 [] ∷ []) [] 100 2050 null).0
    ≡ map
        (add_error
          (record { event_id = 2050; event_counter = 0; timestamp_ns = 100; payload = null }))
        (client 3 [] ∷ client 1 [] ∷ [])
error_event_emit-adds_example =
    error_event_emit-adds (client 3 [] ∷ client 1 [] ∷ []) 100 2050 null (omega arith) (omega arith)
      (omega arith, (omega arith, tt))
