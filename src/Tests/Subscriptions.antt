-- ===== src/Tests/Subscriptions.antt =====
-- The top device with two devices, one of which subscribes to an event of the other.
use google_modules_lwis.Prelude.{ℕ, ◌≤◌, ◌<◌, ◌≡◌, refl, true, false, List, [], ◌∷◌, arith}
use google_modules_lwis.Errno.{einval}
use google_modules_lwis.Commands.{IoEntry, RwBatch}
use google_modules_lwis.Top.{
  SubscriberList, TriggerEvent, TopDevice, World, lwis_top_event_subscribe, subscribe_tasklet_func,
  event_subscriber_list_find,
}
use google_modules_lwis.Top.Scratch.{lwis_top_register_io, lwis_top_register_io-round_trip}
use google_modules_lwis.Top.Table.{dev_count, subscribers_of, subscriptions, lists_of, IsTable}
use google_modules_lwis.Top.Subscribed.{Subscribes, lwis_top_event_subscribe-Subscribes}
use google_modules_lwis.Top.Deliveries.{received, wanted, subscribe_tasklet_func-received}
use google_modules_lwis.Tests.{device, irq_event}

abbrev scratch : List ℕ
scratch = 0 ∷ 0 ∷ 0 ∷ 0 ∷ 0 ∷ 0 ∷ 0 ∷ 0 ∷ 0 ∷ 0 ∷ 0 ∷ 0 ∷ 0 ∷ 0 ∷ 0 ∷ 0 ∷ []

abbrev subscribed_list : SubscriberList
subscribed_list = record {
  trigger_event_id = irq_event;
  list = record { event_id = irq_event; subscriber_dev = 4; trigger_dev = 3 } ∷ [];
}

abbrev pending_event : TriggerEvent
pending_event = record {
  trigger_event_id = irq_event;
  trigger_event_count = 7;
  trigger_event_timestamp = 100;
}

abbrev top : TopDevice
top = record {
  scratch_mem = scratch;
  event_subscribers = subscribed_list ∷ [];
  emitted_event_list_tasklet = pending_event ∷ [];
  tasklet_scheduled = true;
}

abbrev world : World ℕ
world = record { top = top; devices = device ∷ record device { id = 4 } ∷ []; mem = [] }

one_list : (event_id : ℕ) → lists_of top.event_subscribers event_id ≤ 1
unfolding lists_of
one_list event_id = ground arith

once : (event_id id : ℕ) → subscriptions top.event_subscribers event_id id ≤ 1
unfolding subscriptions event_subscriber_list_find subscribers_of dev_count
once event_id id = ground arith

table : IsTable top.event_subscribers
table = record { one_list = one_list; once = once }

lwis_top_event_subscribe-Subscribes_example :
    Subscribes world irq_event 3 (lwis_top_event_subscribe world irq_event 3 3)
lwis_top_event_subscribe-Subscribes_example =
    lwis_top_event_subscribe-Subscribes world irq_event 3 3 table

subscribe_tasklet_func-received_example :
    (received 4 (subscribe_tasklet_func top).0
      ≡ wanted top.event_subscribers 4 (pending_event ∷ []))
    × ((subscribe_tasklet_func top).1.emitted_event_list_tasklet ≡ [])
subscribe_tasklet_func-received_example = subscribe_tasklet_func-received top 4 table

abbrev batch : RwBatch
batch = record {
  bid = 0;
  offset = 14;
  size_in_bytes = 2;
  buf = 5 ∷ 6 ∷ [];
  is_offset_fixed = false;
}

lwis_top_register_io-round_trip_example :
    (16 ≤ 16
      → (lwis_top_register_io
          (lwis_top_register_io scratch (IoEntry.write_batch batch) 8).regs
          (IoEntry.read_batch batch)
          8).bytes
        ≡ 5 ∷ 6 ∷ [])
    × (16 < 16
        → ((lwis_top_register_io scratch (IoEntry.write_batch batch) 8).ret ≡ einval)
          × ((lwis_top_register_io scratch (IoEntry.write_batch batch) 8).regs ≡ scratch)
          × ((lwis_top_register_io scratch (IoEntry.read_batch batch) 8).ret ≡ einval))
lwis_top_register_io-round_trip_example = lwis_top_register_io-round_trip scratch batch 8 refl refl
