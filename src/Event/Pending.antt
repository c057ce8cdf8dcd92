-- ===== src/Event/Pending.antt =====
-- lwis_event.c, `lwis_pending_event_push`: events that wait until the current one is done with.
use google_modules_lwis.Prelude.{ℕ, Bool, List, [], ◌∷◌, ◌++◌, if◌then◌else◌}
use google_modules_lwis.Commands.{EventEntry, Payload}
use google_modules_lwis.Device.{kmalloc}

abbrev pub pending_entry : ℕ → Payload → EventEntry
pending_entry event_id payload = record {
  event_id = event_id;
  event_counter = 0;
  timestamp_ns = 0;
  payload = payload;
}

-- The queue and the allocations that are left; an event that finds no memory is lost.
unfoldable pub lwis_pending_event_push :
    List EventEntry → List Bool → ℕ → Payload → List EventEntry × List Bool
lwis_pending_event_push pending mem event_id payload =
    let (fits, mem') = kmalloc mem in
    (if fits then pending ++ pending_entry event_id payload ∷ [] else pending, mem')
