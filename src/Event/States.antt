-- ===== src/Event/States.antt =====
-- lwis_event.c: the tables of event states that a device and a client keep.
pub mod Laws
use google_modules_lwis.Prelude.{
  ℕ, ◌+◌, Bool, true, false, Option, none, some, List, [], ◌∷◌, ◌==◌, leb, if◌then◌else◌, set,
}
use google_modules_lwis.Prelude.Int.{pos}
use google_modules_lwis.Commands.{EventControl}
use google_modules_lwis.Device.{
  Device, Client, DeviceEventState, EventHistory, kmalloc, next_index, event_debug_history_size,
}

unfoldable pub find_client_state : List EventControl → ℕ → Option EventControl
find_client_state [] event_id = none
find_client_state (p ∷ ps) event_id =
    if p.event_id == event_id then some p else find_client_state ps event_id

unfoldable pub find_device_state : List DeviceEventState → ℕ → Option DeviceEventState
find_device_state [] event_id = none
find_device_state (p ∷ ps) event_id =
    if p.event_id == event_id then some p else find_device_state ps event_id

-- A state object is reached through its pointer: the write to the entry that a search found.
unfoldable pub put_client_state : List EventControl → EventControl → List EventControl
put_client_state [] s = []
put_client_state (p ∷ ps) s = if p.event_id == s.event_id then s ∷ ps else p ∷ put_client_state ps s

unfoldable pub put_device_state : List DeviceEventState → DeviceEventState → List DeviceEventState
put_device_state [] s = []
put_device_state (p ∷ ps) s = if p.event_id == s.event_id then s ∷ ps else p ∷ put_device_state ps s

unfoldable pub lwis_client_event_state_find : Client → ℕ → Option EventControl
lwis_client_event_state_find c event_id = find_client_state c.event_states event_id

-- The state that `kmalloc` makes for a new event of a client.
abbrev pub new_client_state : ℕ → EventControl
new_client_state event_id = record { event_id = event_id; flags = 0 }

abbrev pub new_device_state : ℕ → DeviceEventState
new_device_state event_id = record {
  event_id = event_id;
  enable_counter = pos 0;
  event_counter = 0;
  has_subscriber = false;
}

-- The result is the state, or `none` for -ENOMEM.
create_client_state :
    Client → List Bool → ℕ → Bool × List Bool → Option EventControl × Client × List Bool
create_client_state c mem event_id (false, mem') = (none, c, mem')
create_client_state c mem event_id (true, mem') = (
  some (new_client_state event_id),
  record c { event_states = new_client_state event_id ∷ c.event_states },
  mem',
)

unfoldable pub lwis_client_event_state_find_or_create :
    Client → List Bool → ℕ → Option EventControl × Client × List Bool
unfolding create_client_state lwis_client_event_state_find find_client_state
lwis_client_event_state_find_or_create c mem event_id =
    elim (lwis_client_event_state_find c event_id) [
      | some s ↦ (some s, c, mem)
      | none ↦ create_client_state c mem event_id (kmalloc mem)
    ]

module _ {R : Type 0} where
  unfoldable pub lwis_device_event_state_find : Device R → ℕ → Option DeviceEventState
  lwis_device_event_state_find d event_id = find_device_state d.event_states event_id

  create_device_state : Device R → ℕ → Bool × List Bool → Option DeviceEventState × Device R
  create_device_state d event_id (false, mem) = (none, record d { mem = mem })
  create_device_state d event_id (true, mem) = (
    some (new_device_state event_id),
    record d { event_states = new_device_state event_id ∷ d.event_states; mem = mem },
  )

  unfoldable pub lwis_device_event_state_find_or_create :
      Device R → ℕ → Option DeviceEventState × Device R
  unfolding create_device_state lwis_device_event_state_find find_device_state
  lwis_device_event_state_find_or_create d event_id =
      elim (lwis_device_event_state_find d event_id) [
        | some s ↦ (some s, d)
        | none ↦ create_device_state d event_id (kmalloc d.mem)
      ]

  unfoldable pub save_device_event_state_to_history_locked :
      Device R → DeviceEventState → ℕ → Device R
  save_device_event_state_to_history_locked d s timestamp = record d {
    event_hist =
        set d.event_hist d.cur_event_hist_idx (record { state = s; timestamp = timestamp });
    cur_event_hist_idx = next_index event_debug_history_size d.cur_event_hist_idx;
  }

  pub lwis_device_event_states_clear_locked : Device R → Device R
  lwis_device_event_states_clear_locked d = record d { event_states = [] }

  update_found : Device R → Bool → Option DeviceEventState → Option (Device R)
  update_found d has_subscriber none = none
  update_found d has_subscriber (some s) = some (record d {
    event_states = put_device_state d.event_states (record s { has_subscriber = has_subscriber });
  })

  -- `none` is -EINVAL: the device has no such event.
  pub lwis_device_event_update_subscriber : Device R → ℕ → Bool → Option (Device R)
  unfolding update_found lwis_device_event_state_find
  lwis_device_event_update_subscriber d event_id has_subscriber =
      update_found d has_subscriber (lwis_device_event_state_find d event_id)

  client_side : Device R → Option EventControl × Client × List Bool → Bool × Device R × Client
  client_side d (none, c, mem) = (false, record d { mem = mem }, c)
  client_side d (some _, c, mem) = (true, record d { mem = mem }, c)

  unfoldable pub device_side :
      Client → ℕ → Option DeviceEventState × Device R → Bool × Device R × Client
  unfolding client_side
  device_side c event_id (none, d) = (false, d, c)
  device_side c event_id (some _, d) =
      client_side d (lwis_client_event_state_find_or_create c d.mem event_id)

  -- The event's state in the device, then in the client, as the callers' `||` makes them.
  unfoldable pub create_states : Device R → Client → ℕ → Bool × Device R × Client
  unfolding device_side
  create_states d c event_id =
      device_side c event_id (lwis_device_event_state_find_or_create d event_id)
