-- ===== src/Event/Subscribe.antt =====
-- lwis_event.c: what a client's call of the event controls does to its own table, to the device
-- and, for an event of another device, to the subscriptions that the top device keeps.
pub mod Flags
use google_modules_lwis.Prelude.{
  ℕ, Bool, true, false, Option, none, some, List, ◌==◌, not, if◌then◌else◌,
}
use google_modules_lwis.Errno.{enomem, einval}
use google_modules_lwis.Commands.{EventControl, event_owner_device_id}
use google_modules_lwis.Io.{Vops}
use google_modules_lwis.Device.{Device, Client, DeviceEventState}
use google_modules_lwis.Event.States.{
  put_client_state, put_device_state, lwis_client_event_state_find_or_create,
  lwis_device_event_state_find, create_states,
}
use google_modules_lwis.Event.Control.{check_event_control_flags, lwis_device_event_flags_updated}

-- The other devices, in a state `T`: `lwis_find_dev_by_id`, the creation of an event state in one
-- of them, and the top device's subscription calls.
pub record Topology (T : Type 0) : Type 0 where
  pub has_device : T → ℕ → Bool
  pub create_event_state : T → ℕ → ℕ → Bool × T
  pub subscribe_event : T → ℕ → ℕ → ℕ → ℕ × T
  pub unsubscribe_event : T → ℕ → ℕ → ℕ × T

-- A client with its device and the other devices.
pub record Site (R T : Type 0) : Type 0 where
  pub dev : Device R
  pub client : Client
  pub others : T

-- The event's counter starts again.
reset_found : {R : Type 0} → Device R → Option DeviceEventState → Device R
reset_found d none = d
reset_found d (some s) = record d {
  event_states = put_device_state d.event_states (record s { event_counter = 0 });
}

module _ {R T : Type 0} where
  own_states : Site R T → ℕ → Bool × Site R T
  own_states s event_id =
      let (made, d, c) = create_states s.dev s.client event_id in
      (made, record s { dev = d; client = c })

  create_trigger_state : Topology T → ℕ → Bool × Site R T → Bool × Site R T
  create_trigger_state top event_id (false, s) = (false, s)
  create_trigger_state top event_id (true, s) =
      let (made, t) = top.create_event_state s.others (event_owner_device_id event_id) event_id in
      (made, record s { others = t })

  subscribe_created : Topology T → ℕ → Bool × Site R T → ℕ × Site R T
  subscribe_created top event_id (false, s) = (einval, s)
  subscribe_created top event_id (true, s) =
      let (ret, t) =
        top.subscribe_event s.others event_id (event_owner_device_id event_id) (s.dev).id in
      (ret, record s { others = t })

  pub lwis_client_event_subscribe : Option (Topology T) → Site R T → ℕ → ℕ × Site R T
  unfolding own_states create_trigger_state subscribe_created
  lwis_client_event_subscribe none s event_id = (einval, s)
  lwis_client_event_subscribe (some top) s event_id =
      if top.has_device s.others (event_owner_device_id event_id)
      then subscribe_created top event_id
          (create_trigger_state top event_id (own_states s event_id))
      else (einval, s)

  pub lwis_client_event_unsubscribe : Option (Topology T) → Site R T → ℕ → ℕ × Site R T
  unfolding reset_found
  lwis_client_event_unsubscribe none s event_id = (einval, s)
  lwis_client_event_unsubscribe (some top) s event_id =
      let (ret, t) = top.unsubscribe_event s.others event_id (s.dev).id in
      (
        ret,
        record s {
          others = t;
          dev = reset_found s.dev (lwis_device_event_state_find s.dev event_id);
        },
      )

  module _ (vops : Vops R) (top : Option (Topology T)) where
    forward : EventControl → ℕ × Site R T → ℕ × Site R T
    unfolding lwis_client_event_subscribe lwis_client_event_unsubscribe
    forward control (ret, s) =
        if not (ret == 0)
        then (ret, s)
        else if event_owner_device_id control.event_id == (s.dev).id
        then (0, s)
        else if not (control.flags == 0)
        then lwis_client_event_subscribe top s control.event_id
        else lwis_client_event_unsubscribe top s control.event_id

    with_device : Site R T → ℕ × Device R → ℕ × Site R T
    with_device s (ret, d) = (ret, record s { dev = d })

    store_flags : Site R T → EventControl → Client
    store_flags s control = record (s.client) {
      event_states = put_client_state (s.client).event_states control;
    }

    change_flags : Site R T → EventControl → EventControl → ℕ × Site R T
    unfolding forward with_device store_flags
    change_flags s state control =
        let refused : ℕ =
          check_event_control_flags (s.dev).id (s.dev).type control.event_id control.flags in
        if state.flags == control.flags
        then (0, s)
        else if not (refused == 0)
        then (refused, s)
        else forward control (
            with_device (record s { client = store_flags s control })
              (lwis_device_event_flags_updated vops s.dev control.event_id state.flags
                control.flags))

    set_found : Site R T → EventControl → Option EventControl × Client × List Bool → ℕ × Site R T
    unfolding change_flags
    set_found s control (none, c, mem) =
        (enomem, record s { client = c; dev = record (s.dev) { mem = mem } })
    set_found s control (some state, c, mem) =
        change_flags (record s { client = c; dev = record (s.dev) { mem = mem } }) state control

    unfoldable pub lwis_client_event_control_set : Site R T → EventControl → ℕ × Site R T
    unfolding set_found
    lwis_client_event_control_set s control =
        set_found s control
          (lwis_client_event_state_find_or_create s.client (s.dev).mem control.event_id)

  get_found : Site R T → Option EventControl × Client × List Bool → ℕ × Option ℕ × Site R T
  get_found s (none, c, mem) =
      (enomem, none, record s { client = c; dev = record (s.dev) { mem = mem } })
  get_found s (some state, c, mem) =
      (0, some state.flags, record s { client = c; dev = record (s.dev) { mem = mem } })

  -- The flags come with the return code 0.
  pub lwis_client_event_control_get : Site R T → ℕ → ℕ × Option ℕ × Site R T
  unfolding get_found
  lwis_client_event_control_get s event_id =
      get_found s (lwis_client_event_state_find_or_create s.client (s.dev).mem event_id)
