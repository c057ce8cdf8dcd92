-- ===== src/Top.antt =====
-- lwis_device_top.c, lwis_device_top.h: the top device, whose table says which devices subscribe to the
-- events of which others. A device is found by its id.
pub mod Scratch
pub mod Table
pub mod Subscribed
pub mod Removed
pub mod Deliveries
use google_modules_lwis.Prelude.{
  ℕ, ◌+◌, Bool, true, false, Option, none, some, List, [], ◌∷◌, ◌++◌, map, ◌==◌, ◌&&◌, not,
  if◌then◌else◌,
}
use google_modules_lwis.Errno.{enomem, einval}
use google_modules_lwis.Io.{Vops}
use google_modules_lwis.Device.{Device, Client, DeviceEventState, kmalloc}
use google_modules_lwis.Event.States.{
  lwis_device_event_update_subscriber, lwis_device_event_state_find_or_create,
}
use google_modules_lwis.Event.Subscribe.{Topology}
use google_modules_lwis.Emission.{Emission}
use google_modules_lwis.Emission.Runners.{lwis_device_external_event_emit}

-- struct lwis_event_subscribe_info; the devices are their ids.
pub record SubscribeInfo : Type 0 where
  pub event_id : ℕ
  pub subscriber_dev : ℕ
  pub trigger_dev : ℕ

-- struct lwis_event_subscriber_list.
pub record SubscriberList : Type 0 where
  pub trigger_event_id : ℕ
  pub list : List SubscribeInfo

-- struct lwis_trigger_event_info.
pub record TriggerEvent : Type 0 where
  pub trigger_event_id : ℕ
  pub trigger_event_count : ℕ
  pub trigger_event_timestamp : ℕ

-- struct lwis_top_device. `tasklet_scheduled` says that the subscription tasklet is going to be run.
pub record TopDevice : Type 0 where
  pub scratch_mem : List ℕ
  pub event_subscribers : List SubscriberList
  pub emitted_event_list_tasklet : List TriggerEvent
  pub tasklet_scheduled : Bool

unfoldable pub event_subscriber_list_find : List SubscriberList → ℕ → Option SubscriberList
event_subscriber_list_find [] event_id = none
event_subscriber_list_find (l ∷ ls) event_id =
    if l.trigger_event_id == event_id then some l else event_subscriber_list_find ls event_id

-- A write through a pointer to a list, and the removal of the list from the table.
unfoldable pub put_subscribers : List SubscriberList → SubscriberList → List SubscriberList
put_subscribers [] l = []
put_subscribers (k ∷ ks) l =
    if k.trigger_event_id == l.trigger_event_id then l ∷ ks else k ∷ put_subscribers ks l

unfoldable pub remove_subscribers : List SubscriberList → ℕ → List SubscriberList
remove_subscribers [] event_id = []
remove_subscribers (k ∷ ks) event_id =
    if k.trigger_event_id == event_id then ks else k ∷ remove_subscribers ks event_id

unfoldable pub event_subscriber_list_create :
    List SubscriberList
    → ℕ
    → Bool × List Bool
    → Option SubscriberList × List SubscriberList × List Bool
event_subscriber_list_create ls event_id (false, mem) = (none, ls, mem)
event_subscriber_list_create ls event_id (true, mem) =
    let l : SubscriberList = record { trigger_event_id = event_id; list = [] } in
    (some l, l ∷ ls, mem)

unfoldable pub found_or_created :
    List SubscriberList
    → List Bool
    → ℕ
    → Option SubscriberList
    → Option SubscriberList × List SubscriberList × List Bool
unfolding event_subscriber_list_create
found_or_created ls mem event_id none = event_subscriber_list_create ls event_id (kmalloc mem)
found_or_created ls mem event_id (some l) = (some l, ls, mem)

unfoldable pub event_subscriber_list_find_or_create :
    List SubscriberList → List Bool → ℕ → Option SubscriberList × List SubscriberList × List Bool
unfolding found_or_created
event_subscriber_list_find_or_create ls mem event_id =
    found_or_created ls mem event_id (event_subscriber_list_find ls event_id)

-- Whether a device is among the subscribers of a list.
unfoldable pub has_subscriber_dev : List SubscribeInfo → ℕ → Bool
has_subscriber_dev [] id = false
has_subscriber_dev (s ∷ ss) id = if s.subscriber_dev == id then true else has_subscriber_dev ss id

-- The devices of the driver with the top device; `mem` decides the allocations of the latter.
pub record World (R : Type 0) : Type 0 where
  pub top : TopDevice
  pub devices : List (Device R)
  pub mem : List Bool

unfoldable pub lwis_find_dev_by_id : {R : Type 0} → List (Device R) → ℕ → Option (Device R)
lwis_find_dev_by_id [] id = none
lwis_find_dev_by_id (d ∷ ds) id = if d.id == id then some d else lwis_find_dev_by_id ds id

unfoldable pub put_dev : {R : Type 0} → List (Device R) → Device R → List (Device R)
put_dev [] d = []
put_dev (c ∷ cs) d = if c.id == d.id then d ∷ cs else c ∷ put_dev cs d

abbrev pub with_table : {R : Type 0} → World R → List SubscriberList → List Bool → World R
with_table w ls mem = record w { top = record (w.top) { event_subscribers = ls }; mem = mem }

module _ {R : Type 0} where
  -- `lwis_device_event_update_subscriber` of a device that was found.
  unfoldable pub update_subscriber : World R → ℕ → Bool → Option (Device R) → ℕ × World R
  update_subscriber w event_id has_subscriber none = (einval, w)
  update_subscriber w event_id has_subscriber (some d) =
      elim (lwis_device_event_update_subscriber d event_id has_subscriber) [
        | none ↦ (einval, w)
        | some d' ↦ (0, record w { devices = put_dev w.devices d' })
      ]

  unfoldable pub add_subscription :
      World R → ℕ → ℕ → ℕ → SubscriberList → List SubscriberList → Bool × List Bool → ℕ × World R
  unfolding update_subscriber
  add_subscription w event_id trigger subscriber l ls (false, mem) = (enomem, with_table w ls mem)
  add_subscription w event_id trigger subscriber l ls (true, mem) =
      update_subscriber
        (with_table w
          (put_subscribers ls (record l {
            list =
                l.list
                ++ record {
                  event_id = event_id;
                  subscriber_dev = subscriber;
                  trigger_dev = trigger;
                }
                  ∷ [];
          }))
          mem)
        event_id true (lwis_find_dev_by_id w.devices trigger)

  unfoldable pub subscribe_in :
      World R → ℕ → ℕ → ℕ → Option SubscriberList × List SubscriberList × List Bool → ℕ × World R
  unfolding add_subscription
  subscribe_in w event_id trigger subscriber (none, ls, mem) = (einval, with_table w ls mem)
  subscribe_in w event_id trigger subscriber (some l, ls, mem) =
      if has_subscriber_dev l.list subscriber
      then (0, with_table w ls mem)
      else add_subscription w event_id trigger subscriber l ls (kmalloc mem)

  abbrev pub is_some : Option (Device R) → Bool
  is_some none = false
  is_some (some d) = true

  unfoldable pub lwis_top_event_subscribe : World R → ℕ → ℕ → ℕ → ℕ × World R
  unfolding subscribe_in
  lwis_top_event_subscribe w event_id trigger subscriber =
      if is_some (lwis_find_dev_by_id w.devices trigger)
        && is_some (lwis_find_dev_by_id w.devices subscriber)
      then subscribe_in w event_id trigger subscriber
          (event_subscriber_list_find_or_create (w.top).event_subscribers w.mem event_id)
      else (einval, w)

-- What the loop over the subscribers leaves: those that stay, or no one, after the subscription of
-- the given trigger device was the last.
pub data Unsubscribed : Type 0 where
  left : List SubscribeInfo → Unsubscribed
  emptied : ℕ → Unsubscribed

abbrev pub no_one : List SubscribeInfo → List SubscribeInfo → Bool
no_one [] [] = true
no_one [] (s ∷ ss) = false
no_one (k ∷ ks) ss = false

unfoldable pub unsubscribe_loop : ℕ → List SubscribeInfo → List SubscribeInfo → Unsubscribed
unsubscribe_loop id kept [] = left kept
unsubscribe_loop id kept (s ∷ ss) = elim (s.subscriber_dev == id) [
  | true ↦ elim (no_one kept ss) [
    | true ↦ emptied s.trigger_dev
    | false ↦ unsubscribe_loop id kept ss
  ]
  | false ↦ unsubscribe_loop id (kept ++ s ∷ []) ss
]

-- The pending events that are not of the id.
unfoldable pub without_event : ℕ → List TriggerEvent → List TriggerEvent
without_event event_id [] = []
without_event event_id (e ∷ es) =
    if e.trigger_event_id == event_id
    then without_event event_id es
    else e ∷ without_event event_id es

module _ {R : Type 0} where
  unfoldable pub unsubscribed : World R → ℕ → SubscriberList → Unsubscribed → ℕ × World R
  unfolding update_subscriber
  unsubscribed w event_id l (left kept) =
      (0, with_table w (put_subscribers (w.top).event_subscribers (record l { list = kept })) w.mem)
  unsubscribed w event_id l (emptied trigger) = (
    0,
    (update_subscriber
        (record w {
          top = record (w.top) {
            event_subscribers = remove_subscribers (w.top).event_subscribers event_id;
            emitted_event_list_tasklet = without_event event_id (w.top).emitted_event_list_tasklet;
          };
        })
        event_id false (lwis_find_dev_by_id w.devices trigger)).1,
  )

  unfoldable pub unsubscribe_from : World R → ℕ → ℕ → Option SubscriberList → ℕ × World R
  unfolding unsubscribed
  unsubscribe_from w event_id subscriber none = (einval, w)
  unsubscribe_from w event_id subscriber (some l) = elim l.list [
    | [] ↦ (einval, w)
    | s ∷ ss ↦ unsubscribed w event_id l (unsubscribe_loop subscriber [] (s ∷ ss))
  ]

  unfoldable pub lwis_top_event_unsubscribe : World R → ℕ → ℕ → ℕ × World R
  unfolding unsubscribe_from
  lwis_top_event_unsubscribe w event_id subscriber =
      unsubscribe_from w event_id subscriber
        (event_subscriber_list_find (w.top).event_subscribers event_id)

-- `trigger_event` takes memory of the device that emits.
abbrev notify_given : TopDevice → TriggerEvent → Bool × List Bool → TopDevice × List Bool
notify_given t e (false, mem) = (t, mem)
notify_given t e (true, mem) = (
  record t {
    emitted_event_list_tasklet = t.emitted_event_list_tasklet ++ e ∷ [];
    tasklet_scheduled = true;
  },
  mem,
)

unfoldable pub lwis_top_event_notify : TopDevice → List Bool → TriggerEvent → TopDevice × List Bool
lwis_top_event_notify t mem e = notify_given t e (kmalloc mem)

-- A call of `lwis_device_external_event_emit` that the tasklet makes.
pub record ExternalEvent : Type 0 where
  pub subscriber_dev : ℕ
  pub event : TriggerEvent

unfoldable pub calls_for : TriggerEvent → List SubscribeInfo → List ExternalEvent
calls_for e [] = []
calls_for e (s ∷ ss) = record { subscriber_dev = s.subscriber_dev; event = e } ∷ calls_for e ss

unfoldable pub calls_of : TriggerEvent → Option SubscriberList → List ExternalEvent
unfolding calls_for
calls_of e none = []
calls_of e (some l) = calls_for e l.list

-- The loop of the tasklet, by the calls that it makes in turn.
unfoldable pub tasklet_loop : List SubscriberList → List TriggerEvent → List ExternalEvent
unfolding calls_of
tasklet_loop ls [] = []
tasklet_loop ls (e ∷ es) =
    calls_of e (event_subscriber_list_find ls e.trigger_event_id) ++ tasklet_loop ls es

unfoldable pub subscribe_tasklet_func : TopDevice → List ExternalEvent × TopDevice
unfolding tasklet_loop
subscribe_tasklet_func t = (
  tasklet_loop t.event_subscribers t.emitted_event_list_tasklet,
  record t { emitted_event_list_tasklet = []; tasklet_scheduled = false },
)

-- A clear empties the table and drops the pending events. A list without subscribers, which a
-- subscription that failed has left, stays in the table.
unfoldable pub cleared : List SubscriberList → List SubscriberList
cleared [] = []
cleared (l ∷ ls) = elim l.list [ [] ↦ l ∷ cleared ls | s ∷ ss ↦ cleared ls ]

unfoldable pub lwis_top_event_subscribe_clear : TopDevice → TopDevice
unfolding cleared
lwis_top_event_subscribe_clear t = record t {
  event_subscribers = cleared t.event_subscribers;
  emitted_event_list_tasklet = [];
}

unfoldable pub lwis_top_event_subscribe_release : TopDevice → TopDevice
lwis_top_event_subscribe_release t = record (lwis_top_event_subscribe_clear t) {
  tasklet_scheduled = false;
}

unfoldable pub lwis_top_close : TopDevice → ℕ × TopDevice
lwis_top_close t = (0, lwis_top_event_subscribe_clear t)

abbrev created : {R : Type 0} → World R → Option DeviceEventState × Device R → Bool × World R
created w (none, d) = (false, record w { devices = put_dev w.devices d })
created w (some s, d) = (true, record w { devices = put_dev w.devices d })

create_in : {R : Type 0} → World R → ℕ → Option (Device R) → Bool × World R
create_in w event_id none = (false, w)
create_in w event_id (some d) = created w (lwis_device_event_state_find_or_create d event_id)

-- The calls of Event.Subscribe on other devices, as this device answers them.
pub top_subscribe_ops : {R : Type 0} → Topology (World R)
unfolding create_in
top_subscribe_ops = record {
  has_device = λ w id. is_some (lwis_find_dev_by_id w.devices id);
  create_event_state =
      λ w owner event_id. create_in w event_id (lwis_find_dev_by_id w.devices owner);
  subscribe_event =
      λ w event_id trigger subscriber. lwis_top_event_subscribe w event_id trigger subscriber;
  unsubscribe_event = λ w event_id subscriber. lwis_top_event_unsubscribe w event_id subscriber;
}
