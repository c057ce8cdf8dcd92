-- ===== src/Top/Deliveries.antt =====
-- lwis_device_top.c: which devices the tasklet hands the pending events to.
use google_modules_lwis.Prelude.{
  ℕ, ◌≡◌, refl, ap, ap₂, ◌∙◌, inl, inr, Option, none, some, List, [], ◌∷◌, ◌++◌, arith, ◌==◌,
  Bool-cases, if◌then◌else◌,
}
use google_modules_lwis.Top.{
  SubscribeInfo, SubscriberList, TriggerEvent, TopDevice, ExternalEvent, event_subscriber_list_find,
  calls_for, calls_of, tasklet_loop, subscribe_tasklet_func,
}
use google_modules_lwis.Top.Table.{dev_count, subscribers_of, subscriptions, IsTable}

-- The events that a device is handed, in the order of the calls.
unfoldable pub received : ℕ → List ExternalEvent → List TriggerEvent
received id [] = []
received id (c ∷ cs) = if c.subscriber_dev == id then c.event ∷ received id cs else received id cs

-- The events that a device is subscribed to, in their order.
pub wanted : List SubscriberList → ℕ → List TriggerEvent → List TriggerEvent
wanted ls id [] = []
wanted ls id (e ∷ es) =
    if subscriptions ls e.trigger_event_id id == 0 then wanted ls id es else e ∷ wanted ls id es

received-append :
    (id : ℕ) (cs ds : List ExternalEvent)
    → received id (cs ++ ds) ≡ received id cs ++ received id ds
unfolding received
received-append id [] ds = refl
received-append id (c ∷ cs) ds = elim (Bool-cases (c.subscriber_dev == id)) [
  | inl here ↦ rw here (ap (λ (es : List TriggerEvent). c.event ∷ es) (received-append id cs ds))
  | inr other ↦ rw other (received-append id cs ds)
]

received-none :
    (id : ℕ) (e : TriggerEvent) (ss : List SubscribeInfo)
    → dev_count ss id ≡ 0
    → received id (calls_for e ss) ≡ []
unfolding received calls_for dev_count
received-none id e [] h = refl
received-none id e (s ∷ ss) h = ground (arith, received-none id e ss)

received-one :
    (id : ℕ) (e : TriggerEvent) (ss : List SubscribeInfo)
    → dev_count ss id ≡ 1
    → received id (calls_for e ss) ≡ e ∷ []
unfolding received calls_for dev_count
received-one id e [] h = absurd (omega (arith, h))
received-one id e (s ∷ ss) h = elim (Bool-cases (s.subscriber_dev == id)) [
  | inl here ↦
      rw here (ap (λ (es : List TriggerEvent). e ∷ es) (received-none id e ss (ground arith)))
  | inr other ↦ rw other (received-one id e ss (ground arith))
]

calls_of-calls_for :
    (e : TriggerEvent) (o : Option SubscriberList) → calls_of e o ≡ calls_for e (subscribers_of o)
unfolding calls_of calls_for subscribers_of
calls_of-calls_for e none = refl
calls_of-calls_for e (some l) = refl

tasklet_loop-wanted :
    (ls : List SubscriberList) (id : ℕ) (es : List TriggerEvent)
    → IsTable ls
    → received id (tasklet_loop ls es) ≡ wanted ls id es
unfolding tasklet_loop wanted subscriptions received
tasklet_loop-wanted ls id [] v = refl
tasklet_loop-wanted ls id (e ∷ es) v =
    let found = event_subscriber_list_find ls e.trigger_event_id in
    let split =
      received-append id (calls_of e found) (tasklet_loop ls es)
      ∙ ap₂ (λ (a b : List TriggerEvent). a ++ b) (ap (received id) (calls_of-calls_for e found))
          (tasklet_loop-wanted ls id es v) in
    elim (Bool-cases (dev_count (subscribers_of found) id == 0)) [
      | inl no_one ↦
          split
          ∙ rw no_one (
              ap (λ (a : List TriggerEvent). a ++ wanted ls id es)
                (received-none id e (subscribers_of found) (ground arith)))
      | inr someone ↦
          split
          ∙ rw someone (
              ap (λ (a : List TriggerEvent). a ++ wanted ls id es)
                (received-one id e (subscribers_of found)
                  (ground (arith, v.once e.trigger_event_id id))))
    ]

-- With one subscription of each device to an event, the tasklet hands each device exactly the pending
-- events that it is subscribed to, each once and in the order of their emission, and leaves none
-- pending.
pub subscribe_tasklet_func-received :
    (t : TopDevice) (id : ℕ)
    → IsTable t.event_subscribers
    → (received id (subscribe_tasklet_func t).0
        ≡ wanted t.event_subscribers id t.emitted_event_list_tasklet)
      × ((subscribe_tasklet_func t).1.emitted_event_list_tasklet ≡ [])
unfolding subscribe_tasklet_func
subscribe_tasklet_func-received t id v =
    (tasklet_loop-wanted t.event_subscribers id t.emitted_event_list_tasklet v, refl)
