-- ===== src/Emission/Counting.antt =====
-- lwis_event.c: an emission counts its event once, however it ends.
use google_modules_lwis.Prelude.{
  ℕ, ◌+◌, ◌≡◌, refl, subst, ◌∙◌, inl, inr, Bool, some, List, [], ◌∷◌, ◌++◌, arith, if◌then◌else◌,
  ◌==◌, Bool-cases, Option-cases,
}
use google_modules_lwis.Commands.{EventEntry, Payload}
use google_modules_lwis.Device.{Device, Client, DeviceEventState, kmalloc}
use google_modules_lwis.Io.{Vops}
use google_modules_lwis.Event.States.{
  lwis_device_event_state_find, find_device_state, put_device_state,
}
use google_modules_lwis.Event.Queue.{enqueue}
use google_modules_lwis.Transaction.Trigger.Frame.{trigger-event_states}
use google_modules_lwis.Emission.{
  Round, go_on, stop, PushBack, queued, full, full_queue, wants, trigger_client, after_push,
  lwis_client_event_push_back, notify_client, notify_clients, counted, count_event, handle,
  emit_found, lwis_device_event_emit_impl,
}
use google_modules_lwis.Emission.Ends.{Push-cases, Round-cases}

module _ {R : Type 0} where
  abbrev states : Device R → List DeviceEventState
  states d = d.event_states

  abbrev RoundStates : Device R → Round R → Type 0
  RoundStates d (go_on w) = states w.dev ≡ states d
  RoundStates d (stop e) = states e.dev ≡ states d

  abbrev PushStates : Device R → PushBack R → Type 0
  PushStates d (queued c) = Unit
  PushStates d (full d' clients) = states d' ≡ states d

  push_back-States :
      (d : Device R) (before : List Client) (c : Client) (after : List Client) (event : EventEntry)
      → PushStates d (lwis_client_event_push_back d before c after event)
  unfolding lwis_client_event_push_back
  push_back-States d before c after event = elim (Push-cases (enqueue c event)) [
    | inl (c', e) ↦ rw (e, lwis_client_event_push_back) tt
    | inr e ↦ rw (e, lwis_client_event_push_back, full_queue)
  ]

  module _ (vops : Vops R) (in_irq : Bool) where
    trigger_client-States :
        (d : Device R) (c : Client) (event : EventEntry) (pending : List EventEntry)
        → RoundStates d (trigger_client vops in_irq d c event pending)
    unfolding trigger_client
    trigger_client-States d c event pending =
        trigger-event_states vops event.event_counter in_irq
          (record { dev = d; client = c; pending = pending }) event.event_id

    after_push-States :
        (d : Device R) (event : EventEntry) (pending : List EventEntry) (p : PushBack R)
        → PushStates d p
        → RoundStates d (after_push vops in_irq d event pending p)
    unfolding after_push
    after_push-States d event pending (queued c) h = trigger_client-States d c event pending
    after_push-States d event pending (full d' clients) h = h

    notify_client-States :
        (d : Device R) (before : List Client) (c : Client) (after : List Client)
        (event : EventEntry) (pending : List EventEntry)
        → RoundStates d (notify_client vops in_irq d before c after event pending)
    unfolding notify_client
    notify_client-States d before c after event pending =
        elim (Bool-cases (wants c event.event_id)) [
          | inr e ↦ rw e (trigger_client-States d c event pending)
          | inl e ↦ elim (Bool-cases (kmalloc d.mem).0) [
            | inl fits ↦
                rw (e, fits)
                  (after_push-States _ event pending _ (push_back-States _ before c after event))
            | inr fails ↦ rw (e, fails) refl
          ]
        ]

    notify_clients-States :
        (d : Device R) (before cs : List Client) (event : EventEntry) (pending : List EventEntry)
        → states (notify_clients vops in_irq d before cs event pending).dev ≡ states d
    unfolding notify_clients
    notify_clients-States d before [] event pending = refl
    notify_clients-States d before (c ∷ cs) event pending =
        let k = notify_client-States d before c cs event pending in
        elim (Round-cases (notify_client vops in_irq d before c cs event pending)) [
          | inr (e, q) ↦ rw (q, notify_clients) (subst (RoundStates d) q k)
          | inl (w, q) ↦
              rw (q, notify_clients)
                (notify_clients-States w.dev (before ++ w.client ∷ []) cs event w.pending
                  ∙ subst (RoundStates d) q k)
        ]

    counted-states :
        (d : Device R) (event_id : ℕ) (s : DeviceEventState)
        → states (counted vops in_irq d event_id s) ≡ put_device_state d.event_states s
    unfolding counted
    counted-states d event_id s = ground arith

    handle-states :
        (d : Device R) (event_id : ℕ) (payload : Payload)
        → states (handle vops in_irq d event_id payload).1 ≡ states d
    unfolding handle
    handle-states d event_id payload = elim (Option-cases vops.event_emitted) [
      | inl e ↦ rw (e, handle)
      | inr (f, e) ↦ rw (e, handle)
    ]

    -- However the emission ends, the table of event states differs by the event's counter alone.
    emit_impl-states :
        (d : Device R) (clients : List Client) (event_id : ℕ) (payload : Payload)
        (pending : List EventEntry) (s : DeviceEventState)
        → lwis_device_event_state_find d event_id ≡ some s
        → states (lwis_device_event_emit_impl vops in_irq d clients event_id payload pending).dev
          ≡ put_device_state d.event_states (count_event vops in_irq s)
    unfolding lwis_device_event_emit_impl
    emit_impl-states d clients event_id payload pending s found =
        let s' = count_event vops in_irq s in
        rw (found, emit_found)
          (notify_clients-States _ [] clients _ pending
            ∙ handle-states (counted vops in_irq d event_id s') event_id payload
            ∙ counted-states d event_id s')

find_put :
    (ss : List DeviceEventState) (event_id id : ℕ) (s s' : DeviceEventState)
    → find_device_state ss event_id ≡ some s
    → s'.event_id ≡ event_id
    → find_device_state (put_device_state ss s') id
      ≡ (if id == event_id then some s' else find_device_state ss id)
unfolding find_device_state put_device_state
find_put [] event_id id s s' found same = cc
find_put (p ∷ ps) event_id id s s' found same = ground (arith, find_put ps event_id id s s')

find-event_id :
    (ss : List DeviceEventState) (event_id : ℕ) (s : DeviceEventState)
    → find_device_state ss event_id ≡ some s
    → s.event_id ≡ event_id
unfolding find_device_state
find-event_id [] event_id s found = cc
find-event_id (p ∷ ps) event_id s found = ground (arith, find-event_id ps event_id s)

-- An emission of an event that the device knows raises the event's counter by one and leaves the
-- state of each other event as it was. This holds on the failures for want of memory or of room in
-- a queue too, and whatever the transactions do that the event sets off.
pub device_event_emit_impl-counts :
    {R : Type 0} (vops : Vops R) (in_irq : Bool) (d : Device R) (clients : List Client)
    (event_id id : ℕ) (payload : Payload) (pending : List EventEntry) (s : DeviceEventState)
    → lwis_device_event_state_find d event_id ≡ some s
    → lwis_device_event_state_find
        (lwis_device_event_emit_impl vops in_irq d clients event_id payload pending).dev
        id
      ≡ (if id == event_id
          then some (record s { event_counter = s.event_counter + 1 })
          else lwis_device_event_state_find d id)
unfolding lwis_device_event_state_find count_event
device_event_emit_impl-counts vops in_irq d clients event_id id payload pending s found =
    rw (emit_impl-states vops in_irq d clients event_id payload pending s found) (
      find_put d.event_states event_id id s _ found (find-event_id d.event_states event_id s found))
