-- ===== src/Emission/Delivery.antt =====
-- Who receives an emitted event.
use google_modules_lwis.Prelude.{
  ℕ, ◌+◌, ◌≡◌, ◌≢◌, sym, subst, ap, ◌∙◌, inl, inr, Bool, true, none, some, List, [], ◌∷◌, ◌++◌, map,
  arith, if◌then◌else◌, Bool-cases,
}
use mathlib.Core.List.{map-append, append_assoc, append-nil}
use google_modules_lwis.Commands.{EventEntry, Payload}
use google_modules_lwis.Device.{Device, Client, DeviceEventState, kmalloc}
use google_modules_lwis.Io.{Vops}
use google_modules_lwis.Event.States.{lwis_device_event_state_find}
use google_modules_lwis.Event.Queue.{enqueue}
use google_modules_lwis.Event.Queue.Frame.{enqueue_lem}
use google_modules_lwis.Transaction.Process.{Work}
use google_modules_lwis.Transaction.Trigger.Frame.{trigger-queues}
use google_modules_lwis.Emission.{
  Round, go_on, stop, PushBack, queued, full, full_queue, wants, trigger_client, after_push,
  lwis_client_event_push_back, notify_client, notify_clients, counted, count_event, emit_found,
  lwis_device_event_emit_impl,
}
use google_modules_lwis.Emission.Ends.{Push-cases, Round-cases}

-- The queue of a client once the event is through: longer by the event if the client wants it.
abbrev pub delivered : EventEntry → Client → List EventEntry
delivered event c = c.event_queue ++ (if wants c event.event_id then event ∷ [] else [])

abbrev pub queues : List Client → List (List EventEntry)
queues = map (λ c. c.event_queue)

queues-step :
    {R : Type 0} (event : EventEntry) (c : Client) (before : List Client) (w : Work R)
    (cs : List Client)
    → (w.client).event_queue ≡ delivered event c
    → queues (before ++ w.client ∷ []) ++ map (delivered event) cs
      ≡ queues before ++ map (delivered event) (c ∷ cs)
queues-step event c before w cs e =
    ap (λ (q : List (List EventEntry)). q ++ map (delivered event) cs)
      (map-append (λ (c : Client). c.event_queue) before (w.client ∷ []))
    ∙ append_assoc (queues before) ((w.client).event_queue ∷ []) (map (delivered event) cs)
    ∙ ap (λ (q : List EventEntry). queues before ++ q ∷ map (delivered event) cs) e

module _ {R : Type 0} where
  abbrev RoundDelivers : EventEntry → Client → Round R → Type 0
  RoundDelivers event c (go_on w) = (w.client).event_queue ≡ delivered event c
  RoundDelivers event c (stop e) = e.ret ≢ 0

  abbrev PushDelivers : EventEntry → Client → PushBack R → Type 0
  PushDelivers event c (queued c') = c'.event_queue ≡ c.event_queue ++ event ∷ []
  PushDelivers event c (full d clients) = Unit

  push_back-Delivers :
      (d : Device R) (before : List Client) (c : Client) (after : List Client) (event : EventEntry)
      → PushDelivers event c (lwis_client_event_push_back d before c after event)
  unfolding lwis_client_event_push_back
  push_back-Delivers d before c after event = elim (Push-cases (enqueue c event)) [
    | inl (c', e) ↦ rw (e, lwis_client_event_push_back) (enqueue_lem c c' event e)
    | inr e ↦ rw (e, lwis_client_event_push_back, full_queue) tt
  ]

  module _ (vops : Vops R) (in_irq : Bool) where
    trigger_client-Delivers :
        (d : Device R) (c c' : Client) (event : EventEntry) (pending : List EventEntry)
        → c'.event_queue ≡ delivered event c
        → RoundDelivers event c (trigger_client vops in_irq d c' event pending)
    unfolding trigger_client
    trigger_client-Delivers d c c' event pending h = ground (
      arith,
      trigger-queues vops event.event_counter in_irq
          (record { dev = d; client = c'; pending = pending }) event.event_id,
    )

    after_push-Delivers :
        (d : Device R) (c : Client) (event : EventEntry) (pending : List EventEntry)
        (p : PushBack R)
        → wants c event.event_id ≡ true
        → PushDelivers event c p
        → RoundDelivers event c (after_push vops in_irq d event pending p)
    unfolding after_push
    after_push-Delivers d c event pending (queued c') w h =
        trigger_client-Delivers d c c' event pending (rw w h)
    after_push-Delivers d c event pending (full d' clients) w h = λ e. absurd (ground arith)

    notify_client-Delivers :
        (d : Device R) (before : List Client) (c : Client) (after : List Client)
        (event : EventEntry) (pending : List EventEntry)
        → RoundDelivers event c (notify_client vops in_irq d before c after event pending)
    unfolding notify_client
    notify_client-Delivers d before c after event pending =
        elim (Bool-cases (wants c event.event_id)) [
          | inr e ↦
              rw e (
                trigger_client-Delivers d c c event pending (rw e (sym (append-nil c.event_queue))))
          | inl e ↦ elim (Bool-cases (kmalloc d.mem).0) [
            | inl fits ↦
                rw (e, fits)
                  (after_push-Delivers _ c event pending _ e
                    (push_back-Delivers _ before c after event))
            | inr fails ↦ rw (e, fails) (λ q. absurd (ground arith))
          ]
        ]

    notify_clients-Delivers :
        (d : Device R) (before cs : List Client) (event : EventEntry) (pending : List EventEntry)
        → (notify_clients vops in_irq d before cs event pending).ret ≡ 0
        → queues (notify_clients vops in_irq d before cs event pending).clients
          ≡ queues before ++ map (delivered event) cs
    unfolding notify_clients
    notify_clients-Delivers d before [] event pending h = sym (append-nil (queues before))
    notify_clients-Delivers d before (c ∷ cs) event pending h =
        let k = notify_client-Delivers d before c cs event pending in
        elim (Round-cases (notify_client vops in_irq d before c cs event pending)) [
          | inr (e, q) ↦ absurd (subst (RoundDelivers event c) q k (rw (q, notify_clients) at h))
          | inl (w, q) ↦
              let next = before ++ w.client ∷ [] in
              rw (q, notify_clients)
                (notify_clients-Delivers w.dev next cs event w.pending (rw (q, notify_clients) at h)
                  ∙ queues-step event c before w cs (subst (RoundDelivers event c) q k))
        ]

    abbrev event_of : ℕ → ℕ → Payload × Device R → EventEntry
    event_of event_id event_counter (payload, d) = record {
      event_id = event_id;
      event_counter = event_counter;
      timestamp_ns = d.now;
      payload = payload;
    }

    counted-now :
        (d : Device R) (event_id : ℕ) (s : DeviceEventState)
        → (counted vops in_irq d event_id s).now ≡ d.now
    unfolding counted
    counted-now d event_id s = ground arith

    -- An emission that finds its event, without `event_emitted`, is the loop over the clients.
    emit_impl-eq-loop :
        (d : Device R) (clients : List Client) (event_id : ℕ) (payload : Payload)
        (pending : List EventEntry) (s : DeviceEventState)
        → vops.event_emitted ≡ none
        → lwis_device_event_state_find d event_id ≡ some s
        → lwis_device_event_emit_impl vops in_irq d clients event_id payload pending
          ≡ notify_clients vops in_irq
              (counted vops in_irq d event_id (count_event vops in_irq s))
              []
              clients
              (event_of event_id (s.event_counter + 1) (payload, d))
              pending
    unfolding lwis_device_event_emit_impl
    emit_impl-eq-loop d clients event_id payload pending s plain found =
        rw (found, emit_found, plain, counted-now d event_id (count_event vops in_irq s))

    -- An emission that succeeds puts the event, with the counter one higher than before, the time
    -- of the call and the payload, behind the queue of exactly those clients that have enabled
    -- its queue flag; the other queues stay as they are. The device has no `event_emitted`, as
    -- none of the subclasses has.
    pub device_event_emit_impl-Delivers :
        (d : Device R) (clients : List Client) (event_id : ℕ) (payload : Payload)
        (pending : List EventEntry) (s : DeviceEventState)
        → vops.event_emitted ≡ none
        → lwis_device_event_state_find d event_id ≡ some s
        → (lwis_device_event_emit_impl vops in_irq d clients event_id payload pending).ret ≡ 0
        → queues
            (lwis_device_event_emit_impl vops in_irq d clients event_id payload pending).clients
          ≡ map (delivered (event_of event_id (s.event_counter + 1) (payload, d))) clients
    unfolding lwis_device_event_emit_impl
    device_event_emit_impl-Delivers d clients event_id payload pending s plain found ok =
        let e = emit_impl-eq-loop d clients event_id payload pending s plain found in
        rw e (
          notify_clients-Delivers _ [] clients
            (event_of event_id (s.event_counter + 1) (payload, d)) pending (rw e at ok))
