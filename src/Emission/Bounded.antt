-- ===== src/Emission/Bounded.antt =====
-- Emission keeps the queues of every client bounded.
use google_modules_lwis.Prelude.{
  ℕ, zero, suc, ◌≡◌, subst, inl, inr, Bool, some, List, [], ◌∷◌, ◌++◌, arith, All, All-append, ◌==◌,
  Bool-cases, Option-cases,
}
use mathlib.Core.Option.{some-injective}
use google_modules_lwis.Commands.{EventEntry, Payload, null}
use google_modules_lwis.Device.{Device, Client, kmalloc}
use google_modules_lwis.Io.{Vops}
use google_modules_lwis.Event.States.{lwis_device_event_state_find}
use google_modules_lwis.Event.Queue.{enqueue}
use google_modules_lwis.Event.Queue.Laws.{
  IsBounded, PushIsBounded, enqueue-IsBounded, error_event_emit-IsBounded,
}
use google_modules_lwis.Transaction.Process.Frame.{queues_of}
use google_modules_lwis.Transaction.Trigger.Frame.{trigger-queues}
use google_modules_lwis.Emission.{
  Emission, Round, go_on, stop, PushBack, queued, full, wants, trigger_client, after_push,
  lwis_client_event_push_back, notify_client, notify_clients, emit_found,
  lwis_device_event_emit_impl, lwis_pending_events_emit, lwis_device_event_emit,
}
use google_modules_lwis.Emission.Ends.{Push-cases, Round-cases}

abbrev AreBounded : List Client → Type 0
AreBounded = All IsBounded

same_queues-IsBounded : (c c' : Client) → queues_of c' ≡ queues_of c → IsBounded c → IsBounded c'
same_queues-IsBounded c c' e v = ground arith

module _ {R : Type 0} where
  abbrev PushBounded : PushBack R → Type 0
  PushBounded (queued c) = IsBounded c
  PushBounded (full d clients) = AreBounded clients

  abbrev RoundBounded : Round R → Type 0
  RoundBounded (go_on w) = IsBounded w.client
  RoundBounded (stop e) = AreBounded e.clients

  push_back-Bounded :
      (d : Device R) (before : List Client) (c : Client) (after : List Client) (event : EventEntry)
      → AreBounded before
      → AreBounded (c ∷ after)
      → PushBounded (lwis_client_event_push_back d before c after event)
  unfolding lwis_client_event_push_back
  push_back-Bounded d before c after event v v' = elim (Push-cases (enqueue c event)) [
    | inl (c', e) ↦
        rw (e, lwis_client_event_push_back) (subst PushIsBounded e (enqueue-IsBounded c event v'.0))
    | inr e ↦
        rw (e, lwis_client_event_push_back)
          (error_event_emit-IsBounded (before ++ c ∷ after) d.mem d.now _ null
            (All-append IsBounded before (c ∷ after) v v'))
  ]

  module _ (vops : Vops R) (in_irq : Bool) where
    trigger_client-Bounded :
        (d : Device R) (c : Client) (event : EventEntry) (pending : List EventEntry)
        → IsBounded c
        → RoundBounded (trigger_client vops in_irq d c event pending)
    unfolding trigger_client
    trigger_client-Bounded d c event pending v =
        same_queues-IsBounded c _
          (trigger-queues vops event.event_counter in_irq
            (record { dev = d; client = c; pending = pending }) event.event_id)
          v

    after_push-Bounded :
        (d : Device R) (event : EventEntry) (pending : List EventEntry) (p : PushBack R)
        → PushBounded p
        → RoundBounded (after_push vops in_irq d event pending p)
    unfolding after_push
    after_push-Bounded d event pending (queued c) v = trigger_client-Bounded d c event pending v
    after_push-Bounded d event pending (full d' clients) v = v

    notify_client-Bounded :
        (d : Device R) (before : List Client) (c : Client) (after : List Client)
        (event : EventEntry) (pending : List EventEntry)
        → AreBounded before
        → AreBounded (c ∷ after)
        → RoundBounded (notify_client vops in_irq d before c after event pending)
    unfolding notify_client
    notify_client-Bounded d before c after event pending v v' =
        elim (Bool-cases (wants c event.event_id)) [
          | inr e ↦ rw e (trigger_client-Bounded d c event pending v'.0)
          | inl e ↦ elim (Bool-cases (kmalloc d.mem).0) [
            | inl fits ↦
                rw (e, fits)
                  (after_push-Bounded _ event pending _
                    (push_back-Bounded _ before c after event v v'))
            | inr fails ↦ rw (e, fails) (All-append IsBounded before (c ∷ after) v v')
          ]
        ]

    notify_clients-Bounded :
        (d : Device R) (before cs : List Client) (event : EventEntry) (pending : List EventEntry)
        → AreBounded before
        → AreBounded cs
        → AreBounded (notify_clients vops in_irq d before cs event pending).clients
    unfolding notify_clients
    notify_clients-Bounded d before [] event pending v v' = v
    notify_clients-Bounded d before (c ∷ cs) event pending v v' =
        let k = notify_client-Bounded d before c cs event pending v v' in
        elim (Round-cases (notify_client vops in_irq d before c cs event pending)) [
          | inr (e, q) ↦ rw (q, notify_clients) (subst RoundBounded q k)
          | inl (w, q) ↦
              rw (q, notify_clients)
                (notify_clients-Bounded w.dev (before ++ w.client ∷ []) cs event w.pending
                  (All-append IsBounded before (w.client ∷ []) v (subst RoundBounded q k, tt)) v'.1)
        ]

    pub emit_impl-Bounded :
        (d : Device R) (clients : List Client) (event_id : ℕ) (payload : Payload)
        (pending : List EventEntry)
        → All IsBounded clients
        → All IsBounded
            (lwis_device_event_emit_impl vops in_irq d clients event_id payload pending).clients
    unfolding lwis_device_event_emit_impl
    emit_impl-Bounded d clients event_id payload pending v =
        elim (Option-cases (lwis_device_event_state_find d event_id)) [
          | inl e ↦ rw (e, lwis_device_event_emit_impl, emit_found) v
          | inr (s, e) ↦
              rw (e, lwis_device_event_emit_impl, emit_found)
                (notify_clients-Bounded _ [] clients _ pending tt v)
        ]

    pending_events_emit-Bounded :
        (fuel ret : ℕ) (d : Device R) (clients : List Client) (pending : List EventEntry)
        (e : Emission R)
        → AreBounded clients
        → lwis_pending_events_emit vops in_irq fuel ret d clients pending ≡ some e
        → AreBounded e.clients
    unfolding lwis_pending_events_emit
    pending_events_emit-Bounded zero ret d clients [] e v q =
        subst (λ (x : Emission R). AreBounded x.clients) (some-injective _ _ q) v
    pending_events_emit-Bounded (suc fuel) ret d clients [] e v q =
        subst (λ (x : Emission R). AreBounded x.clients) (some-injective _ _ q) v
    pending_events_emit-Bounded zero ret d clients (p ∷ ps) e v q = cc
    pending_events_emit-Bounded (suc fuel) ret d clients (p ∷ ps) e v q =
        pending_events_emit-Bounded fuel _ _ _ _ e
          (emit_impl-Bounded d clients p.event_id p.payload (p ∷ ps) v) q

    -- However an emission ends, the queues of every client stay counted and within their limit.
    pub device_event_emit-Bounded :
        (fuel : ℕ) (d : Device R) (clients : List Client) (event_id : ℕ) (payload : Payload)
        (e : Emission R)
        → All IsBounded clients
        → lwis_device_event_emit vops in_irq fuel d clients event_id payload ≡ some e
        → All IsBounded e.clients
    unfolding lwis_device_event_emit
    device_event_emit-Bounded fuel d clients event_id payload e v q =
        let r = lwis_device_event_emit_impl vops in_irq d clients event_id payload [] in
        let k = emit_impl-Bounded d clients event_id payload [] v in
        elim (Bool-cases (r.ret == 0)) [
          | inl ok ↦ pending_events_emit-Bounded fuel 0 r.dev r.clients r.pending e k (rw ok at q)
          | inr bad ↦
              subst (λ (x : Emission R). AreBounded x.clients) (some-injective r e (rw bad at q)) k
        ]
