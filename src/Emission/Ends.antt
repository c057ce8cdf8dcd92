-- ===== src/Emission/Ends.antt =====
-- Emission ends: where no repeating transaction runs in the context of its event, the events that
-- are pending and the transactions that wait bound the rounds of the loop.
use google_modules_lwis.Prelude.{
  ℕ, zero, suc, ◌+◌, ◌≤◌, ◌<◌, ◌≡◌, refl, sym, subst, ◌∙◌, ap, ◌⊎◌, inl, inr, Bool, some, List, [],
  ◌∷◌, ◌++◌, arith, length, All, All-append, ◌==◌, Bool-cases, Option-cases,
}
use mathlib.Core.List.{map-append}
use google_modules_lwis.Commands.{EventEntry, Payload, null}
use google_modules_lwis.Device.{Device, kmalloc, Client, EventList}
use google_modules_lwis.Io.{Vops}
use google_modules_lwis.Event.States.{lwis_device_event_state_find}
use google_modules_lwis.Event.Queue.{Push, pushed, overflow, enqueue}
use google_modules_lwis.Event.Queue.Frame.{lists_of, error_event_emit-lists, enqueue-lists}
use google_modules_lwis.Transaction.Process.{Work}
use google_modules_lwis.Transaction.Trigger.Calm.{AreCalm, waiting, trigger-Kept}
use google_modules_lwis.Emission.{
  Emission, emit_found, drop_front, trigger_client, after_push, wants, Round, go_on, stop, PushBack,
  queued, full, lwis_client_event_push_back, notify_client, notify_clients,
  lwis_device_event_emit_impl, lwis_pending_events_emit, lwis_device_event_emit,
}

unfoldable pub waiting_all : List (List EventList) → ℕ
waiting_all [] = 0
waiting_all (ls ∷ rest) = waiting ls + waiting_all rest

abbrev pub AllCalm : List (List EventList) → Type 0
AllCalm = All AreCalm

waiting_all-append :
    (xs ys : List (List EventList)) → waiting_all (xs ++ ys) ≡ waiting_all xs + waiting_all ys
unfolding waiting_all
waiting_all-append [] ys = omega arith
waiting_all-append (x ∷ xs) ys = omega (arith, waiting_all-append xs ys)

length-drop_front :
    (pending : List EventEntry)
    → 0 < length pending
    → length (drop_front pending) + 1 ≡ length pending
length-drop_front [] h = absurd (omega arith)
length-drop_front (e ∷ es) h = omega arith

pub Push-cases : (p : Push) → ((c : Client) × (p ≡ pushed c)) ⊎ (p ≡ overflow)
Push-cases (pushed c) = inl (c, refl)
Push-cases overflow = inr refl

waiting_all-lists :
    (xs ys : List Client)
    → waiting_all (lists_of (xs ++ ys)) ≡ waiting_all (lists_of xs) + waiting_all (lists_of ys)
waiting_all-lists xs ys =
    ap waiting_all (map-append _ xs ys) ∙ waiting_all-append (lists_of xs) (lists_of ys)

AllCalm-lists :
    (xs ys : List Client)
    → AllCalm (lists_of xs)
    → AllCalm (lists_of ys)
    → AllCalm (lists_of (xs ++ ys))
AllCalm-lists xs ys hx hy =
    subst AllCalm (sym (map-append _ xs ys)) (All-append AreCalm (lists_of xs) (lists_of ys) hx hy)

pub Round-cases :
    {R : Type 0} (r : Round R) → ((w : Work R) × (r ≡ go_on w)) ⊎ ((e : Emission R) × (r ≡ stop e))
Round-cases (go_on w) = inl (w, refl)
Round-cases (stop e) = inr (e, refl)

module _ {R : Type 0} where
  -- What waits in an emission's clients, and what is pending.
  abbrev pub total : Emission R → ℕ
  total e = length e.pending + waiting_all (lists_of e.clients)

  -- What the round of a client that stands between others may leave.
  abbrev RoundKept : List Client → Client → List Client → List EventEntry → Round R → Type 0
  RoundKept before c after pending (go_on w) =
      (length w.pending + waiting (w.client).transaction_list
        ≤ length pending + waiting c.transaction_list)
      × AreCalm (w.client).transaction_list
      × (length pending ≤ length w.pending)
  RoundKept before c after pending (stop e) =
      (e.pending ≡ pending) × (lists_of e.clients ≡ lists_of (before ++ c ∷ after))

  abbrev PushKept : List Client → Client → List Client → PushBack R → Type 0
  PushKept before c after (queued c') = c'.transaction_list ≡ c.transaction_list
  PushKept before c after (full d clients) = lists_of clients ≡ lists_of (before ++ c ∷ after)

  push_back-Kept :
      (d : Device R) (before : List Client) (c : Client) (after : List Client) (event : EventEntry)
      → PushKept before c after (lwis_client_event_push_back d before c after event)
  unfolding lwis_client_event_push_back
  push_back-Kept d before c after event = elim (Push-cases (enqueue c event)) [
    | inl (c', e) ↦ rw (e, lwis_client_event_push_back) (enqueue-lists c c' event e)
    | inr e ↦
        rw (e, lwis_client_event_push_back)
          (error_event_emit-lists (before ++ c ∷ after) d.mem d.now _ null)
  ]

  module _ (vops : Vops R) (in_irq : Bool) where
    trigger_client-Kept :
        (d : Device R) (before : List Client) (c c' : Client) (after : List Client)
        (event : EventEntry) (pending : List EventEntry)
        → AreCalm c.transaction_list
        → c'.transaction_list ≡ c.transaction_list
        → RoundKept before c after pending (trigger_client vops in_irq d c' event pending)
    unfolding trigger_client
    trigger_client-Kept d before c c' after event pending calm same =
        let w : Work R = record { dev = d; client = c'; pending = pending } in
        let k =
          trigger-Kept vops event.event_counter in_irq w event.event_id
            (subst AreCalm (sym same) calm) in
        (omega (arith, k.0, ap waiting same), k.1, k.2)

    after_push-Kept :
        (d : Device R) (before : List Client) (c : Client) (after : List Client)
        (event : EventEntry) (pending : List EventEntry) (p : PushBack R)
        → AreCalm c.transaction_list
        → PushKept before c after p
        → RoundKept before c after pending (after_push vops in_irq d event pending p)
    unfolding after_push
    after_push-Kept d before c after event pending (queued c') calm same =
        trigger_client-Kept d before c c' after event pending calm same
    after_push-Kept d before c after event pending (full d' clients) calm same = (refl, same)

    notify_client-Kept :
        (d : Device R) (before : List Client) (c : Client) (after : List Client)
        (event : EventEntry) (pending : List EventEntry)
        → AreCalm c.transaction_list
        → RoundKept before c after pending
            (notify_client vops in_irq d before c after event pending)
    unfolding notify_client
    notify_client-Kept d before c after event pending calm =
        elim (Bool-cases (wants c event.event_id)) [
          | inr e ↦ rw e (trigger_client-Kept d before c c after event pending calm refl)
          | inl e ↦ elim (Bool-cases (kmalloc d.mem).0) [
            | inl fits ↦
                rw (e, fits)
                  (after_push-Kept _ before c after event pending _ calm
                    (push_back-Kept _ before c after event))
            | inr fails ↦ rw (e, fails) (refl, refl)
          ]
        ]

    -- An emission adds no more to the pending events than it takes from the lists.
    abbrev EmissionKept : List (List EventList) → List EventEntry → Emission R → Type 0
    EmissionKept lists pending e =
        (total e ≤ length pending + waiting_all lists)
        × AllCalm (lists_of e.clients)
        × (length pending ≤ length e.pending)

    stopped-Kept :
        (e : Emission R) (before : List Client) (c : Client) (cs : List Client)
        (pending : List EventEntry)
        → AllCalm (lists_of (before ++ c ∷ cs))
        → RoundKept before c cs pending (stop e)
        → EmissionKept (lists_of (before ++ c ∷ cs)) pending e
    stopped-Kept e before c cs pending calm k = (
      omega (arith, ap length k.0, ap waiting_all k.1),
      subst AllCalm (sym k.1) calm,
      omega (arith, ap length k.0),
    )

    notify_clients-Kept :
        (d : Device R) (before cs : List Client) (event : EventEntry) (pending : List EventEntry)
        → AllCalm (lists_of before)
        → AllCalm (lists_of cs)
        → EmissionKept
            (lists_of (before ++ cs))
            pending
            (notify_clients vops in_irq d before cs event pending)
    unfolding notify_clients waiting_all
    notify_clients-Kept d before [] event pending calm calm' =
        (omega (arith, waiting_all-lists before []), calm, omega arith)
    notify_clients-Kept d before (c ∷ cs) event pending calm calm' =
        let k = notify_client-Kept d before c cs event pending calm'.0 in
        elim (Round-cases (notify_client vops in_irq d before c cs event pending)) [
          | inr (e, q) ↦
              rw (q, notify_clients)
                (stopped-Kept e before c cs pending (AllCalm-lists before (c ∷ cs) calm calm')
                  (subst (RoundKept before c cs pending) q k))
          | inl (w, q) ↦
              let k' = subst (RoundKept before c cs pending) q k in
              let next = before ++ w.client ∷ [] in
              let ih =
                notify_clients-Kept w.dev next cs event w.pending
                  (AllCalm-lists before (w.client ∷ []) calm (k'.1, tt)) calm'.1 in
              rw (q, notify_clients)
                (
                  omega (
                    arith,
                    ih.0,
                    k'.0,
                    waiting_all-lists next cs,
                    waiting_all-lists before (w.client ∷ []),
                    waiting_all-lists before (c ∷ cs),
                  ),
                  ih.1,
                  omega (arith, ih.2, k'.2),
                )
        ]

    emit_impl-Kept :
        (d : Device R) (clients : List Client) (event_id : ℕ) (payload : Payload)
        (pending : List EventEntry)
        → AllCalm (lists_of clients)
        → EmissionKept
            (lists_of clients)
            pending
            (lwis_device_event_emit_impl vops in_irq d clients event_id payload pending)
    unfolding lwis_device_event_emit_impl
    emit_impl-Kept d clients event_id payload pending calm =
        elim (Option-cases (lwis_device_event_state_find d event_id)) [
          | inl e ↦ rw (e, lwis_device_event_emit_impl, emit_found) (omega arith, calm, omega arith)
          | inr (s, e) ↦
              rw (e, lwis_device_event_emit_impl, emit_found)
                (notify_clients-Kept _ [] clients _ pending tt calm)
        ]

    -- Where no repeating transaction runs in the context of its event, the loop over the pending
    -- events returns, with none of them left, if it has as many rounds as events are pending and
    -- transactions wait.
    pub pending_events_emit-returns :
        (fuel ret : ℕ) (d : Device R) (clients : List Client) (pending : List EventEntry)
        → AllCalm (lists_of clients)
        → length pending + waiting_all (lists_of clients) ≤ fuel
        → (e : Emission R) × (lwis_pending_events_emit vops in_irq fuel ret d clients pending
            ≡ some e)
          × (e.pending ≡ [])
    unfolding lwis_pending_events_emit
    pending_events_emit-returns zero ret d clients [] calm h = (_, refl, refl)
    pending_events_emit-returns (suc fuel) ret d clients [] calm h = (_, refl, refl)
    pending_events_emit-returns zero ret d clients (e ∷ es) calm h = absurd (omega arith)
    pending_events_emit-returns (suc fuel) ret d clients (e ∷ es) calm h =
        let k = emit_impl-Kept d clients e.event_id e.payload (e ∷ es) calm in
        let r = lwis_device_event_emit_impl vops in_irq d clients e.event_id e.payload (e ∷ es) in
        pending_events_emit-returns fuel _ r.dev r.clients (drop_front r.pending) k.1
          (omega (arith, k.0, length-drop_front r.pending (omega (arith, k.2))))

    -- Under the same condition an emission returns after as many rounds as transactions wait.
    pub device_event_emit-returns :
        (fuel : ℕ) (d : Device R) (clients : List Client) (event_id : ℕ) (payload : Payload)
        → AllCalm (lists_of clients)
        → waiting_all (lists_of clients) ≤ fuel
        → (e : Emission R) × (lwis_device_event_emit vops in_irq fuel d clients event_id payload
            ≡ some e)
    unfolding lwis_device_event_emit
    device_event_emit-returns fuel d clients event_id payload calm h =
        let r = lwis_device_event_emit_impl vops in_irq d clients event_id payload [] in
        let k = emit_impl-Kept d clients event_id payload [] calm in
        let (e, q, _) =
          pending_events_emit-returns fuel 0 r.dev r.clients r.pending k.1 (omega (arith, k.0)) in
        elim (Bool-cases (r.ret == 0)) [ inl ok ↦ (e, rw ok q) | inr bad ↦ (r, rw bad) ]
