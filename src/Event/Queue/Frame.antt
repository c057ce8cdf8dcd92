-- ===== src/Event/Queue/Frame.antt =====
-- Pushing events leaves the transactions of the clients alone.
use google_modules_lwis.Prelude.{
  ℕ, ◌≡◌, refl, ap₂, inl, inr, Bool, some, List, [], ◌∷◌, ◌++◌, map, arith, Bool-cases,
  Option-cases, not, ◌||◌,
}
use google_modules_lwis.Commands.{
  EventEntry, Payload, lt_signed, start_of_error_range, start_of_specialized_range,
}
use google_modules_lwis.Device.{Client, EventList, kmalloc}
use google_modules_lwis.Event.Queue.{
  pushed, enqueue, lwis_client_error_event_push_back, emit_step, error_emit_loop,
  lwis_device_error_event_emit,
}

abbrev pub lists_of : List Client → List (List EventList)
lists_of = map (λ c. c.transaction_list)

pub enqueue-lists :
    (c c' : Client) (event : EventEntry)
    → enqueue c event ≡ pushed c'
    → c'.transaction_list ≡ c.transaction_list
unfolding enqueue
enqueue-lists c c' event e = ground arith

error_push-lists :
    (c c' : Client) (event : EventEntry)
    → lwis_client_error_event_push_back c event ≡ some c'
    → c'.transaction_list ≡ c.transaction_list
unfolding lwis_client_error_event_push_back
error_push-lists c c' event e = ground arith

emit_step-lists :
    (c : Client) (cs : List Client) (event : EventEntry) (rest : List Client × List Bool)
    (mem : List Bool)
    → lists_of rest.0 ≡ lists_of cs
    → lists_of (emit_step c cs (lwis_client_error_event_push_back c event) rest mem).0
      ≡ lists_of (c ∷ cs)
unfolding emit_step
emit_step-lists c cs event rest mem h =
    elim (Option-cases (lwis_client_error_event_push_back c event)) [
      | inl e ↦ rw (e, emit_step)
      | inr (c', e) ↦ rw (e, emit_step) (ap₂ ◌∷◌ (error_push-lists c c' event e) h)
    ]

error_emit_loop-lists :
    (cs : List Client) (mem : List Bool) (event : EventEntry)
    → lists_of (error_emit_loop cs mem event).0 ≡ lists_of cs
unfolding error_emit_loop
error_emit_loop-lists [] mem event = refl
error_emit_loop-lists (c ∷ cs) mem event = elim (Bool-cases (kmalloc mem).0) [
  | inl e ↦ rw e (emit_step-lists c cs event _ _ (error_emit_loop-lists cs (kmalloc mem).1 event))
  | inr e ↦ rw e
]

pub error_event_emit-lists :
    (cs : List Client) (mem : List Bool) (now event_id : ℕ) (payload : Payload)
    → lists_of (lwis_device_error_event_emit cs mem now event_id payload).0 ≡ lists_of cs
unfolding lwis_device_error_event_emit
error_event_emit-lists cs mem now event_id payload =
    elim (Bool-cases (
      lt_signed event_id start_of_error_range
      || not (lt_signed event_id start_of_specialized_range))) [
        | inl e ↦ rw e
        | inr e ↦ rw e (error_emit_loop-lists cs mem _)
      ]

-- A push that is not refused puts the event behind the queue.
pub enqueue_lem :
    (c c' : Client) (event : EventEntry)
    → enqueue c event ≡ pushed c'
    → c'.event_queue ≡ c.event_queue ++ event ∷ []
unfolding enqueue
enqueue_lem c c' event e = ground arith
