-- ===== src/Event/Queue/Laws.antt =====
-- lwis_event.c: the event queues of a client are bounded and first in, first out.
use google_modules_lwis.Prelude.{
  ℕ, zero, suc, ◌+◌, ◌≤◌, ◌<◌, ◌≡◌, refl, sym, ap, ap₂, ◌∙◌, inl, inr, Bool, Option, none, some,
  List, [], ◌∷◌, ◌++◌, map, arith, leb, length, length-append, All, Bool-cases, Option-cases,
  List-cases, not, ◌||◌,
}
use mathlib.Core.List.{append_assoc, append-nil}
use google_modules_lwis.Commands.{
  EventEntry, Payload, lt_signed, start_of_error_range, start_of_specialized_range,
}
use google_modules_lwis.Device.{Client, kmalloc}
use google_modules_lwis.Event.Queue.{
  Push, pushed, overflow, max_num_pending_events, enqueue, lwis_client_event_pop_front,
  lwis_client_event_peek_front, lwis_client_event_queue_clear, lwis_client_error_event_pop_front,
  lwis_client_error_event_peek_front, lwis_client_error_event_queue_clear,
  lwis_client_error_event_push_back, emit_step, error_emit_loop, lwis_device_error_event_emit,
}

-- The counted size of each queue is its length, within the limit.
pub record IsBounded (c : Client) : Type 0 where
  pub counted : c.event_queue_size ≡ length c.event_queue
  pub limited : length c.event_queue ≤ max_num_pending_events
  pub error_counted : c.error_event_queue_size ≡ length c.error_event_queue
  pub error_limited : length c.error_event_queue ≤ max_num_pending_events

abbrev pub PushIsBounded : Push → Type 0
PushIsBounded (pushed c) = IsBounded c
PushIsBounded overflow = Unit

pub enqueue-IsBounded : (c : Client) (e : EventEntry) → IsBounded c → PushIsBounded (enqueue c e)
unfolding enqueue
enqueue-IsBounded c e v = elim (Bool-cases (leb max_num_pending_events c.event_queue_size)) [
  | inl full ↦ rw full tt
  | inr room ↦ rw room (record {
    counted = omega (arith, v.counted, length-append c.event_queue (e ∷ []));
    limited = ground (arith, v.counted, length-append c.event_queue (e ∷ []));
    error_counted = v.error_counted;
    error_limited = v.error_limited;
  })
]

pub error_push-IsBounded :
    (c c' : Client) (e : EventEntry)
    → IsBounded c
    → lwis_client_error_event_push_back c e ≡ some c'
    → IsBounded c'
unfolding lwis_client_error_event_push_back
error_push-IsBounded c c' e v h = ground (arith, length-append c.error_event_queue (e ∷ []))

-- The operations of the reader, and whether they keep the queues bounded.
pub data ReaderCall : Type 0 where
  pop peek clear error_pop error_peek error_clear : ReaderCall

pub reader_call : ReaderCall → Client → Client
reader_call pop c = (lwis_client_event_pop_front c).1
reader_call peek c = (lwis_client_event_peek_front c).1
reader_call clear c = lwis_client_event_queue_clear c
reader_call error_pop c = (lwis_client_error_event_pop_front c).1
reader_call error_peek c = (lwis_client_error_event_peek_front c).1
reader_call error_clear c = lwis_client_error_event_queue_clear c

-- Every call of a reader keeps both queues counted and within the limit.
pub reader_call-IsBounded :
    (r : ReaderCall) (c : Client) → IsBounded c → IsBounded (reader_call r c)
unfolding reader_call lwis_client_event_pop_front lwis_client_event_peek_front
    lwis_client_error_event_pop_front lwis_client_error_event_peek_front
    lwis_client_event_queue_clear lwis_client_error_event_queue_clear
reader_call-IsBounded pop c v = ground (arith, List-cases c.event_queue)
reader_call-IsBounded peek c v = ground (arith, List-cases c.event_queue)
reader_call-IsBounded clear c v = ground arith
reader_call-IsBounded error_pop c v = ground (arith, List-cases c.error_event_queue)
reader_call-IsBounded error_peek c v = ground (arith, List-cases c.error_event_queue)
reader_call-IsBounded error_clear c v = ground arith

-- Events pushed one after the other; a full queue refuses.
push_or : Client → Push → Client
push_or c (pushed c') = c'
push_or c overflow = c

pub push_all : Client → List EventEntry → Client
unfolding push_or
push_all c [] = c
push_all c (e ∷ es) = push_all (push_or c (enqueue c e)) es

prepend : Option EventEntry → List EventEntry → List EventEntry
prepend none es = es
prepend (some e) es = e ∷ es

-- The events that `n` calls of `lwis_client_event_pop_front` return.
pub pop_n : ℕ → Client → List EventEntry
unfolding prepend
pop_n zero c = []
pop_n (suc n) c = let (e, c') = lwis_client_event_pop_front c in prepend e (pop_n n c')

abbrev after_push_of : Client → EventEntry → Client
after_push_of c e = record c {
  event_queue = c.event_queue ++ e ∷ [];
  event_queue_size = c.event_queue_size + 1;
}

push_or-room :
    (c : Client) (e : EventEntry)
    → c.event_queue_size < max_num_pending_events
    → push_or c (enqueue c e) ≡ after_push_of c e
unfolding push_or enqueue
push_or-room c e h = elim (Bool-cases (leb max_num_pending_events c.event_queue_size)) [
  | inl full ↦ absurd (ground arith)
  | inr room ↦ rw (room, push_or)
]

push_all-queue :
    (c : Client) (es : List EventEntry)
    → c.event_queue_size + length es ≤ max_num_pending_events
    → (push_all c es).event_queue ≡ c.event_queue ++ es
unfolding push_all enqueue
push_all-queue c [] h = sym (append-nil c.event_queue)
push_all-queue c (e ∷ es) h =
    ap (λ (k : Client). (push_all k es).event_queue) (push_or-room c e (omega arith))
    ∙ push_all-queue (after_push_of c e) es (omega arith)
    ∙ append_assoc c.event_queue (e ∷ []) es

pop_n-queue : (c : Client) (q : List EventEntry) → c.event_queue ≡ q → pop_n (length q) c ≡ q
unfolding pop_n lwis_client_event_pop_front
pop_n-queue c [] h = refl
pop_n-queue c (e ∷ es) h =
    let front : (lwis_client_event_pop_front c).0 ≡ some e = ground arith in
    let rest : (lwis_client_event_pop_front c).1.event_queue ≡ es = ground arith in
    ap₂ prepend front (pop_n-queue (lwis_client_event_pop_front c).1 es rest)

-- First in, first out: events pushed behind a queue come out after it, in their order.
pub pop_n-push_all :
    (c : Client) (es : List EventEntry)
    → c.event_queue_size + length es ≤ max_num_pending_events
    → pop_n (length c.event_queue + length es) (push_all c es) ≡ c.event_queue ++ es
pop_n-push_all c es h =
    let q = pop_n-queue (push_all c es) (c.event_queue ++ es) (push_all-queue c es h) in
    rw (← length-append c.event_queue es) q

emit_step-IsBounded :
    (c : Client) (cs : List Client) (e : EventEntry) (rest : List Client × List Bool)
    (mem : List Bool)
    → All IsBounded (c ∷ cs)
    → All IsBounded rest.0
    → All IsBounded (emit_step c cs (lwis_client_error_event_push_back c e) rest mem).0
unfolding emit_step
emit_step-IsBounded c cs e rest mem v v' =
    elim (Option-cases (lwis_client_error_event_push_back c e)) [
      | inl q ↦ rw (q, emit_step) v
      | inr (c', q) ↦ rw (q, emit_step) (error_push-IsBounded c c' e v.0 q, v')
    ]

error_emit_loop-IsBounded :
    (cs : List Client) (mem : List Bool) (e : EventEntry)
    → All IsBounded cs
    → All IsBounded (error_emit_loop cs mem e).0
unfolding error_emit_loop
error_emit_loop-IsBounded [] mem e v = tt
error_emit_loop-IsBounded (c ∷ cs) mem e v = elim (Bool-cases (kmalloc mem).0) [
  | inl q ↦
      rw q (emit_step-IsBounded c cs e _ _ v (error_emit_loop-IsBounded cs (kmalloc mem).1 e v.1))
  | inr q ↦ rw q v
]

pub error_event_emit-IsBounded :
    (cs : List Client) (mem : List Bool) (now event_id : ℕ) (payload : Payload)
    → All IsBounded cs
    → All IsBounded (lwis_device_error_event_emit cs mem now event_id payload).0
unfolding lwis_device_error_event_emit
error_event_emit-IsBounded cs mem now event_id payload v =
    elim (Bool-cases (
      lt_signed event_id start_of_error_range
      || not (lt_signed event_id start_of_specialized_range))) [
        | inl q ↦ rw q v
        | inr q ↦ rw q (error_emit_loop-IsBounded cs mem _ v)
      ]

abbrev pub add_error : EventEntry → Client → Client
add_error e c = record c {
  error_event_queue = c.error_event_queue ++ e ∷ [];
  error_event_queue_size = c.error_event_queue_size + 1;
}

error_push-room :
    (c : Client) (e : EventEntry)
    → c.error_event_queue_size < max_num_pending_events
    → lwis_client_error_event_push_back c e ≡ some (add_error e c)
unfolding lwis_client_error_event_push_back
error_push-room c e h = elim (Bool-cases (leb max_num_pending_events c.error_event_queue_size)) [
  | inl full ↦ absurd (ground arith)
  | inr room ↦ rw room
]

error_emit_loop-adds :
    (cs : List Client) (e : EventEntry)
    → All (λ c. c.error_event_queue_size < max_num_pending_events) cs
    → (error_emit_loop cs [] e).0 ≡ map (add_error e) cs
unfolding error_emit_loop
error_emit_loop-adds [] e room = refl
error_emit_loop-adds (c ∷ cs) e room =
    let q : lwis_client_error_event_push_back c e ≡ some (add_error e c) =
      error_push-room c e room.0 in
    rw (q, emit_step) (ap (◌∷◌ (add_error e c)) (error_emit_loop-adds cs e room.1))

-- With memory and with room in each error queue, an event of the error range is put at the end of
-- the error queue of every client of the device, whatever events these have enabled, and changes
-- nothing else of them.
pub error_event_emit-adds :
    (cs : List Client) (now event_id : ℕ) (payload : Payload)
    → start_of_error_range ≤ event_id
    → event_id < start_of_specialized_range
    → All (λ c. c.error_event_queue_size < max_num_pending_events) cs
    → (lwis_device_error_event_emit cs [] now event_id payload).0
      ≡ map
          (add_error (record {
            event_id = event_id;
            event_counter = 0;
            timestamp_ns = now;
            payload = payload;
          }))
          cs
unfolding lwis_device_error_event_emit
error_event_emit-adds cs now event_id payload lo hi room =
    elim (Bool-cases (
      lt_signed event_id start_of_error_range
      || not (lt_signed event_id start_of_specialized_range))) [
        | inl q ↦ absurd (ground arith)
        | inr q ↦ rw q (error_emit_loop-adds cs _ room)
      ]
