-- ===== src/Event/States/Laws.antt =====
-- lwis_event.c: finding an event's state again once it was found or created.
use google_modules_lwis.Prelude.{
  ℕ, ◌≡◌, refl, ap, ◌∙◌, inl, inr, Bool, true, false, Option, none, some, List, [], ◌∷◌, arith,
  Option-cases,
}
use google_modules_lwis.Commands.{EventControl}
use google_modules_lwis.Device.{Device, Client, DeviceEventState, EventList, Transaction, kmalloc}
use google_modules_lwis.Event.States.{
  find_client_state, put_client_state, lwis_client_event_state_find,
  lwis_client_event_state_find_or_create, create_states, device_side, client_side,
  create_client_state, create_device_state, lwis_device_event_state_find_or_create,
  lwis_device_event_state_find,
}

find-event_id :
    (ss : List EventControl) (event_id : ℕ) (s : EventControl)
    → find_client_state ss event_id ≡ some s
    → s.event_id ≡ event_id
unfolding find_client_state
find-event_id [] event_id s found = cc
find-event_id (p ∷ ps) event_id s found = ground (arith, find-event_id ps event_id s)

pub found-event_id :
    (c : Client) (event_id : ℕ) (s : EventControl)
    → lwis_client_event_state_find c event_id ≡ some s
    → s.event_id ≡ event_id
unfolding lwis_client_event_state_find
found-event_id c event_id s found = find-event_id c.event_states event_id s found

pub find-put :
    (ss : List EventControl) (s s' : EventControl)
    → find_client_state ss s'.event_id ≡ some s
    → find_client_state (put_client_state ss s') s'.event_id ≡ some s'
unfolding find_client_state put_client_state
find-put [] s s' found = cc
find-put (p ∷ ps) s s' found = ground (arith, find-put ps s s')

pub find_or_create-found :
    (c : Client) (mem : List Bool) (event_id : ℕ) (s : EventControl)
    → lwis_client_event_state_find c event_id ≡ some s
    → lwis_client_event_state_find_or_create c mem event_id ≡ (some s, c, mem)
unfolding lwis_client_event_state_find_or_create
find_or_create-found c mem event_id s found = rw (found, lwis_client_event_state_find_or_create)

create-finds :
    (c : Client) (mem : List Bool) (event_id : ℕ) (s : EventControl) (r : Bool × List Bool)
    → (create_client_state c mem event_id r).0 ≡ some s
    → lwis_client_event_state_find (create_client_state c mem event_id r).1 event_id ≡ some s
unfolding create_client_state lwis_client_event_state_find find_client_state
create-finds c mem event_id s (false, mem') e = cc
create-finds c mem event_id s (true, mem') e = ground arith

-- A state that is found or made is the one that the client then has.
pub find_or_create-finds :
    (c : Client) (mem : List Bool) (event_id : ℕ) (s : EventControl)
    → (lwis_client_event_state_find_or_create c mem event_id).0 ≡ some s
    → lwis_client_event_state_find
        (lwis_client_event_state_find_or_create c mem event_id).1
        event_id
      ≡ some s
unfolding lwis_client_event_state_find_or_create
find_or_create-finds c mem event_id s e =
    elim (Option-cases (lwis_client_event_state_find c event_id)) [
      | inl n ↦
          rw (n, lwis_client_event_state_find_or_create)
            (create-finds c mem event_id s (kmalloc mem)
              (rw (n, lwis_client_event_state_find_or_create) at e))
      | inr (s', n) ↦
          rw (find_or_create-found c mem event_id s' n)
            (n ∙ rw (find_or_create-found c mem event_id s' n) at e)
    ]

module _ {R : Type 0} where
  client_side-client :
      (d : Device R) (r : Option EventControl × Client × List Bool) → (client_side d r).2 ≡ r.1
  unfolding client_side
  client_side-client d (none, c, mem) = refl
  client_side-client d (some s, c, mem) = refl

  device_side-client :
      (c : Client) (event_id : ℕ) (s : EventControl) (r : Option DeviceEventState × Device R)
      → lwis_client_event_state_find c event_id ≡ some s
      → (device_side c event_id r).2 ≡ c
  unfolding device_side
  device_side-client c event_id s (none, d) found = refl
  device_side-client c event_id s (some t, d) found =
      client_side-client d _
      ∙ ap (λ (r : Option EventControl × Client × List Bool). r.1)
          (find_or_create-found c d.mem event_id s found)

  -- Making the states of an event that the client knows leaves the client alone.
  pub create_states-client :
      (d : Device R) (c : Client) (event_id : ℕ) (s : EventControl)
      → lwis_client_event_state_find c event_id ≡ some s
      → (create_states d c event_id).2 ≡ c
  unfolding create_states
  create_states-client d c event_id s found = device_side-client c event_id s _ found

-- The transactions of a client and their counter, which the event states have no part in.
abbrev pub books_of : Client → List EventList × List Transaction × List Transaction × ℕ
books_of c = (
  c.transaction_list, c.transaction_process_queue_tasklet, c.transaction_process_queue,
  c.transaction_counter,
)

create-books :
    (c : Client) (mem : List Bool) (event_id : ℕ) (r : Bool × List Bool)
    → books_of (create_client_state c mem event_id r).1 ≡ books_of c
unfolding create_client_state
create-books c mem event_id (false, mem') = refl
create-books c mem event_id (true, mem') = refl

find_or_create-books :
    (c : Client) (mem : List Bool) (event_id : ℕ)
    → books_of (lwis_client_event_state_find_or_create c mem event_id).1 ≡ books_of c
unfolding lwis_client_event_state_find_or_create
find_or_create-books c mem event_id =
    elim (Option-cases (lwis_client_event_state_find c event_id)) [
      | inl n ↦
          rw (n, lwis_client_event_state_find_or_create) (create-books c mem event_id (kmalloc mem))
      | inr (s, n) ↦ rw (find_or_create-found c mem event_id s n)
    ]

module _ {R : Type 0} where
  device_side-books :
      (c : Client) (event_id : ℕ) (r : Option DeviceEventState × Device R)
      → books_of (device_side c event_id r).2 ≡ books_of c
  unfolding device_side
  device_side-books c event_id (none, d) = refl
  device_side-books c event_id (some t, d) =
      ap books_of (client_side-client d _) ∙ find_or_create-books c d.mem event_id

  pub create_states-books :
      (d : Device R) (c : Client) (event_id : ℕ)
      → books_of (create_states d c event_id).2 ≡ books_of c
  unfolding create_states
  create_states-books d c event_id = device_side-books c event_id _

  -- Making event states leaves the width of the device's registers alone.
  create_device_state-width :
      (d : Device R) (event_id : ℕ) (r : Bool × List Bool)
      → (create_device_state d event_id r).1.native_value_bitwidth ≡ d.native_value_bitwidth
  unfolding create_device_state
  create_device_state-width d event_id (false, mem) = refl
  create_device_state-width d event_id (true, mem) = refl

  device_find_or_create-width :
      (d : Device R) (event_id : ℕ)
      → (lwis_device_event_state_find_or_create d event_id).1.native_value_bitwidth
        ≡ d.native_value_bitwidth
  unfolding lwis_device_event_state_find_or_create
  device_find_or_create-width d event_id =
      elim (Option-cases (lwis_device_event_state_find d event_id)) [
        | inl n ↦
            rw (n, lwis_device_event_state_find_or_create)
              (create_device_state-width d event_id (kmalloc d.mem))
        | inr (s, n) ↦ rw (n, lwis_device_event_state_find_or_create) refl
      ]

  client_side-width :
      (d : Device R) (r : Option EventControl × Client × List Bool)
      → (client_side d r).1.native_value_bitwidth ≡ d.native_value_bitwidth
  unfolding client_side
  client_side-width d (none, c, mem) = refl
  client_side-width d (some s, c, mem) = refl

  device_side-width :
      (c : Client) (event_id : ℕ) (r : Option DeviceEventState × Device R)
      → (device_side c event_id r).1.native_value_bitwidth ≡ (r.1).native_value_bitwidth
  unfolding device_side
  device_side-width c event_id (none, d) = refl
  device_side-width c event_id (some s, d) = client_side-width d _

  pub create_states-width :
      (d : Device R) (c : Client) (event_id : ℕ)
      → (create_states d c event_id).1.native_value_bitwidth ≡ d.native_value_bitwidth
  unfolding create_states
  create_states-width d c event_id =
      device_side-width c event_id _ ∙ device_find_or_create-width d event_id
