-- ===== src/Event/Subscribe/Flags.antt =====
-- lwis_event.c: the flags that a client sets are those that it gets back.
use google_modules_lwis.Prelude.{
  ℕ, ◌≡◌, ◌≢◌, refl, sym, ap, ◌∙◌, subst, inl, inr, Bool, true, false, Option, none, some, List,
  arith, ◌==◌, ==_iff, Bool-cases,
}
use google_modules_lwis.Commands.{EventControl, event_owner_device_id}
use google_modules_lwis.Io.{Vops}
use google_modules_lwis.Device.{Client}
use google_modules_lwis.Event.States.{lwis_client_event_state_find}
use google_modules_lwis.Event.States.Laws.{
  found-event_id, find-put, find_or_create-found, find_or_create-finds, create_states-client,
}
use google_modules_lwis.Event.Control.{check_event_control_flags, lwis_device_event_flags_updated}
use google_modules_lwis.Event.Subscribe.{
  Topology, Site, own_states, create_trigger_state, subscribe_created, lwis_client_event_subscribe,
  lwis_client_event_unsubscribe, forward, store_flags, change_flags, set_found, get_found,
  lwis_client_event_control_set, lwis_client_event_control_get,
}

abbrev Knows : EventControl → Client → Type 0
Knows s c = lwis_client_event_state_find c s.event_id ≡ some s

refused_fails : (n : ℕ) → n ≡ 0 → (n == 0) ≢ false
refused_fails n e = ground arith

same_state : (s t : EventControl) → s.event_id ≡ t.event_id → s.flags ≡ t.flags → s ≡ t
same_state s t e f = ground arith

module _ {R T : Type 0} where
  own_states-client :
      (s : Site R T) (control : EventControl)
      → Knows control s.client
      → (own_states s control.event_id).1.client ≡ s.client
  unfolding own_states
  own_states-client s control k = create_states-client s.dev s.client control.event_id control k

  create_trigger-client :
      (top : Topology T) (event_id : ℕ) (r : Bool × Site R T)
      → (create_trigger_state top event_id r).1.client ≡ r.1.client
  unfolding create_trigger_state
  create_trigger-client top event_id (false, s) = refl
  create_trigger-client top event_id (true, s) = refl

  created-client :
      (top : Topology T) (event_id : ℕ) (r : Bool × Site R T)
      → (subscribe_created top event_id r).1.client ≡ r.1.client
  unfolding subscribe_created
  created-client top event_id (false, s) = refl
  created-client top event_id (true, s) = refl

  subscribe-client :
      (top : Option (Topology T)) (s : Site R T) (control : EventControl)
      → Knows control s.client
      → (lwis_client_event_subscribe top s control.event_id).1.client ≡ s.client
  unfolding lwis_client_event_subscribe
  subscribe-client none s control k = refl
  subscribe-client (some top) s control k =
      let chain =
        created-client top control.event_id
          (create_trigger_state top control.event_id (own_states s control.event_id))
        ∙ create_trigger-client top control.event_id (own_states s control.event_id)
        ∙ own_states-client s control k in
      elim (Bool-cases (top.has_device s.others (event_owner_device_id control.event_id))) [
        | inl known ↦ rw known chain
        | inr unknown ↦ rw unknown refl
      ]

  unsubscribe-client :
      (top : Option (Topology T)) (s : Site R T) (event_id : ℕ)
      → (lwis_client_event_unsubscribe top s event_id).1.client ≡ s.client
  unfolding lwis_client_event_unsubscribe
  unsubscribe-client none s event_id = refl
  unsubscribe-client (some top) s event_id = refl

  module _ (vops : Vops R) (top : Option (Topology T)) where
    forward-client :
        (control : EventControl) (ret : ℕ) (s : Site R T)
        → Knows control s.client
        → (forward vops top control (ret, s)).1.client ≡ s.client
    unfolding forward
    forward-client control ret s k =
        ground (arith, subscribe-client top s control k, unsubscribe-client top s control.event_id)

    stored-Knows :
        (s : Site R T) (state control : EventControl)
        → lwis_client_event_state_find s.client control.event_id ≡ some state
        → Knows control (store_flags vops top s control)
    unfolding store_flags lwis_client_event_state_find
    stored-Knows s state control found = find-put (s.client).event_states state control found

    change_flags-Knows :
        (s : Site R T) (state control : EventControl)
        → lwis_client_event_state_find s.client control.event_id ≡ some state
        → (change_flags vops top s state control).0 ≡ 0
        → Knows control (change_flags vops top s state control).1.client
    unfolding change_flags
    change_flags-Knows s state control found ok =
        let s' : Site R T = record s { client = store_flags vops top s control } in
        let refused =
          check_event_control_flags (s.dev).id (s.dev).type control.event_id control.flags in
        let update =
          lwis_device_event_flags_updated vops s.dev control.event_id state.flags control.flags in
        elim (Bool-cases (state.flags == control.flags)) [
          | inl same ↦ rw same (
              found
              ∙ ap some (
                  same_state state control (found-event_id s.client control.event_id state found)
                    ((==_iff state.flags control.flags).0 same)))
          | inr differ ↦ elim (Bool-cases (refused == 0)) [
            | inr denied ↦ absurd (refused_fails refused (rw (differ, denied) at ok) denied)
            | inl allowed ↦
                rw (differ, allowed)
                  (subst (Knows control)
                    (sym (
                      forward-client control update.0 (record s' { dev = update.1 })
                        (stored-Knows s state control found)))
                    (stored-Knows s state control found))
          ]
        ]

    set_found-Knows :
        (s : Site R T) (control : EventControl) (r : Option EventControl × Client × List Bool)
        → ((t : EventControl)
            → r.0 ≡ some t
            → lwis_client_event_state_find r.1 control.event_id ≡ some t)
        → (set_found vops top s control r).0 ≡ 0
        → Knows control (set_found vops top s control r).1.client
    unfolding set_found
    set_found-Knows s control (none, c, mem) h ok = absurd (ground arith)
    set_found-Knows s control (some t, c, mem) h ok =
        change_flags-Knows (record s { client = c; dev = record (s.dev) { mem = mem } }) t control
          (h t refl) ok

    control_set-Knows :
        (s : Site R T) (control : EventControl)
        → (lwis_client_event_control_set vops top s control).0 ≡ 0
        → Knows control (lwis_client_event_control_set vops top s control).1.client
    unfolding lwis_client_event_control_set
    control_set-Knows s control ok =
        set_found-Knows s control _ (find_or_create-finds s.client (s.dev).mem control.event_id) ok

    -- The flags that a client sets are those that it gets back, and the second call changes
    -- nothing. This holds for an event of the client's own device and for one of another device,
    -- whether the call enables or disables it.
    pub control_set-get :
        (s : Site R T) (control : EventControl)
        → (lwis_client_event_control_set vops top s control).0 ≡ 0
        → lwis_client_event_control_get
            (lwis_client_event_control_set vops top s control).1
            control.event_id
          ≡ (0, some control.flags, (lwis_client_event_control_set vops top s control).1)
    unfolding lwis_client_event_control_get get_found
    control_set-get s control ok =
        let s' = (lwis_client_event_control_set vops top s control).1 in
        rw (
          find_or_create-found s'.client (s'.dev).mem control.event_id control
              (control_set-Knows s control ok),
          get_found,
        )
