-- ===== src/Core.antt =====
-- lwis_device.c, lwis_ioctl.c: opening, enabling, disabling and closing a device by its clients. What the
-- calls of the other parts do to the rest of the state, `S`, is the interface Parts.
pub mod Enabled
use google_modules_lwis.Prelude.{
  ℕ, ◌+◌, ◌-◌, ◌^◌, Bool, true, false, not, Option, none, some, List, [], ◌∷◌, ◌==◌, ◌&&◌, ltb,
  if◌then◌else◌,
}
use google_modules_lwis.Errno.{einval, enomem}

-- A client in the list of its device, by its place in memory.
pub record Opened : Type 0 where
  pub id : ℕ
  pub is_enabled : Bool

-- The calls of the other parts for a client, and those for its device.
pub record Parts (S : Type 0) : Type 0 where
  pub client_init : S → ℕ → S
  pub client_event_queue_clear : S → ℕ → S
  pub client_error_event_queue_clear : S → ℕ → S
  pub client_event_states_clear : S → ℕ → S
  pub periodic_io_client_flush : S → ℕ → S
  pub transaction_client_flush : S → ℕ → S
  pub transaction_client_cleanup : S → ℕ → S
  pub cleanup_client : S → ℕ → S
  pub allocator_release : S → S
  pub power_up_locked : S → ℕ × S
  pub power_down_locked : S → ℕ × S
  pub device_event_states_clear_locked : S → S
  pub remove_votes : S → S
  pub close : S → S

-- struct lwis_device, as far as its clients enable it.
pub record Core (S : Type 0) : Type 0 where
  pub enabled : ℕ
  pub clients : List Opened
  pub rest : S

-- INT_MAX.
abbrev pub int_max : ℕ
int_max = 2 ^ 31 - 1

unfoldable pub find_client : List Opened → ℕ → Option Opened
find_client [] id = none
find_client (c ∷ cs) id = if c.id == id then some c else find_client cs id

-- The client's is_enabled is written.
unfoldable pub put_enabled : List Opened → ℕ → Bool → List Opened
put_enabled [] id b = []
put_enabled (c ∷ cs) id b =
    if c.id == id then record c { is_enabled = b } ∷ cs else c ∷ put_enabled cs id b

unfoldable pub list_del : List Opened → ℕ → List Opened
list_del [] id = []
list_del (c ∷ cs) id = if c.id == id then cs else c ∷ list_del cs id

module _ {S : Type 0} (parts : Parts S) where
  -- `id` is the place of the new client, none if there is no memory.
  unfoldable pub lwis_open : Core S → Option ℕ → ℕ × Core S
  lwis_open d none = (enomem, d)
  lwis_open d (some id) = (
    0,
    record d {
      clients = record { id = id; is_enabled = false } ∷ d.clients;
      rest = parts.client_init d.rest id;
    },
  )

  -- The device was powered up.
  unfoldable pub powered_up : Core S → ℕ → ℕ × S → ℕ × Core S
  unfolding put_enabled
  powered_up d id (ret, s) = if not (ret == 0) then (ret, record d { rest = s }) else (
    ret,
    record d { enabled = d.enabled + 1; clients = put_enabled d.clients id true; rest = s },
  )

  unfoldable pub enable_client : Core S → Opened → ℕ × Core S
  unfolding powered_up put_enabled
  enable_client d c =
      if c.is_enabled
      then (0, d)
      else if ltb 0 d.enabled && ltb d.enabled int_max
      then (0, record d { enabled = d.enabled + 1; clients = put_enabled d.clients c.id true })
      else if d.enabled == int_max
      then (einval, d)
      else powered_up d c.id (
          parts.power_up_locked (
            parts.client_error_event_queue_clear (parts.client_event_queue_clear d.rest c.id) c.id))

  unfoldable pub ioctl_device_enable : Core S → ℕ → ℕ × Core S
  unfolding enable_client find_client
  ioctl_device_enable d id = elim (find_client d.clients id) [
    | none ↦ (0, d)
    | some c ↦ enable_client d c
  ]

  unfoldable pub powered_down : Core S → ℕ → ℕ × S → ℕ × Core S
  unfolding put_enabled
  powered_down d id (ret, s) = if not (ret == 0) then (ret, record d { rest = s }) else (
    ret,
    record d {
      enabled = d.enabled - 1;
      clients = put_enabled d.clients id false;
      rest = parts.device_event_states_clear_locked s;
    },
  )

  -- The client's periodic I/O and transactions are flushed.
  unfoldable pub flushed : S → ℕ → S
  flushed s id =
      parts.transaction_client_cleanup
        (parts.transaction_client_flush
          (parts.periodic_io_client_flush (parts.client_event_states_clear s id) id) id)
        id

  unfoldable pub disable_client : Core S → Opened → ℕ × Core S
  unfolding powered_down put_enabled flushed
  disable_client d c =
      let d' : Core S = record d { rest = flushed d.rest c.id } in
      if not c.is_enabled
      then (0, d)
      else if ltb 1 d.enabled
      then (0, record d' { enabled = d.enabled - 1; clients = put_enabled d.clients c.id false })
      else if d.enabled == 0
      then (einval, d')
      else powered_down d' c.id (parts.power_down_locked d'.rest)

  unfoldable pub ioctl_device_disable : Core S → ℕ → ℕ × Core S
  unfolding disable_client find_client
  ioctl_device_disable d id = elim (find_client d.clients id) [
    | none ↦ (0, d)
    | some c ↦ disable_client d c
  ]

  -- The count of a client that closes the device without disabling it.
  unfoldable pub uncounted : Core S → Bool → ℕ × Core S
  uncounted d is_client_enabled =
      let (ret, s) = parts.power_down_locked d.rest in
      if is_client_enabled && ltb 0 d.enabled
      then (if d.enabled - 1 == 0
          then (ret, record d { enabled = d.enabled - 1; rest = s })
          else (0, record d { enabled = d.enabled - 1 }))
      else (0, d)

  -- The last client drops the votes and the states of the device, and closes it.
  unfoldable pub last_closed : ℕ × Core S → ℕ × Core S
  last_closed (ret, d) =
      if d.enabled == 0
      then (
        ret,
        record d {
          rest = parts.close (parts.device_event_states_clear_locked (parts.remove_votes d.rest));
        },
      )
      else (ret, d)

  unfoldable pub release_client : Core S → Opened → ℕ × Core S
  unfolding list_del uncounted last_closed
  release_client d c = last_closed (
      uncounted
        (record d {
          clients = list_del d.clients c.id;
          rest = parts.allocator_release (parts.cleanup_client d.rest c.id);
        })
        c.is_enabled)

  unfoldable pub lwis_release : Core S → ℕ → ℕ × Core S
  unfolding release_client find_client
  lwis_release d id = elim (find_client d.clients id) [
    | none ↦ (0, d)
    | some c ↦ release_client d c
  ]
