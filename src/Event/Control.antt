-- ===== src/Event/Control.antt =====
-- lwis_event.c: enabling events, and the control flags that a client sets.
pub mod Counter
use google_modules_lwis.Prelude.{
  ℕ, ◌+◌, Bool, true, false, Option, none, some, List, [], ◌∷◌, ◌==◌, ◌&&◌, ◌||◌, not,
  if◌then◌else◌,
}
use google_modules_lwis.Prelude.Int.{ℤ, pos, suc_ℤ, pred_ℤ, eq_ℤ}
use google_modules_lwis.Errno.{eperm, enoent, enomem, einval}
use google_modules_lwis.Commands.{
  EventControl, lt_signed, without_device_id, start_of_specialized_range, event_id_heartbeat,
  event_owner_device_id, is_transaction_event, is_transaction_failure_event, is_hw_irq_event,
  has_irq_enable, has_queue_enable, has_irq_enable_once,
}
use google_modules_lwis.Io.{Vops}
use google_modules_lwis.Device.{Device, Client, DeviceEventState, DeviceType, top}
use google_modules_lwis.Event.States.{
  put_client_state, put_device_state, lwis_client_event_state_find_or_create,
  lwis_device_event_state_find, lwis_device_event_state_find_or_create,
}

-- The variables `ret` and `err` of `lwis_device_event_enable`, and the device.
record Attempt (R : Type 0) : Type 0 where
  ret : ℕ
  err : ℕ
  dev : Device R

-- `ret && ret != -EINVAL`.
abbrev is_real_error : ℕ → Bool
is_real_error ret = not (ret == 0) && not (ret == einval)

abbrev attempted : {R : Type 0} → Device R → ℕ × R → Attempt R
attempted d (ret, regs) = record {
  ret = ret;
  err = if is_real_error ret then ret else 0;
  dev = record d { regs = regs };
}

module _ {R : Type 0} (vops : Vops R) where
  enable_generic : Device R → ℕ → Bool → Attempt R
  enable_generic d generic_event_id enabled =
      if generic_event_id == event_id_heartbeat
      then record { ret = 0; err = 0; dev = record d { heartbeat = enabled } }
      else record { ret = enoent; err = enoent; dev = d }

  enable_irq : Device R → ℕ → Bool → Attempt R
  enable_irq d event_id enabled = elim vops.irqs [
    | none ↦ record { ret = einval; err = 0; dev = d }
    | some enable ↦ attempted d (enable d.regs event_id enabled)
  ]

  enable_base : Device R → ℕ → Bool → Attempt R
  unfolding enable_generic enable_irq
  enable_base d event_id enabled =
      if lt_signed (without_device_id event_id) start_of_specialized_range
      then enable_generic d (without_device_id event_id) enabled
      else if not (is_transaction_event event_id)
      then enable_irq d event_id enabled
      else record { ret = einval; err = 0; dev = d }

  enable_special : ℕ → Bool → Attempt R → Attempt R
  enable_special event_id enabled a = elim vops.event_enable [
    | none ↦ a
    | some enable ↦ if a.err == 0 then attempted a.dev (enable (a.dev).regs event_id enabled) else a
  ]

  pub lwis_device_event_enable : Device R → ℕ → Bool → ℕ × Device R
  unfolding enable_base enable_special
  lwis_device_event_enable d event_id enabled =
      let a = enable_special event_id enabled (enable_base d event_id enabled) in
      (if a.err == 0 then a.ret else a.err, a.dev)

-- What an update of the flags does to the enable counter, and whether the device is told.
pub record Toggle : Type 0 where
  pub enable_counter : ℤ
  pub event_enabled : Bool
  pub call_enable_cb : Bool

-- The two IRQ flags before and after the update.
pub toggle : ℤ → Bool → Bool → Bool → Bool → Toggle
toggle n old_irq old_once new_irq new_once =
    if (not old_irq || not old_once) && (new_irq || new_once)
    then record {
      enable_counter = suc_ℤ n;
      event_enabled = true;
      call_enable_cb = eq_ℤ (suc_ℤ n) (pos 1);
    }
    else if (old_irq || old_once) && (not new_irq || not new_once)
    then record {
      enable_counter = pred_ℤ n;
      event_enabled = false;
      call_enable_cb = eq_ℤ (pred_ℤ n) (pos 0);
    }
    else record { enable_counter = n; event_enabled = false; call_enable_cb = false }

pub toggle_flags : ℤ → ℕ → ℕ → Toggle
unfolding toggle
toggle_flags n old_flags new_flags =
    toggle n (has_irq_enable old_flags) (has_irq_enable_once old_flags) (has_irq_enable new_flags)
      (has_irq_enable_once new_flags)

module _ {R : Type 0} (vops : Vops R) where
  abbrev put_state : Device R → DeviceEventState → Device R
  put_state d s = record d { event_states = put_device_state d.event_states s }

  -- `state->event_counter = 0` where the test holds.
  abbrev reset_counter : Bool → DeviceEventState → DeviceEventState
  reset_counter test s = if test then record s { event_counter = 0 } else s

  notify_flags : Device R → ℕ → ℕ → ℕ → ℕ × Device R
  notify_flags d event_id old_flags new_flags = elim vops.event_flags_updated [
    | none ↦ (0, d)
    | some updated ↦
        let (ret, regs) = updated d.regs event_id old_flags new_flags in
        (ret, record d { regs = regs })
  ]

  -- The handler, with the callback's result: a failure ends the update.
  after_enable : DeviceEventState → Bool → ℕ → ℕ → ℕ → ℕ × Device R → ℕ × Device R
  unfolding notify_flags
  after_enable s was_disabled event_id old_flags new_flags (ret, d) =
      if ret == 0
      then notify_flags
          (put_state d (
            reset_counter
              ((is_transaction_event event_id || is_transaction_failure_event event_id)
                && new_flags == 0)
              (reset_counter was_disabled s)))
          event_id old_flags new_flags
      else (ret, put_state d s)

  update_state : ℕ → ℕ → ℕ → Option DeviceEventState × Device R → ℕ × Device R
  unfolding after_enable lwis_device_event_enable toggle_flags
  update_state event_id old_flags new_flags (none, d) = (enomem, d)
  update_state event_id old_flags new_flags (some s, d) =
      let t = toggle_flags s.enable_counter old_flags new_flags in
      let s' = record s { enable_counter = t.enable_counter } in
      after_enable s' (t.call_enable_cb && not t.event_enabled) event_id old_flags new_flags (
        if t.call_enable_cb
        then lwis_device_event_enable vops (put_state d s') event_id t.event_enabled
        else (0, put_state d s'))

  unfoldable pub lwis_device_event_flags_updated : Device R → ℕ → ℕ → ℕ → ℕ × Device R
  unfolding update_state lwis_device_event_state_find_or_create
  lwis_device_event_flags_updated d event_id old_flags new_flags =
      update_state event_id old_flags new_flags (lwis_device_event_state_find_or_create d event_id)

-- The flag combinations that a client may not set, on a device of this id and type.
unfoldable pub check_event_control_flags : ℕ → DeviceType → ℕ → ℕ → ℕ
check_event_control_flags dev_id type event_id new_flags =
    if event_owner_device_id event_id == dev_id
    then if is_hw_irq_event event_id
        && has_queue_enable new_flags
        && not (has_irq_enable new_flags)
        && not (has_irq_enable_once new_flags)
      then einval
      else 0
    else elim type [ top ↦ eperm | _ ↦ 0 ]
