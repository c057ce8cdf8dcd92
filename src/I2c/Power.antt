-- ===== src/I2c/Power.antt =====
-- lwis_i2c.c, lwis_device_i2c.c, lwis_device.c: switching the bus of an I2C device on and off. Devices
-- on one bus have the same pin control. The kernel's pin control is a parameter, and
-- CONFIG_INPUT_STMVL53L1 is not set.
use google_modules_lwis.Prelude.{
  ℕ, ◌≡◌, refl, ap, ◌∙◌, inl, inr, Bool, true, false, not, Option, none, some, List, [], ◌∷◌, ◌==◌,
  ◌&&◌, Bool-cases, if◌then◌else◌,
}
use google_modules_lwis.Errno.{enodev}
use google_modules_lwis.Device.{DeviceType}

-- The names of the states: "on_i2c", "off_i2c" and "default".
pub data BusState : Type 0 where
  on_i2c off_i2c default_state : BusState

-- What struct lwis_device and struct lwis_i2c_device have of the bus.
pub record BusDevice : Type 0 where
  pub id : ℕ
  pub type : DeviceType
  pub enabled : ℕ
  pub state_pinctrl : Option ℕ
  pub pinctrl_default_state_only : Bool

-- A state that was selected for a pin control.
pub record Selection : Type 0 where
  pub pinctrl : ℕ
  pub state : BusState

-- The kernel's pin control: looking a state up and selecting it each return 0 or an error.
pub record Pinctrl : Type 0 where
  pub lookup_state : ℕ → BusState → ℕ
  pub select_state : ℕ → BusState → ℕ

is_i2c : DeviceType → Bool
is_i2c DeviceType.i2c = true
is_i2c _ = false

same_pinctrl : Option ℕ → Option ℕ → Bool
same_pinctrl none none = true
same_pinctrl (some p) (some q) = p == q
same_pinctrl _ _ = false

-- Whether a device of the list is another one that uses the bus.
unfoldable pub uses_bus : BusDevice → BusDevice → Bool
unfolding is_i2c same_pinctrl
uses_bus d other =
    is_i2c other.type
    && same_pinctrl other.state_pinctrl d.state_pinctrl
    && not (other.id == d.id)
    && not (other.enabled == 0)

unfoldable any_uses : BusDevice → List BusDevice → Bool
unfolding uses_bus
any_uses d [] = false
any_uses d (other ∷ others) = if uses_bus d other then true else any_uses d others

-- `devices` is the list of all devices of the driver.
unfoldable pub lwis_i2c_dev_is_in_use : List BusDevice → BusDevice → Bool
unfolding any_uses is_i2c
lwis_i2c_dev_is_in_use devices d = if is_i2c d.type then any_uses d devices else false

module _ (kernel : Pinctrl) where
  -- The selections so far, the newest first.
  unfoldable set_by : Option ℕ → BusState → List Selection → ℕ × List Selection
  set_by none state log = (enodev, log)
  set_by (some p) state log =
      if not (kernel.lookup_state p state == 0)
      then (kernel.lookup_state p state, log)
      else if not (kernel.select_state p state == 0)
      then (kernel.select_state p state, log)
      else (0, record { pinctrl = p; state = state } ∷ log)

  unfoldable pub lwis_i2c_set_state : BusDevice → BusState → List Selection → ℕ × List Selection
  unfolding set_by
  lwis_i2c_set_state d state log =
      set_by d.state_pinctrl (if d.pinctrl_default_state_only then default_state else state) log

  pub lwis_i2c_device_enable : BusDevice → List Selection → ℕ × List Selection
  unfolding lwis_i2c_set_state
  lwis_i2c_device_enable d log = lwis_i2c_set_state d on_i2c log

  unfoldable pub lwis_i2c_device_disable :
      List BusDevice → BusDevice → List Selection → ℕ × List Selection
  unfolding lwis_i2c_set_state lwis_i2c_dev_is_in_use
  lwis_i2c_device_disable devices d log =
      if lwis_i2c_dev_is_in_use devices d then (0, log) else lwis_i2c_set_state d off_i2c log

-- A device of a list with what it has.
pub data Among (P : BusDevice → Type 0) : List BusDevice → Type 0 where
  here : (d : BusDevice) (ds : List BusDevice) → P d → Among P (d ∷ ds)
  there : (d : BusDevice) (ds : List BusDevice) → Among P ds → Among P (d ∷ ds)

any-Among :
    (d : BusDevice) (ds : List BusDevice)
    → Among (λ (e : BusDevice). uses_bus d e ≡ true) ds
    → any_uses d ds ≡ true
unfolding any_uses
any-Among d ds (here e es h) = rw h refl
any-Among d ds (there e es h) = elim (Bool-cases (uses_bus d e)) [
  | inl uses ↦ rw uses refl
  | inr unused ↦ rw unused (any-Among d es h)
]

-- While another enabled device is on its bus, disabling an I2C device leaves the bus as it is.
pub lwis_i2c_device_disable-keeps :
    (kernel : Pinctrl) (devices : List BusDevice) (d : BusDevice) (log : List Selection)
    → d.type ≡ DeviceType.i2c
    → Among (λ (e : BusDevice). uses_bus d e ≡ true) devices
    → lwis_i2c_device_disable kernel devices d log ≡ (0, log)
unfolding lwis_i2c_device_disable lwis_i2c_dev_is_in_use is_i2c
lwis_i2c_device_disable-keeps kernel devices d log i2c other =
    ap
      (λ (t : DeviceType).
        if (if is_i2c t then any_uses d devices else false)
        then (0, log)
        else lwis_i2c_set_state kernel d off_i2c log)
      i2c
    ∙ rw (any-Among d devices other) refl
