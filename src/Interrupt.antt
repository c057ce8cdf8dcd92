-- ===== src/Interrupt.antt =====
-- lwis_interrupt.c, lwis_interrupt.h: the interrupts of a device, their events, and the handlers. An
-- event of an interrupt is reached by its id; a register is reached by `vops`.
pub mod Handled
pub mod Masked
use Prim.Native.Nat.{bit_or}
use google_modules_lwis.Prelude.{
  ℕ, ◌+◌, ◌*◌, ◌%◌, ◌^◌, ◌/◌, Bool, true, false, Option, none, some, List, [], ◌∷◌, ◌++◌, ◌==◌,
  ◌&&◌, leb, ltb, not, if◌then◌else◌, get_elem?, set, length,
}
use google_modules_lwis.Prelude.Bits.{test_bit, set_bit, clear_bit}
use google_modules_lwis.Errno.{enomem, einval}
use google_modules_lwis.Commands.{EventControl, null, has_irq_enable_once}
use google_modules_lwis.Io.{
  Vops, lwis_device_single_register_read, lwis_device_single_register_write,
}
use google_modules_lwis.Device.{Device, Client, kmalloc}
use google_modules_lwis.Event.States.{find_client_state, lwis_device_event_state_find_or_create}
use google_modules_lwis.Emission.{Emission, lwis_device_event_emit}

-- struct lwis_single_event_info.
pub record SingleEventInfo : Type 0 where
  pub event_id : ℕ
  pub int_reg_bit : ℕ
  pub is_critical : Bool

-- struct lwis_interrupt, the newest event first in its table.
pub record Interrupt : Type 0 where
  pub irq : ℕ
  pub has_events : Bool
  pub irq_reg_bid : ℕ
  pub irq_src_reg : ℕ
  pub irq_reset_reg : ℕ
  pub irq_mask_reg : ℕ
  pub irq_reg_access_size : ℕ
  pub mask_toggled : Bool
  pub event_infos : List SingleEventInfo
  pub enabled_event_infos : List SingleEventInfo

unfoldable pub find_info : List SingleEventInfo → ℕ → Option SingleEventInfo
find_info [] event_id = none
find_info (p ∷ ps) event_id = if p.event_id == event_id then some p else find_info ps event_id

unfoldable pub lwis_interrupt_get_single_event_info_locked : Interrupt → ℕ → Option SingleEventInfo
lwis_interrupt_get_single_event_info_locked irq event_id = find_info irq.event_infos event_id

module _ {R : Type 0} (vops : Vops R) where
  -- The mask with one bit set or cleared.
  unfoldable pub new_mask : ℕ → ℕ → Bool → ℕ
  new_mask mask int_reg_bit is_set =
      if is_set then set_bit mask int_reg_bit else clear_bit mask int_reg_bit

  unfoldable pub write_mask : Interrupt → ℕ → Bool → ℕ × Option ℕ × R → ℕ × R
  unfolding new_mask
  write_mask irq int_reg_bit is_set (ret, none, regs) = (ret, regs)
  write_mask irq int_reg_bit is_set (ret, some mask, regs) =
      lwis_device_single_register_write vops regs irq.irq_reg_bid irq.irq_mask_reg
        (new_mask mask int_reg_bit is_set) irq.irq_reg_access_size

  unfoldable pub lwis_interrupt_set_mask : Interrupt → R → ℕ → Bool → ℕ × R
  unfolding write_mask
  lwis_interrupt_set_mask irq regs int_reg_bit is_set = write_mask irq int_reg_bit is_set (
      lwis_device_single_register_read vops regs irq.irq_reg_bid irq.irq_mask_reg
        irq.irq_reg_access_size)

-- The event without its place in the list of enabled events.
unfoldable pub list_del : List SingleEventInfo → ℕ → List SingleEventInfo
list_del [] event_id = []
list_del (p ∷ ps) event_id = if p.event_id == event_id then ps else p ∷ list_del ps event_id

unfoldable pub enabled_after : Interrupt → SingleEventInfo → Bool → Interrupt
unfolding list_del
enabled_after irq event true = record irq {
  enabled_event_infos = irq.enabled_event_infos ++ event ∷ [];
}
enabled_after irq event false = record irq {
  enabled_event_infos = list_del irq.enabled_event_infos event.event_id;
}

-- With `mask_toggled` a set bit of the mask disables the event.
unfoldable pub mask_bit : Interrupt → Bool → Bool
mask_bit irq enabled = if irq.mask_toggled then not enabled else enabled

module _ {R : Type 0} (vops : Vops R) where
  unfoldable pub lwis_interrupt_single_event_enable_locked :
      Interrupt → R → SingleEventInfo → Bool → ℕ × Interrupt × R
  unfolding enabled_after mask_bit
  lwis_interrupt_single_event_enable_locked irq regs event enabled =
      let (ret, regs') =
        lwis_interrupt_set_mask vops irq regs event.int_reg_bit (mask_bit irq enabled) in
      (ret, enabled_after irq event enabled, regs')

  -- One interrupt of the loop: it may know the event or not.
  unfoldable pub enable_found :
      ℕ → Interrupt → R → Bool → Option SingleEventInfo → ℕ × Interrupt × R
  unfolding lwis_interrupt_single_event_enable_locked
  enable_found ret irq regs enabled none = (ret, irq, regs)
  enable_found ret irq regs enabled (some event) =
      lwis_interrupt_single_event_enable_locked irq regs event enabled

  -- The loop over the interrupts; the last one that knows the event gives the return code.
  unfoldable pub enable_loop : ℕ → List Interrupt → R → ℕ → Bool → ℕ × List Interrupt × R
  unfolding enable_found
  enable_loop ret [] regs event_id enabled = (ret, [], regs)
  enable_loop ret (irq ∷ irqs) regs event_id enabled =
      let (ret', irq', regs') =
        enable_found ret irq regs enabled
          (lwis_interrupt_get_single_event_info_locked irq event_id) in
      let (last, irqs', regs'') = enable_loop ret' irqs regs' event_id enabled in
      (last, irq' ∷ irqs', regs'')

  unfoldable pub lwis_interrupt_event_enable :
      List Interrupt → R → ℕ → Bool → ℕ × List Interrupt × R
  unfolding enable_loop
  lwis_interrupt_event_enable irqs regs event_id enabled =
      enable_loop einval irqs regs event_id enabled

-- A device with its clients in the middle of a handler; `none` if an emission takes more rounds than
-- the fuel.
pub record Site (R : Type 0) : Type 0 where
  pub dev : Device R
  pub clients : List Client

unfoldable pub enabled_once : Option EventControl → Bool
enabled_once none = false
enabled_once (some s) = has_irq_enable_once s.flags

module _ {S : Type 0} where
  -- The loop over the enabled events; `handle` is what is done for one whose bit is set. It ends
  -- when all set bits are handled.
  unfoldable pub isr_loop :
      (S → SingleEventInfo → Option S) → S → ℕ → ℕ → List SingleEventInfo → Option S
  isr_loop handle s source reset [] = some s
  isr_loop handle s source reset (event ∷ events) = elim (test_bit source event.int_reg_bit) [
    | false ↦ elim (source == reset) [
      | true ↦ some s
      | false ↦ isr_loop handle s source reset events
    ]
    | true ↦ elim (handle s event) [
      | none ↦ none
      | some t ↦ elim (source == set_bit reset event.int_reg_bit) [
        | true ↦ some t
        | false ↦ isr_loop handle t source (set_bit reset event.int_reg_bit) events
      ]
    ]
  ]

  -- The same for every event of a list.
  unfoldable pub handle_all : (S → SingleEventInfo → Option S) → S → List SingleEventInfo → Option S
  handle_all handle s [] = some s
  handle_all handle s (event ∷ events) = elim (handle s event) [
    | none ↦ none
    | some t ↦ handle_all handle t events
  ]

module _ {R : Type 0} (vops : Vops R) (fuel : ℕ) (irq : Interrupt) where
  emitted : Option (Emission R) → Option (Site R)
  emitted none = none
  emitted (some e) = some (record { dev = e.dev; clients = e.clients })

  unfoldable pub emit_event : Site R → SingleEventInfo → Option (Site R)
  unfolding emitted
  emit_event s event =
      emitted (lwis_device_event_emit vops true fuel s.dev s.clients event.event_id null)

  -- For each client that asked for one occurrence, the bit of the mask is cleared.
  mask_once : R → SingleEventInfo → List Client → R
  unfolding enabled_once
  mask_once regs event [] = regs
  mask_once regs event (c ∷ cs) =
      mask_once
        (if enabled_once (find_client_state c.event_states event.event_id)
          then (lwis_interrupt_set_mask vops irq regs event.int_reg_bit false).1
          else regs)
        event cs

  masked : SingleEventInfo → Option (Site R) → Option (Site R)
  unfolding mask_once
  masked event none = none
  masked event (some s) =
      some (record s { dev = record (s.dev) { regs = mask_once (s.dev).regs event s.clients } })

  unfoldable pub handle_event : Site R → SingleEventInfo → Option (Site R)
  unfolding emit_event masked
  handle_event s event = masked event (emit_event s event)

  unfoldable pub with_regs : Site R → R → Site R
  with_regs s regs = record s { dev = record (s.dev) { regs = regs } }

  -- The source register was read; it is written to the reset register.
  unfoldable pub acknowledged : Site R → ℕ × Option ℕ × R → Option (Site R)
  unfolding with_regs handle_event isr_loop
  acknowledged s (ret, none, regs) = some (with_regs s regs)
  acknowledged s (ret, some source, regs) =
      let (ret', regs') =
        lwis_device_single_register_write vops regs irq.irq_reg_bid irq.irq_reset_reg source
          irq.irq_reg_access_size in
      if not (ret' == 0)
      then some (with_regs s regs')
      else if source == 0
      then some (with_regs s regs')
      else isr_loop handle_event (with_regs s regs') source 0 irq.enabled_event_infos

  unfoldable pub lwis_interrupt_event_isr : Site R → Option (Site R)
  unfolding acknowledged
  lwis_interrupt_event_isr s = acknowledged s (
      lwis_device_single_register_read vops (s.dev).regs irq.irq_reg_bid irq.irq_src_reg
        irq.irq_reg_access_size)

  pub lwis_interrupt_gpios_event_isr : Site R → Option (Site R)
  unfolding emit_event
  lwis_interrupt_gpios_event_isr s = handle_all emit_event s irq.enabled_event_infos

-- Whether the id is one of the critical events.
unfoldable pub contains : List ℕ → ℕ → Bool
contains [] id = false
contains (c ∷ cs) id = if c == id then true else contains cs id

-- `irq_events[i] |= (int64_t)(list->lwis_dev->id & 0xFFFF) << 32`.
unfoldable pub with_device_id : ℕ → ℕ → ℕ
with_device_id event_id device_id = bit_or event_id (device_id % 2 ^ 16 * 2 ^ 32)

module _ {R : Type 0} where
  -- The event's state is made in the device, and the event goes to the table, unless it is there.
  unfoldable pub add_info : Interrupt → Device R → SingleEventInfo → ℕ × Interrupt × Device R
  add_info irq d info =
      let d' : Device R = (lwis_device_event_state_find_or_create d info.event_id).1 in
      elim (lwis_interrupt_get_single_event_info_locked irq info.event_id) [
        | some old ↦ (einval, irq, d')
        | none ↦ (0, record irq { event_infos = info ∷ irq.event_infos }, d')
      ]

  add_given : Interrupt → Device R → SingleEventInfo → Bool × List Bool → ℕ × Interrupt × Device R
  unfolding add_info
  add_given irq d info (false, mem) = (enomem, irq, record d { mem = mem })
  add_given irq d info (true, mem) = add_info irq (record d { mem = mem }) info

  -- The loop over the events and their bits, of which there are as many.
  pub add_infos : Interrupt → Device R → List ℕ → List ℕ → List ℕ → ℕ × Interrupt × Device R
  unfolding add_given contains with_device_id
  add_infos irq d critical [] bits = (0, record irq { has_events = true }, d)
  add_infos irq d critical (event_id ∷ events) [] = (0, record irq { has_events = true }, d)
  add_infos irq d critical (event_id ∷ events) (int_reg_bit ∷ bits) =
      let (ret, irq', d') =
        add_given irq d
          (record {
            event_id = with_device_id event_id d.id;
            int_reg_bit = int_reg_bit;
            is_critical = contains critical event_id;
          })
          (kmalloc d.mem) in
      let rest : ℕ × Interrupt × Device R = add_infos irq' d' critical events bits in
      if ret == 0 then rest else (ret, irq', d')

  -- `fields` has the registers of the interrupt, as the arguments give them.
  pub lwis_interrupt_set_event_info :
      Interrupt → Interrupt → Device R → List ℕ → List ℕ → List ℕ → ℕ × Interrupt × Device R
  unfolding add_infos
  lwis_interrupt_set_event_info irq fields d irq_events int_reg_bits critical_events =
      if length int_reg_bits == length irq_events
      then add_infos
          (record irq {
            irq_reg_bid = fields.irq_reg_bid;
            irq_src_reg = fields.irq_src_reg;
            irq_reset_reg = fields.irq_reset_reg;
            irq_mask_reg = fields.irq_mask_reg;
            mask_toggled = fields.mask_toggled;
            irq_reg_access_size = fields.irq_reg_access_size;
            event_infos = [];
            enabled_event_infos = [];
          })
          d critical_events irq_events int_reg_bits
      else (einval, irq, d)

  with_events : ℕ × Interrupt × Device R → ℕ × Interrupt × Device R
  with_events (ret, irq, d) =
      if ret == 0 then (0, record irq { has_events = true }, d) else (ret, irq, d)

  pub lwis_interrupt_set_gpios_event_info : Interrupt → Device R → ℕ → ℕ × Interrupt × Device R
  unfolding with_events add_given with_device_id
  lwis_interrupt_set_gpios_event_info irq d irq_event = with_events (
      add_given (record irq { event_infos = []; enabled_event_infos = [] }) d
        (record { event_id = with_device_id irq_event d.id; int_reg_bit = 0; is_critical = false })
        (kmalloc d.mem))

-- Registering the interrupt `index` of a list: `request` is what the kernel's request_irq returns
-- for the number that it gave.
get_found : List Interrupt → ℕ → ℕ → ℕ → Option Interrupt → ℕ × List Interrupt
get_found irqs index number request none = (einval, irqs)
get_found irqs index number request (some irq) =
    (request, set irqs index (record irq { irq = number; has_events = false }))

-- `number` is the answer of platform_get_irq, 0 for none.
pub lwis_interrupt_get : List Interrupt → ℕ → ℕ → ℕ → ℕ × List Interrupt
unfolding get_found
lwis_interrupt_get irqs index number request =
    if number == 0
    then (einval, irqs)
    else get_found irqs index number request (get_elem? irqs index)

pub lwis_interrupt_get_gpio_irq : List Interrupt → ℕ → ℕ → ℕ → ℕ × List Interrupt
unfolding get_found
lwis_interrupt_get_gpio_irq irqs index gpio_irq request =
    if gpio_irq == 0
    then (einval, irqs)
    else get_found irqs index gpio_irq request (get_elem? irqs index)
