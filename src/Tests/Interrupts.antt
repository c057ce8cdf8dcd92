-- ===== src/Tests/Interrupts.antt =====
-- An interrupt with two enabled events on a device whose register reads 7.
use google_modules_lwis.Prelude.{ℕ, ◌+◌, ◌≡◌, refl, true, false, [], ◌∷◌}
use google_modules_lwis.Io.{lwis_device_single_register_read, lwis_device_single_register_write}
use google_modules_lwis.Interrupt.{
  SingleEventInfo, Interrupt, Site, lwis_interrupt_event_isr,
  lwis_interrupt_single_event_enable_locked,
}
use google_modules_lwis.Interrupt.Handled.{triggered, emit_each, lwis_interrupt_event_isr-handles}
use google_modules_lwis.Interrupt.Masked.{Masks, has_event, single_event_enable_locked-Masks}
use google_modules_lwis.Tests.{vops, device, client, irq_event}

abbrev first : SingleEventInfo
first = record { event_id = irq_event; int_reg_bit = 1; is_critical = false }

abbrev second : SingleEventInfo
second = record { event_id = irq_event + 1; int_reg_bit = 5; is_critical = true }

abbrev irq : Interrupt
irq = record {
  irq = 40;
  has_events = true;
  irq_reg_bid = 0;
  irq_src_reg = 0;
  irq_reset_reg = 4;
  irq_mask_reg = 8;
  irq_reg_access_size = 32;
  mask_toggled = true;
  event_infos = first ∷ second ∷ [];
  enabled_event_infos = first ∷ second ∷ [];
}

abbrev site : Site ℕ
site = record { dev = device; clients = client 0 [] ∷ [] }

lwis_interrupt_event_isr-handles_example :
    lwis_interrupt_event_isr vops 5 irq site
    ≡ emit_each vops 5 irq
        (record site { dev = record (site.dev) { regs = 7 } })
        (triggered 7 irq.enabled_event_infos)
unfolding lwis_device_single_register_read lwis_device_single_register_write
lwis_interrupt_event_isr-handles_example =
    lwis_interrupt_event_isr-handles vops 5 irq site 7 7 7 refl refl ((refl, tt), (tt, tt))

-- A set bit of the mask disables: that of the event is set.
single_event_enable_locked-Masks_example :
    Masks vops irq 7 second false 7
      (lwis_interrupt_single_event_enable_locked vops irq 7 second false)
unfolding lwis_device_single_register_read has_event
single_event_enable_locked-Masks_example =
    single_event_enable_locked-Masks vops irq 7 7 second false 7 refl (λ _. refl)
