-- ===== src/Interrupt/Masked.antt =====
-- lwis_interrupt.c: enabling and disabling an event changes one bit of the mask register and the list
-- of enabled events.
use google_modules_lwis.Prelude.{
  ℕ, ◌≡◌, ◌≢◌, refl, sym, ap, inl, inr, ==_iff, ◌||◌, Bool-cases, Bool, true, false, not, some,
  List, [], ◌∷◌, ◌++◌, arith, All, ◌==◌, if◌then◌else◌,
}
use google_modules_lwis.Prelude.Bits.{test_bit, test-set_bit, test-clear_bit}
use google_modules_lwis.Io.{
  Vops, lwis_device_single_register_read, lwis_device_single_register_write,
}
use google_modules_lwis.Interrupt.{
  SingleEventInfo, Interrupt, new_mask, write_mask, lwis_interrupt_set_mask, list_del,
  enabled_after, mask_bit, lwis_interrupt_single_event_enable_locked,
}

-- An event of the list has this id.
unfoldable pub has_event : ℕ → List SingleEventInfo → Bool
has_event event_id [] = false
has_event event_id (e ∷ es) = (e.event_id == event_id) || has_event event_id es

-- The new list has one more event at its end, or lacks the first event with the id of this one.
abbrev pub Listing : Bool → SingleEventInfo → List SingleEventInfo → List SingleEventInfo → Type 0
Listing true event before after = after ≡ before ++ event ∷ []
Listing false event before after =
    (front back : List SingleEventInfo) × (found : SingleEventInfo) × (before
      ≡ front ++ found ∷ back)
    × (found.event_id ≡ event.event_id)
    × All (λ (e : SingleEventInfo). e.event_id ≢ event.event_id) front
    × (after ≡ front ++ back)

list_del-Listing :
    (event : SingleEventInfo) (es : List SingleEventInfo)
    → has_event event.event_id es ≡ true
    → Listing false event es (list_del es event.event_id)
unfolding list_del has_event
list_del-Listing event [] h = absurd (cc h)
list_del-Listing event (e ∷ es) h = elim (Bool-cases (e.event_id == event.event_id)) [
  | inl hit ↦ rw hit ([], es, e, refl, (==_iff e.event_id event.event_id).0 hit, tt, refl)
  | inr miss ↦
      let (front, back, found, split, id, others, left) =
        list_del-Listing event es (rw miss at h) in
      rw miss (
        e ∷ front,
        back,
        found,
        ap (λ (l : List SingleEventInfo). e ∷ l) split,
        id,
        ((λ same. absurd (ground (arith, miss, same))), others),
        ap (λ (l : List SingleEventInfo). e ∷ l) left,
      )
]

module _ {R : Type 0} (vops : Vops R) where
  test-new_mask :
      (mask k : ℕ) (b : Bool) (j : ℕ)
      → test_bit (new_mask vops mask k b) j ≡ (if k == j then b else test_bit mask j)
  unfolding new_mask
  test-new_mask mask k true j = test-set_bit mask k j
  test-new_mask mask k false j = test-clear_bit mask k j

  set_mask-writes :
      (irq : Interrupt) (regs regs' : R) (k mask : ℕ) (b : Bool)
      → lwis_device_single_register_read vops regs irq.irq_reg_bid irq.irq_mask_reg
          irq.irq_reg_access_size
        ≡ (0, some mask, regs')
      → lwis_interrupt_set_mask vops irq regs k b
        ≡ lwis_device_single_register_write vops regs' irq.irq_reg_bid irq.irq_mask_reg
            (new_mask vops mask k b)
            irq.irq_reg_access_size
  unfolding lwis_interrupt_set_mask write_mask
  set_mask-writes irq regs regs' k mask b read = rw (read, write_mask) refl

  -- The mask register is written back with one bit changed, and the event is put into the list of
  -- enabled events or taken from it.
  abbrev pub Masks : Interrupt → R → SingleEventInfo → Bool → ℕ → ℕ × Interrupt × R → Type 0
  Masks irq regs event enabled mask (ret, irq', regs') =
      ((value : ℕ) × (lwis_device_single_register_write vops regs irq.irq_reg_bid irq.irq_mask_reg
            value irq.irq_reg_access_size
          ≡ (ret, regs'))
        × ((j : ℕ)
            → test_bit value j ≡ (
                if event.int_reg_bit == j
                then (if irq.mask_toggled then not enabled else enabled)
                else test_bit mask j)))
      × ((es : List SingleEventInfo) × (irq' ≡ record irq { enabled_event_infos = es })
          × Listing enabled event irq.enabled_event_infos es)

  enabled_after-Listing :
      (irq : Interrupt) (event : SingleEventInfo) (enabled : Bool)
      → (enabled ≡ false → has_event event.event_id irq.enabled_event_infos ≡ true)
      → (es : List SingleEventInfo) × (enabled_after irq event enabled
          ≡ record irq { enabled_event_infos = es })
        × Listing enabled event irq.enabled_event_infos es
  unfolding enabled_after
  enabled_after-Listing irq event true listed = (_, refl, refl)
  enabled_after-Listing irq event false listed =
      (_, refl, list_del-Listing event irq.enabled_event_infos (listed refl))

  -- Where the mask register can be read, enabling or disabling an event writes it back with the bit
  -- of the event set or, if the mask is toggled, cleared for an enabled event, the other way round
  -- for a disabled one, and no other bit changed. An enabled event is put at the end of the list of
  -- enabled events; one that is disabled, and was in the list, is taken from it, and the others
  -- keep their order.
  pub single_event_enable_locked-Masks :
      (irq : Interrupt) (regs regs' : R) (event : SingleEventInfo) (enabled : Bool) (mask : ℕ)
      → lwis_device_single_register_read vops regs irq.irq_reg_bid irq.irq_mask_reg
          irq.irq_reg_access_size
        ≡ (0, some mask, regs')
      → (enabled ≡ false → has_event event.event_id irq.enabled_event_infos ≡ true)
      → Masks irq regs' event enabled mask
          (lwis_interrupt_single_event_enable_locked vops irq regs event enabled)
  unfolding lwis_interrupt_single_event_enable_locked mask_bit
  single_event_enable_locked-Masks irq regs regs' event enabled mask read listed = (
    (
      new_mask vops mask event.int_reg_bit (mask_bit irq enabled),
      sym (set_mask-writes irq regs regs' event.int_reg_bit mask (mask_bit irq enabled) read),
      λ j. test-new_mask mask event.int_reg_bit (mask_bit irq enabled) j,
    ),
    enabled_after-Listing irq event enabled listed,
  )
