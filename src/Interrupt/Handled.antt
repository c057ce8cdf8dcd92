-- ===== src/Interrupt/Handled.antt =====
-- lwis_interrupt.c: the handler of an interrupt handles every enabled event whose bit is set.
use google_modules_lwis.Prelude.{
  ℕ, zero, suc, none, ◌≡◌, refl, sym, ap, subst, ◌∙◌, inl, inr, Bool, true, false, Option, some,
  List, [], ◌∷◌, All, ◌==◌, ==_iff, Bool-cases, Option-cases, if◌then◌else◌,
}
use google_modules_lwis.Prelude.Bits.{test_bit, set_bit, test-set_bit, test_bit-zero}
use google_modules_lwis.Io.{
  Vops, lwis_device_single_register_read, lwis_device_single_register_write,
}
use google_modules_lwis.Commands.{EventControl, null, has_irq_enable_once}
use google_modules_lwis.Device.{Client}
use google_modules_lwis.Event.States.{find_client_state}
use google_modules_lwis.Emission.{lwis_device_event_emit}
use google_modules_lwis.Interrupt.{
  SingleEventInfo, Interrupt, Site, isr_loop, handle_all, handle_event, emit_event, emitted, masked,
  enabled_once, mask_once, with_regs, acknowledged, lwis_interrupt_set_mask,
  lwis_interrupt_event_isr,
}

-- The events whose bit is set in the source register, in their order.
unfoldable pub triggered : ℕ → List SingleEventInfo → List SingleEventInfo
triggered source [] = []
triggered source (e ∷ es) =
    if test_bit source e.int_reg_bit then e ∷ triggered source es else triggered source es

-- No two events share a bit.
abbrev pub HaveOwnBits : List SingleEventInfo → Type 0
HaveOwnBits [] = Unit
HaveOwnBits (e ∷ es) =
    All (λ (f : SingleEventInfo). (e.int_reg_bit == f.int_reg_bit) ≡ false) es × HaveOwnBits es

abbrev AreOpen : ℕ → List SingleEventInfo → Type 0
AreOpen reset es = All (λ (e : SingleEventInfo). test_bit reset e.int_reg_bit ≡ false) es

-- Nothing is left once the handled bits are those of the source.
triggered-done :
    (reset : ℕ) (es : List SingleEventInfo) → AreOpen reset es → triggered reset es ≡ []
unfolding triggered
triggered-done reset [] h = refl
triggered-done reset (e ∷ es) h = rw (h.0) (triggered-done reset es h.1)

open_after :
    (reset : ℕ) (e : SingleEventInfo) (es : List SingleEventInfo)
    → AreOpen reset es
    → All (λ (f : SingleEventInfo). (e.int_reg_bit == f.int_reg_bit) ≡ false) es
    → AreOpen (set_bit reset e.int_reg_bit) es
open_after reset e [] h own = tt
open_after reset e (f ∷ es) h own =
    (test-set_bit reset e.int_reg_bit f.int_reg_bit ∙ rw own.0 h.0, open_after reset e es h.1 own.1)

module _ {S : Type 0} (handle : S → SingleEventInfo → Option S) (source : ℕ) where
  stopped_early :
      (s : S) (reset : ℕ) (es : List SingleEventInfo)
      → AreOpen reset es
      → (source == reset) ≡ true
      → handle_all handle s (triggered source es) ≡ some s
  unfolding handle_all
  stopped_early s reset es h same = ap (handle_all handle s) (
      subst (λ (r : ℕ). triggered source es ≡ triggered r es) ((==_iff source reset).0 same) refl
      ∙ triggered-done reset es h)

  isr_loop-handle_all :
      (s : S) (reset : ℕ) (es : List SingleEventInfo)
      → HaveOwnBits es
      → AreOpen reset es
      → isr_loop handle s source reset es ≡ handle_all handle s (triggered source es)
  unfolding isr_loop handle_all triggered
  isr_loop-handle_all s reset [] own h = refl
  isr_loop-handle_all s reset (e ∷ es) own h = elim (Bool-cases (test_bit source e.int_reg_bit)) [
    | inr clear ↦ elim (Bool-cases (source == reset)) [
      | inl same ↦
          rw (clear, isr_loop) (rw (same, isr_loop) (sym (stopped_early s reset es h.1 same)))
      | inr more ↦
          rw (clear, isr_loop) (rw (more, isr_loop) (isr_loop-handle_all s reset es own.1 h.1))
    ]
    | inl set ↦ elim (Option-cases (handle s e)) [
      | inl stuck ↦ rw (set, isr_loop) (rw (stuck, isr_loop, handle_all) refl)
      | inr (t, e_t) ↦
          let after = open_after reset e es h.1 own.0 in
          elim (Bool-cases (source == set_bit reset e.int_reg_bit)) [
            | inl same ↦
                rw (set, isr_loop)
                  (rw (e_t, isr_loop, handle_all)
                    (rw (same, isr_loop)
                      (sym (stopped_early t (set_bit reset e.int_reg_bit) es after same))))
            | inr more ↦
                rw (set, isr_loop)
                  (rw (e_t, isr_loop, handle_all)
                    (rw (more, isr_loop)
                      (isr_loop-handle_all t (set_bit reset e.int_reg_bit) es own.1 after)))
          ]
    ]
  ]

none-open : (es : List SingleEventInfo) → AreOpen 0 es
none-open [] = tt
none-open (e ∷ es) = (test_bit-zero e.int_reg_bit, none-open es)

-- The clients that have asked for one occurrence of the event.
unfoldable pub asks_once : Option EventControl → Bool
asks_once none = false
asks_once (some state) = has_irq_enable_once state.flags

unfoldable pub asked_once : ℕ → List Client → ℕ
unfolding asks_once
asked_once event_id [] = 0
asked_once event_id (c ∷ cs) =
    if asks_once (find_client_state c.event_states event_id)
    then suc (asked_once event_id cs)
    else asked_once event_id cs

enabled-asks_once : (o : Option EventControl) → enabled_once o ≡ asks_once o
unfolding enabled_once asks_once
enabled-asks_once none = refl
enabled-asks_once (some state) = refl

module _ {R : Type 0} (vops : Vops R) (fuel : ℕ) (irq : Interrupt) where
  -- The bit of the mask cleared so many times.
  unfoldable pub bit_cleared : ℕ → R → ℕ → R
  bit_cleared zero regs int_reg_bit = regs
  bit_cleared (suc n) regs int_reg_bit =
      bit_cleared n (lwis_interrupt_set_mask vops irq regs int_reg_bit false).1 int_reg_bit

  -- Each of the events is emitted, and its bit of the mask is cleared once for each client that has
  -- asked for one occurrence; no result if an emission has none.
  unfoldable pub emit_each : Site R → List SingleEventInfo → Option (Site R)
  emit_each s [] = some s
  emit_each s (e ∷ es) =
      elim (lwis_device_event_emit vops true fuel s.dev s.clients e.event_id null) [
        | none ↦ none
        | some x ↦
            emit_each
              (record {
                dev = record (x.dev) {
                  regs = bit_cleared (asked_once e.event_id x.clients) (x.dev).regs e.int_reg_bit;
                };
                clients = x.clients;
              })
              es
      ]

  mask_once-bit_cleared :
      (regs : R) (e : SingleEventInfo) (cs : List Client)
      → mask_once vops fuel irq regs e cs
        ≡ bit_cleared (asked_once e.event_id cs) regs e.int_reg_bit
  unfolding mask_once bit_cleared asked_once
  mask_once-bit_cleared regs e [] = refl
  mask_once-bit_cleared regs e (c ∷ cs) =
      let o = find_client_state c.event_states e.event_id in
      elim (Bool-cases (asks_once o)) [
        | inl once ↦
            rw (enabled-asks_once o ∙ once, mask_once)
              (mask_once-bit_cleared (lwis_interrupt_set_mask vops irq regs e.int_reg_bit false).1 e
                cs)
        | inr always ↦
            rw (enabled-asks_once o ∙ always, mask_once) (mask_once-bit_cleared regs e cs)
      ]

  handle_all-emit_each :
      (es : List SingleEventInfo) (s : Site R)
      → handle_all (handle_event vops fuel irq) s es ≡ emit_each s es
  unfolding handle_all emit_each handle_event emit_event emitted masked
  handle_all-emit_each [] s = refl
  handle_all-emit_each (e ∷ es) s =
      elim (Option-cases (lwis_device_event_emit vops true fuel s.dev s.clients e.event_id null)) [
        | inl n ↦ rw (n, handle_all, emit_each) refl
        | inr (x, ends) ↦
            rw (ends, handle_all, emit_each)
              (rw (mask_once-bit_cleared (x.dev).regs e x.clients) (handle_all-emit_each es _))
      ]

-- If the source register is read and acknowledged, and no two enabled events share a bit, the handler
-- emits every enabled event whose bit is set in it, in the order in which they were enabled, and
-- no other, also where it ends before the last of them; after each it clears the bit of the event
-- in the mask, once for each client that has asked for one occurrence.
pub lwis_interrupt_event_isr-handles :
    {R : Type 0} (vops : Vops R) (fuel : ℕ) (irq : Interrupt) (s : Site R) (source : ℕ)
    (regs regs' : R)
    → lwis_device_single_register_read vops
        (s.dev).regs
        irq.irq_reg_bid
        irq.irq_src_reg
        irq.irq_reg_access_size
      ≡ (0, some source, regs)
    → lwis_device_single_register_write vops regs irq.irq_reg_bid irq.irq_reset_reg source
        irq.irq_reg_access_size
      ≡ (0, regs')
    → HaveOwnBits irq.enabled_event_infos
    → lwis_interrupt_event_isr vops fuel irq s
      ≡ emit_each vops fuel irq
          (record s { dev = record (s.dev) { regs = regs' } })
          (triggered source irq.enabled_event_infos)
unfolding lwis_interrupt_event_isr acknowledged with_regs
lwis_interrupt_event_isr-handles vops fuel irq s source regs regs' read write own =
    rw (read, acknowledged)
      (rw (write, acknowledged)
        (elim (Bool-cases (source == 0)) [
          | inr some_bit ↦ rw some_bit (
              isr_loop-handle_all (handle_event vops fuel irq) source _ 0 irq.enabled_event_infos
                own (none-open irq.enabled_event_infos)
              ∙ handle_all-emit_each vops fuel irq (triggered source irq.enabled_event_infos) _)
          | inl no_bit ↦ rw no_bit (
              sym (
                stopped_early (handle_event vops fuel irq) source _ 0 irq.enabled_event_infos
                  (none-open irq.enabled_event_infos) no_bit)
              ∙ handle_all-emit_each vops fuel irq (triggered source irq.enabled_event_infos) _)
        ]))
