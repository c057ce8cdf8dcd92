-- ===== src/Transaction/Process/Preserves.antt =====
-- lwis_transaction.c: what each register access of a device keeps, a whole transaction keeps.
use google_modules_lwis.Prelude.{ℕ, ◌+◌, inl, inr, Bool, List, [], ◌∷◌, All, ◌==◌, ◌||◌, Bool-cases}
use google_modules_lwis.Commands.{IoEntry, Rw}
use google_modules_lwis.Device.{Device, Transaction}
use google_modules_lwis.Io.{Vops}
use google_modules_lwis.Io.Preserves.{read_assert-Inv, poll-Inv}
use google_modules_lwis.Transaction.Process.{
  Outcome, Progress, run_entry, record_outcome, process_entries, run_entries,
}

module _ {R : Type 0} (vops : Vops R) (width : ℕ) (in_irq : Bool) (Inv : R → Type 0)
    (IsFine : IoEntry → Type 0) (reads : (e : Rw) → IsFine (IoEntry.read e))
    (step : (regs : R) (e : IoEntry)
      → IsFine e
      → Inv regs
      → Inv (vops.register_io regs e width).regs) where
  run_entry-Inv :
      (read_buf ret : ℕ) (regs : R) (e : IoEntry)
      → IsFine e
      → Inv regs
      → Inv (run_entry vops width in_irq read_buf ret regs e).regs
  unfolding run_entry
  run_entry-Inv read_buf ret regs (IoEntry.read e) ok v = step regs (IoEntry.read e) ok v
  run_entry-Inv read_buf ret regs (IoEntry.read_batch e) ok v =
      step regs (IoEntry.read_batch e) ok v
  run_entry-Inv read_buf ret regs (IoEntry.write e) ok v = step regs (IoEntry.write e) ok v
  run_entry-Inv read_buf ret regs (IoEntry.write_batch e) ok v =
      step regs (IoEntry.write_batch e) ok v
  run_entry-Inv read_buf ret regs (IoEntry.modify e) ok v = step regs (IoEntry.modify e) ok v
  run_entry-Inv read_buf ret regs (IoEntry.poll a) ok v =
      poll-Inv vops width Inv (λ r e. step r (IoEntry.read e) (reads e)) regs a in_irq v
  run_entry-Inv read_buf ret regs (IoEntry.read_assert a) ok v =
      read_assert-Inv vops width Inv (λ r e. step r (IoEntry.read e) (reads e)) regs a v
  run_entry-Inv read_buf ret regs (IoEntry.unrecognized n) ok v = v

  record-Inv :
      (i : ℕ) (p : Progress R) (o : Outcome R)
      → Inv o.regs
      → Inv (record_outcome vops width in_irq i p o).regs
  unfolding record_outcome
  record-Inv i p o v = elim (Bool-cases (o.code == 0)) [ inl ok ↦ rw ok v | inr bad ↦ rw bad v ]

  pub process_entries-Inv :
      (skip_err : Bool) (i : ℕ) (es : List IoEntry) (p : Progress R)
      → All IsFine es
      → Inv p.regs
      → Inv (process_entries vops width in_irq skip_err i es p).regs
  unfolding process_entries
  process_entries-Inv skip_err i [] p ok v = v
  process_entries-Inv skip_err i (e ∷ es) p ok v =
      let o = run_entry vops width in_irq p.read_buf p.ret p.regs e in
      let after = record-Inv i p o (run_entry-Inv p.read_buf p.ret p.regs e ok.0 v) in
      elim (Bool-cases (o.code == 0 || skip_err)) [
        | inl on ↦ rw on (process_entries-Inv skip_err (i + 1) es _ ok.1 after)
        | inr off ↦ rw off after
      ]

pub run_entries-Inv :
    {R : Type 0} (vops : Vops R) (Inv : R → Type 0) (IsFine : IoEntry → Type 0) (d : Device R)
    (t : Transaction) (in_irq skip_err : Bool)
    → ((e : Rw) → IsFine (IoEntry.read e))
    → ((regs : R) (e : IoEntry)
        → IsFine e
        → Inv regs
        → Inv (vops.register_io regs e d.native_value_bitwidth).regs)
    → All IsFine (t.info).io_entries
    → Inv d.regs
    → Inv (run_entries vops d t in_irq skip_err).regs
unfolding run_entries
run_entries-Inv vops Inv IsFine d t in_irq skip_err reads step ok v =
    process_entries-Inv vops d.native_value_bitwidth in_irq Inv IsFine reads step skip_err 0
      (t.info).io_entries _ ok v
