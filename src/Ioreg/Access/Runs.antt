-- ===== src/Ioreg/Access/Runs.antt =====
-- lwis_transaction.c over lwis_ioreg.c: a transaction of a memory-mapped device stays in its blocks.
use google_modules_lwis.Prelude.{ℕ, ◌≡◌, refl, Bool, Option, All}
use google_modules_lwis.Device.{Device, Transaction}
use google_modules_lwis.Transaction.Process.{run_entries}
use google_modules_lwis.Transaction.Process.Preserves.{run_entries-Inv}
use google_modules_lwis.Ioreg.{Bus, IoregDevice}
use google_modules_lwis.Ioreg.Access.{ioreg_vops}
use google_modules_lwis.Ioreg.Reach.{untouched, Kept}
use google_modules_lwis.Ioreg.Access.Entries.{IsSized, lwis_ioreg_io_entry_rw-Kept}

-- A transaction of a memory-mapped device reads and writes registers inside the mapped blocks of
-- the device only, by each kind of entry, polls too, and writes none of a device that is read only;
-- nothing of the device but its hardware changes. A batch has a size below 2 ^ 64, and the device
-- has one native width.
pub run_entries-Kept :
    {H : Type 0} (bus : Bus H) (irqs : Option (IoregDevice H → ℕ → Bool → ℕ × IoregDevice H))
    (jitter : ℕ → ℕ) (d : Device (IoregDevice H)) (t : Transaction) (in_irq skip_err : Bool)
    → d.native_value_bitwidth ≡ (d.regs).native_value_bitwidth
    → All IsSized (t.info).io_entries
    → Kept bus d.regs (run_entries (ioreg_vops bus irqs jitter) d t in_irq skip_err).regs
unfolding ioreg_vops
run_entries-Kept bus irqs jitter d t in_irq skip_err width sized =
    run_entries-Inv (ioreg_vops bus irqs jitter) (Kept bus d.regs) IsSized d t in_irq skip_err
      (λ e. tt) (λ regs e ok v. rw width (lwis_ioreg_io_entry_rw-Kept bus d.regs regs e ok v)) sized
      ((d.regs).hardware, refl, untouched)
