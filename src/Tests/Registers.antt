-- ===== src/Tests/Registers.antt =====
-- A memory-mapped device with two registers.
use google_modules_lwis.Prelude.{ℕ, refl, true, false, none, [], ◌∷◌, arith}
use google_modules_lwis.Prelude.Int.{pos}
use google_modules_lwis.Commands.{IoEntry}
use google_modules_lwis.Device.{Device, Transaction, ioreg}
use google_modules_lwis.Transaction.Process.{run_entries}
use google_modules_lwis.Ioreg.{Bus, IoregDevice}
use google_modules_lwis.Ioreg.Access.{ioreg_vops}
use google_modules_lwis.Ioreg.Reach.{Kept}
use google_modules_lwis.Ioreg.Access.Runs.{run_entries-Kept}
use google_modules_lwis.Tests.{transaction, read_entry, write_entry}

-- The hardware is the last value that was written.
abbrev bus : Bus ℕ
bus = record {
  read = λ h index at bits. (h, h);
  write = λ h index at bits value. value;
  wide_mask = 0;
}

abbrev registers : IoregDevice ℕ
registers = record {
  blocks = record { size = 8; mapped = true } ∷ [];
  native_value_bitwidth = 32;
  native_addr_bitwidth = 32;
  is_read_only = false;
  hardware = 5;
}

abbrev mapped_device : Device (IoregDevice ℕ)
mapped_device = record {
  id = 3;
  type = ioreg;
  enabled = 1;
  event_states = [];
  event_hist = [];
  cur_event_hist_idx = 0;
  heartbeat = false;
  notified = [];
  native_value_bitwidth = 32;
  regs = registers;
  mem = [];
  now = 100;
}

abbrev batch : IoEntry
batch =
    IoEntry.read_batch
      (record { bid = 0; offset = 0; size_in_bytes = 8; buf = []; is_offset_fixed = false })

abbrev mixed : Transaction
mixed = transaction 0 0 (pos 7) (write_entry 0 9 ∷ batch ∷ read_entry 0 ∷ [])

run_entries-Kept_example :
    Kept bus registers
      (run_entries (ioreg_vops bus none (λ elapsed. 0)) mapped_device mixed false false).regs
run_entries-Kept_example =
    run_entries-Kept bus none (λ elapsed. 0) mapped_device mixed false false refl
      (tt, (omega arith, (tt, tt)))

-- A byte write at the end of the block, whose register starts past it.
