-- ===== src/Ioreg/Reach.antt =====
-- The accesses of the bus that lead from one state of the hardware to another, as a relation.
use google_modules_lwis.Prelude.{ℕ, ◌+◌, ◌/◌, ◌≤◌, ◌≡◌, Bool, true, false, some}
use google_modules_lwis.Ioreg.{Block, Bus, IoregDevice, get_block_by_idx}

-- One access: its kind, and its block, offset and width in bits.
pub record Access : Type 0 where
  pub is_write : Bool
  pub block : ℕ
  pub at : ℕ
  pub bits : ℕ

abbrev pub reading : ℕ → ℕ → ℕ → Access
reading index at bits = record { is_write = false; block = index; at = at; bits = bits }

abbrev pub writing : ℕ → ℕ → ℕ → Access
writing index at bits = record { is_write = true; block = index; at = at; bits = bits }

-- The state is reached from `start` by accesses that all satisfy `P`.
pub data Touches {H : Type 0} (bus : Bus H) (P : Access → Type 0) (start : H) : H → Type 0 where
  untouched : Touches bus P start start
  by_read :
      {h : H} (index at bits : ℕ)
      → Touches bus P start h
      → P (reading index at bits)
      → Touches bus P start (bus.read h index at bits).1
  by_write :
      {h : H} (index at bits value : ℕ)
      → Touches bus P start h
      → P (writing index at bits)
      → Touches bus P start (bus.write h index at bits value)

-- The access lies inside a mapped block of the device.
abbrev pub IsInBlock : {H : Type 0} → IoregDevice H → Access → Type 0
IsInBlock d a = (b : Block) × (get_block_by_idx d a.block ≡ some b) × (a.at + a.bits / 8 ≤ b.size)

-- And it does not write to a device that is read only.
abbrev pub IsAllowed : {H : Type 0} → IoregDevice H → Access → Type 0
IsAllowed d a = IsInBlock d a × (d.is_read_only ≡ true → a.is_write ≡ false)

-- The device after such accesses: all but its hardware is as before.
abbrev pub Kept : {H : Type 0} → Bus H → IoregDevice H → IoregDevice H → Type 0
Kept bus d d' = (h : _) × (d' ≡ record d { hardware = h }) × Touches bus (IsAllowed d) d.hardware h
