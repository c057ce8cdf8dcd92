-- ===== src/Ioreg/Access.antt =====
-- lwis_ioreg.c, lwis_device_ioreg.c: the reads, writes and other I/O entries of a memory-mapped
-- device.
pub mod Bounds
pub mod Entries
pub mod Runs
use Prim.Native.Nat.{bit_and, bit_or}
use google_modules_lwis.Prelude.{
  ℕ, zero, suc, ◌+◌, ◌-◌, ◌*◌, ◌/◌, ◌%◌, ◌^◌, Bool, true, false, Option, none, some, List, [], ◌∷◌,
  ◌++◌, ◌==◌, ltb, leb, not, ◌&&◌, ◌||◌, if◌then◌else◌, get_elem?,
}
use google_modules_lwis.Errno.{eperm, efault, einval, enosys}
use google_modules_lwis.Commands.{IoEntry, Rw, RwBatch, Modify, value_bytes}
use google_modules_lwis.Io.{Vops, Reply}
use google_modules_lwis.Ioreg.{
  Block, Bus, IoregDevice, get_block_by_idx, validate_offset, validate_access_size, is_bitwidth,
  align_down, bytes_value, take_bytes, drop_bytes, ioreg_read_internal, ioreg_write_internal,
  read_batch_loop, write_batch_loop, ioreg_read_batch_internal, ioreg_write_batch_internal, usable,
  pick, succeed,
}

module _ {H : Type 0} (bus : Bus H) where
  abbrev with_hardware : IoregDevice H → H → IoregDevice H
  with_hardware d h = record d { hardware = h }

  -- The part of a register that a narrower access asked for.
  narrow : ℕ → ℕ → ℕ → ℕ → ℕ
  narrow access_size native shift value =
      if access_size == native
      then value
      else if ltb access_size 64
      then value / 2 ^ (shift * 8) % 2 ^ access_size
      else value / 2 ^ (shift * 8)

  read_value : IoregDevice H → ℕ → ℕ → ℕ × ℕ × H → ℕ × ℕ × IoregDevice H
  unfolding narrow
  read_value d access_size shift (ret, value, h) =
      (ret, narrow access_size d.native_value_bitwidth shift value, with_hardware d h)

  -- The offset of the register that is accessed.
  abbrev pub internal_offset : IoregDevice H → ℕ → ℕ → ℕ
  internal_offset d offset access_size =
      if access_size == d.native_value_bitwidth
      then offset
      else align_down offset (d.native_value_bitwidth / 8)

  -- The checks of a read and of a write, up to the access.
  read_block : IoregDevice H → ℕ → ℕ → ℕ → Option Block → ℕ × ℕ × IoregDevice H
  unfolding read_value ioreg_read_internal validate_offset validate_access_size
  read_block d index offset access_size none = (einval, 0, d)
  read_block d index offset access_size (some b) =
      let at : ℕ = internal_offset d offset access_size in
      let sized : ℕ = validate_access_size access_size d.native_value_bitwidth in
      let placed : ℕ = validate_offset b at (access_size / 8) (d.native_addr_bitwidth / 8) in
      if not (sized == 0)
      then (sized, 0, d)
      else if not (placed == 0)
      then (placed, 0, d)
      else read_value d access_size (offset - at)
          (ioreg_read_internal bus d.hardware index at d.native_value_bitwidth)

  pub lwis_ioreg_read : IoregDevice H → ℕ → ℕ → ℕ → ℕ × ℕ × IoregDevice H
  unfolding read_block get_block_by_idx
  lwis_ioreg_read d index offset access_size =
      read_block d index offset access_size (get_block_by_idx d index)

  -- `((1 << access_size) - 1)`, computed as an int.
  int_mask : ℕ → ℕ
  int_mask access_size = if leb access_size 16 then 2 ^ access_size - 1 else bus.wide_mask

  -- A narrower value in its place among the other bits of the register.
  merged : ℕ → ℕ → ℕ → ℕ → ℕ
  unfolding int_mask
  merged access_size shift value read =
      let mask : ℕ = int_mask access_size * 2 ^ (shift * 8) % 2 ^ 64 in
      bit_or (bit_and (value * 2 ^ (shift * 8) % 2 ^ 64) mask) (bit_and read (2 ^ 64 - 1 - mask))

  -- The value to write, and the hardware after the read that a narrower access needs.
  write_value : IoregDevice H → ℕ → ℕ → ℕ → ℕ → ℕ → ℕ × H
  unfolding merged ioreg_read_internal
  write_value d index at shift value access_size =
      let (_, read, h) = ioreg_read_internal bus d.hardware index at d.native_value_bitwidth in
      if access_size == d.native_value_bitwidth
      then (value, d.hardware)
      else (merged access_size shift value read, h)

  write_validated : IoregDevice H → Block → ℕ → ℕ → ℕ → ℕ × H → ℕ × IoregDevice H
  unfolding ioreg_write_internal validate_offset
  write_validated d b index at access_size (value, h) =
      let placed : ℕ = validate_offset b at (access_size / 8) (d.native_addr_bitwidth / 8) in
      let (ret, h') = ioreg_write_internal bus h index at d.native_value_bitwidth value in
      if not (placed == 0) then (placed, with_hardware d h) else (ret, with_hardware d h')

  write_block : IoregDevice H → ℕ → ℕ → ℕ → ℕ → Option Block → ℕ × IoregDevice H
  unfolding write_validated write_value validate_access_size
  write_block d index offset value access_size none = (einval, d)
  write_block d index offset value access_size (some b) =
      let at : ℕ = internal_offset d offset access_size in
      let sized : ℕ = validate_access_size access_size d.native_value_bitwidth in
      if not (sized == 0)
      then (sized, d)
      else write_validated d b index at access_size
          (write_value d index at (offset - at) value access_size)

  pub lwis_ioreg_write : IoregDevice H → ℕ → ℕ → ℕ → ℕ → ℕ × IoregDevice H
  unfolding write_block get_block_by_idx
  lwis_ioreg_write d index offset value access_size =
      if d.is_read_only
      then (eperm, d)
      else write_block d index offset value access_size (get_block_by_idx d index)

  read_reply : ℕ × ℕ × IoregDevice H → Reply (IoregDevice H)
  read_reply (ret, value, d) = record { ret = ret; val = value; bytes = []; regs = d }

  write_reply : ℕ × IoregDevice H → Reply (IoregDevice H)
  write_reply (ret, d) = record { ret = ret; val = 0; bytes = []; regs = d }

  batch_read_reply : IoregDevice H → ℕ × List ℕ × H → Reply (IoregDevice H)
  batch_read_reply d (ret, bytes, h) = record {
    ret = ret;
    val = 0;
    bytes = bytes;
    regs = with_hardware d h;
  }

  batch_write_reply : IoregDevice H → ℕ × H → Reply (IoregDevice H)
  batch_write_reply d (ret, h) = record { ret = ret; val = 0; bytes = []; regs = with_hardware d h }

  -- A batch is accessed at the width of the device, whatever the access size.
  batch_read : IoregDevice H → RwBatch → Option Block → Reply (IoregDevice H)
  unfolding write_reply batch_read_reply ioreg_read_batch_internal validate_offset
  batch_read d e none = write_reply (einval, d)
  batch_read d e (some b) =
      let placed : ℕ = validate_offset b e.offset e.size_in_bytes (d.native_addr_bitwidth / 8) in
      if not (placed == 0)
      then write_reply (placed, d)
      else batch_read_reply d (
          ioreg_read_batch_internal bus d.hardware e.bid e.offset d.native_value_bitwidth
            e.size_in_bytes)

  batch_write : IoregDevice H → RwBatch → Option Block → Reply (IoregDevice H)
  unfolding write_reply batch_write_reply ioreg_write_batch_internal validate_offset
  batch_write d e none = write_reply (einval, d)
  batch_write d e (some b) =
      let placed : ℕ = validate_offset b e.offset e.size_in_bytes (d.native_addr_bitwidth / 8) in
      if not (placed == 0)
      then write_reply (placed, d)
      else batch_write_reply d (
          ioreg_write_batch_internal bus d.hardware e.bid e.offset d.native_value_bitwidth
            e.size_in_bytes e.buf e.is_offset_fixed)

  -- The masked bits of `val` in a value that was read.
  modified : Modify → ℕ → ℕ
  modified m value = bit_or (bit_and value (2 ^ 64 - 1 - m.val_mask)) (bit_and m.val_mask m.val)

  write_modified : Modify → ℕ → ℕ × ℕ × IoregDevice H → Reply (IoregDevice H)
  unfolding write_reply modified lwis_ioreg_write
  write_modified m access_size (ret, value, d) =
      if not (ret == 0)
      then write_reply (ret, d)
      else write_reply (lwis_ioreg_write d m.bid m.offset (modified m value) access_size)

  pub lwis_ioreg_io_entry_rw : IoregDevice H → IoEntry → ℕ → Reply (IoregDevice H)
  unfolding read_reply write_reply batch_read batch_write write_modified lwis_ioreg_read
      lwis_ioreg_write get_block_by_idx
  lwis_ioreg_io_entry_rw d (IoEntry.read e) access_size =
      read_reply (lwis_ioreg_read d e.bid e.offset access_size)
  lwis_ioreg_io_entry_rw d (IoEntry.read_batch e) access_size =
      batch_read d e (get_block_by_idx d e.bid)
  lwis_ioreg_io_entry_rw d (IoEntry.write e) access_size =
      write_reply (lwis_ioreg_write d e.bid e.offset e.val access_size)
  lwis_ioreg_io_entry_rw d (IoEntry.write_batch e) access_size =
      if d.is_read_only then write_reply (eperm, d) else batch_write d e (get_block_by_idx d e.bid)
  lwis_ioreg_io_entry_rw d (IoEntry.modify m) access_size =
      write_modified m access_size (lwis_ioreg_read d m.bid m.offset access_size)
  lwis_ioreg_io_entry_rw d e access_size = write_reply (einval, d)

  -- `ioreg_vops`, with the device's `irqs`.
  pub ioreg_vops :
      Option (IoregDevice H → ℕ → Bool → ℕ × IoregDevice H) → (ℕ → ℕ) → Vops (IoregDevice H)
  unfolding lwis_ioreg_io_entry_rw
  ioreg_vops irqs jitter = record {
    register_io = lwis_ioreg_io_entry_rw;
    irqs = irqs;
    event_enable = none;
    event_flags_updated = none;
    event_emitted = none;
    jitter = jitter;
  }
