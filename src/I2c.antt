-- ===== src/I2c.antt =====
-- lwis_i2c.c, lwis_device_i2c.c: the register accesses of an I2C device. The kernel's i2c_transfer is a
-- parameter, and so are the bytes that fresh memory holds.
pub mod Bytes
pub mod Power
pub mod RoundTrip
use Prim.Native.Nat.{bit_and, bit_or}
use google_modules_lwis.Prelude.{
  ℕ, ◌+◌, ◌-◌, ◌*◌, ◌/◌, ◌%◌, ◌^◌, Bool, true, false, not, Option, none, some, List, [], ◌∷◌, ◌++◌,
  ◌==◌, ◌&&◌, leb, get_elem?, if◌then◌else◌,
}
use google_modules_lwis.Errno.{eperm, einval, enodev, enomem, eagain}
use google_modules_lwis.Commands.{IoEntry, Rw, RwBatch, Modify}
use google_modules_lwis.Device.{kmalloc}
use google_modules_lwis.Io.{Reply, Vops}

-- struct i2c_msg; `buf` holds the bytes of a message that is sent.
pub record I2cMsg : Type 0 where
  pub addr : ℕ
  pub is_read : Bool
  pub len : ℕ
  pub buf : List ℕ

-- What i2c_transfer returns: the number of messages done, or an error.
pub data Transfer : Type 0 where
  done : ℕ → Transfer
  error : ℕ → Transfer

-- The kernel's i2c_transfer, with the bytes that were read, and the bytes that kmalloc finds.
pub record I2cBus (H : Type 0) : Type 0 where
  pub i2c_transfer : H → List I2cMsg → Transfer × List ℕ × H
  pub stale : ℕ → List ℕ

-- struct lwis_i2c_device with what it uses of its base device; `client` is the address of the
-- client, if there is one.
pub record I2cDevice (H : Type 0) : Type 0 where
  pub client : Option ℕ
  pub native_addr_bitwidth : ℕ
  pub native_value_bitwidth : ℕ
  pub is_read_only : Bool
  pub in_interrupt : Bool
  pub hardware : H
  pub mem : List Bool

abbrev pub check_bitwidth : ℕ → ℕ → ℕ → Bool
check_bitwidth bitwidth min max = leb min bitwidth && leb bitwidth max && bitwidth % 8 == 0

-- The widths of offsets and of data.
abbrev pub is_offset_width : ℕ → Bool
is_offset_width bits = check_bitwidth bits 8 16

abbrev pub is_data_width : ℕ → Bool
is_data_width bits = check_bitwidth bits 8 32

-- The buffer with the value in it; a size that is not supported leaves what was there.
unfoldable pub value_to_buf : ℕ → List ℕ → ℕ → List ℕ
value_to_buf value buf buf_size =
    if buf_size == 1
    then value % 256 ∷ []
    else if buf_size == 2
    then value / 2 ^ 8 % 256 ∷ value % 256 ∷ []
    else if buf_size == 4
    then value / 2 ^ 24 % 256 ∷ value / 2 ^ 16 % 256 ∷ value / 2 ^ 8 % 256 ∷ value % 256 ∷ []
    else buf

byte_of : Option ℕ → ℕ
byte_of none = 0
byte_of (some b) = b

unfoldable pub byte_at : List ℕ → ℕ → ℕ
unfolding byte_of
byte_at buf i = byte_of (get_elem? buf i)

-- A 32-bit int as a 64-bit word: with the top bit set it is negative.
abbrev pub int_to_word : ℕ → ℕ
int_to_word n = if leb (2 ^ 31) n then 2 ^ 64 - 2 ^ 32 + n else n

unfoldable pub buf_to_value : List ℕ → ℕ → ℕ
unfolding byte_at
buf_to_value buf buf_size =
    if buf_size == 1
    then byte_at buf 0
    else if buf_size == 2
    then byte_at buf 0 * 2 ^ 8 + byte_at buf 1
    else if buf_size == 4
    then int_to_word
        (byte_at buf 0 * 2 ^ 24 + byte_at buf 1 * 2 ^ 16 + byte_at buf 2 * 2 ^ 8 + byte_at buf 3)
    else 0

-- `(ret == num_msg) ? 0 : ret`.
unfoldable pub ret_of : ℕ → Transfer → ℕ
ret_of num_msg (done n) = if n == num_msg then 0 else n
ret_of num_msg (error e) = e

module _ {H : Type 0} (bus : I2cBus H) where
  -- Two messages: the offset is sent, and `len` bytes are received.
  unfoldable pub perform_read_transfer : H → ℕ → ℕ → ℕ → ℕ → ℕ × List ℕ × H
  unfolding value_to_buf ret_of
  perform_read_transfer h addr offset offset_size_bytes len =
      let (ret, bytes, h') = bus.i2c_transfer h (
        record {
          addr = addr;
          is_read = false;
          len = offset_size_bytes;
          buf = value_to_buf offset (bus.stale offset_size_bytes) offset_size_bytes;
        }
        ∷ record { addr = addr; is_read = true; len = len; buf = [] }
        ∷ []) in
      (ret_of 2 ret, bytes, h')

  -- One message: the offset, and the bytes behind it.
  unfoldable pub send : H → ℕ → ℕ → ℕ → ℕ → List ℕ → ℕ × H
  unfolding value_to_buf ret_of
  send h addr offset offset_size_bytes size bytes =
      let (ret, _, h') = bus.i2c_transfer h (
        record {
          addr = addr;
          is_read = false;
          len = offset_size_bytes + size;
          buf = value_to_buf offset (bus.stale offset_size_bytes) offset_size_bytes ++ bytes;
        }
        ∷ []) in
      (ret_of 1 ret, h')

  unfoldable pub perform_write_transfer : H → ℕ → ℕ → ℕ → ℕ → ℕ → ℕ × H
  unfolding send value_to_buf
  perform_write_transfer h addr offset offset_size_bytes value_size_bytes value =
      send h addr offset offset_size_bytes value_size_bytes
        (value_to_buf value (bus.stale value_size_bytes) value_size_bytes)

  unfoldable pub perform_write_batch_transfer : H → ℕ → ℕ → ℕ → ℕ → List ℕ → ℕ × H
  unfolding send
  perform_write_batch_transfer h addr offset offset_size_bytes value_size_bytes value_buf =
      send h addr offset offset_size_bytes value_size_bytes value_buf

  -- The device after a transfer.
  abbrev pub with_hardware : I2cDevice H → H → I2cDevice H
  with_hardware d h = record d { hardware = h }

  refuse : ℕ → I2cDevice H → Reply (I2cDevice H)
  refuse ret d = record { ret = ret; val = 0; bytes = []; regs = d }

  unfoldable pub read_reply : I2cDevice H → ℕ → ℕ × List ℕ × H → Reply (I2cDevice H)
  unfolding buf_to_value
  read_reply d value_bytes (ret, bytes, h) = record {
    ret = ret;
    val = if ret == 0 then buf_to_value bytes value_bytes else 0;
    bytes = [];
    regs = with_hardware d h;
  }

  batch_reply : I2cDevice H → ℕ × List ℕ × H → Reply (I2cDevice H)
  batch_reply d (ret, bytes, h) = record {
    ret = ret;
    val = 0;
    bytes = bytes;
    regs = with_hardware d h;
  }

  unfoldable pub write_reply : I2cDevice H → ℕ × H → Reply (I2cDevice H)
  write_reply d (ret, h) = record { ret = ret; val = 0; bytes = []; regs = with_hardware d h }

  -- With the buffer of the offset and, second, that of the value.
  unfoldable pub read_second : I2cDevice H → ℕ → ℕ → Bool × List Bool → Reply (I2cDevice H)
  unfolding refuse read_reply perform_read_transfer
  read_second d addr offset (false, mem) = refuse enomem (record d { mem = mem })
  read_second d addr offset (true, mem) =
      read_reply (record d { mem = mem }) (d.native_value_bitwidth / 8)
        (perform_read_transfer d.hardware addr offset (d.native_addr_bitwidth / 8)
          (d.native_value_bitwidth / 8))

  unfoldable pub read_first : I2cDevice H → ℕ → ℕ → Bool × List Bool → Reply (I2cDevice H)
  unfolding refuse read_second
  read_first d addr offset (false, mem) = refuse enomem (record d { mem = mem })
  read_first d addr offset (true, mem) =
      read_second (record d { mem = mem }) addr offset (kmalloc mem)

  unfoldable pub i2c_read : I2cDevice H → ℕ → Reply (I2cDevice H)
  unfolding refuse read_first
  i2c_read d offset = elim d.client [
    | none ↦ refuse enodev d
    | some addr ↦
        if not (is_offset_width d.native_addr_bitwidth)
        then refuse einval d
        else if not (is_data_width d.native_value_bitwidth)
        then refuse einval d
        else read_first d addr offset (kmalloc d.mem)
  ]

  unfoldable pub write_in : I2cDevice H → ℕ → ℕ → ℕ → Bool × List Bool → Reply (I2cDevice H)
  unfolding refuse write_reply perform_write_transfer
  write_in d addr offset value (false, mem) = refuse enomem (record d { mem = mem })
  write_in d addr offset value (true, mem) =
      write_reply (record d { mem = mem })
        (perform_write_transfer d.hardware addr offset (d.native_addr_bitwidth / 8)
          (d.native_value_bitwidth / 8) value)

  unfoldable pub i2c_write : I2cDevice H → ℕ → ℕ → Reply (I2cDevice H)
  unfolding refuse write_in
  i2c_write d offset value = elim d.client [
    | none ↦ refuse enodev d
    | some addr ↦
        if d.is_read_only
        then refuse eperm d
        else if not (is_offset_width d.native_addr_bitwidth)
        then refuse einval d
        else if not (is_data_width d.native_value_bitwidth)
        then refuse einval d
        else write_in d addr offset value (kmalloc d.mem)
  ]

  batch_read_in : I2cDevice H → ℕ → RwBatch → Bool × List Bool → Reply (I2cDevice H)
  unfolding refuse batch_reply perform_read_transfer
  batch_read_in d addr b (false, mem) = refuse enomem (record d { mem = mem })
  batch_read_in d addr b (true, mem) =
      batch_reply (record d { mem = mem })
        (perform_read_transfer d.hardware addr b.offset (d.native_addr_bitwidth / 8)
          b.size_in_bytes)

  unfoldable pub i2c_read_batch : I2cDevice H → RwBatch → Reply (I2cDevice H)
  unfolding refuse batch_read_in
  i2c_read_batch d b = elim d.client [
    | none ↦ refuse enodev d
    | some addr ↦
        if not (is_offset_width d.native_addr_bitwidth)
        then refuse einval d
        else batch_read_in d addr b (kmalloc d.mem)
  ]

  batch_write_in : I2cDevice H → ℕ → RwBatch → Bool × List Bool → Reply (I2cDevice H)
  unfolding refuse write_reply perform_write_batch_transfer
  batch_write_in d addr b (false, mem) = refuse enomem (record d { mem = mem })
  batch_write_in d addr b (true, mem) =
      write_reply (record d { mem = mem })
        (perform_write_batch_transfer d.hardware addr b.offset (d.native_addr_bitwidth / 8)
          b.size_in_bytes b.buf)

  unfoldable pub i2c_write_batch : I2cDevice H → RwBatch → Reply (I2cDevice H)
  unfolding refuse batch_write_in
  i2c_write_batch d b = elim d.client [
    | none ↦ refuse enodev d
    | some addr ↦
        if d.is_read_only
        then refuse eperm d
        else if not (is_offset_width d.native_addr_bitwidth)
        then refuse einval d
        else batch_write_in d addr b (kmalloc d.mem)
  ]

  -- The masked bits of `val` in a value that was read.
  unfoldable pub modified : Modify → ℕ → ℕ
  modified m value = bit_or (bit_and value (2 ^ 64 - 1 - m.val_mask)) (bit_and m.val_mask m.val)

  write_modified : Modify → Reply (I2cDevice H) → Reply (I2cDevice H)
  unfolding refuse modified i2c_write
  write_modified m r =
      if not (r.ret == 0) then refuse r.ret r.regs else i2c_write r.regs m.offset (modified m r.val)

  unfoldable pub lwis_i2c_io_entry_rw : I2cDevice H → IoEntry → Reply (I2cDevice H)
  unfolding refuse i2c_read i2c_write i2c_read_batch i2c_write_batch write_modified
  lwis_i2c_io_entry_rw d (IoEntry.read e) = i2c_read d e.offset
  lwis_i2c_io_entry_rw d (IoEntry.write e) = i2c_write d e.offset e.val
  lwis_i2c_io_entry_rw d (IoEntry.modify m) = write_modified m (i2c_read d m.offset)
  lwis_i2c_io_entry_rw d (IoEntry.read_batch b) = i2c_read_batch d b
  lwis_i2c_io_entry_rw d (IoEntry.write_batch b) = i2c_write_batch d b
  lwis_i2c_io_entry_rw d e = refuse einval d

  unfoldable pub lwis_i2c_register_io : I2cDevice H → IoEntry → ℕ → Reply (I2cDevice H)
  unfolding refuse lwis_i2c_io_entry_rw
  lwis_i2c_register_io d entry access_size =
      if d.in_interrupt then refuse eagain d else lwis_i2c_io_entry_rw d entry

  -- `i2c_vops`, with the device's `irqs`.
  pub i2c_vops : Option (I2cDevice H → ℕ → Bool → ℕ × I2cDevice H) → (ℕ → ℕ) → Vops (I2cDevice H)
  unfolding lwis_i2c_register_io
  i2c_vops irqs jitter = record {
    register_io = lwis_i2c_register_io;
    irqs = irqs;
    event_enable = none;
    event_flags_updated = none;
    event_emitted = none;
    jitter = jitter;
  }
