-- ===== src/I2c/RoundTrip.antt =====
-- lwis_i2c.c: a value that is written to a register of an I2C device and read back.
use google_modules_lwis.Prelude.{
  ℕ, ◌+◌, ◌/◌, ◌^◌, ◌<◌, ◌≡◌, ◌≢◌, refl, sym, ap, subst, true, false, some, List, [], ◌∷◌, ◌++◌,
  length, ◌==◌, if◌then◌else◌,
}
use google_modules_lwis.Commands.{IoEntry}
use google_modules_lwis.I2c.{
  I2cMsg, done, I2cBus, I2cDevice, value_to_buf, int_to_word, is_offset_width, is_data_width,
  ret_of, perform_read_transfer, send, perform_write_transfer, read_reply, write_reply, read_second,
  read_first, i2c_read, write_in, i2c_write, lwis_i2c_io_entry_rw, lwis_i2c_register_io,
}
use google_modules_lwis.I2c.Bytes.{
  data_width, offset-IsSupported, length-value_to_buf, buf_to_value-value_to_buf,
}

-- The messages of a write and of a read.
abbrev pub sending : ℕ → List ℕ → List ℕ → ℕ → ℕ → List I2cMsg
sending addr off val off_size size =
    record { addr = addr; is_read = false; len = off_size + size; buf = off ++ val } ∷ []

abbrev pub asking : ℕ → List ℕ → ℕ → ℕ → List I2cMsg
asking addr off off_size size =
    record { addr = addr; is_read = false; len = off_size; buf = off }
    ∷ record { addr = addr; is_read = true; len = size; buf = [] }
    ∷ []

-- A bus whose devices keep the registers that are written to them.
pub record HasRegisters {H : Type 0} (bus : I2cBus H) : Type 0 where
  pub sent :
      (h : H) (addr : ℕ) (off val : List ℕ) (off_size size : ℕ)
      → length off ≡ off_size
      → length val ≡ size
      → (bus.i2c_transfer h (sending addr off val off_size size)).0 ≡ done 1
  pub received :
      (h : H) (addr : ℕ) (off val : List ℕ) (off_size size : ℕ)
      → length off ≡ off_size
      → length val ≡ size
      → (x : H) × (bus.i2c_transfer
            (bus.i2c_transfer h (sending addr off val off_size size)).2
            (asking addr off off_size size)
          ≡ (done 2, val, x))

-- A device that can be written, in a context that may sleep, with memory for its buffers.
abbrev pub ready : {H : Type 0} → ℕ → ℕ → ℕ → H → I2cDevice H
ready addr offset_bits value_bits h = record {
  client = some addr;
  native_addr_bitwidth = offset_bits;
  native_value_bitwidth = value_bits;
  is_read_only = false;
  in_interrupt = false;
  hardware = h;
  mem = [];
}

abbrev pub read_at : ℕ → ℕ → IoEntry
read_at bid offset = IoEntry.read (record { bid = bid; offset = offset; val = 0 })

abbrev pub write_at : ℕ → ℕ → ℕ → IoEntry
write_at bid offset value = IoEntry.write (record { bid = bid; offset = offset; val = value })

module _ {H : Type 0} (bus : I2cBus H) (addr offset_bits value_bits : ℕ) where
  off_bytes : ℕ → List ℕ
  off_bytes offset = value_to_buf offset (bus.stale (offset_bits / 8)) (offset_bits / 8)

  val_bytes : ℕ → List ℕ
  val_bytes value = value_to_buf value (bus.stale (value_bits / 8)) (value_bits / 8)

  i2c_write-sends :
      (offset value : ℕ) (h : H)
      → is_offset_width offset_bits ≡ true
      → is_data_width value_bits ≡ true
      → i2c_write bus (ready addr offset_bits value_bits h) offset value
        ≡ write_reply bus
            (ready addr offset_bits value_bits h)
            (send bus h addr offset (offset_bits / 8) (value_bits / 8) (val_bytes value))
  unfolding i2c_write write_in perform_write_transfer val_bytes
  i2c_write-sends offset value h ow dw = rw (ow, i2c_write) (rw dw refl)

  i2c_read-receives :
      (offset : ℕ) (h : H)
      → is_offset_width offset_bits ≡ true
      → is_data_width value_bits ≡ true
      → i2c_read bus (ready addr offset_bits value_bits h) offset
        ≡ read_reply bus
            (ready addr offset_bits value_bits h)
            (value_bits / 8)
            (perform_read_transfer bus h addr offset (offset_bits / 8) (value_bits / 8))
  unfolding i2c_read read_first read_second
  i2c_read-receives offset h ow dw = rw (ow, i2c_read) (rw dw refl)

  module _ (law : HasRegisters bus) (ow : is_offset_width offset_bits ≡ true)
      (dw : is_data_width value_bits ≡ true) (other : value_bits ≢ 24) where
    length-off : (offset : ℕ) → length (off_bytes offset) ≡ offset_bits / 8
    unfolding off_bytes
    length-off offset = length-value_to_buf offset _ _ (offset-IsSupported offset_bits ow)

    length-val : (value : ℕ) → length (val_bytes value) ≡ value_bits / 8
    unfolding val_bytes
    length-val value = length-value_to_buf value _ _ (data_width value_bits dw other)

    -- The state of the bus after the write.
    sent_to : ℕ → ℕ → H → H
    sent_to offset value h =
        (bus.i2c_transfer h
          (sending addr (off_bytes offset) (val_bytes value) (offset_bits / 8) (value_bits / 8))).2

    i2c_write-written :
        (offset value : ℕ) (h : H)
        → ((i2c_write bus (ready addr offset_bits value_bits h) offset value).ret ≡ 0)
          × ((i2c_write bus (ready addr offset_bits value_bits h) offset value).regs
              ≡ ready addr offset_bits value_bits (sent_to offset value h))
    unfolding send write_reply ret_of off_bytes sent_to
    i2c_write-written offset value h = rw (i2c_write-sends offset value h ow dw) (
      ap (ret_of 1) (
          law.sent h addr (off_bytes offset) (val_bytes value) (offset_bits / 8) (value_bits / 8)
            (length-off offset) (length-val value)),
      refl,
    )

    i2c_read-back :
        (offset value : ℕ) (h : H)
        → value < 256 ^ (value_bits / 8)
        → let r =
            i2c_read bus (ready addr offset_bits value_bits (sent_to offset value h)) offset in
          (r.ret ≡ 0) × (r.val ≡ (if value_bits / 8 == 4 then int_to_word value else value))
    unfolding perform_read_transfer read_reply ret_of off_bytes sent_to val_bytes
    i2c_read-back offset value h small =
        let (x, e) =
          law.received h addr (off_bytes offset) (val_bytes value) (offset_bits / 8)
            (value_bits / 8) (length-off offset) (length-val value) in
        rw (i2c_read-receives offset (sent_to offset value h) ow dw) (
          rw (e, read_reply)
            (
              refl,
              buf_to_value-value_to_buf value _ (value_bits / 8) (data_width value_bits dw other)
                  small,
            ))

    -- A value of 8 or 16 bits that is written to a register of a device that keeps it is read back as
    -- it was. One of 32 bits is read back as it was below 2^31, and extended by its sign from there
    -- on.
    pub lwis_i2c_register_io-read_write :
        (bid offset value access_size : ℕ) (h : H)
        → value < 256 ^ (value_bits / 8)
        → let w =
            lwis_i2c_register_io bus
              (ready addr offset_bits value_bits h)
              (write_at bid offset value)
              access_size in
          let r = lwis_i2c_register_io bus w.regs (read_at bid offset) access_size in
          (w.ret ≡ 0)
          × (r.ret ≡ 0)
          × (r.val ≡ (if value_bits / 8 == 4 then int_to_word value else value))
    unfolding lwis_i2c_register_io lwis_i2c_io_entry_rw
    lwis_i2c_register_io-read_write bid offset value access_size h small =
        let w = i2c_write-written offset value h in
        let back = i2c_read-back offset value h small in
        subst
          (λ (d : I2cDevice H).
            ((i2c_write bus (ready addr offset_bits value_bits h) offset value).ret ≡ 0)
            × ((lwis_i2c_register_io bus d (read_at bid offset) access_size).ret ≡ 0)
            × ((lwis_i2c_register_io bus d (read_at bid offset) access_size).val
                ≡ (if value_bits / 8 == 4 then int_to_word value else value)))
          (sym w.1) (w.0, back.0, back.1)
