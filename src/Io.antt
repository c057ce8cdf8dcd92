-- ===== src/Io.antt =====
-- lwis_util.c and lwis_io_entry.c: single register accesses, assertions and polls, over the
-- operations that a device subclass provides (`struct lwis_device_subclass_operations`).
pub mod Poll
pub mod Preserves
use Prim.Native.Nat.{bit_and}
use google_modules_lwis.Prelude.{
  ℕ, zero, suc, ◌+◌, Bool, true, false, Option, none, some, List, [], ltb, ◌==◌, if◌then◌else◌,
}
use google_modules_lwis.Errno.{einval, etimedout}
use google_modules_lwis.Commands.{IoEntry, Rw, ReadAssert, Payload}

-- What `register_io` leaves: its return code, the bytes or the value that a read brought, and
-- the state of the subclass and its hardware.
pub record Reply (R : Type 0) : Type 0 where
  pub ret : ℕ
  pub val : ℕ
  pub bytes : List ℕ
  pub regs : R

-- The function table of a device, over the state `R` of its subclass. An absent function is
-- NULL. `jitter` is what the clock gains over the millisecond that each sleep of a poll asks for.
pub record Vops (R : Type 0) : Type 0 where
  pub register_io : R → IoEntry → ℕ → Reply R
  pub irqs : Option (R → ℕ → Bool → ℕ × R)
  pub event_enable : Option (R → ℕ → Bool → ℕ × R)
  pub event_flags_updated : Option (R → ℕ → ℕ → ℕ → ℕ × R)
  pub event_emitted : Option (R → ℕ → Payload → Payload × R)
  pub jitter : ℕ → ℕ

-- What a poll would return if the rounds of the model ran out: no error code of the source.
abbrev stuck : ℕ
stuck = 4096

module _ {R : Type 0} (vops : Vops R) where
  -- The new value is `none` where the call failed.
  unfoldable pub lwis_device_single_register_read : R → ℕ → ℕ → ℕ → ℕ × Option ℕ × R
  lwis_device_single_register_read regs bid offset access_size =
      (reply.ret, if reply.ret == 0 then some reply.val else none, reply.regs)
    where
      reply : Reply R
      reply =
          vops.register_io regs (IoEntry.read (record { bid = bid; offset = offset; val = 0 }))
            access_size

  unfoldable pub lwis_device_single_register_write : R → ℕ → ℕ → ℕ → ℕ → ℕ × R
  lwis_device_single_register_write regs bid offset value access_size = (reply.ret, reply.regs)
    where
      reply : Reply R
      reply =
          vops.register_io regs (IoEntry.write (record { bid = bid; offset = offset; val = value }))
            access_size

  -- The verdict on a value that was read.
  abbrev pub matches : ReadAssert → ℕ → Bool
  matches a val = bit_and val a.mask == bit_and a.val a.mask

  judge : ReadAssert → ℕ × Option ℕ × R → ℕ × R
  judge a (ret, none, regs) = (ret, regs)
  judge a (ret, some val, regs) = (if matches a val then 0 else einval, regs)

  unfoldable pub lwis_io_entry_read_assert : R → ReadAssert → ℕ → ℕ × R
  unfolding judge lwis_device_single_register_read
  lwis_io_entry_read_assert regs a width =
      judge a (lwis_device_single_register_read regs a.bid a.offset width)

  -- The loop of `lwis_io_entry_poll`, `elapsed` milliseconds after its start; each round that does
  -- not end it sleeps for at least one, and the time passes in the sleeps.
  pub poll_loop : ℕ → ℕ → R → ReadAssert → ℕ → ℕ → Option (ℕ × R)
  poll_loop zero elapsed regs a width timeout = none
  poll_loop (suc fuel) elapsed regs a width timeout =
      let ans : ℕ × R = lwis_io_entry_read_assert regs a width in
      let rest : Option (ℕ × R) =
        poll_loop fuel (elapsed + 1 + vops.jitter elapsed) ans.1 a width timeout in
      if ans.0 == 0
      then some (0, ans.1)
      else if ltb timeout elapsed
      then some (etimedout, ans.1)
      else rest

  -- `fuel` rounds are given; Io.Poll shows that the timeout and two are enough.
  abbrev pub poll_timeout : ReadAssert → Bool → ℕ
  poll_timeout a non_blocking = if non_blocking then 0 else a.timeout_ms

  or_stuck : R → Option (ℕ × R) → ℕ × R
  or_stuck regs none = (stuck, regs)
  or_stuck regs (some r) = r

  unfoldable pub lwis_io_entry_poll : R → ReadAssert → Bool → ℕ → ℕ × R
  unfolding or_stuck poll_loop lwis_io_entry_read_assert
  lwis_io_entry_poll regs a non_blocking width =
      or_stuck regs
        (poll_loop (poll_timeout a non_blocking + 2) 0 regs a width (poll_timeout a non_blocking))
