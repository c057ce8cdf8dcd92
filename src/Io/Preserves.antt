-- ===== src/Io/Preserves.antt =====
-- lwis_io_entry.c: what each register access of a device keeps, an assertion and a poll keep.
use google_modules_lwis.Prelude.{
  ℕ, zero, suc, inl, inr, Bool, Option, none, some, ltb, ◌==◌, Bool-cases,
}
use google_modules_lwis.Commands.{IoEntry, Rw, ReadAssert}
use google_modules_lwis.Io.{
  Vops, lwis_device_single_register_read, judge, lwis_io_entry_read_assert, poll_loop, or_stuck,
  lwis_io_entry_poll,
}

module _ {R : Type 0} (vops : Vops R) (width : ℕ) (Inv : R → Type 0)
    (step : (regs : R) (e : Rw)
      → Inv regs
      → Inv (vops.register_io regs (IoEntry.read e) width).regs) where
  judge-Inv : (a : ReadAssert) (r : ℕ × Option ℕ × R) → Inv r.2 → Inv (judge vops a r).1
  unfolding judge
  judge-Inv a (ret, none, regs) v = v
  judge-Inv a (ret, some val, regs) v = v

  pub read_assert-Inv :
      (regs : R) (a : ReadAssert) → Inv regs → Inv (lwis_io_entry_read_assert vops regs a width).1
  unfolding lwis_io_entry_read_assert lwis_device_single_register_read
  read_assert-Inv regs a v = judge-Inv a _ (step regs _ v)

  poll_loop-Inv :
      (fuel elapsed : ℕ) (start regs : R) (a : ReadAssert) (timeout : ℕ)
      → Inv start
      → Inv regs
      → Inv (or_stuck vops start (poll_loop vops fuel elapsed regs a width timeout)).1
  unfolding poll_loop or_stuck
  poll_loop-Inv zero elapsed start regs a timeout v' v = v'
  poll_loop-Inv (suc fuel) elapsed start regs a timeout v' v =
      let ans = lwis_io_entry_read_assert vops regs a width in
      let after = read_assert-Inv regs a v in
      elim (Bool-cases (ans.0 == 0)) [
        | inl held ↦ rw held after
        | inr failed ↦ elim (Bool-cases (ltb timeout elapsed)) [
          | inl late ↦ rw (failed, late) after
          | inr early ↦ rw (failed, early) (poll_loop-Inv fuel _ start ans.1 a timeout v' after)
        ]
      ]

  pub poll-Inv :
      (regs : R) (a : ReadAssert) (non_blocking : Bool)
      → Inv regs
      → Inv (lwis_io_entry_poll vops regs a non_blocking width).1
  unfolding lwis_io_entry_poll
  poll-Inv regs a non_blocking v = poll_loop-Inv _ 0 regs regs a _ v v
