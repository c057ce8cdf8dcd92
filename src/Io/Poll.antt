-- ===== src/Io/Poll.antt =====
-- lwis_io_entry.c: a poll always ends, by an assertion that holds or by its timeout.
use google_modules_lwis.Prelude.{
  ℕ, zero, suc, ◌+◌, ◌<◌, ◌≤◌, if◌then◌else◌, ◌≡◌, ◌≢◌, refl, sym, subst, ◌⊎◌, inl, inr, Bool, true,
  some, arith, ltb, ◌==◌, ==_iff, Bool-cases,
}
use google_modules_lwis.Errno.{etimedout}
use google_modules_lwis.Commands.{ReadAssert}
use google_modules_lwis.Io.{
  Vops, poll_loop, poll_timeout, lwis_io_entry_poll, lwis_io_entry_read_assert, or_stuck,
}

module _ {R : Type 0} (vops : Vops R) (a : ReadAssert) (width : ℕ) where
  abbrev round : R → ℕ × R
  round regs = lwis_io_entry_read_assert vops regs a width

  -- The state after `n` rounds, and the milliseconds that have passed at the test of the round `n`.
  unfoldable pub after_rounds : ℕ → R → R
  after_rounds zero regs = regs
  after_rounds (suc n) regs = after_rounds n (round regs).1

  unfoldable pub elapsed_at : ℕ → ℕ → ℕ
  elapsed_at zero elapsed = elapsed
  elapsed_at (suc n) elapsed = elapsed_at n (elapsed + 1 + vops.jitter elapsed)

  -- The assertion failed in the rounds before `n`, in time, and the round `n` ended the poll: its
  -- assertion held, or it failed and the timeout had passed.
  abbrev pub PolledFrom : ℕ → R → ℕ → ℕ × R → Type 0
  PolledFrom elapsed regs timeout r =
      (n : ℕ) × ((k : ℕ)
        → k < n
        → ((round (after_rounds k regs)).0 ≢ 0) × (elapsed_at k elapsed ≤ timeout))
      × (r.1 ≡ (round (after_rounds n regs)).1)
      × (((r.0 ≡ 0) × ((round (after_rounds n regs)).0 ≡ 0))
          ⊎ ((r.0 ≡ etimedout)
              × ((round (after_rounds n regs)).0 ≢ 0)
              × (timeout < elapsed_at n elapsed)))

  abbrev pub Polled : R → Bool → ℕ × R → Type 0
  Polled regs non_blocking = PolledFrom 0 regs (if non_blocking then 0 else a.timeout_ms)

  rounds-suc :
      (n elapsed : ℕ) (regs : R) (timeout : ℕ)
      → (round regs).0 ≢ 0
      → elapsed ≤ timeout
      → ((k : ℕ)
          → k < n
          → ((round (after_rounds k (round regs).1)).0 ≢ 0)
            × (elapsed_at k (elapsed + 1 + vops.jitter elapsed) ≤ timeout))
      → (k : ℕ) → k < suc n
      → ((round (after_rounds k regs)).0 ≢ 0) × (elapsed_at k elapsed ≤ timeout)
  unfolding after_rounds elapsed_at
  rounds-suc n elapsed regs timeout failed early rest zero lt = (failed, early)
  rounds-suc n elapsed regs timeout failed early rest (suc k) lt = rest k (omega (arith, lt))

  poll_loop-PolledFrom :
      (fuel elapsed : ℕ) (regs : R) (timeout : ℕ)
      → 0 < fuel
      → timeout + 1 < fuel + elapsed
      → (r : ℕ × R) × (poll_loop vops fuel elapsed regs a width timeout ≡ some r)
        × PolledFrom elapsed regs timeout r
  unfolding poll_loop after_rounds elapsed_at
  poll_loop-PolledFrom zero elapsed regs timeout pos h = absurd (omega arith)
  poll_loop-PolledFrom (suc fuel) elapsed regs timeout pos h =
      elim (Bool-cases ((round regs).0 == 0)) [
        | inl held ↦ (
          (0, (round regs).1),
          rw held,
          (
            0,
            (λ k lt. absurd (omega (arith, lt))),
            refl,
            inl (refl, (==_iff (round regs).0 0).0 held),
          ),
        )
        | inr failed ↦
            let bad : (round regs).0 ≢ 0 = λ e. ground (arith, failed, e) in
            elim (Bool-cases (ltb timeout elapsed)) [
              | inl late ↦ (
                (etimedout, (round regs).1),
                rw (failed, late),
                (
                  0,
                  (λ k lt. absurd (omega (arith, lt))),
                  refl,
                  inr (refl, bad, ground (arith, late)),
                ),
              )
              | inr early ↦
                  let (r, e, (n, before, state, ending)) =
                    poll_loop-PolledFrom fuel (elapsed + 1 + vops.jitter elapsed) (round regs).1
                      timeout (ground arith) (ground arith) in
                  (
                    r,
                    rw (failed, early) e,
                    (
                      suc n,
                      rounds-suc n elapsed regs timeout bad (ground (arith, early)) before,
                      state,
                      ending,
                    ),
                  )
            ]
      ]

  -- The rounds that `lwis_io_entry_poll` is given are enough: its result is that of the loop.
  poll-eq-loop :
      (regs : R) (non_blocking : Bool) (r : ℕ × R)
      → poll_loop vops
          (poll_timeout vops a non_blocking + 2)
          0
          regs
          a
          width
          (poll_timeout vops a non_blocking)
        ≡ some r
      → lwis_io_entry_poll vops regs a non_blocking width ≡ r
  unfolding lwis_io_entry_poll
  poll-eq-loop regs nb r e = rw (e, or_stuck)

  -- A poll returns, with 0 after the first assertion that holds or with ETIMEDOUT after one that
  -- fails when the timeout, or 0 for a non-blocking poll, has passed; all before that have failed
  -- in time. It leaves the state of these rounds and no further one.
  pub lwis_io_entry_poll-Polled :
      (regs : R) (non_blocking : Bool)
      → Polled regs non_blocking (lwis_io_entry_poll vops regs a non_blocking width)
  lwis_io_entry_poll-Polled regs nb =
      let t = poll_timeout vops a nb in
      let (r, e, p) = poll_loop-PolledFrom (t + 2) 0 regs t (omega arith) (omega arith) in
      subst (PolledFrom 0 regs t) (sym (poll-eq-loop regs nb r e)) p

  two_rounds :
      (regs : R)
      → (round regs).0 ≢ 0
      → (r : ℕ × R) × (poll_loop vops 2 0 regs a width 0 ≡ some r)
        × (r.1 ≡ (round (round regs).1).1)
  unfolding poll_loop
  two_rounds regs failed = elim (Bool-cases ((round (round regs).1).0 == 0)) [
    | inl held ↦ ((0, (round (round regs).1).1), ground arith, refl)
    | inr again ↦ ((etimedout, (round (round regs).1).1), ground arith, refl)
  ]

  -- A poll in an interrupt whose first assertion fails within the millisecond of its start, as
  -- the model's clock has it, reads a second time.
  pub poll-non_blocking :
      (regs : R)
      → (round regs).0 ≢ 0
      → (lwis_io_entry_poll vops regs a true width).1 ≡ (round (round regs).1).1
  poll-non_blocking regs failed =
      let (r, e, p) = two_rounds regs failed in rw (poll-eq-loop regs true r e) p
