-- ===== src/Periodic/Process/Buffer.antt =====
-- lwis_periodic_io.c: a run of a periodic I/O writes its results inside its part of the response
-- buffer that `prepare_response` has allocated.
use google_modules_lwis.Prelude.{
  ℕ, ◌+◌, ◌*◌, ◌/◌, ◌≤◌, ◌<◌, ◌≡◌, refl, inl, inr, Bool, List, [], ◌∷◌, arith, All, All-append,
  ◌==◌, Bool-cases,
}
use native.Mathlib.Nat.{mul-div_cancel}
use google_modules_lwis.Commands.{IoEntry, PeriodicWrite, periodic_result_size}
use google_modules_lwis.Device.{Device}
use google_modules_lwis.Io.{Vops}
use google_modules_lwis.Transaction.Submit.{read_entries, read_buf_size}
use google_modules_lwis.Periodic.{PeriodicIo}
use google_modules_lwis.Periodic.Process.{
  Progress, run_entry, process_loop, process_round, observe, aborts, advanced, stopped, progress_of,
  run_entries, start, per_period,
}

-- The write ends within the first `limit` bytes behind the header.
abbrev pub Fits : ℕ → PeriodicWrite → Type 0
Fits limit w = w.at + periodic_result_size + (w.result).num_value_bytes ≤ limit

-- What the result of one entry takes.
entry_size : ℕ → IoEntry → ℕ
entry_size bytewidth (IoEntry.read e) = periodic_result_size + bytewidth
entry_size bytewidth (IoEntry.read_batch e) = periodic_result_size + e.size_in_bytes
entry_size bytewidth _ = 0

-- What the results of one run take.
unfoldable pub run_size : ℕ → List IoEntry → ℕ
run_size bytewidth es = read_entries es * periodic_result_size + read_buf_size bytewidth es

run_size-cons :
    (bytewidth : ℕ) (e : IoEntry) (es : List IoEntry)
    → run_size bytewidth (e ∷ es) ≡ entry_size bytewidth e + run_size bytewidth es
unfolding run_size entry_size read_entries read_buf_size
run_size-cons bytewidth (IoEntry.read e) es = omega arith
run_size-cons bytewidth (IoEntry.read_batch e) es = omega arith
run_size-cons bytewidth (IoEntry.write e) es = omega arith
run_size-cons bytewidth (IoEntry.write_batch e) es = omega arith
run_size-cons bytewidth (IoEntry.modify e) es = omega arith
run_size-cons bytewidth (IoEntry.poll a) es = omega arith
run_size-cons bytewidth (IoEntry.read_assert a) es = omega arith
run_size-cons bytewidth (IoEntry.unrecognized t) es = omega arith

module _ {R : Type 0} (vops : Vops R) (width now : ℕ) where
  run_entry-Fits :
      (limit read_buf ret : ℕ) (regs : R) (e : IoEntry)
      → read_buf + entry_size (width / 8) e ≤ limit
      → All (Fits limit) (run_entry vops width now read_buf ret regs e).writes
        × ((run_entry vops width now read_buf ret regs e).advance ≡ entry_size (width / 8) e)
  unfolding run_entry entry_size
  run_entry-Fits limit read_buf ret regs (IoEntry.read e) h = ((omega arith, tt), refl)
  run_entry-Fits limit read_buf ret regs (IoEntry.read_batch e) h = ((omega arith, tt), refl)
  run_entry-Fits limit read_buf ret regs (IoEntry.write e) h = (tt, refl)
  run_entry-Fits limit read_buf ret regs (IoEntry.write_batch e) h = (tt, refl)
  run_entry-Fits limit read_buf ret regs (IoEntry.modify e) h = (tt, refl)
  run_entry-Fits limit read_buf ret regs (IoEntry.poll a) h = (tt, refl)
  run_entry-Fits limit read_buf ret regs (IoEntry.read_assert a) h = (tt, refl)
  run_entry-Fits limit read_buf ret regs (IoEntry.unrecognized t) h = (tt, refl)

  module _ (cancel_at : ℕ → Bool) (multiple : Bool) where
    abbrev observed : ℕ → Progress R → Progress R
    observed i p = observe vops width now cancel_at multiple i p

    observe-kept :
        (i : ℕ) (p : Progress R)
        → ((observed i p).results ≡ p.results) × ((observed i p).read_buf ≡ p.read_buf)
    unfolding observe
    observe-kept i p = elim (Bool-cases (cancel_at i)) [
      | inl seen ↦ rw seen (refl, refl)
      | inr calm ↦ rw calm (refl, refl)
    ]

    process_loop-Fits :
        (limit i : ℕ) (es : List IoEntry) (p : Progress R)
        → All (Fits limit) p.results
        → p.read_buf + run_size (width / 8) es ≤ limit
        → All
            (Fits limit)
            (progress_of (process_loop vops width now cancel_at multiple i es p)).results
    unfolding process_loop process_round
    process_loop-Fits limit i [] p hp h = rw ((observe-kept i p).0) hp
    process_loop-Fits limit i (e ∷ es) p hp h =
        let q = observed i p in
        let (same, at) = observe-kept i p in
        let o = run_entry vops width now q.read_buf q.ret q.regs e in
        let size = run_size-cons (width / 8) e es in
        let (ho, adv) = run_entry-Fits limit q.read_buf q.ret q.regs e (omega (arith, size, at)) in
        let hq : All (Fits limit) q.results = rw same hp in
        elim (Bool-cases (aborts vops width now cancel_at multiple i q)) [
          | inl off ↦ rw off hq
          | inr on ↦ rw on (elim (Bool-cases (o.code == 0)) [
            | inl ok ↦ rw ok (
                process_loop-Fits limit (i + 1) es (advanced vops width now q o)
                  (unfold advanced in All-append (Fits limit) q.results o.writes hq ho)
                  (unfold advanced in omega (arith, size, adv, at)))
            | inr bad ↦ rw bad (unfold stopped in All-append (Fits limit) q.results o.writes hq ho)
          ])
        ]

-- The buffer holds `batch_size` runs of its entries, of which `batch_count` are done.
pub record HasRoom (bytewidth : ℕ) (p : PeriodicIo) : Type 0 where
  pub sized :
      (p.resp).results_size_bytes ≡ run_size bytewidth (p.info).io_entries * (p.info).batch_size
  pub counted : p.batch_count < (p.info).batch_size

mul_div : (k n : ℕ) → 0 < n → k * n / n ≡ k
mul_div k n h = mul-div_cancel k h

run_in_buffer : (k b n : ℕ) → b < n → b * k + k ≤ k * n
run_in_buffer k b n h = grind arith

pub per_period-run_size :
    (bytewidth : ℕ) (p : PeriodicIo)
    → HasRoom bytewidth p
    → per_period p ≡ run_size bytewidth (p.info).io_entries
per_period-run_size bytewidth p v = rw (v.sized) (mul_div _ _ (omega (arith, v.counted)))

-- The place of the next run lies in the buffer.
pub room :
    (bytewidth : ℕ) (p : PeriodicIo)
    → HasRoom bytewidth p
    → p.batch_count * per_period p + run_size bytewidth (p.info).io_entries
      ≤ (p.resp).results_size_bytes
room bytewidth p v = rw (per_period-run_size bytewidth p v) (
    rw v.sized (
      run_in_buffer (run_size bytewidth (p.info).io_entries) p.batch_count (p.info).batch_size
        v.counted))

-- Every result of a run, header and values, lies inside the response buffer, as long as fewer than
-- `batch_size` runs are in it; also where the run fails or is cancelled, and whatever the device
-- answers.
pub run_entries-Fits :
    {R : Type 0} (vops : Vops R) (d : Device R) (p : PeriodicIo) (cancel_at : ℕ → Bool)
    → HasRoom (d.native_value_bitwidth / 8) p
    → All (Fits (p.resp).results_size_bytes) (progress_of (run_entries vops d p cancel_at)).results
unfolding run_entries start
run_entries-Fits vops d p cancel_at v =
    process_loop-Fits vops d.native_value_bitwidth d.now cancel_at p.contains_multiple_writes
      (p.resp).results_size_bytes 0 (p.info).io_entries _ tt
      (room (d.native_value_bitwidth / 8) p v)
