-- ===== src/Transaction/Process/Buffer.antt =====
-- lwis_transaction.c: `process_transaction` writes its results inside the buffer that
-- `prepare_response_locked` has allocated, and says in the header how far it came.
use google_modules_lwis.Prelude.{
  ℕ, zero, suc, ◌+◌, ◌*◌, ◌/◌, ◌%◌, ◌^◌, ◌<◌, ◌≤◌, ◌≡◌, ◌↔◌, refl, sym, ap, ◌∙◌, if◌then◌else◌, inl,
  inr, Bool, true, false, List, [], ◌∷◌, ◌++◌, arith, length, All, All-append, ◌==◌, ◌||◌,
  Bool-cases,
}
use google_modules_lwis.Prelude.Int.{ℤ, pos, negsuc}
use google_modules_lwis.Commands.{
  IoEntry, BufferWrite, Response, io_result_size, response_header_size,
}
use google_modules_lwis.Device.{Device, Transaction}
use google_modules_lwis.Io.{Vops}
use google_modules_lwis.Transaction.Process.{
  Outcome, Progress, run_entry, record_outcome, process_entries, run_entries, finished_response,
}
use google_modules_lwis.Transaction.Submit.{
  read_entries, read_buf_size, results_bytes, resp_size, prepared_response,
}

-- The write ends within the first `limit` bytes behind the header.
abbrev pub Fits : ℕ → BufferWrite → Type 0
Fits limit w = w.at + io_result_size + (w.result).num_value_bytes ≤ limit

-- What the result of one entry takes.
entry_size : ℕ → IoEntry → ℕ
entry_size bytewidth (IoEntry.read e) = io_result_size + bytewidth
entry_size bytewidth (IoEntry.read_batch e) = io_result_size + e.size_in_bytes
entry_size bytewidth _ = 0

-- What the results of a run take.
unfoldable pub results_size : ℕ → List IoEntry → ℕ
results_size bytewidth es = read_entries es * io_result_size + read_buf_size bytewidth es

results_size-cons :
    (bytewidth : ℕ) (e : IoEntry) (es : List IoEntry)
    → results_size bytewidth (e ∷ es) ≡ entry_size bytewidth e + results_size bytewidth es
unfolding results_size entry_size read_entries read_buf_size
results_size-cons bytewidth (IoEntry.read e) es = omega arith
results_size-cons bytewidth (IoEntry.read_batch e) es = omega arith
results_size-cons bytewidth (IoEntry.write e) es = omega arith
results_size-cons bytewidth (IoEntry.write_batch e) es = omega arith
results_size-cons bytewidth (IoEntry.modify e) es = omega arith
results_size-cons bytewidth (IoEntry.poll a) es = omega arith
results_size-cons bytewidth (IoEntry.read_assert a) es = omega arith
results_size-cons bytewidth (IoEntry.unrecognized t) es = omega arith

-- The counted entries: index -1 before the first has succeeded.
abbrev pub index_after : ℕ → ℤ
index_after zero = negsuc 0
index_after (suc n) = pos n

index_after-suc : (n : ℕ) → index_after (n + 1) ≡ pos n
index_after-suc n = let e : n + 1 ≡ suc n = omega arith in ap index_after e

module _ {R : Type 0} (vops : Vops R) (width : ℕ) (in_irq : Bool) where
  run_entry-Fits :
      (limit read_buf ret : ℕ) (regs : R) (e : IoEntry)
      → read_buf + entry_size (width / 8) e ≤ limit
      → All (Fits limit) (run_entry vops width in_irq read_buf ret regs e).writes
        × ((run_entry vops width in_irq read_buf ret regs e).advance ≡ entry_size (width / 8) e)
  unfolding run_entry entry_size
  run_entry-Fits limit read_buf ret regs (IoEntry.read e) h = ((omega arith, tt), refl)
  run_entry-Fits limit read_buf ret regs (IoEntry.read_batch e) h = ((omega arith, tt), refl)
  run_entry-Fits limit read_buf ret regs (IoEntry.write e) h = (tt, refl)
  run_entry-Fits limit read_buf ret regs (IoEntry.write_batch e) h = (tt, refl)
  run_entry-Fits limit read_buf ret regs (IoEntry.modify e) h = (tt, refl)
  run_entry-Fits limit read_buf ret regs (IoEntry.poll a) h = (tt, refl)
  run_entry-Fits limit read_buf ret regs (IoEntry.read_assert a) h = (tt, refl)
  run_entry-Fits limit read_buf ret regs (IoEntry.unrecognized t) h = (tt, refl)

  record_outcome-Fits :
      (limit i : ℕ) (p : Progress R) (o : Outcome R)
      → All (Fits limit) p.results
      → All (Fits limit) o.writes
      → All (Fits limit) (record_outcome vops width in_irq i p o).results
        × ((record_outcome vops width in_irq i p o).read_buf ≤ p.read_buf + o.advance)
  unfolding record_outcome
  record_outcome-Fits limit i p o hp ho = elim (Bool-cases (o.code == 0)) [
    | inl ok ↦ rw ok (All-append (Fits limit) p.results o.writes hp ho, omega arith)
    | inr bad ↦ rw bad (All-append (Fits limit) p.results o.writes hp ho, omega arith)
  ]

  process_entries-Fits :
      (limit : ℕ) (skip_err : Bool) (i : ℕ) (es : List IoEntry) (p : Progress R)
      → All (Fits limit) p.results
      → p.read_buf + results_size (width / 8) es ≤ limit
      → All (Fits limit) (process_entries vops width in_irq skip_err i es p).results
  unfolding process_entries
  process_entries-Fits limit skip_err i [] p hp h = hp
  process_entries-Fits limit skip_err i (e ∷ es) p hp h =
      let o = run_entry vops width in_irq p.read_buf p.ret p.regs e in
      let size = results_size-cons (width / 8) e es in
      let (ho, adv) = run_entry-Fits limit p.read_buf p.ret p.regs e (omega (arith, size)) in
      let (hr, moved) = record_outcome-Fits limit i p o hp ho in
      elim (Bool-cases (o.code == 0 || skip_err)) [
        | inl on ↦ rw on (
            process_entries-Fits limit skip_err (i + 1) es (record_outcome vops width in_irq i p o)
              hr (omega (arith, size, adv, moved)))
        | inr off ↦ rw off hr
      ]

  -- How many entries succeed before the first that fails, and the code of that one, or 0.
  unfoldable pub reached : List IoEntry → ℕ → ℕ → R → ℕ × ℕ
  reached [] read_buf ret regs = (0, 0)
  reached (e ∷ es) read_buf ret regs =
      let o : Outcome R = run_entry vops width in_irq read_buf ret regs e in
      let (n, code) = reached es (read_buf + o.advance) o.ret o.regs in
      if o.code == 0 then (n + 1, code) else (0, o.code)

  -- A run over the entries from `i` on, from `p` to `q`, counted `n` of them and kept `code`.
  abbrev pub HasReached : ℕ → List IoEntry → ℕ × ℕ → Progress R → Type 0
  HasReached i es (n, code) q =
      (n ≤ length es)
      × (q.completion_index ≡ index_after (i + n))
      × (q.error_code ≡ code)
      × ((code ≡ 0) ↔ (n ≡ length es))

  abbrev advanced : ℕ → Progress R → Outcome R → Progress R
  advanced i p o = record p {
    ret = o.ret;
    completion_index = pos i;
    read_buf = p.read_buf + o.advance;
    results = p.results ++ o.writes;
    regs = o.regs;
  }

  abbrev outcome : Progress R → IoEntry → Outcome R
  outcome p e = run_entry vops width in_irq p.read_buf p.ret p.regs e

  process_entries-cons :
      (i : ℕ) (e : IoEntry) (es : List IoEntry) (p : Progress R)
      → (((outcome p e).code == 0) ≡ true
          → process_entries vops width in_irq false i (e ∷ es) p
            ≡ process_entries vops width in_irq false (i + 1) es (advanced i p (outcome p e)))
        × (((outcome p e).code == 0) ≡ false
            → process_entries vops width in_irq false i (e ∷ es) p
              ≡ record_outcome vops width in_irq i p (outcome p e))
  unfolding process_entries record_outcome
  process_entries-cons i e es p = ((λ on. rw on), λ off. rw off)

  reached-cons :
      (i : ℕ) (e : IoEntry) (es : List IoEntry) (r : ℕ × ℕ) (q : Progress R)
      → HasReached (i + 1) es r q
      → HasReached i (e ∷ es) (r.0 + 1, r.1) q
  reached-cons i e es (n, code) q (bound, index, same, done) =
      let moved : i + 1 + n ≡ i + (n + 1) = omega arith in
      (
        omega (arith, bound),
        index ∙ ap index_after moved,
        same,
        ((λ h. omega (arith, done.0 h)), λ h. done.1 (omega (arith, h))),
      )

  -- The first entry fails.
  reached-stopped :
      (i : ℕ) (e : IoEntry) (es : List IoEntry) (p : Progress R)
      → p.completion_index ≡ index_after i
      → ((outcome p e).code == 0) ≡ false
      → HasReached i
          (e ∷ es)
          (reached (e ∷ es) p.read_buf p.ret p.regs)
          (record_outcome vops width in_irq i p (outcome p e))
  unfolding record_outcome reached
  reached-stopped i e es p index off =
      let here : i ≡ i + 0 = omega arith in
      rw off (
        omega arith,
        index ∙ ap index_after here,
        refl,
        ((λ h. absurd (ground (arith, off, h))), λ h. absurd (omega (arith, h))),
      )

  process_entries-HasReached :
      (i : ℕ) (es : List IoEntry) (p : Progress R)
      → p.completion_index ≡ index_after i
      → p.error_code ≡ 0
      → HasReached i es
          (reached es p.read_buf p.ret p.regs)
          (process_entries vops width in_irq false i es p)
  unfolding process_entries reached
  process_entries-HasReached i [] p index zero_code =
      let here : i ≡ i + 0 = omega arith in
      (omega arith, index ∙ ap index_after here, zero_code, ((λ _. refl), λ _. refl))
  process_entries-HasReached i (e ∷ es) p index zero_code =
      let cons = process_entries-cons i e es p in
      let o = outcome p e in
      elim (Bool-cases (o.code == 0)) [
        | inl on ↦ rw (cons.0 on) (
            rw on (
              reached-cons i e es (reached es (p.read_buf + o.advance) o.ret o.regs)
                (process_entries vops width in_irq false (i + 1) es (advanced i p o))
                (process_entries-HasReached (i + 1) es (advanced i p o) (sym (index_after-suc i))
                  zero_code)))
        | inr off ↦ rw (cons.1 off) (reached-stopped i e es p index off)
      ]

-- The response that `prepare_response_locked` makes for the transaction's entries.
abbrev pub allocated : {R : Type 0} → Device R → Transaction → Response
allocated d t = prepared_response (t.info).id (d.native_value_bitwidth / 8) (t.info).io_entries

below_word : (n : ℕ) → n < 2 ^ 64 → n % 2 ^ 64 ≡ n
below_word n h = omega arith

-- If the header and the results of its entries take less than 2^64 bytes, every result that a
-- transaction writes, header and values, lies within the results size of the response behind its
-- header, and this lies inside the buffer that was allocated; on a device of any register width,
-- whether or not the run goes on past a failed entry, and whatever the device answers.
pub run_entries-Fits :
    {R : Type 0} (vops : Vops R) (d : Device R) (t : Transaction) (in_irq skip_err : Bool)
    → response_header_size + results_size (d.native_value_bitwidth / 8) (t.info).io_entries < 2 ^ 64
    → All (Fits (allocated d t).results_size_bytes) (run_entries vops d t in_irq skip_err).results
      × (response_header_size + (allocated d t).results_size_bytes
          ≤ resp_size (d.native_value_bitwidth / 8) (t.info).io_entries)
unfolding run_entries prepared_response results_bytes resp_size results_size
run_entries-Fits vops d t in_irq skip_err h =
    let size : ℕ = results_size (d.native_value_bitwidth / 8) (t.info).io_entries in
    let whole = below_word size (omega (arith, h)) in
    (
      process_entries-Fits vops d.native_value_bitwidth in_irq _ skip_err 0 (t.info).io_entries _ tt
          (omega (arith, whole)),
      omega (arith, h, whole, below_word (response_header_size + size) h),
    )

zero_add : (n : ℕ) → 0 + n ≡ n
zero_add n = omega arith

-- The entries that succeed before the first failure of the transaction on the device, and its code.
abbrev pub reached_by : {R : Type 0} → Vops R → Device R → Transaction → Bool → ℕ × ℕ
reached_by vops d t in_irq =
    reached vops d.native_value_bitwidth in_irq (t.info).io_entries 0 0 d.regs

-- The response says how far the run of a transaction came: its completion index is that of the
-- last entry that succeeded before the first that failed (-1 for none), its error code is that of
-- the failed entry, or 0, and it is 0 exactly if all entries succeeded.
pub finished_response-Reached :
    {R : Type 0} (vops : Vops R) (d : Device R) (t : Transaction) (in_irq : Bool)
    → (t.resp).error_code ≡ 0
    → ((finished_response vops t (run_entries vops d t in_irq false)).completion_index
        ≡ index_after (reached_by vops d t in_irq).0)
      × ((finished_response vops t (run_entries vops d t in_irq false)).error_code
          ≡ (reached_by vops d t in_irq).1)
      × (((reached_by vops d t in_irq).1 ≡ 0)
          ↔ ((reached_by vops d t in_irq).0 ≡ length (t.info).io_entries))
unfolding run_entries finished_response
finished_response-Reached vops d t in_irq zero_code =
    let (bound, index, code, done) =
      process_entries-HasReached vops d.native_value_bitwidth in_irq 0 (t.info).io_entries _ refl
        zero_code in
    (index ∙ ap index_after (zero_add (reached_by vops d t in_irq).0), code, done)
