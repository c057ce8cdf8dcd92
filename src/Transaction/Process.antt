-- ===== src/Transaction/Process.antt =====
-- lwis_transaction.c: running the I/O entries of a transaction and answering with its response.
pub mod Frame
pub mod Buffer
pub mod Preserves
pub mod Answers
use google_modules_lwis.Prelude.{
  ℕ, zero, suc, ◌+◌, ◌/◌, ◌%◌, Bool, true, false, Option, none, some, List, [], ◌∷◌, ◌++◌, ◌==◌,
  ◌||◌, if◌then◌else◌, set,
}
use google_modules_lwis.Prelude.Int.{ℤ, pos, negsuc}
use google_modules_lwis.Errno.{einval}
use google_modules_lwis.Commands.{
  IoEntry, IoResult, BufferWrite, Response, TransactionInfo, EventEntry, Payload, io_result_size,
  value_bytes,
}
use google_modules_lwis.Io.{Vops, Reply, lwis_io_entry_poll, lwis_io_entry_read_assert}
use google_modules_lwis.Device.{
  Device, Client, Transaction, next_index, transaction_debug_history_size,
}
use google_modules_lwis.Event.Pending.{lwis_pending_event_push}

-- A device and a client at work, with the events that this work has put off.
pub record Work (R : Type 0) : Type 0 where
  pub dev : Device R
  pub client : Client
  pub pending : List EventEntry

-- What one entry does: its error code, the return code of its call, the write into the response
-- buffer, and how far the buffer's position moves if the entry succeeds.
pub record Outcome (R : Type 0) : Type 0 where
  pub code : ℕ
  pub ret : ℕ
  pub writes : List BufferWrite
  pub advance : ℕ
  pub regs : R

-- The variables of the loop: `ret`, the response's fields, and `read_buf` behind its header.
pub record Progress (R : Type 0) : Type 0 where
  pub ret : ℕ
  pub error_code : ℕ
  pub completion_index : ℤ
  pub read_buf : ℕ
  pub results : List BufferWrite
  pub regs : R

abbrev plain : {R : Type 0} → ℕ × R → Outcome R
plain (ret, regs) = record { code = ret; ret = ret; writes = []; advance = 0; regs = regs }

module _ {R : Type 0} (vops : Vops R) (width : ℕ) (in_irq : Bool) where
  register_call : R → IoEntry → ℕ × R
  register_call regs e =
      let reply : Reply R = vops.register_io regs e width in (reply.ret, reply.regs)

  -- The header is written before the call; the values of a single read after it succeeded.
  read_result : ℕ → ℕ → ℕ → ℕ → List ℕ → BufferWrite
  read_result at bid offset num values = record {
    at = at;
    result = record { bid = bid; offset = offset; num_value_bytes = num; values = values };
  }

  pub run_entry : ℕ → ℕ → R → IoEntry → Outcome R
  unfolding register_call read_result
  run_entry read_buf ret regs (IoEntry.read e) =
      let reply : Reply R = vops.register_io regs (IoEntry.read e) width in
      record {
        code = reply.ret;
        ret = reply.ret;
        writes =
            read_result read_buf e.bid e.offset (width / 8)
              (if reply.ret == 0 then value_bytes (width / 8) reply.val else [])
            ∷ [];
        advance = io_result_size + width / 8;
        regs = reply.regs;
      }
  run_entry read_buf ret regs (IoEntry.read_batch e) =
      let reply : Reply R = vops.register_io regs (IoEntry.read_batch e) width in
      record {
        code = reply.ret;
        ret = reply.ret;
        writes = read_result read_buf e.bid e.offset e.size_in_bytes reply.bytes ∷ [];
        advance = io_result_size + e.size_in_bytes;
        regs = reply.regs;
      }
  run_entry read_buf ret regs (IoEntry.write e) = plain (register_call regs (IoEntry.write e))
  run_entry read_buf ret regs (IoEntry.write_batch e) =
      plain (register_call regs (IoEntry.write_batch e))
  run_entry read_buf ret regs (IoEntry.modify e) = plain (register_call regs (IoEntry.modify e))
  run_entry read_buf ret regs (IoEntry.poll a) = plain (lwis_io_entry_poll vops regs a in_irq width)
  run_entry read_buf ret regs (IoEntry.read_assert a) =
      plain (lwis_io_entry_read_assert vops regs a width)
  run_entry read_buf ret regs (IoEntry.unrecognized t) = record {
    code = einval;
    ret = ret;
    writes = [];
    advance = 0;
    regs = regs;
  }

  -- The end of a round: the entry's index on success, its error code on failure.
  pub record_outcome : ℕ → Progress R → Outcome R → Progress R
  record_outcome i p o =
      if o.code == 0
      then record p {
        ret = o.ret;
        completion_index = pos i;
        read_buf = p.read_buf + o.advance;
        results = p.results ++ o.writes;
        regs = o.regs;
      }
      else record p {
        ret = o.ret;
        error_code = o.code;
        results = p.results ++ o.writes;
        regs = o.regs;
      }

  -- The loop from index `i`. With `skip_err` a failure does not end it.
  pub process_entries : Bool → ℕ → List IoEntry → Progress R → Progress R
  unfolding run_entry record_outcome
  process_entries skip_err i [] p = p
  process_entries skip_err i (e ∷ es) p =
      let o : Outcome R = run_entry p.read_buf p.ret p.regs e in
      let rest : Progress R = process_entries skip_err (i + 1) es (record_outcome i p o) in
      if o.code == 0 || skip_err then rest else record_outcome i p o

save_transaction_to_history : Client → TransactionInfo → Client
save_transaction_to_history c info = record c {
  transaction_hist = set c.transaction_hist c.cur_transaction_hist_idx info;
  cur_transaction_hist_idx = next_index transaction_debug_history_size c.cur_transaction_hist_idx;
}

-- `cancel_transaction` with a pending queue: an answer of the header alone.
pub cancelled_response : Transaction → ℕ → Response
cancelled_response t error_code = record {
  id = (t.info).id;
  error_code = error_code;
  completion_index = negsuc 0;
  num_entries = 0;
  results_size_bytes = 0;
  results = [];
}

pub cancel_transaction : {R : Type 0} → Work R → Transaction → ℕ → Work R
unfolding cancelled_response
cancel_transaction w t error_code =
    let (pending, mem) =
      lwis_pending_event_push w.pending (w.dev).mem (t.info).emit_error_event_id
        (Payload.response (cancelled_response t error_code)) in
    record w { dev = record (w.dev) { mem = mem }; pending = pending }

module _ {R : Type 0} (vops : Vops R) where
  abbrev start_progress : Transaction → R → Progress R
  start_progress t regs = record {
    ret = 0;
    error_code = (t.resp).error_code;
    completion_index = negsuc 0;
    read_buf = 0;
    results = [];
    regs = regs;
  }

  pub run_entries : Device R → Transaction → Bool → Bool → Progress R
  unfolding process_entries
  run_entries d t in_irq skip_err =
      process_entries vops d.native_value_bitwidth in_irq skip_err 0 (t.info).io_entries
        (start_progress t d.regs)

  pub finished_response : Transaction → Progress R → Response
  finished_response t p = record (t.resp) {
    error_code = p.error_code;
    completion_index = p.completion_index;
    results = p.results;
  }

  finish : Work R → Transaction → Progress R → Work R
  unfolding finished_response save_transaction_to_history
  finish w t p =
      let event_id : ℕ =
        if p.error_code == 0
        then (t.info).emit_success_event_id
        else (t.info).emit_error_event_id in
      let (pending, mem) =
        lwis_pending_event_push w.pending (w.dev).mem event_id
          (Payload.response (finished_response t p)) in
      record {
        dev = record (w.dev) { regs = p.regs; mem = mem };
        client = save_transaction_to_history w.client t.info;
        pending = pending;
      }

  -- `process_transaction`; the transaction is freed.
  pub process_transaction : Work R → Transaction → Bool → Bool → ℕ × Work R
  unfolding run_entries finish
  process_transaction w t in_irq skip_err =
      let p : Progress R = run_entries w.dev t in_irq skip_err in (p.ret, finish w t p)

  -- The loop of `process_transactions_in_queue`.
  pub process_queue : Work R → List Transaction → Bool → Work R
  unfolding process_transaction cancel_transaction
  process_queue w [] in_irq = w
  process_queue w (t ∷ ts) in_irq =
      process_queue
        (if (t.resp).error_code == 0
          then (process_transaction w t in_irq false).1
          else cancel_transaction w t (t.resp).error_code)
        ts in_irq
