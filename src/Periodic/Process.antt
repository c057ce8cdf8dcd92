-- ===== src/Periodic/Process.antt =====
-- lwis_periodic_io.c: one run of the I/O entries of a periodic I/O, the queue of runs, and a flush.
pub mod Buffer
pub mod Whole
use google_modules_lwis.Prelude.{
  ℕ, zero, suc, ◌+◌, ◌*◌, ◌/◌, Bool, true, false, Option, none, some, List, [], ◌∷◌, ◌++◌, map,
  ◌==◌, ◌||◌, ◌&&◌, not, if◌then◌else◌, length,
}
use google_modules_lwis.Errno.{einval, ecanceled}
use google_modules_lwis.Commands.{
  IoEntry, PeriodicWrite, PeriodicResponse, PeriodicInfo, EventEntry, Payload, periodic_result_size,
  periodic_header_size, value_bytes,
}
use google_modules_lwis.Io.{Vops, Reply, lwis_io_entry_poll, lwis_io_entry_read_assert}
use google_modules_lwis.Device.{Device, Client}
use google_modules_lwis.Event.Pending.{lwis_pending_event_push}
use google_modules_lwis.Emission.{Emission, lwis_pending_events_emit}
use google_modules_lwis.Periodic.{
  Periodic, PeriodicIo, PeriodicList, periodic_io_find_locked, put_io,
  mark_periodic_io_resp_error_locked, stop_timer, release,
}

-- What one entry does: its error code, the return code of its call, the write into the response
-- buffer, and how far the buffer's position moves if the entry succeeds.
pub record Outcome (R : Type 0) : Type 0 where
  pub code : ℕ
  pub ret : ℕ
  pub writes : List PeriodicWrite
  pub advance : ℕ
  pub regs : R

-- The variables of the loop over the entries.
pub record Progress (R : Type 0) : Type 0 where
  pub ret : ℕ
  pub error_code : ℕ
  pub active : Bool
  pub read_buf : ℕ
  pub results : List PeriodicWrite
  pub regs : R

-- The loop ends behind the last entry, or by a jump to `event_push`.
pub data Ended (R : Type 0) : Type 0 where
  all_done : Progress R → Ended R
  failed : Progress R → Ended R

abbrev plain : {R : Type 0} → ℕ × R → Outcome R
plain (ret, regs) = record { code = ret; ret = ret; writes = []; advance = 0; regs = regs }

module _ {R : Type 0} (vops : Vops R) (width now : ℕ) where
  register_call : R → IoEntry → ℕ × R
  register_call regs e =
      let reply : Reply R = vops.register_io regs e width in (reply.ret, reply.regs)

  -- The header is written before the call; the values of a single read after it succeeded.
  read_result : ℕ → ℕ → ℕ → ℕ → List ℕ → PeriodicWrite
  read_result at bid offset num values = record {
    at = at;
    timestamp_ns = now;
    result = record { bid = bid; offset = offset; num_value_bytes = num; values = values };
  }

  pub run_entry : ℕ → ℕ → R → IoEntry → Outcome R
  unfolding register_call read_result
  run_entry read_buf ret regs (IoEntry.read e) =
      let reply : Reply R = vops.register_io regs (IoEntry.read e) width in
      record {
        code = reply.ret;
        ret = reply.ret;
        writes =
            read_result read_buf e.bid e.offset (width / 8)
              (if reply.ret == 0 then value_bytes (width / 8) reply.val else [])
            ∷ [];
        advance = periodic_result_size + width / 8;
        regs = reply.regs;
      }
  run_entry read_buf ret regs (IoEntry.read_batch e) =
      let reply : Reply R = vops.register_io regs (IoEntry.read_batch e) width in
      record {
        code = reply.ret;
        ret = reply.ret;
        writes = read_result read_buf e.bid e.offset e.size_in_bytes reply.bytes ∷ [];
        advance = periodic_result_size + e.size_in_bytes;
        regs = reply.regs;
      }
  run_entry read_buf ret regs (IoEntry.write e) = plain (register_call regs (IoEntry.write e))
  run_entry read_buf ret regs (IoEntry.write_batch e) =
      plain (register_call regs (IoEntry.write_batch e))
  run_entry read_buf ret regs (IoEntry.modify e) = plain (register_call regs (IoEntry.modify e))
  run_entry read_buf ret regs (IoEntry.poll a) = plain (lwis_io_entry_poll vops regs a false width)
  run_entry read_buf ret regs (IoEntry.read_assert a) =
      plain (lwis_io_entry_read_assert vops regs a width)
  run_entry read_buf ret regs (IoEntry.unrecognized t) = record {
    code = einval;
    ret = ret;
    writes = [];
    advance = 0;
    regs = regs;
  }

  unfoldable pub advanced : Progress R → Outcome R → Progress R
  advanced p o = record p {
    ret = o.ret;
    read_buf = p.read_buf + o.advance;
    results = p.results ++ o.writes;
    regs = o.regs;
  }

  unfoldable pub stopped : Progress R → Outcome R → Progress R
  stopped p o = record p {
    ret = o.ret;
    error_code = o.code;
    results = p.results ++ o.writes;
    regs = o.regs;
  }

  module _ (cancel_at : ℕ → Bool) (contains_multiple_writes : Bool) where
    -- A cancellation on another thread is seen at the check of the entry `i` if `cancel_at i`.
    unfoldable pub observe : ℕ → Progress R → Progress R
    observe i p = if cancel_at i then record p { error_code = ecanceled; active = false } else p

    unfoldable pub aborts : ℕ → Progress R → Bool
    aborts i p = not p.active && (i == 0 || not contains_multiple_writes)

    -- The round of one entry, before the rounds `next`.
    unfoldable pub process_round : ℕ → IoEntry → (Progress R → Ended R) → Progress R → Ended R
    unfolding aborts
    process_round i e next q =
        let o : Outcome R = run_entry q.read_buf q.ret q.regs e in
        if aborts i q
        then failed (record q { error_code = ecanceled })
        else if o.code == 0
        then next (advanced q o)
        else failed (stopped q o)

    -- The loop from entry `i`.
    unfoldable pub process_loop : ℕ → List IoEntry → Progress R → Ended R
    unfolding observe process_round
    process_loop i [] p = all_done (observe i p)
    process_loop i (e ∷ es) p = process_round i e (process_loop (i + 1) es) (observe i p)

-- A device and the periodic I/O of one client at work, with the events that wait.
pub record PeriodicWork (R : Type 0) : Type 0 where
  pub dev : Device R
  pub client : Periodic
  pub pending : List EventEntry

-- The bytes of one run in the response buffer.
abbrev pub per_period : PeriodicIo → ℕ
per_period p = (p.resp).results_size_bytes / (p.info).batch_size

-- An answer of the header alone.
unfoldable pub error_response : PeriodicIo → ℕ → PeriodicResponse
error_response p error_code = record {
  id = (p.info).id;
  error_code = error_code;
  batch_size = 0;
  num_entries_per_period = 0;
  results_size_bytes = 0;
  results = [];
}

abbrev pub code_of : PeriodicIo → ℕ
code_of p = if (p.resp).error_code == 0 then ecanceled else (p.resp).error_code

-- The periodic I/O after its loop: `batch_count` is raised only where all entries were run.
module _ {R : Type 0} where
  unfoldable pub after_loop : PeriodicIo → Ended R → PeriodicIo
  after_loop p (all_done q) = record p {
    batch_count = p.batch_count + 1;
    active = q.active;
    resp = record (p.resp) {
      batch_size = p.batch_count + 1;
      error_code = q.error_code;
      results = (p.resp).results ++ q.results;
    };
  }
  after_loop p (failed q) = record p {
    active = q.active;
    resp = record (p.resp) { error_code = q.error_code; results = (p.resp).results ++ q.results };
  }

  abbrev pub progress_of : Ended R → Progress R
  progress_of (all_done q) = q
  progress_of (failed q) = q

  unfoldable pub store : PeriodicWork R → PeriodicIo → List EventEntry × List Bool → PeriodicWork R
  store w p (pending, mem) = record {
    dev = record (w.dev) { mem = mem };
    client = record (w.client) { timer_list = put_io (w.client).timer_list p };
    pending = pending;
  }

  -- The label `event_push`.
  unfoldable pub push_events : PeriodicWork R → PeriodicIo → PeriodicWork R
  unfolding store
  push_events w p =
      let size : ℕ = p.batch_count * per_period p in
      let sent : PeriodicResponse = record (p.resp) { results_size_bytes = size } in
      if not ((p.resp).error_code == 0)
      then store w (record p { resp = sent; active = false })
          (lwis_pending_event_push w.pending (w.dev).mem (p.info).emit_error_event_id
            (Payload.periodic sent (periodic_header_size + size)))
      else if p.batch_count == (p.info).batch_size
      then store w (record p { batch_count = 0; resp = record (p.resp) { batch_size = 0 } })
          (lwis_pending_event_push w.pending (w.dev).mem (p.info).emit_success_event_id
            (Payload.periodic p.resp (periodic_header_size + size)))
      else store w p (w.pending, (w.dev).mem)

  unfoldable pub start : Device R → PeriodicIo → Progress R
  start d p = record {
    ret = 0;
    error_code = (p.resp).error_code;
    active = p.active;
    read_buf = p.batch_count * per_period p;
    results = [];
    regs = d.regs;
  }

  unfoldable pub push_periodic_io_error_event_locked :
      PeriodicWork R → PeriodicIo → ℕ → PeriodicWork R
  unfolding error_response
  push_periodic_io_error_event_locked w p error_code =
      let (pending, mem) =
        lwis_pending_event_push w.pending (w.dev).mem (p.info).emit_error_event_id
          (Payload.periodic (error_response p error_code) periodic_header_size) in
      record w { dev = record (w.dev) { mem = mem }; pending = pending }

  module _ (vops : Vops R) where
    unfoldable pub run_entries : Device R → PeriodicIo → (ℕ → Bool) → Ended R
    unfolding process_loop start
    run_entries d p cancel_at =
        process_loop vops d.native_value_bitwidth d.now cancel_at p.contains_multiple_writes 0
          (p.info).io_entries (start d p)

    unfoldable pub process_io_entries : PeriodicWork R → PeriodicIo → (ℕ → Bool) → PeriodicWork R
    unfolding after_loop push_events run_entries
    process_io_entries w p cancel_at =
        let e : Ended R = run_entries w.dev p cancel_at in
        push_events (record w { dev = record (w.dev) { regs = (progress_of e).regs } })
          (after_loop p e)

    -- One proxy. `none` is a proxy whose periodic I/O is gone, a use after free in the source.
    unfoldable pub run_proxy : PeriodicWork R → (ℕ → Bool) → Option PeriodicIo → PeriodicWork R
    unfolding push_periodic_io_error_event_locked
    run_proxy w cancel_at none = w
    run_proxy w cancel_at (some p) =
        if not ((p.resp).error_code == 0) || not p.active
        then push_periodic_io_error_event_locked w p (code_of p)
        else process_io_entries w p cancel_at

    -- The loop of `periodic_io_work_func`; `cancels n` is what happens during the run of the proxy
    -- that has `n` behind it.
    unfoldable pub work_loop : PeriodicWork R → (ℕ → ℕ → Bool) → List ℕ → PeriodicWork R
    unfolding run_proxy
    work_loop w cancels [] = w
    work_loop w cancels (id ∷ ids) =
        work_loop
          (run_proxy (record w { client = record (w.client) { process_queue = ids } })
            (cancels (length ids)) (periodic_io_find_locked (w.client).timer_list id))
          cancels ids

    abbrev pub drain : Device R → Periodic → (ℕ → ℕ → Bool) → PeriodicWork R
    drain d c cancels =
        work_loop (record { dev = d; client = record c { work_queued = false }; pending = [] })
          cancels c.process_queue

    -- The work item with the emission of the events that it puts off; `clients` are all clients of
    -- the device.
    unfoldable pub periodic_io_work_func :
        ℕ → Device R → List Client → Periodic → (ℕ → ℕ → Bool) → Periodic × Option (Emission R)
    unfolding work_loop
    periodic_io_work_func fuel d clients c cancels =
        let w : PeriodicWork R = drain d c cancels in
        (w.client, lwis_pending_events_emit vops false fuel 0 w.dev clients w.pending)

    unfoldable pub flushed : Periodic × Option (Emission R) → Periodic × Option (Emission R)
    flushed (c, e) = (record c { timer_list = map release c.timer_list }, e)

    -- A flush stops the timers, runs the work item and frees the periodic I/O.
    unfoldable pub lwis_periodic_io_client_flush :
        ℕ → Device R → List Client → Periodic → (ℕ → ℕ → Bool) → Periodic × Option (Emission R)
    unfolding flushed
    lwis_periodic_io_client_flush fuel d clients c cancels = flushed (
        periodic_io_work_func fuel d clients (record c { timer_list = map stop_timer c.timer_list })
          cancels)

    -- After the flush the lists themselves leave the table.
    unfoldable pub lwis_periodic_io_client_cleanup :
        ℕ → Device R → List Client → Periodic → (ℕ → ℕ → Bool) → Periodic × Option (Emission R)
    lwis_periodic_io_client_cleanup fuel d clients c cancels =
        let (c', e) = lwis_periodic_io_client_flush fuel d clients c cancels in
        (record c' { timer_list = [] }, e)
