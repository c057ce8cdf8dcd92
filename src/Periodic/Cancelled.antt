-- ===== src/Periodic/Cancelled.antt =====
-- lwis_periodic_io.c: a periodic I/O that was cancelled is answered and not run.
use google_modules_lwis.Prelude.{
  ℕ, ◌≡◌, refl, sym, ap, ◌∙◌, inl, inr, Bool, false, none, some, List, [], ◌∷◌, ◌++◌, map, arith,
  length, All, Option-cases,
}
use mathlib.Core.List.{append_assoc, append-nil}
use google_modules_lwis.Errno.{ecanceled}
use google_modules_lwis.Commands.{EventEntry, Payload, periodic_header_size}
use google_modules_lwis.Device.{Device}
use google_modules_lwis.Io.{Vops}
use google_modules_lwis.Event.Pending.{lwis_pending_event_push, pending_entry}
use google_modules_lwis.Periodic.{
  Periodic, PeriodicIo, PeriodicList, find_in_list, or_else, periodic_io_find_locked, put_in_list,
  put_io, mark_periodic_io_resp_error_locked, cancel_found, lwis_periodic_io_cancel,
}
use google_modules_lwis.Periodic.Process.{
  PeriodicWork, error_response, push_periodic_io_error_event_locked, run_proxy, work_loop, drain,
}
use google_modules_lwis.Periodic.Timers.{AllGiven}

find_in_list-id :
    (ps : List PeriodicIo) (id : ℕ) (p : PeriodicIo)
    → find_in_list ps id ≡ some p
    → (p.info).id ≡ id
unfolding find_in_list
find_in_list-id [] id p h = cc
find_in_list-id (q ∷ ps) id p h = ground (arith, find_in_list-id ps id p)

find_locked-id :
    (ls : List PeriodicList) (id : ℕ) (p : PeriodicIo)
    → periodic_io_find_locked ls id ≡ some p
    → (p.info).id ≡ id
unfolding periodic_io_find_locked or_else
find_locked-id [] id p h = cc
find_locked-id (l ∷ ls) id p h = elim (Option-cases (find_in_list l.list id)) [
  | inl n ↦ find_locked-id ls id p (rw n at h)
  | inr (q, n) ↦ find_in_list-id l.list id p (n ∙ rw n at h)
]

find_in_list-put :
    (ps : List PeriodicIo) (p q : PeriodicIo) (id : ℕ)
    → (q.info).id ≡ id
    → find_in_list ps id ≡ some p
    → find_in_list (put_in_list ps q) id ≡ some q
unfolding find_in_list put_in_list
find_in_list-put [] p q id e h = cc
find_in_list-put (r ∷ ps) p q id e h = ground (arith, find_in_list-put ps p q id e)

find_in_list-put_none :
    (ps : List PeriodicIo) (q : PeriodicIo) (id : ℕ)
    → (q.info).id ≡ id
    → find_in_list ps id ≡ none
    → find_in_list (put_in_list ps q) id ≡ none
unfolding find_in_list put_in_list
find_in_list-put_none [] q id e h = refl
find_in_list-put_none (r ∷ ps) q id e h = ground (arith, find_in_list-put_none ps q id e)

-- What was written through the pointer is found again.
pub find_locked-put :
    (ls : List PeriodicList) (p q : PeriodicIo) (id : ℕ)
    → (q.info).id ≡ id
    → periodic_io_find_locked ls id ≡ some p
    → periodic_io_find_locked (put_io ls q) id ≡ some q
unfolding periodic_io_find_locked put_io or_else
find_locked-put [] p q id e h = cc
find_locked-put (l ∷ ls) p q id e h = elim (Option-cases (find_in_list l.list id)) [
  | inl n ↦ rw (find_in_list-put_none l.list q id e n) (find_locked-put ls p q id e (rw n at h))
  | inr (r, n) ↦ rw (find_in_list-put l.list r q id e n) refl
]

-- The answer to one proxy of a cancelled periodic I/O.
abbrev pub answer : PeriodicIo → EventEntry
answer p =
    pending_entry (p.info).emit_error_event_id
      (Payload.periodic (error_response p ecanceled) periodic_header_size)

push-given :
    (pending : List EventEntry) (mem : List Bool) (event_id : ℕ) (payload : Payload)
    → AllGiven mem
    → ((lwis_pending_event_push pending mem event_id payload).0
        ≡ pending ++ pending_entry event_id payload ∷ [])
      × AllGiven (lwis_pending_event_push pending mem event_id payload).1
unfolding lwis_pending_event_push
push-given pending [] event_id payload h = (refl, tt)
push-given pending (b ∷ mem) event_id payload h = (rw h.0 refl, h.1)

module _ {R : Type 0} (vops : Vops R) where
  abbrev push_answer : PeriodicWork R → PeriodicIo → List EventEntry × List Bool
  push_answer w p =
      lwis_pending_event_push w.pending (w.dev).mem (p.info).emit_error_event_id
        (Payload.periodic (error_response p ecanceled) periodic_header_size)

  abbrev answered : PeriodicWork R → PeriodicIo → PeriodicWork R
  answered w p = record w {
    dev = record (w.dev) { mem = (push_answer w p).1 };
    pending = (push_answer w p).0;
  }

  run_proxy-answered :
      (w : PeriodicWork R) (cancel_at : ℕ → Bool) (p : PeriodicIo)
      → (p.resp).error_code ≡ ecanceled
      → run_proxy vops w cancel_at (some p) ≡ answered w p
  unfolding run_proxy push_periodic_io_error_event_locked
  run_proxy-answered w cancel_at p code = rw code refl

  -- The loop over proxies of `p` alone, which was cancelled.
  work_loop-cancelled :
      (w : PeriodicWork R) (cancels : ℕ → ℕ → Bool) (p : PeriodicIo) (id : ℕ) (ids : List ℕ)
      → All (λ (i : ℕ). i ≡ id) ids
      → periodic_io_find_locked (w.client).timer_list id ≡ some p
      → (p.resp).error_code ≡ ecanceled
      → AllGiven (w.dev).mem
      → (((work_loop vops w cancels ids).dev).regs ≡ (w.dev).regs)
        × ((work_loop vops w cancels ids).pending ≡ w.pending ++ map (λ (i : ℕ). answer p) ids)
  unfolding work_loop
  work_loop-cancelled w cancels p id [] same found code given = (refl, sym (append-nil w.pending))
  work_loop-cancelled w cancels p id (i ∷ ids) same found code given =
      let v : PeriodicWork R = record w { client = record (w.client) { process_queue = ids } } in
      let (pushed, left) =
        push-given w.pending (w.dev).mem (p.info).emit_error_event_id
          (Payload.periodic (error_response p ecanceled) periodic_header_size) given in
      let (regs, events) =
        work_loop-cancelled (answered v p) cancels p id ids same.1 found code left in
      let step : run_proxy vops v (cancels (length ids))
            (periodic_io_find_locked (w.client).timer_list i)
          ≡ answered v p =
        rw (same.0, found) (run_proxy-answered v (cancels (length ids)) p code) in
      let whole = ap (λ (u : PeriodicWork R). work_loop vops u cancels ids) step in
      (
        ap (λ (u : PeriodicWork R). (u.dev).regs) whole ∙ regs,
        ap (λ (u : PeriodicWork R). u.pending) whole
            ∙ events
            ∙ ap (λ (q : List EventEntry). q ++ map (λ (j : ℕ). answer p) ids) pushed
            ∙ append_assoc w.pending (answer p ∷ []) (map (λ (j : ℕ). answer p) ids),
      )

  cancel-found :
      (s : Periodic) (id : ℕ) (p : PeriodicIo)
      → periodic_io_find_locked s.timer_list id ≡ some p
      → lwis_periodic_io_cancel s id
        ≡ (0, record s { timer_list = put_io s.timer_list (mark_periodic_io_resp_error_locked p) })
  unfolding lwis_periodic_io_cancel
  cancel-found s id p found = rw (found, cancel_found) refl

  -- After a periodic I/O was cancelled, a work item whose queue holds proxies of it alone does not
  -- touch the device's registers, and with memory for the answers it pushes one error event with
  -- ECANCELED, of the header alone, for each proxy.
  pub cancel-answers :
      (d : Device R) (s : Periodic) (cancels : ℕ → ℕ → Bool) (id : ℕ) (p : PeriodicIo)
      → periodic_io_find_locked s.timer_list id ≡ some p
      → All (λ (i : ℕ). i ≡ id) s.process_queue
      → AllGiven d.mem
      → ((lwis_periodic_io_cancel s id).0 ≡ 0)
        × (((drain vops d (lwis_periodic_io_cancel s id).1 cancels).dev).regs ≡ d.regs)
        × ((drain vops d (lwis_periodic_io_cancel s id).1 cancels).pending
            ≡ map (λ (i : ℕ). answer p) s.process_queue)
  unfolding mark_periodic_io_resp_error_locked error_response
  cancel-answers d s cancels id p found same given =
      let q = mark_periodic_io_resp_error_locked p in
      let (regs, events) =
        work_loop-cancelled
          (record {
            dev = d;
            client = record s { timer_list = put_io s.timer_list q; work_queued = false };
            pending = [];
          })
          cancels q id s.process_queue same
          (find_locked-put s.timer_list p q id (find_locked-id s.timer_list id p found) found) refl
          given in
      rw (cancel-found s id p found) (refl, regs, events)
