-- ===== src/Periodic/Reach.antt =====
-- lwis_periodic_io.c: in every state that the calls of a client, the timers and the work item lead
-- to, the buffers have room, ids are unique and every proxy has its periodic I/O.
use google_modules_lwis.Prelude.{
  ℕ, ◌+◌, ◌%◌, ◌^◌, ap, ◌∙◌, ◌*◌, ◌/◌, ◌≤◌, ◌<◌, ◌≡◌, refl, sym, subst, inl, inr, Bool, true, false,
  Option, none, some, List, [], ◌∷◌, map, arith, All, All-append, Bool-cases,
}
use google_modules_lwis.Commands.{
  PeriodicInfo, PeriodicWrite, periodic_header_size, periodic_result_size,
}
use google_modules_lwis.Device.{Device, Client, kmalloc}
use google_modules_lwis.Io.{Vops}
use google_modules_lwis.Transaction.Submit.{read_entries}
use google_modules_lwis.Periodic.{
  Periodic, PeriodicIo, PeriodicList, periodic_io_list_find, periodic_io_list_create_locked,
  periodic_io_list_find_or_create_locked, taken, create_list, restarted, periodic_io_timer_func,
  lwis_periodic_io_cancel, lwis_periodic_io_init, deactivate, stop_timer, release,
  periodic_io_find_locked,
}
use google_modules_lwis.Periodic.Process.{
  PeriodicWork, drain, periodic_io_work_func, lwis_periodic_io_client_flush, flushed,
  lwis_periodic_io_client_cleanup,
}
use google_modules_lwis.Periodic.Submit.{
  lwis_periodic_io_submit, submit_prepared, prepare_response, prepare_emit_events,
  queue_periodic_io_locked, queue_in, add_to_list, prepared, results_size, resp_size, with_id,
}
use google_modules_lwis.Periodic.Submit.Places.{
  submitted, lwis_periodic_io_submit-Submitted, prepare_emit_events-width,
}
use google_modules_lwis.Periodic.Process.Buffer.{Fits, run_size}
use google_modules_lwis.Periodic.Tables.{
  copies, copies_in, copies-stop_timer, find_locked-some, put_list-All, list_find-All, AllIo,
}
use google_modules_lwis.Periodic.Calls.{
  IsSound, init-IsSound, All-le, same_ids-IsSound, cancel-IsSound, timer-IsSound,
}
use google_modules_lwis.Periodic.Sound.{IsPrepared, IsDrained, allocated, work_loop-IsDrained}

-- A submission keeps a predicate on all periodic I/O, if the new one has it.
module _ (P : PeriodicIo → Type 0) where
  abbrev TakenAll : Option PeriodicList × List PeriodicList × List Bool → Type 0
  TakenAll (none, ls, mem) = Unit
  TakenAll (some l, ls, mem) = All P l.list × AllIo P ls

  taken-All :
      (ls : List PeriodicList) (mem : List Bool) (k : ℕ) (o : Option PeriodicList)
      → periodic_io_list_find ls k ≡ o
      → AllIo P ls
      → TakenAll (taken ls mem k o)
  unfolding taken periodic_io_list_create_locked restarted
  taken-All ls mem k (some l) e h =
      let hl = list_find-All P ls k l h e in (hl, put_list-All P ls (restarted l) h hl)
  taken-All ls mem k none e h = made (kmalloc mem)
    where
      made : (m : Bool × List Bool) → TakenAll (create_list ls k m)
      made (false, mem') = tt
      made (true, mem') = (tt, (tt, h))

  module _ {R : Type 0} where
    queue_in-All :
        (d : Device R) (c : Client) (s : Periodic) (p : PeriodicIo)
        (t : Option PeriodicList × List PeriodicList × List Bool)
        → AllIo P s.timer_list
        → P p
        → TakenAll t
        → AllIo P ((queue_in d c s p t).periodic).timer_list
    unfolding queue_in add_to_list
    queue_in-All d c s p (none, ls, mem) h hp ht = h
    queue_in-All d c s p (some l, ls, mem) h hp ht =
        put_list-All P ls _ ht.1 (All-append P l.list (p ∷ []) ht.0 (hp, tt))

    submit_prepared-All :
        (s : Periodic) (info : PeriodicInfo) (r : Bool × Device R × Client)
        → AllIo P s.timer_list
        → P (submitted (r.1) s info)
        → AllIo P ((submit_prepared s info r).periodic).timer_list
    unfolding submit_prepared queue_periodic_io_locked periodic_io_list_find_or_create_locked
    submit_prepared-All s info (false, d, c) h hp = h
    submit_prepared-All s info (true, d, c) h hp = elim (Bool-cases ((kmalloc d.mem).0)) [
      | inl fits ↦
          rw (fits, prepare_response)
            (queue_in-All (record d { mem = (kmalloc d.mem).1 }) c s (submitted d s info) _ h hp
              (taken-All s.timer_list (kmalloc d.mem).1 _ _ refl h))
      | inr full ↦ rw (full, prepare_response) h
    ]

-- The header and all results of the batches take less than 2^64 bytes.
abbrev pub IsSized : ℕ → PeriodicInfo → Type 0
IsSized bytewidth info =
    periodic_header_size + run_size bytewidth info.io_entries * info.batch_size < 2 ^ 64

below_word : (n : ℕ) → n < 2 ^ 64 → n % 2 ^ 64 ≡ n
below_word n h = omega arith

batches :
    (reads bytes batch_size : ℕ)
    → reads * periodic_result_size * batch_size + bytes * batch_size
      ≡ (reads * periodic_result_size + bytes) * batch_size
batches reads bytes batch_size = grind arith

batches_behind :
    (header reads bytes batch_size : ℕ)
    → header + reads * periodic_result_size * batch_size + bytes * batch_size
      ≡ header + (reads * periodic_result_size + bytes) * batch_size
batches_behind header reads bytes batch_size = grind arith

results_size-run_size :
    (bytewidth : ℕ) (info : PeriodicInfo)
    → IsSized bytewidth info
    → results_size bytewidth info.batch_size info.io_entries
      ≡ run_size bytewidth info.io_entries * info.batch_size
unfolding results_size run_size
results_size-run_size bytewidth info h =
    ap (λ (n : ℕ). n % 2 ^ 64) (batches (read_entries info.io_entries) _ info.batch_size)
    ∙ below_word _ (omega (arith, h))

resp_size-run_size :
    (bytewidth : ℕ) (info : PeriodicInfo)
    → IsSized bytewidth info
    → resp_size bytewidth info.batch_size info.io_entries
      ≡ periodic_header_size + run_size bytewidth info.io_entries * info.batch_size
unfolding resp_size run_size
resp_size-run_size bytewidth info h =
    ap (λ (n : ℕ). n % 2 ^ 64)
      (batches_behind periodic_header_size (read_entries info.io_entries) _ info.batch_size)
    ∙ below_word _ h

prepared-IsPrepared :
    (bytewidth : ℕ) (info : PeriodicInfo)
    → 0 < info.batch_size
    → IsSized bytewidth info
    → IsPrepared bytewidth (prepared bytewidth info)
unfolding prepared
prepared-IsPrepared bytewidth info h size = record {
  ready = λ e. record { sized = results_size-run_size bytewidth info size; counted = h };
  bounded = size;
  written = tt;
}

module _ {R : Type 0} where
  submit-All :
      (d : Device R) (c : Client) (s : Periodic) (info : PeriodicInfo)
      → AllIo (IsPrepared (d.native_value_bitwidth / 8)) s.timer_list
      → 0 < info.batch_size
      → IsSized (d.native_value_bitwidth / 8) info
      → AllIo
          (IsPrepared (d.native_value_bitwidth / 8))
          ((lwis_periodic_io_submit d c s info).periodic).timer_list
  unfolding lwis_periodic_io_submit
  submit-All d c s info h batch size =
      submit_prepared-All (IsPrepared (d.native_value_bitwidth / 8)) s info
        (prepare_emit_events d c info) h
        (subst
          (λ (n : ℕ). IsPrepared (d.native_value_bitwidth / 8) (prepared (n / 8) (with_id s info)))
          (sym (prepare_emit_events-width d c info))
          (prepared-IsPrepared (d.native_value_bitwidth / 8) (with_id s info) batch size))

  submit-IsSound :
      (d : Device R) (c : Client) (s : Periodic) (info : PeriodicInfo)
      → 0 < info.batch_size
      → IsSized (d.native_value_bitwidth / 8) info
      → IsSound (d.native_value_bitwidth / 8) s
      → IsSound (d.native_value_bitwidth / 8) (lwis_periodic_io_submit d c s info).periodic
  unfolding prepared
  submit-IsSound d c s info h size v = elim (lwis_periodic_io_submit-Submitted d c s info) [
    | inr (bad, same) ↦ subst (IsSound (d.native_value_bitwidth / 8)) (sym same) v
    | inl (good, p) ↦ record {
      buffers = submit-All d c s info v.buffers h size;
      unique = λ id. ground (arith, p.ids id, v.unique id, v.fresh id);
      fresh = λ id le. ground (arith, p.ids id, p.counter, v.fresh id);
      proxies =
          subst
            (λ (ids : List ℕ).
              All
                (λ (id : ℕ).
                  1 ≤ copies ((lwis_periodic_io_submit d c s info).periodic).timer_list id)
                ids)
            (sym p.queue)
            (All-le (copies s.timer_list)
              (copies ((lwis_periodic_io_submit d c s info).periodic).timer_list) s.process_queue
              (λ id. omega (arith, p.ids id)) v.proxies);
    }
  ]

module _ {R : Type 0} (vops : Vops R) (bytewidth : ℕ) where
  abbrev Drained : Device R → Periodic → (ℕ → ℕ → Bool) → PeriodicWork R
  Drained d s cancels = drain vops d s cancels

  drained-IsDrained :
      (d : Device R) (s : Periodic) (cancels : ℕ → ℕ → Bool)
      → d.native_value_bitwidth / 8 ≡ bytewidth
      → IsSound bytewidth s
      → IsDrained bytewidth (record { dev = d; client = s; pending = [] }) (Drained d s cancels)
  drained-IsDrained d s cancels width v =
      let k =
        work_loop-IsDrained bytewidth vops
          (record { dev = d; client = record s { work_queued = false }; pending = [] }) cancels
          s.process_queue refl width v.buffers in
      record { queue = k.queue; counter = k.counter; ids = k.ids; prepared = k.prepared }

  work-IsSound :
      (d : Device R) (s : Periodic) (cancels : ℕ → ℕ → Bool)
      → d.native_value_bitwidth / 8 ≡ bytewidth
      → IsSound bytewidth s
      → IsSound bytewidth (Drained d s cancels).client
  work-IsSound d s cancels width v =
      let k = drained-IsDrained d s cancels width v in
      same_ids-IsSound bytewidth s _ _ _ _ v k.counter k.ids k.prepared
        (subst (λ (q : List ℕ). All (λ (id : ℕ). 1 ≤ copies s.timer_list id) q) (sym k.queue) tt)

  stopped-Prepared :
      (ps : List PeriodicIo)
      → All (IsPrepared bytewidth) ps
      → All (IsPrepared bytewidth) (map deactivate ps)
  unfolding deactivate
  stopped-Prepared [] h = tt
  stopped-Prepared (p ∷ ps) h = (
    record {
      ready = λ e. let r = h.0.ready e in record { sized = r.sized; counted = r.counted };
      bounded = h.0.bounded;
      written = h.0.written;
    },
    stopped-Prepared ps h.1,
  )

  all_stopped-Prepared :
      (ls : List PeriodicList)
      → AllIo (IsPrepared bytewidth) ls
      → AllIo (IsPrepared bytewidth) (map stop_timer ls)
  unfolding stop_timer
  all_stopped-Prepared [] h = tt
  all_stopped-Prepared (l ∷ ls) h = (stopped-Prepared l.list h.0, all_stopped-Prepared ls h.1)

  abbrev stopped_timers : Periodic → Periodic
  stopped_timers s = record s { timer_list = map stop_timer s.timer_list }

  stop-IsSound : (s : Periodic) → IsSound bytewidth s → IsSound bytewidth (stopped_timers s)
  stop-IsSound s v =
      same_ids-IsSound bytewidth s _ s.counter s.process_queue s.work_queued v refl
        (copies-stop_timer s.timer_list) (all_stopped-Prepared s.timer_list v.buffers) v.proxies

  copies-release : (ls : List PeriodicList) (id : ℕ) → copies (map release ls) id ≡ 0
  unfolding copies copies_in release
  copies-release [] id = refl
  copies-release (l ∷ ls) id = omega (arith, copies-release ls id)

  released-All : (ls : List PeriodicList) → AllIo (IsPrepared bytewidth) (map release ls)
  unfolding release
  released-All [] = tt
  released-All (l ∷ ls) = (tt, released-All ls)

  -- Timers without periodic I/O and a queue without proxies.
  emptied-IsSound :
      (s : Periodic)
      → ((id : ℕ) → copies s.timer_list id ≡ 0)
      → AllIo (IsPrepared bytewidth) s.timer_list
      → s.process_queue ≡ []
      → IsSound bytewidth s
  emptied-IsSound s none_left h q = record {
    buffers = h;
    unique = λ id. omega (arith, none_left id);
    fresh = λ id le. none_left id;
    proxies = subst (λ (ids : List ℕ). All (λ (id : ℕ). 1 ≤ copies s.timer_list id) ids) (sym q) tt;
  }

  -- What the clients, the timers and the work item do to the periodic I/O of one client, between
  -- which the device changes in any way but the width of its registers.
  pub data Step (s : Periodic) : Periodic → Type 0 where
    submit :
        (d : Device R) (c : Client) (info : PeriodicInfo)
        → d.native_value_bitwidth / 8 ≡ bytewidth
        → 0 < info.batch_size
        → IsSized bytewidth info
        → Step s (lwis_periodic_io_submit d c s info).periodic
    cancel : (id : ℕ) → Step s (lwis_periodic_io_cancel s id).1
    fire :
        (mem : List Bool) (l : PeriodicList)
        → periodic_io_list_find s.timer_list l.period_ns ≡ some l
        → Step s (periodic_io_timer_func s mem l).0
    work :
        (fuel : ℕ) (d : Device R) (clients : List Client) (cancels : ℕ → ℕ → Bool)
        → d.native_value_bitwidth / 8 ≡ bytewidth
        → Step s (periodic_io_work_func vops fuel d clients s cancels).0
    flush :
        (fuel : ℕ) (d : Device R) (clients : List Client) (cancels : ℕ → ℕ → Bool)
        → d.native_value_bitwidth / 8 ≡ bytewidth
        → Step s (lwis_periodic_io_client_flush vops fuel d clients s cancels).0
    cleanup :
        (fuel : ℕ) (d : Device R) (clients : List Client) (cancels : ℕ → ℕ → Bool)
        → d.native_value_bitwidth / 8 ≡ bytewidth
        → Step s (lwis_periodic_io_client_cleanup vops fuel d clients s cancels).0

  pub data Reach : Periodic → Type 0 where
    opened : Reach lwis_periodic_io_init
    next : {s t : Periodic} → Reach s → Step s t → Reach t

  Step-IsSound : {s t : Periodic} → Step s t → IsSound bytewidth s → IsSound bytewidth t
  unfolding periodic_io_work_func lwis_periodic_io_client_flush lwis_periodic_io_client_cleanup
      flushed
  Step-IsSound {s} (submit d c info width batch size) v =
      subst (λ (n : ℕ). IsSound n (lwis_periodic_io_submit d c s info).periodic) width
        (submit-IsSound d c s info batch (subst (λ (n : ℕ). IsSized n info) (sym width) size)
          (subst (λ (n : ℕ). IsSound n s) (sym width) v))
  Step-IsSound {s} (cancel id) v = cancel-IsSound bytewidth s id v
  Step-IsSound {s} (fire mem l found) v = timer-IsSound bytewidth s mem l found v
  Step-IsSound {s} (work fuel d clients cancels width) v = work-IsSound d s cancels width v
  Step-IsSound {s} (flush fuel d clients cancels width) v =
      emptied-IsSound _ (copies-release _) (released-All _)
        (drained-IsDrained d (stopped_timers s) cancels width (stop-IsSound s v)).queue
  Step-IsSound {s} (cleanup fuel d clients cancels width) v =
      emptied-IsSound _ (λ id. unfold copies in refl) tt
        (drained-IsDrained d (stopped_timers s) cancels width (stop-IsSound s v)).queue

  pub Reach-IsSound : {s : Periodic} → Reach s → IsSound bytewidth s
  Reach-IsSound opened = init-IsSound bytewidth
  Reach-IsSound (next r st) = Step-IsSound st (Reach-IsSound r)

  -- Behind the header and within the bytes that `prepare_response` allocated.
  abbrev pub IsInside : PeriodicIo → PeriodicWrite → Type 0
  IsInside p w =
      periodic_header_size + w.at + periodic_result_size + (w.result).num_value_bytes
      ≤ resp_size bytewidth (p.info).batch_size (p.info).io_entries

  abbrev pub WrittenInside : PeriodicIo → Type 0
  WrittenInside p = All (IsInside p) (p.resp).results

  results-IsInside :
      (p : PeriodicIo) (ws : List PeriodicWrite)
      → IsSized bytewidth p.info
      → All (Fits (allocated bytewidth p)) ws
      → All (IsInside p) ws
  results-IsInside p [] size h = tt
  results-IsInside p (w ∷ ws) size h =
      (omega (arith, resp_size-run_size bytewidth p.info size, h.0), results-IsInside p ws size h.1)

  written_of : (ps : List PeriodicIo) → All (IsPrepared bytewidth) ps → All WrittenInside ps
  written_of [] h = tt
  written_of (p ∷ ps) h =
      (results-IsInside p (p.resp).results h.0.bounded h.0.written, written_of ps h.1)

  all_written_of :
      (ls : List PeriodicList) → AllIo (IsPrepared bytewidth) ls → AllIo WrittenInside ls
  all_written_of [] h = tt
  all_written_of (l ∷ ls) h = (written_of l.list h.0, all_written_of ls h.1)

  -- Whatever a client submits with a positive batch size and results of less than 2^64 bytes with
  -- their header, cancels and flushes, and however often the timers fire and the work item runs: all
  -- that was written for a periodic I/O, by all of its runs, lies behind the header and inside the
  -- response buffer that was allocated for it.
  pub Reach-WrittenInside : {s : Periodic} → Reach s → AllIo WrittenInside s.timer_list
  Reach-WrittenInside {s} r = all_written_of s.timer_list (Reach-IsSound r).buffers

  found_of :
      (ls : List PeriodicList) (ids : List ℕ)
      → All (λ (id : ℕ). 1 ≤ copies ls id) ids
      → All (λ (id : ℕ). (p : PeriodicIo) × (periodic_io_find_locked ls id ≡ some p)) ids
  found_of ls [] h = tt
  found_of ls (id ∷ ids) h = (find_locked-some ls id h.0, found_of ls ids h.1)

  -- In every such state each proxy of the process queue has its periodic I/O on a timer, not one
  -- that was freed, and no id stands on the timers twice.
  pub Reach-Found :
      {s : Periodic}
      → Reach s
      → All
          (λ (id : ℕ). (p : PeriodicIo) × (periodic_io_find_locked s.timer_list id ≡ some p))
          s.process_queue
        × ((id : ℕ) → copies s.timer_list id ≤ 1)
  Reach-Found {s} r =
      let v = Reach-IsSound r in (found_of s.timer_list s.process_queue v.proxies, v.unique)
