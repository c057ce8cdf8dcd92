-- ===== src/Periodic/Sound.antt =====
-- lwis_periodic_io.c: a run of the process queue keeps the buffers of the periodic I/O in order, their
-- ids on the timers, and no proxy.
use google_modules_lwis.Prelude.{
  ℕ, ◌+◌, ◌^◌, ◌*◌, ◌/◌, ◌≤◌, ◌<◌, ◌≡◌, refl, sym, ap, ◌∙◌, subst, inl, inr, Bool, Option, none,
  some, List, [], ◌∷◌, arith, length, All, All-append, ◌==◌, Bool-cases, ◌||◌, not,
}
use google_modules_lwis.Commands.{periodic_header_size}
use google_modules_lwis.Io.{Vops}
use google_modules_lwis.Periodic.{PeriodicIo, periodic_io_find_locked}
use google_modules_lwis.Periodic.Process.{
  PeriodicWork, Ended, all_done, failed, progress_of, after_loop, push_events, store, run_entries,
  process_io_entries, run_proxy, push_periodic_io_error_event_locked, work_loop,
}
use google_modules_lwis.Periodic.Process.Buffer.{Fits, HasRoom, run_size, run_entries-Fits}
use google_modules_lwis.Periodic.Tables.{
  copies, copies-put_io, AllIo, OptionAll, find_locked-All, put_io-All,
}

-- The bytes that the buffer of a periodic I/O was allocated with, behind its header.
abbrev pub allocated : ℕ → PeriodicIo → ℕ
allocated bytewidth p = run_size bytewidth (p.info).io_entries * (p.info).batch_size

-- What has been written lies in the buffer, and another run will, unless an error was met.
pub record IsPrepared (bytewidth : ℕ) (p : PeriodicIo) : Type 0 where
  pub ready : (p.resp).error_code ≡ 0 → HasRoom bytewidth p
  pub bounded : periodic_header_size + allocated bytewidth p < 2 ^ 64
  pub written : All (Fits (allocated bytewidth p)) (p.resp).results

-- After a run whose results fit, and at `event_push`.
record IsRun (bytewidth : ℕ) (p : PeriodicIo) : Type 0 where
  sized : (p.resp).results_size_bytes ≡ allocated bytewidth p
  counted : p.batch_count ≤ (p.info).batch_size
  not_empty : 0 < (p.info).batch_size
  bounded : periodic_header_size + allocated bytewidth p < 2 ^ 64
  written : All (Fits (allocated bytewidth p)) (p.resp).results

module _ {R : Type 0} (bytewidth : ℕ) where
  after_loop-IsRun :
      (p : PeriodicIo) (e : Ended R)
      → HasRoom bytewidth p
      → periodic_header_size + allocated bytewidth p < 2 ^ 64
      → All (Fits (allocated bytewidth p)) (p.resp).results
      → All (Fits (p.resp).results_size_bytes) (progress_of e).results
      → IsRun bytewidth (after_loop p e)
  unfolding after_loop
  after_loop-IsRun p (all_done q) v small old new = record {
    bounded = small;
    sized = v.sized;
    counted = omega (arith, v.counted);
    not_empty = omega (arith, v.counted);
    written =
        All-append (Fits (allocated bytewidth p)) (p.resp).results q.results old
          (subst (λ (n : ℕ). All (Fits n) q.results) v.sized new);
  }
  after_loop-IsRun p (failed q) v small old new = record {
    bounded = small;
    sized = v.sized;
    counted = omega (arith, v.counted);
    not_empty = omega (arith, v.counted);
    written =
        All-append (Fits (allocated bytewidth p)) (p.resp).results q.results old
          (subst (λ (n : ℕ). All (Fits n) q.results) v.sized new);
  }

  -- What the periodic I/O of a step leaves of the queue and of the copies of ids.
  record IsKept (w w' : PeriodicWork R) : Type 0 where
    queue : (w'.client).process_queue ≡ (w.client).process_queue
    counter : (w'.client).counter ≡ (w.client).counter
    width : (w'.dev).native_value_bitwidth ≡ (w.dev).native_value_bitwidth
    ids : (id : ℕ) → copies (w'.client).timer_list id ≡ copies (w.client).timer_list id
    prepared : AllIo (IsPrepared bytewidth) (w'.client).timer_list

  abbrev Ready : PeriodicWork R → Type 0
  Ready w = AllIo (IsPrepared bytewidth) (w.client).timer_list

  push_events-IsKept :
      (w : PeriodicWork R) (p : PeriodicIo)
      → Ready w
      → IsRun bytewidth p
      → IsKept w (push_events w p)
  unfolding push_events store
  push_events-IsKept w p h v = elim (Bool-cases ((p.resp).error_code == 0)) [
    | inr bad ↦ rw bad (record {
      queue = refl;
      counter = refl;
      width = refl;
      ids = copies-put_io (w.client).timer_list _;
      prepared =
          put_io-All (IsPrepared bytewidth) (w.client).timer_list _ h (record {
            ready = λ e. absurd (ground arith);
            bounded = v.bounded;
            written = v.written;
          });
    })
    | inl good ↦ rw good (elim (Bool-cases (p.batch_count == (p.info).batch_size)) [
      | inl full ↦ rw full (record {
        queue = refl;
        counter = refl;
        width = refl;
        ids = copies-put_io (w.client).timer_list _;
        prepared = put_io-All (IsPrepared bytewidth) (w.client).timer_list _ h (record {
          ready = λ e. record { sized = v.sized; counted = v.not_empty };
          bounded = v.bounded;
          written = v.written;
        });
      })
      | inr more ↦ rw more (record {
        queue = refl;
        counter = refl;
        width = refl;
        ids = copies-put_io (w.client).timer_list _;
        prepared = put_io-All (IsPrepared bytewidth) (w.client).timer_list _ h (record {
          ready = λ e. record { sized = v.sized; counted = ground (arith, v.counted) };
          bounded = v.bounded;
          written = v.written;
        });
      })
    ])
  ]

  IsKept-trans : (u v w : PeriodicWork R) → IsKept u v → IsKept v w → IsKept u w
  IsKept-trans u v w a b = record {
    queue = b.queue ∙ a.queue;
    counter = b.counter ∙ a.counter;
    width = b.width ∙ a.width;
    ids = λ id. b.ids id ∙ a.ids id;
    prepared = b.prepared;
  }

  -- What a run of the queue leaves: no proxy, the same ids.
  pub record IsDrained (w w' : PeriodicWork R) : Type 0 where
    pub queue : (w'.client).process_queue ≡ []
    pub counter : (w'.client).counter ≡ (w.client).counter
    pub ids : (id : ℕ) → copies (w'.client).timer_list id ≡ copies (w.client).timer_list id
    pub prepared : AllIo (IsPrepared bytewidth) (w'.client).timer_list

  module _ (vops : Vops R) where
    process_io_entries-IsKept :
        (w : PeriodicWork R) (p : PeriodicIo) (cancel_at : ℕ → Bool)
        → (w.dev).native_value_bitwidth / 8 ≡ bytewidth
        → Ready w
        → IsPrepared bytewidth p
        → (p.resp).error_code ≡ 0
        → IsKept w (process_io_entries vops w p cancel_at)
    unfolding process_io_entries
    process_io_entries-IsKept w p cancel_at width h v zero_code =
        let e : Ended R = run_entries vops w.dev p cancel_at in
        let fits =
          run_entries-Fits vops w.dev p cancel_at
            (subst (λ (n : ℕ). HasRoom n p) (sym width) (v.ready zero_code)) in
        let w' : PeriodicWork R = record w {
          dev = record (w.dev) { regs = (progress_of e).regs };
        } in
        let k =
          push_events-IsKept w' (after_loop p e) h
            (after_loop-IsRun p e (v.ready zero_code) v.bounded v.written fits) in
        record {
          queue = k.queue;
          counter = k.counter;
          width = k.width;
          ids = k.ids;
          prepared = k.prepared;
        }

    same-IsKept : (w : PeriodicWork R) → Ready w → IsKept w w
    same-IsKept w h = record {
      queue = refl;
      counter = refl;
      width = refl;
      ids = λ id. refl;
      prepared = h;
    }

    run_proxy-IsKept :
        (w : PeriodicWork R) (cancel_at : ℕ → Bool) (o : Option PeriodicIo)
        → (w.dev).native_value_bitwidth / 8 ≡ bytewidth
        → Ready w
        → OptionAll (IsPrepared bytewidth) o
        → IsKept w (run_proxy vops w cancel_at o)
    unfolding run_proxy push_periodic_io_error_event_locked
    run_proxy-IsKept w cancel_at none width h v = same-IsKept w h
    run_proxy-IsKept w cancel_at (some p) width h v =
        elim (Bool-cases (not ((p.resp).error_code == 0) || not p.active)) [
          | inl refused ↦ rw refused (record {
            queue = refl;
            counter = refl;
            width = refl;
            ids = λ id. refl;
            prepared = h;
          })
          | inr runs ↦ rw runs (process_io_entries-IsKept w p cancel_at width h v (ground arith))
        ]

    pub work_loop-IsDrained :
        (w : PeriodicWork R) (cancels : ℕ → ℕ → Bool) (ids : List ℕ)
        → (w.client).process_queue ≡ ids
        → (w.dev).native_value_bitwidth / 8 ≡ bytewidth
        → Ready w
        → IsDrained w (work_loop vops w cancels ids)
    unfolding work_loop
    work_loop-IsDrained w cancels [] q width h = record {
      queue = q;
      counter = refl;
      ids = λ id. refl;
      prepared = h;
    }
    work_loop-IsDrained w cancels (id ∷ ids) q width h =
        let v : PeriodicWork R = record w { client = record (w.client) { process_queue = ids } } in
        let k =
          run_proxy-IsKept v (cancels (length ids))
            (periodic_io_find_locked (w.client).timer_list id) width h
            (find_locked-All (IsPrepared bytewidth) (w.client).timer_list id h) in
        let u : PeriodicWork R =
          run_proxy vops v (cancels (length ids))
            (periodic_io_find_locked (w.client).timer_list id) in
        let r =
          work_loop-IsDrained u cancels ids k.queue (ap (λ (n : ℕ). n / 8) k.width ∙ width)
            k.prepared in
        record {
          queue = r.queue;
          counter = r.counter ∙ k.counter;
          ids = λ i. r.ids i ∙ k.ids i;
          prepared = r.prepared;
        }
