-- ===== src/Periodic/Calls.antt =====
-- lwis_periodic_io.c: what holds of the periodic I/O of a client between two calls, and that a
-- cancellation and a timer keep it.
use google_modules_lwis.Prelude.{
  ℕ, ◌≤◌, ◌≡◌, refl, inl, inr, Bool, Option, none, some, List, [], ◌∷◌, arith, All, All-append,
  Bool-cases,
}
use google_modules_lwis.Device.{kmalloc}
use google_modules_lwis.Periodic.{
  Periodic, PeriodicIo, PeriodicList, periodic_io_list_find, periodic_io_timer_func, make_proxies,
  lwis_periodic_io_cancel, cancel_found, lwis_periodic_io_init, mark_periodic_io_resp_error_locked,
}
use google_modules_lwis.Periodic.Tables.{
  copies, copies_in, copies_in-le-copies, copies-put_list, copies-put_io, find_locked-All,
  put_io-All, put_list-All, list_find-All, AllIo, OptionAll,
}
use google_modules_lwis.Periodic.Sound.{IsPrepared}

-- The periodic I/O of a client between two calls.
pub record IsSound (bytewidth : ℕ) (s : Periodic) : Type 0 where
  pub buffers : AllIo (IsPrepared bytewidth) s.timer_list
  pub unique : (id : ℕ) → copies s.timer_list id ≤ 1
  pub fresh : (id : ℕ) → s.counter ≤ id → copies s.timer_list id ≡ 0
  pub proxies : All (λ (id : ℕ). 1 ≤ copies s.timer_list id) s.process_queue

pub init-IsSound : (bytewidth : ℕ) → IsSound bytewidth lwis_periodic_io_init
unfolding copies
init-IsSound bytewidth = record {
  buffers = tt;
  unique = λ id. omega arith;
  fresh = λ id h. refl;
  proxies = tt;
}

pub All-le :
    (f g : ℕ → ℕ) (ids : List ℕ)
    → ((id : ℕ) → f id ≤ g id)
    → All (λ (id : ℕ). 1 ≤ f id) ids
    → All (λ (id : ℕ). 1 ≤ g id) ids
All-le f g [] up h = tt
All-le f g (id ∷ ids) up h = (omega (arith, up id, h.0), All-le f g ids up h.1)

-- Any change of the timers that keeps the copies of ids, and the proxies.
module _ (bytewidth : ℕ) where
  pub same_ids-IsSound :
      (s : Periodic) (ls : List PeriodicList) (counter : ℕ) (queue : List ℕ) (work : Bool)
      → IsSound bytewidth s
      → counter ≡ s.counter
      → ((id : ℕ) → copies ls id ≡ copies s.timer_list id)
      → AllIo (IsPrepared bytewidth) ls
      → All (λ (id : ℕ). 1 ≤ copies s.timer_list id) queue
      → IsSound bytewidth
          (record { timer_list = ls; process_queue = queue; counter = counter; work_queued = work })
  same_ids-IsSound s ls counter queue work v same_counter same h q = record {
    buffers = h;
    unique = λ id. omega (arith, same id, v.unique id);
    fresh = λ id le. omega (arith, same id, v.fresh id (omega (arith, le, same_counter)));
    proxies = All-le (copies s.timer_list) (copies ls) queue (λ id. omega (arith, same id)) q;
  }

  cancel_found-IsSound :
      (s : Periodic) (o : Option PeriodicIo)
      → IsSound bytewidth s
      → OptionAll (IsPrepared bytewidth) o
      → IsSound bytewidth (cancel_found s o).1
  unfolding cancel_found mark_periodic_io_resp_error_locked
  cancel_found-IsSound s none v h = v
  cancel_found-IsSound s (some p) v h =
      same_ids-IsSound s _ s.counter s.process_queue s.work_queued v refl
        (copies-put_io s.timer_list _)
        (put_io-All (IsPrepared bytewidth) s.timer_list _ v.buffers (record {
          ready = λ e. absurd (omega (arith, e));
          bounded = h.bounded;
          written = h.written;
        }))
        v.proxies

  pub cancel-IsSound :
      (s : Periodic) (id : ℕ)
      → IsSound bytewidth s
      → IsSound bytewidth (lwis_periodic_io_cancel s id).1
  unfolding lwis_periodic_io_cancel
  cancel-IsSound s id v =
      cancel_found-IsSound s _ v (find_locked-All (IsPrepared bytewidth) s.timer_list id v.buffers)

  -- The proxies of a timer are of its list.
  make_proxies-copies :
      (ps : List PeriodicIo) (mem : List Bool)
      → All (λ (id : ℕ). 1 ≤ copies_in ps id) (make_proxies ps mem).0
  unfolding make_proxies copies_in
  make_proxies-copies [] mem = tt
  make_proxies-copies (p ∷ ps) mem =
      let more = λ (m : List Bool).
        All-le (copies_in ps) (copies_in (p ∷ ps)) (make_proxies ps m).0 (λ id. omega arith)
          (make_proxies-copies ps m) in
      elim (Bool-cases p.active) [
        | inr idle ↦ rw idle (more mem)
        | inl live ↦ rw live (elim (Bool-cases ((kmalloc mem).0)) [
          | inr full ↦ rw full (more (kmalloc mem).1)
          | inl fits ↦ rw fits (ground arith, more (kmalloc mem).1)
        ])
      ]

  pub timer-IsSound :
      (s : Periodic) (mem : List Bool) (l : PeriodicList)
      → periodic_io_list_find s.timer_list l.period_ns ≡ some l
      → IsSound bytewidth s
      → IsSound bytewidth (periodic_io_timer_func s mem l).0
  unfolding periodic_io_timer_func
  timer-IsSound s mem l found v =
      same_ids-IsSound s _ s.counter _ _ v refl
        (λ id. omega (arith, copies-put_list s.timer_list l _ id found))
        (put_list-All (IsPrepared bytewidth) s.timer_list _ v.buffers
          (list_find-All (IsPrepared bytewidth) s.timer_list l.period_ns l v.buffers found))
        (All-append (λ (id : ℕ). 1 ≤ copies s.timer_list id) s.process_queue
          (make_proxies l.list mem).0 v.proxies
          (All-le (copies_in l.list) (copies s.timer_list) (make_proxies l.list mem).0
            (λ id. copies_in-le-copies s.timer_list l.period_ns l id found)
            (make_proxies-copies l.list mem)))
