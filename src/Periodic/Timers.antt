-- ===== src/Periodic/Timers.antt =====
-- lwis_periodic_io.c: what a timer queues when it fires, and when it stops.
use google_modules_lwis.Prelude.{
  ℕ, ◌≤◌, ◌≡◌, refl, ap, ◌∙◌, inl, inr, Bool, true, false, some, List, [], ◌∷◌, ◌++◌, arith, length,
  All, Bool-cases, if◌then◌else◌, ◌||◌,
}
use mathlib.Core.List.{append-nil}
use google_modules_lwis.Device.{kmalloc}
use google_modules_lwis.Periodic.{
  Periodic, PeriodicIo, PeriodicList, TimerState, inactive, periodic_io_list_find, make_proxies,
  timer_state_after, periodic_io_timer_func,
}
use google_modules_lwis.Periodic.Tables.{find-put_list}

-- The ids of the active periodic I/O, in their order.
pub active_ids : List PeriodicIo → List ℕ
active_ids [] = []
active_ids (p ∷ ps) = if p.active then (p.info).id ∷ active_ids ps else active_ids ps

abbrev pub AllGiven : List Bool → Type 0
AllGiven mem = All (λ (b : Bool). b ≡ true) mem

kmalloc-given :
    (mem : List Bool) → AllGiven mem → ((kmalloc mem).0 ≡ true) × AllGiven (kmalloc mem).1
kmalloc-given [] h = (refl, tt)
kmalloc-given (b ∷ mem) h = h

make_proxies-active :
    (ps : List PeriodicIo) (mem : List Bool)
    → AllGiven mem
    → (make_proxies ps mem).0 ≡ active_ids ps
unfolding make_proxies active_ids
make_proxies-active [] mem h = refl
make_proxies-active (p ∷ ps) mem h =
    let (fits, left) = kmalloc-given mem h in
    elim (Bool-cases p.active) [
      | inl live ↦
          rw (live, fits) (ap (λ (ids : List ℕ). (p.info).id ∷ ids) (make_proxies-active ps _ left))
      | inr idle ↦ rw idle (make_proxies-active ps mem h)
    ]

-- Some periodic I/O of the list is active.
pub any_active : List PeriodicIo → Bool
any_active [] = false
any_active (p ∷ ps) = p.active || any_active ps

active_ids-any_active :
    (ps : List PeriodicIo) (st : TimerState)
    → timer_state_after (active_ids ps) st ≡ (if any_active ps then st else inactive)
unfolding timer_state_after active_ids any_active
active_ids-any_active [] st = refl
active_ids-any_active (p ∷ ps) st = elim (Bool-cases p.active) [
  | inl live ↦ rw live refl
  | inr idle ↦ rw idle (active_ids-any_active ps st)
]

-- With memory for its proxies a timer that fires queues each active periodic I/O of its list once,
-- in their order, behind the proxies that wait; it goes on as it was if there is one, and stops
-- otherwise.
pub timer_func-queues :
    (s : Periodic) (mem : List Bool) (l : PeriodicList)
    → periodic_io_list_find s.timer_list l.period_ns ≡ some l
    → AllGiven mem
    → ((periodic_io_timer_func s mem l).0.process_queue ≡ s.process_queue ++ active_ids l.list)
      × (periodic_io_list_find (periodic_io_timer_func s mem l).0.timer_list l.period_ns
          ≡ some (record l {
            hr_timer_state = if any_active l.list then l.hr_timer_state else inactive;
          }))
unfolding periodic_io_timer_func
timer_func-queues s mem l found h =
    let e = make_proxies-active l.list mem h in
    (
      ap (λ (ids : List ℕ). s.process_queue ++ ids) e,
      find-put_list s.timer_list l _ found
          ∙ ap
              (λ (ids : List ℕ).
                some (record l { hr_timer_state = timer_state_after ids l.hr_timer_state }))
              e
          ∙ ap (λ (st : TimerState). some (record l { hr_timer_state = st }))
              (active_ids-any_active l.list l.hr_timer_state),
    )

abbrev pub AllRefused : List Bool → Type 0
AllRefused mem = All (λ (b : Bool). b ≡ false) mem

make_proxies-refused :
    (ps : List PeriodicIo) (mem : List Bool)
    → AllRefused mem
    → length ps ≤ length mem
    → (make_proxies ps mem).0 ≡ []
unfolding make_proxies
make_proxies-refused [] mem h n = refl
make_proxies-refused (p ∷ ps) [] h n = absurd (omega arith)
make_proxies-refused (p ∷ ps) (b ∷ mem) h n = elim (Bool-cases p.active) [
  | inl live ↦ rw (live, h.0) (make_proxies-refused ps mem h.1 (omega arith))
  | inr idle ↦ rw idle (make_proxies-refused ps (b ∷ mem) h (omega arith))
]

-- A timer that fires while no allocation succeeds queues nothing and stops, whether or not periodic
-- I/O of its list are active, and leaves these as they are.
pub timer_func-stops :
    (s : Periodic) (mem : List Bool) (l : PeriodicList)
    → periodic_io_list_find s.timer_list l.period_ns ≡ some l
    → AllRefused mem
    → length l.list ≤ length mem
    → ((periodic_io_timer_func s mem l).0.process_queue ≡ s.process_queue)
      × (periodic_io_list_find (periodic_io_timer_func s mem l).0.timer_list l.period_ns
          ≡ some (record l { hr_timer_state = inactive }))
unfolding periodic_io_timer_func timer_state_after
timer_func-stops s mem l found h n =
    let e = make_proxies-refused l.list mem h n in
    (
      ap (λ (ids : List ℕ). s.process_queue ++ ids) e ∙ append-nil s.process_queue,
      find-put_list s.timer_list l _ found
          ∙ ap
              (λ (ids : List ℕ).
                some (record l { hr_timer_state = timer_state_after ids l.hr_timer_state }))
              e,
    )
