-- ===== src/Periodic.antt =====
-- lwis_periodic_io.c, lwis_periodic_io.h: I/O entries that a client runs again and again; the timers
-- that queue them, cancelling and flushing. A pointer to a periodic I/O is its id.
pub mod Process
pub mod Submit
pub mod Tables
pub mod Sound
pub mod Calls
pub mod Reach
pub mod Timers
pub mod Cancelled
use google_modules_lwis.Prelude.{
  ℕ, ◌+◌, Bool, true, false, Option, none, some, List, [], ◌∷◌, ◌++◌, map, ◌==◌, ◌||◌,
  if◌then◌else◌,
}
use google_modules_lwis.Errno.{enoent, ecanceled}
use google_modules_lwis.Commands.{PeriodicInfo, PeriodicResponse}
use google_modules_lwis.Device.{kmalloc}

-- enum lwis_hrtimer_state; no code sets the third, ERROR.
pub data TimerState : Type 0 where
  active inactive : TimerState

-- struct lwis_periodic_io, once its response is prepared.
pub record PeriodicIo : Type 0 where
  pub info : PeriodicInfo
  pub resp : PeriodicResponse
  pub batch_count : ℕ
  pub active : Bool
  pub contains_multiple_writes : Bool

-- struct lwis_periodic_io_list; the timer runs while it is active.
pub record PeriodicList : Type 0 where
  pub period_ns : ℕ
  pub hr_timer_state : TimerState
  pub list : List PeriodicIo

-- The fields of struct lwis_client for periodic I/O. A proxy in the process queue is the id of its
-- periodic I/O.
pub record Periodic : Type 0 where
  pub timer_list : List PeriodicList
  pub process_queue : List ℕ
  pub counter : ℕ
  pub work_queued : Bool

unfoldable pub periodic_io_list_find : List PeriodicList → ℕ → Option PeriodicList
periodic_io_list_find [] period_ns = none
periodic_io_list_find (l ∷ ls) period_ns =
    if l.period_ns == period_ns then some l else periodic_io_list_find ls period_ns

-- A write through the pointer that a search returned.
unfoldable pub put_list : List PeriodicList → PeriodicList → List PeriodicList
put_list [] l = []
put_list (k ∷ ks) l = if k.period_ns == l.period_ns then l ∷ ks else k ∷ put_list ks l

unfoldable pub create_list :
    List PeriodicList → ℕ → Bool × List Bool → Option PeriodicList × List PeriodicList × List Bool
create_list ls period_ns (false, mem) = (none, ls, mem)
create_list ls period_ns (true, mem) =
    let l : PeriodicList = record { period_ns = period_ns; hr_timer_state = active; list = [] } in
    (some l, l ∷ ls, mem)

unfoldable pub periodic_io_list_create_locked :
    List PeriodicList → List Bool → ℕ → Option PeriodicList × List PeriodicList × List Bool
unfolding create_list
periodic_io_list_create_locked ls mem period_ns = create_list ls period_ns (kmalloc mem)

-- An inactive timer is started again.
unfoldable pub restarted : PeriodicList → PeriodicList
restarted l = record l { hr_timer_state = active }

unfoldable pub taken :
    List PeriodicList
    → List Bool
    → ℕ
    → Option PeriodicList
    → Option PeriodicList × List PeriodicList × List Bool
unfolding periodic_io_list_create_locked restarted
taken ls mem period_ns none = periodic_io_list_create_locked ls mem period_ns
taken ls mem period_ns (some l) = (some (restarted l), put_list ls (restarted l), mem)

unfoldable pub periodic_io_list_find_or_create_locked :
    List PeriodicList → List Bool → ℕ → Option PeriodicList × List PeriodicList × List Bool
unfolding taken
periodic_io_list_find_or_create_locked ls mem period_ns =
    taken ls mem period_ns (periodic_io_list_find ls period_ns)

-- The loop of the timer over its list: the proxies that it makes, and the allocations left. A
-- periodic I/O that is not active takes none; one that finds no memory is left out.
unfoldable pub make_proxies : List PeriodicIo → List Bool → List ℕ × List Bool
make_proxies [] mem = ([], mem)
make_proxies (p ∷ ps) mem =
    let (fits, mem') = kmalloc mem in
    let (ids, left) = make_proxies ps (if p.active then mem' else mem) in
    (if p.active then if fits then (p.info).id ∷ ids else ids else ids, left)

-- A timer without proxies stops, the others go on.
unfoldable pub timer_state_after : List ℕ → TimerState → TimerState
timer_state_after [] state = inactive
timer_state_after (id ∷ ids) state = state

queued_work : List ℕ → Bool → Bool
queued_work [] work = work
queued_work (id ∷ ids) work = true

-- `periodic_io_timer_func` for the timer whose list is `l`.
pub periodic_io_timer_func : Periodic → List Bool → PeriodicList → Periodic × List Bool
unfolding make_proxies timer_state_after queued_work
periodic_io_timer_func c mem l =
    let (ids, left) = make_proxies l.list mem in
    (
      record c {
        timer_list =
            put_list c.timer_list
              (record l { hr_timer_state = timer_state_after ids l.hr_timer_state });
        process_queue = c.process_queue ++ ids;
        work_queued = queued_work ids c.work_queued;
      },
      left,
    )

unfoldable pub find_in_list : List PeriodicIo → ℕ → Option PeriodicIo
find_in_list [] id = none
find_in_list (p ∷ ps) id = if (p.info).id == id then some p else find_in_list ps id

or_else : Option PeriodicIo → Option PeriodicIo → Option PeriodicIo
or_else none o = o
or_else (some p) o = some p

unfoldable pub periodic_io_find_locked : List PeriodicList → ℕ → Option PeriodicIo
unfolding or_else find_in_list
periodic_io_find_locked [] id = none
periodic_io_find_locked (l ∷ ls) id =
    or_else (find_in_list l.list id) (periodic_io_find_locked ls id)

-- A write through a pointer to a periodic I/O: to the one that has its id.
unfoldable pub put_in_list : List PeriodicIo → PeriodicIo → List PeriodicIo
put_in_list [] q = []
put_in_list (p ∷ ps) q = (if (p.info).id == (q.info).id then q else p) ∷ put_in_list ps q

unfoldable pub put_io : List PeriodicList → PeriodicIo → List PeriodicList
unfolding put_in_list
put_io [] q = []
put_io (l ∷ ls) q = record l { list = put_in_list l.list q } ∷ put_io ls q

unfoldable pub mark_periodic_io_resp_error_locked : PeriodicIo → PeriodicIo
mark_periodic_io_resp_error_locked p = record p {
  resp = record (p.resp) { error_code = ecanceled };
  active = false;
}

unfoldable pub cancel_found : Periodic → Option PeriodicIo → ℕ × Periodic
cancel_found c none = (enoent, c)
cancel_found c (some p) =
    (0, record c { timer_list = put_io c.timer_list (mark_periodic_io_resp_error_locked p) })

-- `lwis_periodic_io_cancel`, which then waits for a run of the entries to end.
pub lwis_periodic_io_cancel : Periodic → ℕ → ℕ × Periodic
unfolding cancel_found
lwis_periodic_io_cancel c id = cancel_found c (periodic_io_find_locked c.timer_list id)

abbrev pub lwis_periodic_io_init : Periodic
lwis_periodic_io_init = record {
  timer_list = [];
  process_queue = [];
  counter = 0;
  work_queued = false;
}

unfoldable pub deactivate : PeriodicIo → PeriodicIo
deactivate p = record p { active = false }

-- The first loop of a flush stops the timers.
unfoldable pub stop_timer : PeriodicList → PeriodicList
unfolding deactivate
stop_timer l = record l { hr_timer_state = inactive; list = map deactivate l.list }

-- Its last loop frees what hangs on them.
unfoldable pub release : PeriodicList → PeriodicList
release l = record l { list = [] }
