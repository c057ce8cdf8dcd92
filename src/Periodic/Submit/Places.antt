-- ===== src/Periodic/Submit/Places.antt =====
-- lwis_periodic_io.c: where a submission puts a periodic I/O.
use google_modules_lwis.Prelude.{
  ℕ, ◌+◌, ◌/◌, ◌≡◌, ◌≢◌, ◌⊎◌, refl, sym, subst, ◌∙◌, inl, inr, Bool, true, false, Option, none,
  some, List, [], ◌∷◌, ◌++◌, arith, ◌==◌, Bool-cases, if◌then◌else◌,
}
use google_modules_lwis.Commands.{PeriodicInfo}
use google_modules_lwis.Device.{Device, Client, kmalloc}
use google_modules_lwis.Event.States.{create_states}
use google_modules_lwis.Event.States.Laws.{create_states-width}
use google_modules_lwis.Periodic.{
  Periodic, PeriodicIo, PeriodicList, active, periodic_io_list_find, periodic_io_list_create_locked,
  periodic_io_list_find_or_create_locked, taken, create_list, restarted, put_list,
}
use google_modules_lwis.Periodic.Submit.{
  PeriodicCall, lwis_periodic_io_submit, submit_prepared, prepare_response, prepare_emit_events,
  queue_periodic_io_locked, queue_in, add_to_list, prepared, with_id, second_event,
}
use google_modules_lwis.Periodic.Tables.{
  copies, copies_in, copies_in-append_one, copies-put_list, find-put_list, list_find-period,
}

-- The periodic I/O `p` was put behind the list of its period, whose timer runs; all else is kept.
pub record IsPlaced (s : Periodic) (p : PeriodicIo) (s' : Periodic) : Type 0 where
  pub counter : s'.counter ≡ s.counter + 1
  pub queue : s'.process_queue ≡ s.process_queue
  pub ids :
      (id : ℕ)
      → copies s'.timer_list id ≡ copies s.timer_list id + (if (p.info).id == id then 1 else 0)
  pub timer :
      (l : PeriodicList) × (ps : List PeriodicIo) × (periodic_io_list_find s'.timer_list
          (p.info).period_ns
        ≡ some l)
      × (l.hr_timer_state ≡ active)
      × (l.list ≡ ps ++ p ∷ [])

-- The list that is taken or made: it is in the table, its timer runs, and no id is new.
record IsTaken (ls : List PeriodicList) (period_ns : ℕ) (l : PeriodicList) (ls' : List PeriodicList)
    : Type 0 where
  found : periodic_io_list_find ls' period_ns ≡ some l
  period : l.period_ns ≡ period_ns
  running : l.hr_timer_state ≡ active
  ids : (id : ℕ) → copies ls' id ≡ copies ls id

abbrev TakenOrNone :
    List PeriodicList → ℕ → Option PeriodicList × List PeriodicList × List Bool → Type 0
TakenOrNone ls period_ns (none, ls', mem) = Unit
TakenOrNone ls period_ns (some l, ls', mem) = IsTaken ls period_ns l ls'

create_list-Taken :
    (ls : List PeriodicList) (period_ns : ℕ) (m : Bool × List Bool)
    → TakenOrNone ls period_ns (create_list ls period_ns m)
unfolding create_list periodic_io_list_find copies copies_in
create_list-Taken ls period_ns (false, mem) = tt
create_list-Taken ls period_ns (true, mem) = record {
  found = ground arith;
  period = refl;
  running = refl;
  ids = λ id. omega arith;
}

taken-Taken :
    (ls : List PeriodicList) (mem : List Bool) (period_ns : ℕ) (o : Option PeriodicList)
    → periodic_io_list_find ls period_ns ≡ o
    → TakenOrNone ls period_ns (taken ls mem period_ns o)
unfolding taken periodic_io_list_create_locked restarted
taken-Taken ls mem period_ns none e = create_list-Taken ls period_ns (kmalloc mem)
taken-Taken ls mem period_ns (some l) e =
    let same = list_find-period ls period_ns l e in
    let found : periodic_io_list_find ls l.period_ns ≡ some l =
      subst (λ (k : ℕ). periodic_io_list_find ls k ≡ some l) (sym same) e in
    record {
      found =
          subst
            (λ (k : ℕ). periodic_io_list_find (put_list ls (restarted l)) k ≡ some (restarted l))
            same (find-put_list ls l (restarted l) found);
      period = same;
      running = refl;
      ids = λ id. omega (arith, copies-put_list ls l (restarted l) id found);
    }

find_or_create-Taken :
    (ls : List PeriodicList) (mem : List Bool) (period_ns : ℕ)
    → TakenOrNone ls period_ns (periodic_io_list_find_or_create_locked ls mem period_ns)
unfolding periodic_io_list_find_or_create_locked
find_or_create-Taken ls mem period_ns = taken-Taken ls mem period_ns _ refl

-- What the calls below leave, by their return code.
abbrev pub Submitted : {R : Type 0} → Periodic → PeriodicIo → PeriodicCall R → Type 0
Submitted s p c = ((c.ret ≡ 0) × IsPlaced s p c.periodic) ⊎ ((c.ret ≢ 0) × (c.periodic ≡ s))

add_to_list-IsPlaced :
    (s : Periodic) (p : PeriodicIo) (l : PeriodicList) (ls : List PeriodicList)
    → IsTaken s.timer_list (p.info).period_ns l ls
    → IsPlaced s p (add_to_list s p l ls)
unfolding add_to_list
add_to_list-IsPlaced s p l ls v =
    let l' : PeriodicList = record l { list = l.list ++ p ∷ [] } in
    let found : periodic_io_list_find ls l.period_ns ≡ some l =
      subst (λ (k : ℕ). periodic_io_list_find ls k ≡ some l) (sym v.period) v.found in
    record {
      counter = refl;
      queue = refl;
      ids = λ id.
          omega
            (arith, copies-put_list ls l l' id found, v.ids id, copies_in-append_one l.list p id);
      timer = (
        l',
        l.list,
        subst (λ (k : ℕ). periodic_io_list_find (put_list ls l') k ≡ some l') v.period
            (find-put_list ls l l' found),
        v.running,
        refl,
      );
    }

module _ {R : Type 0} where
  queue_in-Submitted :
      (d : Device R) (c : Client) (s : Periodic) (p : PeriodicIo)
      (t : Option PeriodicList × List PeriodicList × List Bool)
      → TakenOrNone s.timer_list (p.info).period_ns t
      → Submitted s p (queue_in d c s p t)
  unfolding queue_in
  queue_in-Submitted d c s p (none, ls, mem) v = inr (omega arith, refl)
  queue_in-Submitted d c s p (some l, ls, mem) v = inl (refl, add_to_list-IsPlaced s p l ls v)

  -- The periodic I/O that a submission on the device `d` makes.
  abbrev pub submitted : Device R → Periodic → PeriodicInfo → PeriodicIo
  submitted d s info = prepared (d.native_value_bitwidth / 8) (with_id s info)

  second_event-width :
      (info : PeriodicInfo) (r : Bool × Device R × Client)
      → (second_event info r).1.native_value_bitwidth ≡ (r.1).native_value_bitwidth
  unfolding second_event
  second_event-width info (false, d, c) = refl
  second_event-width info (true, d, c) = create_states-width d c info.emit_error_event_id

  submit_prepared-Submitted :
      (s : Periodic) (info : PeriodicInfo) (width : ℕ) (r : Bool × Device R × Client)
      → (r.1).native_value_bitwidth ≡ width
      → Submitted s (prepared (width / 8) (with_id s info)) (submit_prepared s info r)
  unfolding submit_prepared prepare_response queue_periodic_io_locked prepared
  submit_prepared-Submitted s info width (false, d, c) e = inr (omega arith, refl)
  submit_prepared-Submitted s info width (true, d, c) e = elim (Bool-cases ((kmalloc d.mem).0)) [
    | inl fits ↦
        let d' : Device R = record d { mem = (kmalloc d.mem).1 } in
        rw (fits, prepare_response)
          (subst
            (λ (n : ℕ). Submitted s (prepared (n / 8) (with_id s info)) (
              queue_periodic_io_locked d' c s
                (prepared (d.native_value_bitwidth / 8) (with_id s info))))
            e
            (queue_in-Submitted d' c s (submitted d s info) _
              (find_or_create-Taken s.timer_list d'.mem info.period_ns)))
    | inr full ↦ rw (full, prepare_response) (inr (omega arith, refl))
  ]

  pub prepare_emit_events-width :
      (d : Device R) (c : Client) (info : PeriodicInfo)
      → (prepare_emit_events d c info).1.native_value_bitwidth ≡ d.native_value_bitwidth
  unfolding prepare_emit_events
  prepare_emit_events-width d c info =
      second_event-width info (create_states d c info.emit_success_event_id)
      ∙ create_states-width d c info.emit_success_event_id

  -- A submission puts the periodic I/O, under the client's next id and with a buffer prepared for it,
  -- behind the list of its period, whose timer then runs, and returns 0; or it fails and leaves all
  -- periodic I/O of the client as they were.
  pub lwis_periodic_io_submit-Submitted :
      (d : Device R) (c : Client) (s : Periodic) (info : PeriodicInfo)
      → Submitted s (submitted d s info) (lwis_periodic_io_submit d c s info)
  unfolding lwis_periodic_io_submit
  lwis_periodic_io_submit-Submitted d c s info =
      submit_prepared-Submitted s info d.native_value_bitwidth _
        (prepare_emit_events-width d c info)
