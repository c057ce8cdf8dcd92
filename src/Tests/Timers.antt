-- ===== src/Tests/Timers.antt =====
-- Periodic I/O that is submitted, fired, run and cancelled.
use google_modules_lwis.Prelude.{
  ℕ, ◌+◌, ◌*◌, ◌^◌, ◌≤◌, ◌≡◌, refl, true, false, some, [], ◌∷◌, arith, All, ◌==◌, if◌then◌else◌,
}
use google_modules_lwis.Commands.{PeriodicInfo}
use google_modules_lwis.Event.States.{
  create_states, device_side, lwis_device_event_state_find_or_create,
  lwis_client_event_state_find_or_create,
}
use google_modules_lwis.Periodic.{
  put_list, periodic_io_list_find_or_create_locked, periodic_io_list_create_locked, Periodic,
  PeriodicIo, PeriodicList, active, inactive, periodic_io_list_find, periodic_io_timer_func,
  lwis_periodic_io_init, lwis_periodic_io_cancel, periodic_io_find_locked,
}
use google_modules_lwis.Periodic.Process.{run_entries, drain, periodic_io_work_func}
use google_modules_lwis.Transaction.Submit.{read_entries, read_buf_size}
use google_modules_lwis.Periodic.Process.Buffer.{run_size}
use google_modules_lwis.Periodic.Process.Whole.{SameEnd, never, writes, run_entries-SameEnd}
use google_modules_lwis.Periodic.Submit.{
  prepare_emit_events, queue_periodic_io_locked, prepared, multiple_writes, lwis_periodic_io_submit,
}
use google_modules_lwis.Periodic.Submit.Places.{
  Submitted, submitted, lwis_periodic_io_submit-Submitted,
}
use google_modules_lwis.Periodic.Tables.{copies, AllIo}
use google_modules_lwis.Periodic.Timers.{
  active_ids, any_active, timer_func-queues, timer_func-stops,
}
use google_modules_lwis.Periodic.Cancelled.{answer, cancel-answers}
use google_modules_lwis.Periodic.Reach.{
  Reach, opened, next, submit, fire, work, WrittenInside, Reach-WrittenInside, Reach-Found,
}
use google_modules_lwis.Tests.{vops, device, client, read_entry, write_entry}

-- Two runs make a batch; a run writes twice and reads once.
abbrev sampler : PeriodicInfo
sampler = record {
  batch_size = 2;
  period_ns = 1000;
  io_entries = write_entry 0 5 ∷ read_entry 0 ∷ write_entry 0 6 ∷ [];
  emit_success_event_id = 2 ^ 63 + 3 * 2 ^ 32 + 1;
  emit_error_event_id = 2 ^ 62 + 3 * 2 ^ 32 + 1;
  id = 0;
}

abbrev sampling : PeriodicIo
sampling = prepared 4 sampler

abbrev timer : PeriodicList
timer = record { period_ns = 1000; hr_timer_state = active; list = sampling ∷ [] }

abbrev sampled : Periodic
sampled = record {
  timer_list = timer ∷ [];
  process_queue = 0 ∷ 0 ∷ [];
  counter = 1;
  work_queued = true;
}

abbrev first_submission : Periodic
first_submission =
    (lwis_periodic_io_submit device (client 3 []) lwis_periodic_io_init sampler).periodic

abbrev submitted_once : Reach vops 4 first_submission
submitted_once = next opened (
    submit device (client 3 []) sampler refl (omega arith)
      (unfold run_size read_entries read_buf_size in omega arith))

-- The timer fires with memory, and the work item runs.
abbrev fired : Periodic
fired = (periodic_io_timer_func first_submission [] timer).0

abbrev ran : Periodic
ran = (periodic_io_work_func vops 5 device [] fired (λ n i. false)).0

timer_found : periodic_io_list_find first_submission.timer_list 1000 ≡ some timer
unfolding periodic_io_list_find lwis_periodic_io_submit prepared prepare_emit_events create_states
    device_side lwis_device_event_state_find_or_create lwis_client_event_state_find_or_create
    queue_periodic_io_locked periodic_io_list_find_or_create_locked periodic_io_list_create_locked
    put_list
timer_found = refl

abbrev reached : Reach vops 4 ran
reached =
    next (next submitted_once (fire [] timer timer_found)) (work 5 device [] (λ n i. false) refl)

Reach-WrittenInside_example : AllIo (WrittenInside vops 4) ran.timer_list
Reach-WrittenInside_example = Reach-WrittenInside vops 4 reached

Reach-Found_example :
    All
      (λ (id : ℕ). (p : PeriodicIo) × (periodic_io_find_locked fired.timer_list id ≡ some p))
      fired.process_queue
    × ((id : ℕ) → copies fired.timer_list id ≤ 1)
Reach-Found_example = Reach-Found vops 4 (next submitted_once (fire [] timer timer_found))

run_entries-SameEnd_example :
    SameEnd
      (run_entries vops device sampling (λ (i : ℕ). i == 2))
      (run_entries vops device sampling never)
unfolding prepared multiple_writes writes
run_entries-SameEnd_example =
    run_entries-SameEnd vops device sampling (λ (i : ℕ). i == 2) refl refl (omega arith) refl

lwis_periodic_io_submit-Submitted_example :
    Submitted lwis_periodic_io_init
      (submitted device lwis_periodic_io_init sampler)
      (lwis_periodic_io_submit device (client 3 []) lwis_periodic_io_init sampler)
lwis_periodic_io_submit-Submitted_example =
    lwis_periodic_io_submit-Submitted device (client 3 []) lwis_periodic_io_init sampler

timer_func-queues_example :
    ((periodic_io_timer_func sampled [] timer).0.process_queue ≡ 0 ∷ 0 ∷ active_ids timer.list)
    × (periodic_io_list_find (periodic_io_timer_func sampled [] timer).0.timer_list 1000
        ≡ some
            (record timer { hr_timer_state = if any_active timer.list then active else inactive }))
unfolding periodic_io_list_find
timer_func-queues_example = timer_func-queues sampled [] timer refl tt

timer_func-stops_example :
    ((periodic_io_timer_func sampled (false ∷ []) timer).0.process_queue ≡ 0 ∷ 0 ∷ [])
    × (periodic_io_list_find (periodic_io_timer_func sampled (false ∷ []) timer).0.timer_list 1000
        ≡ some (record timer { hr_timer_state = inactive }))
unfolding periodic_io_list_find
timer_func-stops_example = timer_func-stops sampled (false ∷ []) timer refl (refl, tt) (omega arith)

cancel-answers_example :
    ((lwis_periodic_io_cancel sampled 0).0 ≡ 0)
    × (((drain vops device (lwis_periodic_io_cancel sampled 0).1 (λ n i. false)).dev).regs ≡ 7)
    × ((drain vops device (lwis_periodic_io_cancel sampled 0).1 (λ n i. false)).pending
        ≡ answer sampling ∷ answer sampling ∷ [])
unfolding periodic_io_find_locked prepared
cancel-answers_example =
    cancel-answers vops device sampled (λ n i. false) 0 sampling refl (refl, (refl, tt)) tt
