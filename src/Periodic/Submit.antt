-- ===== src/Periodic/Submit.antt =====
-- lwis_periodic_io.c: checking, preparing and queueing a periodic I/O.
pub mod Places
use google_modules_lwis.Prelude.{
  ℕ, ◌+◌, ◌*◌, ◌/◌, ◌%◌, ◌^◌, Bool, true, false, Option, none, some, List, [], ◌∷◌, ◌++◌, ◌||◌,
}
use google_modules_lwis.Errno.{enomem, einval}
use google_modules_lwis.Commands.{
  IoEntry, PeriodicInfo, PeriodicResponse, periodic_result_size, periodic_header_size,
}
use google_modules_lwis.Device.{Device, Client, kmalloc}
use google_modules_lwis.Event.States.{create_states}
use google_modules_lwis.Transaction.Submit.{read_entries, read_buf_size}
use google_modules_lwis.Periodic.{
  Periodic, PeriodicIo, PeriodicList, periodic_io_list_find_or_create_locked, put_list,
}

-- What a submission leaves.
pub record PeriodicCall (R : Type 0) : Type 0 where
  pub ret : ℕ
  pub info : PeriodicInfo
  pub dev : Device R
  pub client : Client
  pub periodic : Periodic

unfoldable pub is_write : IoEntry → Bool
is_write (IoEntry.write e) = true
is_write (IoEntry.write_batch e) = true
is_write (IoEntry.modify e) = true
is_write _ = false

-- The loop that looks for a second write.
unfoldable pub multiple_writes : Bool → List IoEntry → Bool
unfolding is_write
multiple_writes has_one_write [] = false
multiple_writes has_one_write (e ∷ es) = elim (is_write e) [
  | true ↦ has_one_write || multiple_writes true es
  | false ↦ multiple_writes has_one_write es
]

-- `prepare_response`: the bytes of `batch_size` batches behind the header, as a size_t, and those
-- that are allocated.
unfoldable pub results_size : ℕ → ℕ → List IoEntry → ℕ
unfolding read_entries read_buf_size
results_size bytewidth batch_size es =
    (read_entries es * periodic_result_size * batch_size + read_buf_size bytewidth es * batch_size)
    % 2 ^ 64

unfoldable pub resp_size : ℕ → ℕ → List IoEntry → ℕ
unfolding read_entries read_buf_size
resp_size bytewidth batch_size es =
    (periodic_header_size
      + read_entries es * periodic_result_size * batch_size
      + read_buf_size bytewidth es * batch_size)
    % 2 ^ 64

unfoldable pub prepared : ℕ → PeriodicInfo → PeriodicIo
unfolding results_size multiple_writes
prepared bytewidth info = record {
  info = info;
  resp = record {
    id = info.id;
    error_code = 0;
    batch_size = 0;
    num_entries_per_period = read_entries info.io_entries;
    results_size_bytes = results_size bytewidth info.batch_size info.io_entries;
    results = [];
  };
  batch_count = 0;
  active = true;
  contains_multiple_writes = multiple_writes false info.io_entries;
}

abbrev pub with_id : Periodic → PeriodicInfo → PeriodicInfo
with_id s info = record info { id = s.counter }

unfoldable pub add_to_list : Periodic → PeriodicIo → PeriodicList → List PeriodicList → Periodic
add_to_list s p l ls = record s {
  timer_list = put_list ls (record l { list = l.list ++ p ∷ [] });
  counter = s.counter + 1;
}

module _ {R : Type 0} where
  unfoldable pub second_event : PeriodicInfo → Bool × Device R × Client → Bool × Device R × Client
  second_event info (false, d, c) = (false, d, c)
  second_event info (true, d, c) = create_states d c info.emit_error_event_id

  -- The states of both events, in the device and in the client.
  unfoldable pub prepare_emit_events : Device R → Client → PeriodicInfo → Bool × Device R × Client
  unfolding second_event
  prepare_emit_events d c info = second_event info (create_states d c info.emit_success_event_id)

  unfoldable pub queue_in :
      Device R
      → Client
      → Periodic
      → PeriodicIo
      → Option PeriodicList × List PeriodicList × List Bool
      → PeriodicCall R
  unfolding add_to_list
  queue_in d c s p (none, ls, mem) = record {
    ret = einval;
    info = p.info;
    dev = record d { mem = mem };
    client = c;
    periodic = s;
  }
  queue_in d c s p (some l, ls, mem) = record {
    ret = 0;
    info = p.info;
    dev = record d { mem = mem };
    client = c;
    periodic = add_to_list s p l ls;
  }

  unfoldable pub queue_periodic_io_locked :
      Device R → Client → Periodic → PeriodicIo → PeriodicCall R
  unfolding queue_in
  queue_periodic_io_locked d c s p =
      queue_in d c s p
        (periodic_io_list_find_or_create_locked s.timer_list d.mem (p.info).period_ns)

  unfoldable pub prepare_response :
      Device R → Client → Periodic → PeriodicInfo → Bool × List Bool → PeriodicCall R
  prepare_response d c s info (false, mem) = record {
    ret = enomem;
    info = with_id s info;
    dev = record d { mem = mem };
    client = c;
    periodic = s;
  }
  prepare_response d c s info (true, mem) =
      queue_periodic_io_locked (record d { mem = mem }) c s
        (prepared (d.native_value_bitwidth / 8) (with_id s info))

  unfoldable pub submit_prepared :
      Periodic → PeriodicInfo → Bool × Device R × Client → PeriodicCall R
  unfolding prepare_response
  submit_prepared s info (false, d, c) = record {
    ret = einval;
    info = info;
    dev = d;
    client = c;
    periodic = s;
  }
  submit_prepared s info (true, d, c) = prepare_response d c s info (kmalloc d.mem)

  unfoldable pub lwis_periodic_io_submit :
      Device R → Client → Periodic → PeriodicInfo → PeriodicCall R
  unfolding submit_prepared
  lwis_periodic_io_submit d c s info = submit_prepared s info (prepare_emit_events d c info)
