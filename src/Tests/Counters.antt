-- ===== src/Tests/Counters.antt =====
-- A device whose power fails the second time, and two clients of it.
use google_modules_lwis.Prelude.{ℕ, suc, ◌≡◌, some, [], ◌==◌, if◌then◌else◌}
use google_modules_lwis.Core.{Parts, Core, lwis_open, ioctl_device_enable, lwis_release}
use google_modules_lwis.Core.Enabled.{
  enabled_clients, Reach, start, opened, enable, release, Reach-IsCounted,
}

-- The rest of the state is the number of the calls for power.
abbrev parts : Parts ℕ
parts = record {
  client_init = λ s id. s;
  client_event_queue_clear = λ s id. s;
  client_error_event_queue_clear = λ s id. s;
  client_event_states_clear = λ s id. s;
  periodic_io_client_flush = λ s id. s;
  transaction_client_flush = λ s id. s;
  transaction_client_cleanup = λ s id. s;
  cleanup_client = λ s id. s;
  allocator_release = λ s. s;
  power_up_locked = λ s. (if s == 1 then 5 else 0, suc s);
  power_down_locked = λ s. (0, suc s);
  device_event_states_clear_locked = λ s. s;
  remove_votes = λ s. s;
  close = λ s. s;
}

abbrev two_open : Core ℕ
two_open =
    (lwis_open parts (lwis_open parts (record { enabled = 0; clients = []; rest = 0 }) (some 1)).1
      (some 2)).1

abbrev one_closed : Core ℕ
one_closed =
    (lwis_release parts (ioctl_device_enable parts (ioctl_device_enable parts two_open 1).1 2).1
      1).1

one_closed-Reach : Reach parts one_closed
one_closed-Reach =
    release _ 1 (enable _ 2 (enable two_open 1 (opened _ (some 2) (opened _ (some 1) (start 0)))))

Reach-IsCounted_example : one_closed.enabled ≡ enabled_clients one_closed.clients
Reach-IsCounted_example = Reach-IsCounted parts one_closed one_closed-Reach
