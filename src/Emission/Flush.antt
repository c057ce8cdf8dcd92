-- ===== src/Emission/Flush.antt =====
-- lwis_transaction.c: emptying a client of its transactions, `lwis_transaction_client_flush`.
use google_modules_lwis.Prelude.{ℕ, zero, suc, Option, none, some, List, [], ◌∷◌, ◌++◌, length}
use google_modules_lwis.Io.{Vops}
use google_modules_lwis.Device.{Device, Client}
use google_modules_lwis.Transaction.Cancel.{flush_lists, cancel_all_transactions_in_queue_locked}
use google_modules_lwis.Emission.{Emission}
use google_modules_lwis.Emission.Runners.{transaction_tasklet_func, transaction_work_func}

-- The work item or the tasklet of the client at a place in the list of the device's clients.
pub data Runner : Type 0 where
  work : ℕ → Runner
  tasklet : ℕ → Runner

-- The client at a place, with the clients before and after it.
at_client : List Client → List Client → ℕ → Option (List Client × Client × List Client)
at_client before [] n = none
at_client before (c ∷ cs) zero = some (before, c, cs)
at_client before (c ∷ cs) (suc n) = at_client (before ++ c ∷ []) cs n

queues_cancelled : List Client → ℕ → List Client
queues_cancelled [] n = []
queues_cancelled (c ∷ cs) zero = cancel_all_transactions_in_queue_locked c ∷ cs
queues_cancelled (c ∷ cs) (suc n) = c ∷ queues_cancelled cs n

module _ {R : Type 0} (vops : Vops R) (fuel : ℕ) where
  run_work :
      Device R → List Client → Option (List Client × Client × List Client) → Option (Emission R)
  run_work d clients none = some (record { ret = 0; dev = d; clients = clients; pending = [] })
  run_work d clients (some (before, c, after)) = transaction_work_func vops fuel d before c after

  run_tasklet :
      Device R → List Client → Option (List Client × Client × List Client) → Option (Emission R)
  run_tasklet d clients none = some (record { ret = 0; dev = d; clients = clients; pending = [] })
  run_tasklet d clients (some (before, c, after)) =
      transaction_tasklet_func vops fuel d before c after

  run : Device R → List Client → Runner → Option (Emission R)
  unfolding at_client run_work run_tasklet
  run d clients (work n) = run_work d clients (at_client [] clients n)
  run d clients (tasklet n) = run_tasklet d clients (at_client [] clients n)

  -- What the kernel runs until `kthread_flush_worker` and `tasklet_disable` have returned.
  drained : Device R → List Client → List Runner → Option (Emission R)
  unfolding run
  drained d clients [] = some (record { ret = 0; dev = d; clients = clients; pending = [] })
  drained d clients (r ∷ rs) = elim (run d clients r) [
    | none ↦ none
    | some e ↦ drained e.dev e.clients rs
  ]

  queues_emptied : ℕ → Option (Emission R) → Option (Emission R)
  unfolding queues_cancelled
  queues_emptied n none = none
  queues_emptied n (some e) = some (record e { clients = queues_cancelled e.clients n })

  -- The lists of the client are cancelled, the runners have their turn, and what they left in its
  -- two queues is cancelled. Which runners run and in which order is up to the kernel: `runners`.
  pub lwis_transaction_client_flush :
      Device R → List Client → Client → List Client → List Runner → Option (Emission R)
  unfolding drained queues_emptied
  lwis_transaction_client_flush d before c after runners =
      let flushed : Client = record c { transaction_list = flush_lists c.transaction_list } in
      queues_emptied (length before) (drained d (before ++ flushed ∷ after) runners)
