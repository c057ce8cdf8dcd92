-- ===== src/Transaction/Submit/Places.antt =====
-- lwis_transaction.c: where a submission puts a transaction, and what a refused one leaves.
use google_modules_lwis.Prelude.{ℕ, ◌+◌, ◌≡◌, ◌≢◌, not, ◌&&◌, Bool, List, ◌==◌, length}
use google_modules_lwis.Prelude.Int.{ℤ}
use google_modules_lwis.Commands.{TransactionInfo, event_id_none}
use google_modules_lwis.Device.{Device, Client, EventList, Transaction}
use google_modules_lwis.Event.States.Laws.{books_of}
use google_modules_lwis.Transaction.Submit.{Call, Trigger}
use google_modules_lwis.Transaction.Trigger.Calm.{waiting}
use google_modules_lwis.Transaction.Submit.Lists.{waiting_on, added}
use google_modules_lwis.Transaction.Submit.Checked.{WaitsFor}

-- How many transactions the client holds, in its lists and in its two queues.
abbrev pub held : Client → ℕ
held c =
    waiting c.transaction_list
    + length c.transaction_process_queue_tasklet
    + length c.transaction_process_queue

-- The lists, the two queues and the counter of a client.
abbrev pub Books : Type 0
Books = List EventList × List Transaction × List Transaction × ℕ

abbrev pub held_in : Books → ℕ
held_in (lists, tasklet, queue, counter) = waiting lists + length tasklet + length queue

-- Of the lists and the queues the one that its info asks for has the transaction at its end: the
-- real-time queue or the other one, where it waits for no event, or the list of its event.
abbrev pub IsPlaced : Books → Transaction → Client → Type 0
IsPlaced (lists, tasklet, queue, counter) t c' =
    let now : Bool = (t.info).trigger_event_id == event_id_none in
    (c'.transaction_process_queue_tasklet ≡ added (now && (t.info).run_at_real_time) tasklet t)
    × (c'.transaction_process_queue ≡ added (now && not (t.info).run_at_real_time) queue t)
    × ((event_id : ℕ)
        → waiting_on c'.transaction_list event_id
          ≡ added (not now && (t.info).trigger_event_id == event_id) (waiting_on lists event_id) t)

module _ {R : Type 0} where
  -- The transaction was queued once, as the info of the caller has it, with no error.
  abbrev pub Queued : Books → Call R → Type 0
  Queued (lists, tasklet, queue, counter) r =
      (r.ret ≡ 0)
      × (held r.client ≡ held_in (lists, tasklet, queue, counter) + 1)
      × ((r.client).transaction_counter ≡ counter + 1)
      × ((t : Transaction) × (t.info ≡ r.info)
          × ((t.resp).error_code ≡ 0)
          × IsPlaced (lists, tasklet, queue, counter) t r.client)

  abbrev pub Refused : Client → Call R → Type 0
  Refused c r = (r.ret ≢ 0) × (books_of r.client ≡ books_of c)

-- The info that the caller gets back is the one that was submitted, under the client's next id.
abbrev pub IsSubmitted : ℕ → TransactionInfo → TransactionInfo → Type 0
IsSubmitted id info info' =
    (counter : ℤ) × (event_id now : ℕ) × (info' ≡ record info {
      id = id;
      submission_timestamp_ns = now;
      current_trigger_event_counter = counter;
      trigger_event_id = event_id;
    })
    × WaitsFor info info.allow_counter_eq counter event_id

-- A call that took the transaction in, or one that left the books of the client alone.
abbrev pub Taken : {R : Type 0} → Client → TransactionInfo → Call R → Type 0
Taken c info r = Queued (books_of c) r × IsSubmitted c.transaction_counter info r.info

module _ {R : Type 0} where
  -- The transaction was queued, and the info of it went back to the caller with a time stamp.
  abbrev QueuedAs : Books → TransactionInfo → Call R → Type 0
  QueuedAs b info r =
      Queued b r × ((now : ℕ) × (r.info ≡ record info { submission_timestamp_ns = now }))
