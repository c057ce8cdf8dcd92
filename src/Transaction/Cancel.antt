-- ===== src/Transaction/Cancel.antt =====
-- lwis_transaction.c: cancelling and replacing waiting transactions, and emptying a client.
use mathlib.Core.Option
pub mod Marks
use google_modules_lwis.Prelude.{
  ℕ, ◌+◌, ◌*◌, ◌^◌, Bool, true, false, Option, none, some, List, [], ◌∷◌, ◌==◌, ◌||◌, not,
  if◌then◌else◌,
}
use google_modules_lwis.Errno.{enoent, ecanceled}
use google_modules_lwis.Commands.{TransactionInfo, event_id_client_cleanup, without_device_id}
use google_modules_lwis.Io.{Vops}
use google_modules_lwis.Device.{Device, Client, EventList, Transaction}
use google_modules_lwis.Transaction.Process.{Work, process_transaction}
use google_modules_lwis.Transaction.Submit.{
  Call, event_list_find, check_transaction_param_locked, prepare_and_queue,
}

-- The transaction with this id, marked as cancelled, in its list; `none` if it is not there.
pub cancel_in_list : List Transaction → ℕ → Option (List Transaction)
cancel_in_list [] id = none
cancel_in_list (t ∷ ts) id =
    if (t.info).id == id
    then some (record t { resp = record (t.resp) { error_code = ecanceled } } ∷ ts)
    else Option.map (λ rest. t ∷ rest) (cancel_in_list ts id)

pub cancel_in_lists : List EventList → ℕ → Option (List EventList)
unfolding cancel_in_list
cancel_in_lists [] id = none
cancel_in_lists (l ∷ ls) id = elim (cancel_in_list l.list id) [
  | some list ↦ some (record l { list = list } ∷ ls)
  | none ↦ Option.map (λ rest. l ∷ rest) (cancel_in_lists ls id)
]

found_or : Client → Option (List EventList) → ℕ × Client
found_or c none = (enoent, c)
found_or c (some lists) = (0, record c { transaction_list = lists })

pub cancel_waiting_transaction_locked : Client → ℕ → ℕ × Client
unfolding found_or cancel_in_lists
cancel_waiting_transaction_locked c id = found_or c (cancel_in_lists c.transaction_list id)

pub lwis_transaction_cancel : Client → ℕ → ℕ × Client
unfolding cancel_waiting_transaction_locked
lwis_transaction_cancel c id = cancel_waiting_transaction_locked c id

module _ {R : Type 0} where
  replace_cancelled : Call R → ℕ × Client → Call R
  replace_cancelled r (ret, c) =
      if ret == 0 then prepare_and_queue r.dev c r.info else record r { ret = ret; client = c }

  pub lwis_transaction_replace_locked : Device R → Client → TransactionInfo → Call R
  unfolding replace_cancelled cancel_waiting_transaction_locked
  lwis_transaction_replace_locked d c info =
      let r : Call R = check_transaction_param_locked d c info false in
      if r.ret == 0
      then replace_cancelled r (cancel_waiting_transaction_locked r.client (r.info).id)
      else r

-- The event lists of clean-up routines, which a flush leaves alone.
abbrev pub is_cleanup : EventList → Bool
is_cleanup l = without_device_id l.event_id == event_id_client_cleanup

pub flush_lists : List EventList → List EventList
flush_lists [] = []
flush_lists (l ∷ ls) = if is_cleanup l then l ∷ flush_lists ls else flush_lists ls

pub cancel_all_transactions_in_queue_locked : Client → Client
cancel_all_transactions_in_queue_locked c = record c {
  transaction_process_queue = [];
  transaction_process_queue_tasklet = [];
}

module _ {R : Type 0} where
  module _ (vops : Vops R) where
    -- A transaction that was cancelled, or whose device is off, is dropped with no answer.
    pub cleanup_loop : Work R → List Transaction → Work R
    cleanup_loop w [] = w
    cleanup_loop w (t ∷ ts) =
        cleanup_loop
          (if not ((t.resp).error_code == 0) || (w.dev).enabled == 0
            then w
            else (process_transaction vops w t false true).1)
          ts

    pub cleanup_event_id : Device R → ℕ
    cleanup_event_id d = event_id_client_cleanup + d.id * 2 ^ 32

    remove_list : List EventList → ℕ → List EventList
    remove_list [] event_id = []
    remove_list (l ∷ ls) event_id =
        if l.event_id == event_id then ls else l ∷ remove_list ls event_id

    without_list : Work R → ℕ → Work R
    unfolding remove_list
    without_list w event_id = record w {
      client = record (w.client) {
        transaction_list = remove_list (w.client).transaction_list event_id;
      };
    }

    -- The pending events are printed and dropped.
    pub lwis_transaction_client_cleanup : Device R → Client → Device R × Client
    unfolding cleanup_loop without_list event_list_find cleanup_event_id
    lwis_transaction_client_cleanup d c =
        elim (event_list_find c.transaction_list (cleanup_event_id d)) [
          | none ↦ (d, c)
          | some l ↦
              let w : Work R =
                without_list (cleanup_loop (record { dev = d; client = c; pending = [] }) l.list)
                  (cleanup_event_id d) in
              (w.dev, w.client)
        ]
