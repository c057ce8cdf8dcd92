-- ===== src/Transaction.antt =====
-- lwis_transaction.c: transactions wait for their trigger event, run their I/O entries and answer
-- by an event. What memory they own is not modelled: a transaction that is freed is dropped.
pub mod Process
pub mod Submit
pub mod Cancel
pub mod Trigger
