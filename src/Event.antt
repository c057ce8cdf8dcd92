-- ===== src/Event.antt =====
-- lwis_event.c: event states, client queues, control flags. Emission, which runs transactions
-- too, is in the module Emission.
pub mod States
pub mod Queue
pub mod Control
pub mod Subscribe
pub mod Pending
