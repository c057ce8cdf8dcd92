-- ===== src/Lib.antt =====
-- google-modules-lwis: the camera driver's events and transactions.
--
-- A device of the driver has clients, one for each open file. User space enables events, gets them
-- from bounded queues, and submits transactions: lists of register accesses that wait for an event.
-- Interrupts, timers and finished transactions emit events. An emission counts the event, puts it
-- into the queues of the clients that want it and sets their transactions off; what these emit in
-- turn waits in a queue of pending events, which a loop empties.
--
-- - Prelude, Prelude/*: shared names, Boolean tests, lists, signed counters. Errno: return codes.
-- - Commands (lwis_commands.h): event ids, flags, I/O entries, transactions, responses.
-- - Device (lwis_device.h, lwis_event.h, lwis_transaction.h): the state of devices and clients. A
--   hash table is the list of its entries.
-- - Io (lwis_util.c, lwis_io_entry.c): single register accesses, assertions and polls over the
--   functions `vops` of a device subclass, which are a parameter (struct
--   lwis_device_subclass_operations). Io/Poll has its theorems.
-- - Event (lwis_event.c): States has the tables of event states, Queue the two queues of a client,
--   Control the enable counter and the checks of flags, Subscribe a client's calls, which reach other
--   devices by the interface Topology (struct lwis_event_subscribe_operations), Pending the queue of
--   pending events.
-- - Transaction (lwis_transaction.c): Submit checks, prepares and queues, Process runs the entries
--   and answers, Cancel cancels, replaces and cleans up, Trigger is the part of an emission.
-- - Emission (lwis_event.c, lwis_transaction.c): emission to all clients, the loop over the pending
--   events and the runners of the process queues. Emission/Flush has lwis_transaction_client_flush,
--   which lets runners run that the kernel chooses, in any order.
-- - Core (lwis_device.c, lwis_ioctl.c): opening, enabling, disabling and closing a device. What the
--   calls of the other parts do is the interface Parts; Core/Enabled follows the enable counter.
-- - Periodic (lwis_periodic_io.c): Periodic itself has the timers and cancelling, Submit prepares and
--   queues, Process runs the entries and the process queue. Tables, Sound, Calls and Reach follow what
--   the calls, the timers and the work item lead to; Timers and Cancelled have their theorems.
-- - Top (lwis_device_top.c): the subscription table, an instance of Topology, and in Top/Scratch the
--   scratch registers. Table, Subscribed, Removed and Deliveries have its theorems.
-- - Slc (lwis_device_slc.c): the partitions of the system cache; Fits and Freed have its theorems.
-- - Buffer (lwis_buffer.c): enrolled and allocated DMA buffers, of which some are partitions of Slc.
--   The calls of the kernel's dma-buf interface are logged; Enrolled has the table, Balanced and
--   Disenrolled what is taken and given back, Reach the states that the calls lead to.
-- - Interrupt (lwis_interrupt.c): the events of an interrupt, its mask register, and the two handlers.
--   Handled and Masked have its theorems; Prelude/Bits has the bits of a word.
-- - Ioreg (lwis_ioreg.c, lwis_device_ioreg.c): the register accesses of a memory-mapped device, one
--   instance of `vops`. The bus is a parameter, and Ioreg/Reach relates the states of the hardware
--   that its accesses lead to.
-- - I2c (lwis_i2c.c, lwis_device_i2c.c): the register accesses of an I2C device, another instance of
--   `vops`. The kernel's i2c_transfer is a parameter. Bytes and RoundTrip have its theorems.
--   I2c/Power switches the bus (lwis_i2c_dev_is_in_use of lwis_device.c).
-- - Clock (lwis_clock.c): the clocks of a device over the kernel's answers, with Clock/Balanced.
-- - Allocator (lwis_allocator.c): pools of memory blocks by size class. The answers of kmalloc and
--   kvmalloc are arguments, and the kernel's fls is a parameter.
-- - Tests: concrete devices, clients and transactions that the theorems apply to.
--
-- The functions keep their names in the source; what the source does by a pointer to an entry of a
-- table is a write to the entry that has the key (`put_`). A return code is the absolute value of
-- the source's, 0 for success. A machine word is its number, counters of events and transactions do
-- not wrap around, and a bit of a word is read by division. The sizes of the response buffers are of
-- type size_t and wrap around; what is shown of the buffers asks that they do not.
--
-- `kmalloc` takes the next of a list of given answers (`mem` of a device), so that every failure to
-- allocate is a branch. A poll has a round for each millisecond of its timeout and two more; Io.Poll
-- shows that these are enough, since without a round left it would return a code of its own, `stuck`. The loop over the pending events has fuel and no result without it:
-- Emission.Ends gives the fuel that is enough, and the condition.
--
-- A cancellation that comes while the entries of a periodic I/O run is a function that says before
-- which entry it is seen.
--
-- Not modelled: locks, and so the other interleavings of two calls; memory that is freed; the clock within a
-- call, which is one time stamp; messages to the log; the setup of tasklets and work items. The other
-- parts of the driver (power sequences, most ioctls, the DPM subclass,
-- regulators, power, device tree) are not modelled.
pub mod Prelude
pub mod Errno
pub mod Commands
pub mod Io
pub mod Device
pub mod Event
pub mod Ioreg
pub mod Allocator
pub mod Transaction
pub mod Emission
pub mod Periodic
pub mod I2c
pub mod Clock
pub mod Core
pub mod Slc
pub mod Buffer
pub mod Top
pub mod Interrupt
pub mod Tests
