-- ===== src/Lib.antt =====
-- Project Zero: the capabilities, the objects and the physical frame manager of the kernel, and
-- resource accounting, leases and the time observation of libzero.
--
-- A process names a kernel object by a handle: a slot of the process's handle table with the slot's
-- generation. Behind each slot in use stands a capability, a node in a tree in which a capability
-- is derived from another; siblings are linked slot by slot. The kernel derives, duplicates, moves,
-- delegates and closes capabilities, counts them by process, and counts the references to each
-- object.
--
-- The physical frame manager owns the frames of 4096 bytes. It keeps two bits of state for each,
-- 32 frames a word, and counts the frames in each state.
--
-- libzero is the freestanding library of the user-space services. Its resource layer divides the
-- capacity of a node: each resource has an accounting domain, each entity a quota, and a lease is
-- the right of an entity to a part of a resource for some time. The lease engine calls the
-- accounting manager in each of its operations; the theorems are about the two together.
--
-- Which file models what:
--   Base              outcomes of calls (Ok, Err, panic), methods on `&mut self`, machine words,
--                     integers, lists of fixed length, loops
--   Kernel/Ipc        kernel/src/ipc: IpcError, Handle, HandleEntry, kernel objects
--   Kernel/Ipc/Objects, Ring, Messages   the object table, ChannelRing, IpcMessage
--   Kernel/Ipc/Channel   kernel/src/ipc/channel.rs: one round of a send and of a receive,
--                     the close of an endpoint
--   Kernel/Task/WaitQueue   kernel/src/task/waitqueue.rs: the threads that wait
--   Kernel/Cap        kernel/src/cap/types.rs and node.rs: CapabilityNode, the chains of children
--   Kernel/Cap/Ops    kernel/src/cap/ops.rs: what installs, derives and duplicates
--   Kernel/Cap/Leave  kernel/src/cap/ops.rs: what moves and closes
--   Kernel/Cap/Transfer, Validate   kernel/src/cap/transfer.rs, the checks of a handle
--   Kernel/Pmm        kernel/src/mm/pmm.rs: FrameState, PhysicalMemoryManager, PmmError
--   Kernel/Pmm/Init   kernel/src/mm/pmm.rs: init_from_inventory, PmmInitError
--   Kernel/Inventory  kernel/src/mm/inventory.rs: the tables that init_from_inventory reads
--   Libzero/Error     libzero/src/error.rs: ZeroError, from_i64, as_i64
--   Libzero/Resource  libzero/src/resource.rs: DistributedId, DimensionCapacityVector
--   Libzero/Lease     libzero/src/lease.rs: ResourceLease, LeaseState, CouplingConstraintMatrix
--   Libzero/Accounting         libzero/src/accounting.rs: AccountingManager, EntityQuota
--   Libzero/Accounting/Domain  libzero/src/accounting.rs: AccountingDomain
--   Libzero/LeaseEngine        libzero/src/lease_engine.rs: LeaseEngine, one function per method
--   Libzero/Time               libzero/src/time.rs: TimeObservationFrame, evaluate_freshness
-- The functions keep the names of the source. The children of a module hold its invariants and the
-- lemmas on its operations; Tests and Samples hold runs on concrete values.
--
-- State. An array is a list of its length, an unsigned word a natural number; checked, wrapping
-- and saturating arithmetic is written out at its width. A method on `&mut self` takes the state
-- and gives its outcome with the state that it leaves, also where it fails. The engine and the
-- manager that it borrows are one record. `find_domain_mut` followed by a call on the domain is
-- `with_domain`. A loop is recursion on the list that it runs over, or on the number of rounds, so
-- no bound on the number of steps is needed; the reader of the time observation has the 10001
-- rounds of the source. Its loads and the stores of the writer are taken in one order, with any
-- number of stores between two loads: the memory is a function from the moments of the loads to
-- frames, and the hardware's memory model is not modelled. An index out of an array's bounds panics,
-- except that a word behind the bitmap of the frame manager, which no tracked frame has, reads as 0.
--
-- The static bitmap of the frame manager is part of its state. A pair of bits in a word is read
-- and written by division by 4 for each shift of two bits, and the mask of `alloc_frame` is
-- computed pair by pair.
--
-- A table of the kernel is a function from its indices; the entries, their counts, the nodes, the
-- objects and the counters are one record, Tables, and a pair of a process slot and a handle slot
-- is a Link. Every function of kernel/src/cap runs under the lock of the object table, so that the
-- calls are taken one after another and an atomic exchange succeeds at once; acquiring the lock
-- and the assertions that it is held are left out. The slot of the calling process is an argument.
-- A loop along the siblings has fuel for 513 rounds and counts as a panic without it: a chain that
-- visits no slot twice has at most 512 links. An addition that overflows panics.
--
-- Invariants. The capabilities are counted when each process's count is that of its entries in
-- use, each object's that of the entries that refer to it, and each entry's object is there. They
-- are identified when no two have one identifier. The frame manager is sound when its counters are
-- those of the tracked frames, at
-- most the 65536 that the bitmap covers. A vector is shaped when it has eight places and only
-- zeros from its count on: the loops of the source stop at the larger of two counts. A domain is
-- in balance when available, reserved, allocated and unavailable capacity make up the physical one
-- in all eight places. The engine is consistent when the domains are in balance and unlocked, the
-- quotas and leases are shaped, the allocated capacity of every resource is the sum over its
-- active leases, and the lease count is the number of slots in use.
--
-- Not modelled: padding fields, the descriptors of resource.rs that have no operations, the other
-- modules of libzero, the smoke test and the printing functions of the frame manager, the parsing
-- of the firmware's memory map, the revocation of descendants and the cleanup of a process that
-- exits, the waiting of a thread and the pins of calls in flight at a channel, its creation and
-- reclamation, shared memory, the rest of the kernel, the daemons and the boot code.
pub mod Base
pub mod Kernel
pub mod Libzero
