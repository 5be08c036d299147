-- ===== src/Lib.antt =====
-- grid_server: the scheduler of a grid of workers, and the collections that it is built on.
--
-- The program is a set of servers. A task manager splits a job into tasks and sends them to a
-- scheduler, which asks a node manager for workers, gives the tasks to the workers, and sends their
-- results back in batches. The servers share a library of collections (shared/src/utils) and the
-- types of their messages (shared/src).
--
-- Base holds the shared names: Boolean tests, lists measured by native numbers, and Run, how a call
-- ends. A Run is a returned value, a panic, an unchecked access outside its contract (`undefined`),
-- or the fuel of a loop running out. Returns says that a run returns, Guarded that it returns or
-- panics.
--   * VecMap: shared/src/utils/vec_map.rs. A vector of options with a count. A mutable reference is
--     its value with the write through it.
--   * PriorityQueue: shared/src/utils/priority_queue.rs. A binary heap of ids beside a VecMap from
--     each id to its position and value; `cmp_priority` is a parameter with the laws of a strict
--     weak order, which Min and Max instantiate. PriorityQueue.Guards has PeekMut and RefMut.
--   * Buffer: shared/src/utils/buffer.rs. An array of `MaybeUninit` slots, as options; `data` is
--     called `slots`.
--   * MultilevelVecMap: shared/src/utils/multilevel_vec_map.rs. Vectors nested one level deep for
--     each part of a key; `get_from`, `insert_into` and `edit_from` are the loops over the levels,
--     the last that of both `get_mut` and `remove`; a mutable reference is the function that the
--     caller applies through it.
--   * BitSet: shared/src/utils/bit_set.rs, over a vector, and BitSet.Fixed over an array. The
--     package bitset_core is the parameter BitCore with the laws of BitSet.Core, which hold for the
--     words of numbers.
--   * LinkedVecMap: shared/src/utils/linked_vec_map.rs, with its nodes in a memory of numbered
--     cells. Links are pointers as in the source; Ring says that they form a ring of given items,
--     Memory that the ring and the free list do not overlap, Refinement what list of entries a map
--     represents, and Commands runs sequences of operations. The iterator counts the remaining
--     nodes as in the source, so it needs no fuel; `drop_from` in Clearing runs once for each entry
--     that the map had.
--   * LinkedVecSet: shared/src/utils/linked_vec_set.rs, a LinkedVecMap of unit values.
--   * Platform and Messages: shared/src/platform, shared/src/worker.rs, shared/src/scheduler.rs,
--     shared/src/node_manager.rs.
--   * Scheduler: scheduler/src/scheduler.rs with nodes.rs, task_manager.rs and node_manager.rs. The
--     connections are the list of messages sent so far; a node is the handle whose drop cancels its
--     connection. Scheduler.Assign is process_scheduling, Scheduler.Results the handler of a
--     result, Scheduler.Errors those of a worker's errors, Scheduler.Events the others, and Step
--     what `select!` in `start` can do next. The proofs stand in Scheduler.Sound, Delivery,
--     Capacity, Disconnect and Late.
--   * TaskManager: task_manager/src and shared/src/task_manager. JobData is validate; Splitter the
--     iterator over a job's tasks; Combinations the generator of the assignments; Reducer the
--     iterator over their distances. Job is the state of a job, Process is process_job, and Events
--     the handlers of messages and commands, with `start` as the relation Step. The package bincode
--     is the parameter Codec. The proofs stand in Lifecycle, Splitting, Results and Reducing.
--   * NodeManager: node_manager/src/node_manager.rs, the loop of process_queue that gives workers
--     to demands; the slab of the workers is a parameter, the function that finds the platform of a
--     worker. Matching and Queue follow the code, and Rules says without its functions which demand
--     a worker goes to. The fuel of the loop is one more than the number of unassigned workers,
--     which each round but the last lowers by one.
--
-- In the collections an underflow panics, as with overflow checks; where the invariants hold there
-- is none, so both kinds of build agree. The arithmetic of the scheduler, of the splitter, of the
-- generator and of the reducer is that of a release build and wraps: usize at 2^64, u128 at 2^128.
-- Ids, addresses and durations are numbers.
--
-- Fuel: the whole run of the splitter gets two more rounds than it has tasks; `bubble_up` gets one
-- more round than its start position, `heapify` one more than the length of the heap; each round
-- moves up or down, and the theorems that a call returns show that this is enough. The other loops
-- are over lists or a given number of rounds.
--
-- Not modelled: running out of memory, except that `Vec::with_capacity` and `reserve_exact` panic
-- on an impossible size; the drain, the consuming iterator and the release of a linked map, whose
-- free list has no count that would bound the loop; logging; the network and its tasks; the command
-- handler of the scheduler, which only reads the state; of the node manager the sessions, their
-- expiration and what is sent; the job that finds paths, the task manager of necklaces and the
-- nodes, which are separate programs over the same messages.
pub mod Base
pub mod VecMap
pub mod PriorityQueue
pub mod Buffer
pub mod MultilevelVecMap
pub mod BitSet
pub mod LinkedVecMap
pub mod LinkedVecSet
pub mod Platform
pub mod Messages
pub mod Scheduler
pub mod TaskManager
pub mod NodeManager
