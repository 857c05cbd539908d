-- ===== src/Lib.antt =====
-- The sweater library (include/psi/sweater): a work dispatching thread pool, and the light
-- threading primitives below it.
--
-- A client hands iterations to a shop (impls/generic.{hpp,cpp}), which cuts them into parts for its
-- worker threads and for the calling thread, enqueues the parts, wakes the workers by a semaphore
-- and waits on a barrier until every part has arrived. spread_chunked.{hpp,cpp} cuts iterations
-- into a given number of chunks and spreads those. Semaphore, barrier and readers-writer lock stand
-- on a futex or on a mutex and a condition variable (threading/).
--
-- - Chunks: spread_chunked.{hpp,cpp}. chunked_spread, chunk_range, the lambda (chunk_worker) and
--   spread_chunked keep their names, and the casts of std::uint32_t and hardware_concurrency_t.
-- - Shop: impls/generic.{hpp,cpp}. spread_work is a function from the configuration (Config: the
--   macros of impls/generic_config.hpp), the shop's state (Shop) and what the threads around do
--   meanwhile (Surroundings) to the list of the calls that it makes, its result and the stealing
--   division; dispatch_workers and perform_caller_work are its parts. The queue is third-party
--   code: whether it takes the parts of a batch, and the slices for each worker, is in
--   Surroundings.
--   Shop.Wake has propagate_spread_wake and next_dispatch_target, and Shop.Fire the counting of
--   fired items: create_fire_and_destroy, work_added and work_completed, and dispatch_tracking.hpp.
--   new_shop is the constructor, up to the pool's size; Shop.Sizing composes it with the limit of
--   HardwareConcurrency.
--   Shop.Joined lets the calls of a spread drive Barrier.Futex, with the threads' steps in between;
--   each range is some thread's, the caller's own too, until it arrives.
--   Shop.Control has set_priority and bind_worker, with which threads run the calls of their spread
--   as a parameter, and with how late each call sees the `success` that they all write.
--   Shop.Lifetime has the constructions, moves and destructions of a fired functor, and dispatch.
--   Shop.Pool has worker_loop, create_pool and stop_and_destroy_pool as the steps of the workers
--   and of the shop's owner, with an event for each worker.
-- - Libuv: impls/libuv.cpp, the shop over libuv's thread pool. Spread has spread_node, spread_impl
--   behind the setup of its chunks, queue_chunks and the callbacks as a step relation of the caller,
--   the queuer, the workers and the loop; the section under the node's lock is a step. A chunk's
--   Place joins its state with how far libuv is with its request. Pending has the list of the spreads
--   called off the loop's thread, from the push to on_spread_async.
-- - SystemPools: the spreads of impls/windows.hpp, impls/apple.hpp, impls/openmp.hpp and
--   impls/single_threaded.hpp, as the calls that are made of the work; in which order the system
--   makes its calls, and which chunks it takes, is a parameter. SystemPools.Fire has fire_and_forget
--   of these shops and of impls/libuv.hpp as the events of an item and how the call ends, with an
--   exception where std::thread throws one, dispatch over GCD and the Windows thread pool, and
--   wait_until_idle of dispatch_tracking.hpp over any interleaving of the events.
-- - Semaphore: threading/semaphore.hpp on a futex (futex_semaphore.cpp) and, in Semaphore.Condvar,
--   on a condition variable (generic_semaphore.cpp), Barrier: the two barriers
--   (futex_barrier.cpp, generic_barrier.cpp), RwMutex: futex_rw_mutex.{hpp,cpp}. Each is a step
--   relation in which a step is one access of one thread to the shared words, with any number of
--   threads; a futex is a 32-bit word, as on Linux and macOS, and words wrap there, or at the
--   number of values of hardware_concurrency_t. What the kernel does of a futex or a condition
--   variable, waking for no reason included, is in the rules. Memory is sequentially consistent.
-- - SpinLock: threading/cpp/spin_lock.{hpp,cpp}, a step for each test-and-set and clear of the flag.
-- - RwGuards: the guards of threading/rw_mutex.hpp, by the calls that their lives make of a mutex.
-- - ThreadStart: threading/thread.hpp, the start of a thread as the steps of the two threads;
--   ThreadPriority: the priority that threading/posix/thread.cpp asks the system for.
-- - Future: threading/future.hpp (Lite) and outcome_future.hpp (OutcomeFuture), as the steps of the
--   promise's thread and of the future's thread on the slot that they share.
-- - ReadRecursion: threading/read_recursion_registry.hpp and rrw_mutex.hpp, the read locks of one
--   thread as functions on its list of holds.
-- - HardwareConcurrency: threading/hardware_concurrency.cpp with PSI_SWEATER_DOCKER_LIMITS, function
--   by function: Text has the C library's string functions, Quota the files of one control group,
--   Branch scan_branch, Controllers has_cpu_controller, SelfCgroup self_cgroup and Docker
--   get_docker_limit and the number of hardware threads. The file system is a parameter: what a
--   read of a file delivers. Its loops run on fuel, the length of the text that they go through.
-- - Threads: sums over threads; Prelude: numbers, lists and tests; Examples: concrete runs.
--
-- The loop over a part's slices has the part's length as fuel: each slice has an iteration or more,
-- so it ends before. The other loops of the shop are structural, over the parts that are dispatched.
-- The spinning loops take the results of their polls as a list.
--
-- Not modelled: the branch of spread_work for heterogeneous processors (PSI_SWEATER_HMP is off in
-- every configuration), the events, the contents of affinity masks, std::async, which some of the shops
-- dispatch with, libuv's bind_loop and unbind_loop, the queue, and the operating system's own
-- locks and threads.
pub mod HardwareConcurrency
pub mod Libuv
pub mod SpinLock
pub mod SystemPools
pub mod Prelude
pub mod Chunks
pub mod Shop
pub mod ThreadPriority
pub mod ThreadStart
pub mod Threads
pub mod Semaphore
pub mod RwGuards
pub mod RwMutex
pub mod Barrier
pub mod Examples
pub mod Future
pub mod ReadRecursion
