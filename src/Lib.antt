-- ===== src/Lib.antt =====
-- A development about the demos of tools_demo, a collection of small C++ programs that share no code:
-- each directory of the repository is a component of its own, and Base holds what the models share.
--
-- Base: tests on numbers, lists, association lists for maps (Dict), std::list by the addresses of its
--   nodes (Linked), signed numbers (Int), text and decimal numbers (Text), masks and shifts (Bits).
-- LruMap (LruMap/lurmap.h): LruMap.Defs has a function per method. An iterator is the address of its
--   node, and a call through a dead one has no result. The index and the list are tied by an invariant
--   (Invariant); View reads a map as one list of entries, and Spec says what the calls do to that list.
--   Taking erases through the iterator that `get` has returned.
-- LruCache (lru_cache/lrucache.h): the same for `lru_cache`, whose list has no values.
-- Pipe (Pipe/PipeClient and Pipe/PipeServer): Codec is CChannelUtils, Reader is HandleData and the loop
--   of ReadPipeThread, Writer is the message loop of both WritePipeThread. Memory is memcpy and memset on
--   arrays of a fixed size, where a copy out of range is a fault. The loop of HandleData runs on fuel, one
--   more than the bytes that are held: each round takes four bytes at least. The pipe itself cuts the
--   stream into any pieces.
-- Snowflake (snowflake_demo/snowflake.h): `generate` over a list of clock readings. A loop that waits
--   for the clock ends with the list; such a call is `waiting`. Lock has the spin lock, with any number of threads that call `generate`: a
--   turn is one access of what they share, and the body between them is one step, since Exclusion shows
--   that no other thread is in it.
-- Slice, Status, Arena (statusandslice): slices over the bytes behind the pointer, the array that a
--   status owns, and regions of memory by address. Status.Heap has the objects and their arrays on the
--   heap, and Life what programs do with them. What `new` promises is a hypothesis.
-- TimeInterval (workerprocess/TimeInterval.cpp): intervals of natural numbers. Watchdog is the loop over
--   the results of fork and the signal handler of workerprocess/main.cpp.
-- Timer (timerloop/priority_queue/timer.h and hash_map.h): calls and steps of the thread, in any order:
--   a round of the thread is one step under its mutex and one for the commit after it, since cancel does
--   not take the mutex. What is committed to the thread pool is a log. Ids wrap at 2 ^ 32; the theorems
--   are about fewer ids.
-- Threads (timerloop/priority_queue/threadpool.h): a thread advances from one access of what it shares to
--   the next, and an event is a call or such a step, so that any interleaving is a list of events.
-- ObjectPool (objectpool/objectpool.h): ObjectPoolAllocator, with what the allocator returns and whether
--   the mutex was taken as arguments, Manager is ObjectManager and Destroyable, Guard is LockGuard of
--   mutex.h, and History is what clients do with the objects. Pools (objectpool2): SimpleObjectPool
--   (Simple) and the ring of free slots of ObjectMemPool (Ring).
-- Stocks (StockFactory/main.cpp): the calls under the mutex and the callback of a stock are steps, and
--   `drop_ref` is the end of a shared_ptr. Two threads are two orders of the steps.
-- Switch (switch): Hash is switch.cpp, over strings with their zero; Cases is switch_deep.h.
-- Registry (objectRegistry, message_demo/message_factorys.h, objectpool2/DynamicCreate.cpp): three
--   registries of functions by name.
-- HyperFunction (hyper_function/hyper_function.h): the addresses of function objects and of the states
--   that they own. The conversions of argument types are not modelled.
-- SharedMsg (linux-sharedMsg): Client and Server are a step from one access of what they share to the
--   next; System has the steps of both in any order, and Ipc is what they use of the kernel, as a parameter
--   with the laws of its manual pages. Memory, Invariant and Mail are what every step keeps.
-- Curl (Curl_Breakpoint/CurlDown.cpp): Transfer is Download, Controler its loop, over a list of what the
--   attempts meet (one that ends early is `trying`), among it what a failing fclose does not bring to the
--   disk; Attempts and Resume are what becomes of the file; Progress is my_progress_func over any type of
--   its doubles.
-- Daemon (daemon/daemon.h): PidFile is get_pid and already_running over the pid file and its lock,
--   Descriptors is daemonize over its table of descriptors.
-- AsioTimer (timer_demo/asio_timer_base.cpp): Asio is what the timer uses of Boost.Asio, as a parameter
--   with the laws of its documentation; Steps are the calls and the handlers, in any order. What a callback
--   calls are steps after its own. The thread is taken to be the only one in the map, which has no lock.
-- SharedPtr (safe_operation_obj/save_obj_main.cpp): AtomicSharedPtr with the use counts of
--   std::shared_ptr; Clients are threads that load and store, in any order.
-- TimeLog (timelog/main.cpp): times between readings of a clock, in milliseconds.
-- Split (splite2vector/test.h): split2vector of strings. Its loop runs on fuel, one more than the
--   characters: each word has one at least.
-- Small: Segments (findInTheInterval/main.cpp), Server (StockFactory/Structmain.cpp) and Commands
--   (redis_cli/main.cpp).
--
-- Maps are association lists with the semantics of the keys: the order of std::unordered_map is not
-- modelled. Time, threads, windows, sockets and files are arguments of the definitions that use them.
-- Not modelled: the growth of the thread pool, the notification that its destructor may lose, and the demos that are glue for a library.
pub mod Base
pub mod LruMap
pub mod LruCache
pub mod Pipe
pub mod Slice
pub mod Snowflake
pub mod Timer
pub mod Threads
pub mod ObjectPool
pub mod Switch
pub mod Registry
pub mod Pools
pub mod Stocks
pub mod Curl
pub mod Daemon
pub mod SharedMsg
pub mod HyperFunction
pub mod Small
pub mod TimeInterval
pub mod Arena
pub mod AsioTimer
pub mod TimeLog
pub mod SharedPtr
pub mod Split
pub mod Status
