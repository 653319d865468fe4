-- ===== src/Lib.antt =====
-- A model of libcc, a C library of data structures and concurrency primitives, and theorems on it.
--
-- CcList is cc_list.h and cc_list.c, doubly linked lists. An iterator (cc_listIter_t) is a record
-- at an address, the memory a function from addresses to optional iterators, and a function of the
-- source a command that may fault, where it follows an address that holds no iterator. CcList.Store
-- has the memory, CcList.Links the private functions that link iterators (cc_listIter_add,
-- cc_listIter_remove, cc_listIter_move), CcList.Pool the global pool of free iterators
-- (cc_listPool_get, cc_listPool_put), CcList.Alloc the allocation of iterators (cc_listIter_new,
-- cc_listIter_delete), and CcList.Ops the public functions. What calloc returns is the argument
-- `fresh`. A loop over a list runs on fuel, one round for each iterator and one more. The predicate
-- IsList of CcList.Refine says that a struct and a memory hold a sequence of cells, CcList.Chain
-- has the lemmas on such chains, and CcList.Move, CcList.Place, CcList.Insert, CcList.Sorted,
-- CcList.Delete, CcList.Search, CcList.Swap, CcList.Splice and CcList.Transfer prove what the
-- functions do to the sequence.
--
-- Workq is cc_workq.h and cc_workq.c, a queue of tasks with worker threads, over the lists and the
-- map. The mutex makes each call, up to the point where it waits for a condition, one step on the
-- state; Workq has the steps of the threads (cc_workq_thread) and the calls that name no task
-- (cc_workq_purge, cc_workq_flush, cc_workq_finish, cc_workq_reset), Workq.Tasks those that name
-- one (cc_workq_run, cc_workq_wait, cc_workq_cancel, cc_workq_status), and Workq.Queue the loops on
-- a queue. A queue of the source is here the sequence that a list stands for, and the map from
-- tasks to iterators the list of its keys. Workq.Count and Workq.Place count the nodes of a task,
-- Workq.Invariant has the invariant, and Workq.Purge, Workq.Calls, Workq.Run, Workq.Priority and
-- Workq.Requeue the theorems on the calls; Workq.Steps makes the calls and the steps of the threads
-- a step relation. A call of cc_workq_wait or cc_workq_cancel that sleeps keeps its node: each
-- wake-up is a step of its own, which faults where the node was freed. Where these calls must not
-- block they read the status after they have unlocked the mutex: the model returns no status, and
-- `late_status` is the status in the state of the reading.
--
-- Jobq is cc_jobq.h and cc_jobq.c, a simpler queue that can be paused; Jobq.Steps makes its calls
-- and the steps of its threads a step relation, Jobq.Threads counts the threads and the callers of
-- cc_jobq_finish that sleep on its condition variables, Jobq.Wakeups makes their steps a relation,
-- and Jobq.Drain has the theorem on them. JsmnStream is jsmn/cc_jsmnStream.h and
-- jsmn/cc_jsmnStream.c, the writer of JSON text; characters are numbers, what realloc answers is a
-- parameter, and the text that a format and its arguments stand for an argument, which vsnprintf
-- cuts to the 255 characters of a local buffer (`formatted`). JsmnStream.Json has JSON values,
-- their text and the calls that write them, JsmnStream.Steps and JsmnStream.Values what single
-- calls write, JsmnStream.Write and JsmnStream.Root what the calls for a value write, and
-- JsmnStream.Errors the size of the buffer and the error mark. The loop that doubles the size runs
-- on fuel, the size wanted: each round adds one at least.
--
-- JsmnWrapper is jsmn/cc_jsmnWrapper.h and jsmn/cc_jsmnWrapper.c, JSON values made of the tokens of
-- jsmn, whose parser is a parameter. Calls has its functions: each request for memory is answered
-- by its number, and the state counts what is held, so that the error paths, which free it, are
-- part of the model. An iterator of a list counts while it is in a list: that the pool of the lists
-- keeps its blocks is not. A token whose characters are not in the text makes the call read outside
-- of it, an outcome of its own. cc_jsmnVal_wrap runs on fuel, the number of the tokens and one,
-- which is enough since an object or an array takes a token before it calls it again. Tokens has
-- the tokens of a JSON text as jsmn documents them, and RoundTrip composes the stream with the
-- wrapper.
--
-- Map is cc_map.h and cc_map.c, a hash map. Its nodes are one sequence, sorted by hash, length and
-- bytes of the keys, and a bucket is the iterator of the first node with the bucket's index, a
-- share of the range of hashes. Map has the nodes, their comparison (cc_mapNode_cmp), the growth of
-- the buckets (cc_map_grow) and cc_map_addAt, and Map.Calls the public functions; what the
-- allocators answer is the argument Answers. Map.Order, Map.Sorted, Map.Find, Map.Grow, Map.Place,
-- Map.Insert, Map.Add, Map.Added, Map.Lookup, Map.Erase and Map.Remove have the theorems, with the
-- invariant Inv in Map.Sorted, and Map.Steps makes the calls a step relation. Murmur is
-- cc_mumurhash3.h and cc_mumurhash3.c, the hash of the keys, and Bits the bit operations on numbers
-- with a bound.
--
-- Memory is cc_memory.h and cc_memory.c, the accounting of allocations; what the system's malloc,
-- calloc and realloc return is an argument. Memory.Steps makes the calls a step relation, and
-- Memory.Room says what the blocks have room for. Memory.Debug is the table of allocations that a
-- build with MEMORY_DEBUG keeps in two maps (cc_meminfo_t, cc_ator_t, cc_pinfo_t), Memory.Calls has
-- the calls that keep the table and the counters together, and Memory.Table says which pointers the
-- table has.
--
-- Multimap is cc_multimap.h and cc_multimap.c, a map from keys to lists: the value of a node of the
-- map is the address of a list, and a list is the sequence of its iterators and data. The calls of
-- cc_map.c are those of Map.Calls, and cc_list_insertSorted is the sequence that CcList.Sorted
-- shows it to leave. Multimap.Vals has the lists that the nodes hold, Multimap.Add the invariant
-- WellFormed, and Multimap.Added and Multimap.Remove the theorems on cc_multimap_addp and
-- cc_multimap_remove.
--
-- Pow2n is math/cc_pow2n.h and math/cc_pow2n.c, powers of two on machine words; Pow2n.Next and
-- Pow2n.Find have the theorems. The loop of cc_find_pow2n runs on fuel, 33 rounds, after which each
-- uint32_t is passed.
--
-- Stack4f is math/cc_stack4f.h and math/cc_stack4f.c, a stack of matrices of any type.
--
-- Math is a part of math: Vec has the vectors of three and four entries (math/cc_vec3f.c,
-- math/cc_vec4f.c), Mat3f and Mat4f the matrices (math/cc_mat3f.c, math/cc_mat4f.c), and Quaternion
-- math/cc_quaternion.c. The operations on floating-point numbers are a parameter, the record
-- Scalars, since the processor and libm compute them. Some theorems need no law of them, or only
-- that the multiplication commutes; the others are about exact arithmetic, whose laws, IsSemiring
-- and IsField, are named hypotheses, and say nothing of rounding. Orientation is
-- math/cc_orientation.c, the state that the samples of the sensors change. Geometry is
-- math/cc_sphere.c, math/cc_plane.c, math/cc_fplane.c and math/cc_ray3f.c. Gauss is the elimination
-- that the inverses of both sizes share, on functions of the row and the column.
--
-- Rng is rng/cc_rngUniform.c and rng/cc_rngNormal.c over a generator that is a parameter, since pcg
-- is not part of the repository. The loop of cc_rngNormal_boxMullerTransform runs on fuel, which is
-- enough once one of the numbers that it allows is above epsilon.
--
-- Base has the names that all modules share, Int the signed integers. The modules Tests run the
-- code and the theorems on concrete states.
--
-- Not modelled: the creation and the joining of threads and the failures of pthread calls, the
-- failures of the constructors of the list, the queues and the stream, the log, the clock, rounding
-- and the conversions between float and double, and the other modules under math and rng.
pub mod Base
pub mod Bits
pub mod CcList
pub mod Int
pub mod Jobq
pub mod JsmnStream
pub mod JsmnWrapper
pub mod Map
pub mod Math
pub mod Memory
pub mod Multimap
pub mod Murmur
pub mod Pow2n
pub mod Rng
pub mod Stack4f
pub mod Workq
