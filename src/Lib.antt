-- ===== src/Lib.antt =====
-- SESC, a simulator of multiprocessors: the parts of it that this library models.
--
-- Cache (libsuc/CacheCore.h, libsuc/CacheCore.cpp, log2i of libsuc/Snippets.cpp) is the storage of
-- all the caches: an array of lines `mem` and an array of pointers `content`, where the pointers of a
-- set stand in order of use. Cache/Line is the interface of the line type (`State`), with
-- `StateGeneric` as an instance; Cache/Geometry the sizes, shifts and masks; Cache/Order the loop that
-- moves a way to the front; Cache/Core the constructor, `findLineTag`, `findLine2Replace`, `findLine`
-- and the two `fillLine`, associative and direct mapped. A pointer to a line is its index in `mem`, a
-- null pointer is `none`. Cache/Ways reads a set as a list; Cache/Find, Cache/Victim and
-- Cache/Replace compare the two searches with that list; Cache/Sound, Cache/WellFormed,
-- Cache/Rotation, Cache/Fill, Cache/Lookup, Cache/RoundTrip and Cache/Init hold the invariant,
-- Cache/Unlocked and Cache/Payload what the target buffer of BPred uses of it.
--
-- Smp (libsmp/MESIProtocol.h, MESIProtocol.cpp, SMPCacheState.h, SMPCache.cpp, SMPMemRequest.h,
-- SMPMemRequest.cpp, SMPSystemBus.cpp, and the operations of libcore/MemRequest.h) is the MESI
-- protocol of any number of caches on one snooping bus, at one memory line. Smp/State has the states
-- with their encoding and the assertions of `changeState`; Smp/Request the request; Smp/Protocol the
-- handlers, each with all its branches, `none` where an assertion stops the simulator; Smp/System the
-- counting of the answers on the bus and the step relation: a request is sent, broadcast, snooped by
-- each cache in any order, invalidated above, acknowledged, returned, and sent to the memory, while
-- other caches write lines that they own and displace lines. Only one request for a line is below at
-- a time, since all caches share `mutExclBuffer`; that is taken from the code's use of it. Smp/Local
-- says what may stand in one cache, Smp/Invariant what holds of all, Smp/Handlers what each handler
-- does to it, and Smp/Preserve, Smp/Transact, Smp/Answer, Smp/Snooped and Smp/Returned carry it
-- through the events, Smp/Count counts the answers that are missing, and Smp/Coherence concludes.
--
-- Port (libsuc/Port.h, libsuc/Port.cpp) is the contention for a resource: Port/Ports has the five
-- classes as one data type and their virtual functions by clauses, Port/NextSlot, Port/Capacity and
-- Port/Lock what they grant. Times are 64-bit words with their wrap-around; the clock is an argument.
--
-- FastQueue (libsuc/FastQueue.h) is the ring buffer of the queues: FastQueue/Ring the operations on
-- 32-bit indices, FastQueue/Create the constructor, FastQueue/Refine the list that a ring stands for.
--
-- ScTable (libsuc/SCTable.h, libsuc/SCTable.cpp) is the table of saturating counters that the branch
-- predictors train: ScTable/Counters the operations on 8-bit counters, ScTable/Range the range of the
-- counters, ScTable/Learning what training does to the prediction. `update(cid, taken)` is `train`.
--
-- BPred (libcore/BPred.h, libcore/BPred.cpp) is the branch prediction of a processor: BPred/Types what
-- it reads of an instruction, BPred/Ras the return address stack `BPRas`, BPred/Btb the target buffer
-- `BPBTB` on the cache of Cache and the end that the predictors share, BPred/TwoLevel, BPred/Tournament
-- (`BPHybrid` and `BPA21264`), BPred/Skew and BPred/Yags the tables of the predictors on ScTable, and
-- BPred/Predictor their `predict` by clauses and `BPredictor`, which asks the stack first. A failed
-- assertion and an access outside of the stack or of the A21264's local histories are `none`. BPred/Nested, BPred/Target, BPred/Total,
-- BPred/Lookup, BPred/Pure and BPred/Learn hold the proofs.
--
-- Bloom (libsuc/BloomFilter.h, libsuc/BloomFilter.cpp) is the counting filter of the registers:
-- Bloom/Filter its operations, Bloom/Counts the values that it counts.
--
-- Mshr (libsuc/MSHR.h, libsuc/MSHR.cpp, `CallbackContainer` of libsuc/callback.h) is the registers of
-- outstanding misses, which keep the callbacks of the requests that wait. A callback is a number, and
-- an operation returns the list of those that it calls and destroys, in order; the code of a callback
-- runs after the operation. Mshr/Types has what all share. Mshr/Full is `FullMSHR`; Mshr/Accounts,
-- Mshr/Requests, Mshr/Releases and Mshr/Retires account for its entries, Mshr/Handed for its
-- callbacks, and Mshr/Drain for the end of its requests. Mshr/Entry is `MSHRentry`, Mshr/Lines the map of
-- `SingleMSHR`, Mshr/Single its requests and Mshr/Overflow its answers and its queue; Mshr/Sums adds over
-- the map, Mshr/Counted, Mshr/Joined, Mshr/Finish and Mshr/Whole keep its counts, Mshr/Upkeep is the
-- loop on the queue, and Mshr/Kept accounts for the callbacks. Mshr/Banked is
-- `BankedMSHR`, whose banks are `SingleMSHR` that accept requests by the default policy; Mshr/Banks says
-- that they do not overflow, and Mshr/Shared, Mshr/Passing and Mshr/Admission serve its queue. `request` is
-- how the caches call `issue` and `addEntry`.
--
-- Common has the names that all share, tests on numbers, lists, arrays as functions, and masks.
--
-- Loops are structural recursion on the rounds that are left. The loop of `log2i` has 64 rounds, as
-- many as a word has bits, and the constructor of FastQueue has as many rounds as its size; that they
-- are enough is part of the theorems on the two constructors. `checkOverflow` has as many rounds as its
-- queue is long, and ends within them.
--
-- Assertions: the handlers of Smp, and FastQueue, BPred, Mshr and Bloom have those of the source as
-- checks, and a failure is `none`; left out are those that repeat a test made just before. The
-- assertions of CacheCore are not modelled: Cache is what a build without them does, and BPred/Btb
-- adds the two that a target buffer meets, that a tag set is not 0 and that a line found is valid.
-- `pendInvTable` of SMPCache is not a state of its own: the check that it has no entry for the line
-- reads the state of the line.
--
-- Not modelled: the moving of entries between registers (`dropEntry`, `putEntry`, `adjustParameters`) and
-- `NoDepsMSHR`, calls of the registers from within a callback, the constructors and the switching of
-- the branch predictors, statistics and energy counters, the reading of the configuration file, delays and the
-- event queue (an event happens at any later time), several levels of caches, and the rest of the
-- simulator: the pipeline of libcore, the memory controller of libmem, the interpreter of libmint,
-- the loader of libll, and the power models of libpower.
pub mod Common
pub mod Cache
pub mod Smp
pub mod Port
pub mod FastQueue
pub mod ScTable
pub mod BPred
pub mod Mshr
pub mod Bloom
