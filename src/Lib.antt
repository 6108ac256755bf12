-- ===== src/Lib.antt =====
-- EmbedSanitizer: a race detector for C and C++ programs on 32-bit ARM.
--
-- A compiler pass (llvm/lib/Transforms/Instrumentation) puts callbacks before the loads and stores of
-- a program, around its calls of the thread library, and at the entry and exit of its functions. The
-- runtime (etsan) takes the callbacks, keeps vector clocks of the threads, the locks and the variables
-- by the FastTrack algorithm, and prints a report for an access that races.
--
-- Files and what they model:
--   Common         Boolean tests, vectors with bounds, fallible runs, association lists.
--   Clock          vector clocks and epochs of etsan/defs.h: TID, CLOCK, newVectorClock,
--                  ExtendVectorClock(s), and the loops of etsan/fasttrack.h over them.
--   State          ThreadState, VarState, LockState and their tables; getState, getVarState,
--                  getLockState (etsan/defs.h).
--   FastTrack      ft_read, ft_write, ft_acquire, ft_release, ft_fork, ft_join (etsan/fasttrack.h).
--   Detector       a reference detector that keeps every access of a variable, and the
--                  relation by which a VarState stands for such a history.
--   Report         Race and race_compare (etsan/race.h); call stacks and printing
--                  (etsan/race_report.h).
--   Interface      the callbacks of etsan/tsan_interface.cc.
--   Trace          whole programs: sequences of callbacks, and a world that keeps for each thread and
--                  lock the set of the accesses that happened before, without clocks; and the
--                  happens-before order of the events by their positions.
--   Statistics     what the destructors of etsan/defs.h print at the end of the program.
--   FileDictionary the class of etsan/file_dictionary.h.
--   Names          file, function and object names (EmbedSanitizerDebugInfo.h).
--   Ir             what the pass reads of LLVM's instructions.
--   Access         the callback of a load or a store with its arguments (ThreadSanitizer.cpp).
--   Pass           the choice of the loads and stores to instrument (ThreadSanitizer.cpp), and the
--                  callbacks for calls of the thread library (EmbedSanitizerExtension.h);
--                  Pass/Counters holds the counters of the pass.
--   Atomic         the calls that take the place of atomic instructions (ThreadSanitizer.cpp).
--   Function       runOnFunction with all that it adds to a function (ThreadSanitizer.cpp).
--   Module         doInitialization (ThreadSanitizer.cpp).
--   Callbacks      the declarations of the callbacks in the pass (initializeCallbacks) and in the
--                  runtime (etsan/tsan_interface.h).
--   Tests          the theorems at concrete inputs.
--
-- How the code is modelled. An `int` is its 32-bit pattern, and `sle` is its signed order. The globals
-- are one state that each operation takes and returns. The tables are association lists, keyed by a
-- thread's pthread id or by an address. A thread that is started or waited for by itself is one state
-- (ft_alone), as both references of the source are to one. An access past the end of a vector, an
-- increment of the largest `int` and a failed assertion are faults, and a function that can have one
-- returns a `Run`. Because
-- `getState` always faults on a thread that it does not know, the theorems on the callbacks start from
-- a system whose threads are registered, as tests/fasttrack_sync_test.cpp sets one up. The mutexes are
-- left out: each callback runs whole, and callbacks of different threads follow one another. The
-- thread that runs a callback is the argument `self`. The arguments of a call are evaluated from the
-- left. `std::set::insert` is a parameter, RaceSet, that may add an element at any place or leave the
-- set as it is; LLVM's answers on values are a parameter, Llvm, and so are the demangler and LLVM's
-- utilities on modules (ModuleUtils). The counters of the pass (STATISTIC) are told apart from what it
-- makes: for each function of the pass that increments some, instrumentAtomic among them, there is the
-- list of those that it increments. The size of a type in bits is cut to 32 bits, as the pass keeps it.
--
-- The invariant. IsSystem says that each thread's own clock entry is its epoch, that clocks have an
-- entry for every thread, and that a thread alone is in its epoch: every other clock has a smaller
-- entry for it. Thread numbers stay below 239, so that no epoch is the mark READ_SHARED. An epoch has
-- 24 bits, and a thread may take its next epoch if it stays within them (HasRoom). Tracks says that the
-- one or two epochs of a VarState are known exactly by those clocks that know the accesses that it
-- stands for. Once a race is reported for an address, all that is kept of it is that its epochs and its
-- vector are within bounds (Bounded).
--
-- Whole programs. A World numbers the accesses as they come. A thread's set takes in that of a lock
-- when it locks it, and a lock's set becomes that of the thread that unlocks it; a start and a wait hand
-- a set from thread to thread. A World counts the running threads as the runtime does, and leaves out
-- accesses that are made while it counts none. Linked says that the epochs of a state tell the sets of
-- a world: a clock knows the stamp of an access exactly if the access is in the set. The events of a
-- program are by registered threads and on them, and the clocks have an epoch left for each event.
-- HappensBefore is the order of the events themselves: those of a thread, a lock given back and then
-- taken, a thread started, a thread waited for. IsLocking says that a lock is given back by a thread
-- that took it and since when nobody has given it back; without that the clock of a lock loses what was handed on before.
-- The pass leaves out a read that a write of the same stretch follows. Shadowed says of such a read and
-- write that the thread makes only accesses between the two. `thinned` is a program with events left
-- out, given by the positions of the others; IsSeen holds of an access that is among the others, or
-- that one of them shadows.
--
-- Fuel: decimal digits are printed with fuel for ten, enough for 32 bits; trailing zeros are counted
-- with fuel for 32 bits. All other loops are by structure, over a list or over the rounds left.
--
-- Not modelled: etsan/libs, a copy of a library; the Clang driver, a copy of Clang's with a few lines
-- changed; the registration of the pass, which only calls LLVM; the casts of the
-- results of calls for atomic instructions; build files, tests and benchmarks.

pub mod Common
pub mod Clock
pub mod Report
pub mod State
pub mod FastTrack
pub mod Detector
pub mod Names
pub mod Ir
pub mod Access
pub mod Pass
pub mod Atomic
pub mod Function
pub mod Callbacks
pub mod Interface
pub mod Trace
pub mod Tests
pub mod Statistics
pub mod FileDictionary
pub mod Module
