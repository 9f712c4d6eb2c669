-- ===== src/Lib.antt =====
-- dashmap: a concurrent map whose entries are spread over shards, each a hash table behind a
-- reader-writer lock.
--
-- Parts of the program, and the files that model them:
--
-- Lock (src/lock.rs). `RawRwLock` is one word: two flags for sleeping readers and writers, and
-- above them the number of readers, all ones for a writer. Lock/Word has the constants. Lock/Thread
-- has where a caller stands in the code (`Pc`) and its next step (`advance`), which makes one
-- access to the word at most: the fast paths (`begin`, `shared_fast`, `leave_writer`,
-- `leave_reader`), the loops of the slow paths (`exclusive_loop`, `shared_loop`, `try_shared_loop`)
-- and the slow unlocks (`unlock_slow`, `unlock_swap`, `wake`). Weak exchanges may fail for no
-- reason. The parking lot is not part of the repository: a sleeper may wake at any step, which
-- allows whatever wakes it. Lock/System lets any number of callers step in any order (`Reach`);
-- Lock/Invariant has the invariant, Lock/Safety what follows from it. Memory orderings are not
-- modelled: the accesses to the word are interleaved. Lock/Alone runs the steps of `advance` for
-- one caller that nobody disturbs, which is how the map calls the lock; six steps are enough for a
-- call to return or to sleep. Lock/Simulation relates these calls to the system of all callers.
-- Lock/Quiet says what these calls do to a word with no flag.
--
-- Shards (src/lib.rs, src/util.rs) has the number of shards, the shift and the shard of a hash, on
-- words of 64 bits; the loops go over the 64 digits. Overflows that a debug build stops at are
-- `panicked`, those of a shift included.
--
-- Key, Table and Clone are the interfaces to code that is not in the repository: `Eq`, `Hash` and
-- `BuildHasher` with what they ask of an implementation, `hashbrown::HashTable` with what its
-- documentation says of each call, and the `Clone` of keys, values, hashers and tables, which
-- neither panics nor calls the map. Tests/ListTable fills the second, and Tests/World the others.
--
-- Map (src/lib.rs) has the map itself, as the list of its shards, and the locks and guards of a
-- shard: a guard is the number of the shard whose lock it holds, and the word of the lock is in the
-- map. An operation gives `done`, `blocked` where it would wait, or `panicked` (Base/Outcome).
-- Map/State has what is valid, and what a map holds under a key. Map/Access has `get`, `get_mut`,
-- `try_get`, `try_get_mut`, `contains_key`, `view`, `alter`, `remove`, `remove_if`, `remove_if_mut`
-- and the references (src/mapref/one.rs); Map/Mapped the references to a part of a value.
-- Map/Entry, Map/Occupied and Map/Vacant have `entry`, `try_entry`, `insert` and the methods of
-- entries (src/mapref/entry.rs). Map/Whole has the operations that visit every shard, Map/Making
-- the constructors, `extend` and `from_iter`, Map/Operators the operators, Map/Iter and Map/IterMut
-- the iterators (src/iter.rs, src/mapref/multiple.rs), and `alter_all`, which uses the second. The
-- other files under Map are proofs. A word of a lock is assumed quiet (`IsQuiet`): nobody sleeps on
-- it. Closures are functions, which neither panic nor call the map.
--
-- TryResult is src/try_result.rs, ReadOnly is src/read_only.rs, DashSet is src/set.rs,
-- src/iter_set.rs and src/setref: the set is the map with the unit for values.
--
-- Concurrent (src/lib.rs) has many threads on one map. A thread has a list of calls (`Call`); a
-- call takes three steps (`advance`): `enter` takes the lock of the shard of the key and reads its
-- table, `finish` does the work of the operation on that table (`critical`) and puts what it makes
-- in the place of the table, `leave` drops the guard; a thread that would wait does not step. `run`
-- is any sequence of steps, `one_by_one` any sequence of whole calls (`invoke`, which are the
-- operations of Map). Concurrent/Sections shows that a whole call is its three steps,
-- Concurrent/Guards counts the guards, Concurrent/Between has the invariant, Concurrent/Steps what
-- each step does, Concurrent/Seen how a state is seen from outside, Concurrent/Runs and
-- Concurrent/Ends what follows for runs. Concurrent/Abstract specifies the operations on a function
-- from keys to pairs (`specified`), and the files under it relate whole calls and threads to it.
--
-- Rayon (src/rayon) has the parallel operations. rayon, which splits the work among threads, is not
-- part of the repository: any order is possible. Rayon has `par_extend` and `from_par_iter` of maps
-- and sets: each call of `insert` is a worker, which waits for the lock of its shard, has it, or
-- has returned, and the workers step in any order (`Step`, `Reach`). Rayon/Commit and
-- Rayon/Released say what a worker that has the lock makes of the map, Rayon/Workers which shards
-- are held, Rayon/Between has the invariant, Rayon/Atomic that each step keeps it, and Rayon/Runs
-- what follows. Rayon/Tasks is the call of a closure for each shard by `flat_map_iter`, as tasks
-- whose events interleave; Rayon/ParIter has the events of `par_iter`, whose references may be kept
-- while the task goes on, and Rayon/ParIterMut those of `par_iter_mut` with `for_each`.
-- Rayon/OwningIter is `into_par_iter`.
--
-- Serde (src/serde.rs) writes maps and reads them, and Serde/Sets sets. The traits of serde are
-- records, of any serializer and deserializer; a `Result` is a value. Serde/Writing and
-- Serde/Reading say what each does, errors included, and Serde/RoundTrip what a document that was
-- written and is read gives.
--
-- Arbitrary (src/arbitrary.rs) has a map of arbitrary entries, from any source of them.
--
-- Not modelled: the adapter to typesize, formatting, and the accessors of the raw interface.
--
-- `trailing_zeros`, `count_ones`, `next_power_from` and `settle` recur on a number of digits or
-- steps, `collect`, `collect_owned` and `alter_all_from` on the number of calls of `next`, and
-- `alter_all` gives the last of them one call more than there are entries; `serialize` gives its
-- loop a turn for each entry and one to find the end, and `visit_map` takes the number of its
-- turns, which the theorems on it bound from below; nothing else in the model has fuel.
pub mod Base
pub mod Lock
pub mod Key
pub mod Table
pub mod Clone
pub mod Shards
pub mod TryResult
pub mod Map
pub mod ReadOnly
pub mod DashSet
pub mod Concurrent
pub mod Rayon
pub mod Serde
pub mod Arbitrary
pub mod Tests
