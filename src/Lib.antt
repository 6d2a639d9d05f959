-- ===== src/Lib.antt =====
-- A verification library for beetree, a Bε-tree storage engine.
--
-- The program. A write becomes a message (put, delete, upsert) that settles in the buffer of the
-- root and moves toward the leaves in batches; leaves hold materialised entries. A read folds the
-- messages on its way from the root to a leaf. The reference engine, a plain map, says what an
-- engine answers. Every engine records its public operations, and a trace can be replayed.
-- The disk engine keeps the nodes as records of one file: a commit appends the changed nodes, syncs,
-- writes the new root to the older of two superblock slots and syncs again; opening resumes from the
-- newest superblock. Nodes are loaded on first access, and a budgeted cache evicts clean ones. All
-- input and output goes through a file system interface, behind which tests put a faulty device.
--
-- The files.
--   Prelude      names of the libraries, Boolean tests, lists over the native numbers.
--   Bytes        little-endian integers, as `to_le_bytes` and `from_le_bytes` treat them.
--   Key          src/types.rs: `Key`, with the order of byte slices.
--   BTreeMap     the standard library's `BTreeMap`, as the sorted list of its entries.
--   Message      src/types.rs: `UpsertOp`, `Message` and `Message::coalesce`.
--   Node         src/node.rs: nodes, `route`, `apply_to_leaf`, `coalesce_into`, the bounds of
--                ranges, `partition_sizes`.
--   Engine       src/engine.rs: the interface `KvEngine`; src/types.rs: `Params`.
--   Policy       src/policy.rs: `FlushCtx`, `FlushPolicy`, `GreedyFullest`, `entry_bytes`.
--   Trace        src/trace.rs: the two vocabularies, `Recorder`, `replay`, `replay2`.
--   Naive        src/naive.rs: `NaiveEngine`.
--   Tree         src/betree.rs: Arena is the state of `BeTree` and its nodes, Split `split_leaf`,
--                `split_internal` and `integrate_splits`, Flush `pick_and_extract`, `apply_batch`,
--                `remove_child` and `settle`, Cascade `flush_with`, Root `restore_root_with`,
--                `apply_root` and the public writes, Get and Scan the reads.
--                Split/Hang and Flush/Removal are about routing in a parent whose children change.
--                View holds the tree of an arena as a value, and what `get` and `split_leaf` do
--                to it.
--   Vfs          src/vfs.rs: Faulty is `FaultyVfs`, the device with a log and crash images, Counting
--                the trait `Vfs` and `CountingVfs`. Replay, Crash, Synced and Survival hold the
--                proofs about crashes, Transparent those about counting.
--   U64Map       `BTreeMap<u64, V>`, as the sorted list of its entries.
--   Format       src/format.rs: superblock slots and node payloads. bincode and crc32fast are a
--                parameter, `Codec`, and `IsCodec` says what the format relies on.
--   Disk         src/disk.rs: the state of `DiskEngine`. Cache is `touch` and `enforce_budget`,
--                Arena the slots, Load `read_record` and `ensure_loaded`, Commit the collection of
--                records, Publish the writes and syncs of `commit`, Open `open_on_with` and
--                `create_on_with`, Get `try_get` and the walks over the live tree, Split, Flush, Cascade,
--                Write and Scan the tree algorithm over slots, which follows Tree. Poison and
--                the modules under Commit hold the proofs about `commit` in memory (Collected the
--                walk over dirty nodes, Pointers what stands for children, Stored and Serialized the
--                records), Poison/Writes those about
--                writes that fail, Mirror the relation between an engine with all nodes in memory
--                and a tree of the same nodes, and the writes on both, Get/Resident and Scan/Resident
--                the reads on both. Recovery holds the proofs about opening, crashes and commits on the
--                device of Vfs.
--   Check        src/check.rs: Violation is what it reports (src/types.rs), Nodes the checks of one
--                node, Check itself the frames and the walk, Sources how the engines of
--                src/betree.rs and src/disk.rs resolve nodes. Valid states the invariants I1-I7.
--                Overlay, Steps, Depth, Walked, Subtrees and Sound hold the proofs about what is
--                accepted, Passes, Through and Complete those about what is not refused, Spine and
--                Trees those about trees in memory, Reports that about corrupt nodes.
--                Disk/Full is `check_invariants_full`.
--   Examples     concrete inputs of the theorems.
--   Runs         a test run of the tree.
--
-- How the code is read. A method takes the state and returns the new one; `none` is a panic, such
-- as an index out of range or a failed assertion. A byte is a number below 256, and an `i64` is
-- its two's-complement bit pattern, so that `wrapping_add` is addition modulo 2 ^ 64. Counters of
-- type `u64` wrap, as in a release build; `debug_assert!` is no part of that build. A `usize` has 64
-- bits, and memory does not run out. A read leaves the state of a file system as it is: the counters
-- of `CountingVfs`, which reads change, stand beside the device. A flush policy is a choice function with a state, a parameter
-- of the tree's operations.
--
-- Fuel. `partition_sizes n cap` has n + 1 rounds: each call halves its number. The walk of `get`
-- has a round for each node of the arena, and so has the search of a subtree for messages. The
-- cascade of flushes, the settling of the root and the frames of a scan take their fuel as an
-- argument, and so do `try_get` and the walks of the disk engine; `none` also means that it ran out.
-- The writes of the disk engine take two: `fuel` bounds the rounds of a cascade and of the settling of
-- the root, `visits` those of its scan for a flush and of the search for a dirty child.
-- The invariant checker takes its fuel as an argument: a round for each frame, two for each node, and
-- one for the empty stack.
-- The walk over dirty nodes in `commit` has a round more than there are slots, and one for the
-- end: the dirty nodes form a tree, so each is visited once.
--
-- Not modelled: files and process counters
-- (`FileVfs`, `proc_self_io`), the simulated commits and forks
-- of src/betree.rs, the JSON text of traces, workload generation and the measurement programs.
pub mod Prelude
pub mod Bytes
pub mod Key
pub mod BTreeMap
pub mod Message
pub mod Node
pub mod Engine
pub mod Policy
pub mod Trace
pub mod Naive
pub mod Tree
pub mod Vfs
pub mod Format
pub mod U64Map
pub mod Disk
pub mod Check
pub mod Examples
pub mod Runs
