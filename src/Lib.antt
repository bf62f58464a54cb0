-- ===== src/Lib.antt =====
-- A verification library for RGraph, a graph database in Rust. It models four parts of the
-- program: the transaction subsystem (src/txn), the keys of the indexes (src/index), the write-ahead
-- log with the recovery from it (src/wal), and the pages of the data file (src/storage/page.rs and
-- src/storage/bitmap.rs).
--
-- How the parts interact. A transaction begins in the global state, which hands out its id and its
-- snapshot; it locks resources in the lock table, and under wound-wait an older transaction takes a
-- lock from a younger one; the manager drives all of these and the write-ahead log, and ends the
-- transaction by a commit or a rollback. A tuple version names its creator and its deleter, and the
-- snapshot decides whether the version is seen. The indexes keep entries in the byte order of their
-- keys; a property key holds an encoded value. The log writer turns records into bytes, buffers
-- them and flushes them to a segment file; after a crash the segments are scanned, the analysis
-- finds the transactions and the dirty pages, and the redo writes the images of the committed
-- transactions to the data file. The pages of that file are slotted pages: records grow from the
-- front, the directory of their slots from the end, and a record is named by the index of its slot.
--
-- The files and the code that they model:
-- - Txn.TxId: src/txn/txid.rs, the allocator of ids (TxIdAllocator).
-- - Txn.Snapshot: src/txn/snapshot.rs, the rule of visibility (Snapshot::is_visible).
-- - Txn.State: src/txn/state.rs (GlobalTxState). State.Interleaving splits the end of a transaction
--   into its critical section and its later advance of the horizon, between which other threads
--   run.
-- - Txn.LockTable: src/txn/lock_table.rs; LockTable.Entry is LockEntry and the part of try_acquire
--   and release under the shard's lock, LockTable the 1024 shards.
-- - Txn.WoundWait: src/txn/wound_wait.rs. Txn.Phantom: src/txn/phantom.rs. Txn.Mvcc:
--   src/txn/mvcc.rs.
-- - Txn.Manager: src/txn/manager.rs. Manager.Data is its data, Manager the methods begin, commit,
--   commit_with_indexes, rollback, abort_waiter, stage_index_mutation and record_write, and the arm
--   of the acquisition loops that wounds a holder. Manager.Acquire is a round of the loop of
--   acquire_lock up to the wait on its channel, and what follows the wait; it is one step, though
--   the code takes several mutexes in turn. Manager.Durable puts the log writer below commit.
-- - Index.Key: src/index/key.rs. Index.ValueCodec: src/index/value_codec.rs.
-- - Index.Property: src/index/property.rs, the key of an entry.
-- - Index.Prefix: src/index/prefix.rs.
-- - Wal.Record: src/wal/record.rs, the record, encode and decode; Record.Kind its kinds.
-- - Wal.Segment: the scan of a segment, which is load_single_segment of src/wal/aries.rs,
--   last_valid_offset of src/wal/writer.rs and the loop of recover of src/wal/recovery.rs.
--   Segment.Descriptor is SegmentDescriptor of src/wal/writer.rs.
-- - Wal.Lsn and Wal.Writer: src/wal/writer.rs, LSNs, and append, flush and the tests of the
--   counters.
-- - Wal.Aries: src/wal/aries.rs. Aries.Payload is the payloads of before-images and of undone work,
--   Aries.Analysis the first phase, Aries.Redo the second, Aries.Undo the third. Undo.Effect says,
--   independently of the code, what a record calls for when it is undone. A match on the
--   kind of a record is a function to its arms (arm_of) and functions on the arms (att_of, dpt_of).
--   The checksum of a raw page is that of src/storage/page.rs.
-- - Wal.Checkpoint: src/wal/checkpoint.rs, run and the payload of the record that ends a
--   checkpoint, over an interface of the buffer pool and the log writer (Checkpoint.Calls).
-- - Storage.Page: src/storage/page.rs, a page as its 8192 bytes: the header's fields, the slots, init,
--   delete, read and verify_checksum_bytes. Page.Insert is insert and insert_at, with the write
--   after the choice of a slot (insert_with) and what is written at an index (insert_slot_at);
--   Page.Compact is compact. Page.Valid has the invariant of a page and the records it holds by their
--   index, Page.Update what a change of one record leaves.
-- - Storage.Bitmap: src/storage/bitmap.rs, a bitmap page; Bitmap.Bit is about the bits of a byte.
-- - Prelude: names of the libraries passed on, Boolean tests, lists, maps, bytes, bits and
--   integers.
-- - Index.Examples, Txn.Examples, Wal.Examples and Storage.Examples apply the theorems at concrete
--   inputs.
--
-- Conventions. A machine integer is a native number with its wrap-around written out; an i64 is a
-- ℤ; an f64 is its 64 bits. A panic is `none`. The allocator's loop is on fuel, which two rounds
-- suffice for, and so are the scans of a segment, which take the count of its bytes, as a record
-- has at least 58. The undo follows a chain on fuel above its last LSN, which a chain that goes
-- back never uses up; it answers `none` when the fuel does not last. Every other loop is
-- structural. A HashMap is its lookup function, and the table of dirty pages, over which the code
-- iterates, a list in no order. A method under one mutex is one step. The log and the index
-- manager are interfaces of the manager (Manager.Data.Log, Indexes); for what a commit makes
-- durable, Manager.Durable fills the first with the log writer. Files are interfaces too: the
-- segment file of the writer (Writer.FileHandle, with the laws Writer.Durable.FileLaws) and the
-- data file (Redo.DataFile, with the laws Redo.Pages.FileIsThere). The checksums crc32c and
-- XxHash64 are parameters (Record.Checksums).
--
-- Not modelled: the errors of opening, measuring, reading and cutting a segment file in recover
-- and the scans of a segment, the waiting on channels between the rounds of acquire_lock,
-- acquire_range_lock and record_phantom_write, the choice of records by the checkpoint in
-- run_all_phases, the rotation and the opening of segments in a directory, group commit and double
-- writes, the B+ tree, the storage manager with the list of allocated pages and the cache of free
-- ones, the buffer pool, the graph and RDF stores, Cypher, and the server, command line and I/O,
-- which are glue or system calls.
pub mod Prelude
pub mod Index
pub mod Txn
pub mod Wal
pub mod Storage
