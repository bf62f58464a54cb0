-- ===== src/Txn.antt =====
-- src/txn: transaction ids, snapshots, the global state, locks and the transaction manager.
pub mod TxId
pub mod Snapshot
pub mod State
pub mod LockTable
pub mod WoundWait
pub mod Phantom
pub mod Mvcc
pub mod Manager
mod Examples
