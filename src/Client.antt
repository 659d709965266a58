-- ===== src/Client.antt =====
-- Sources/RocksDBSwift: the Swift wrapper over the bridge.
pub mod Error
pub mod Options
pub mod AccessOptions
pub mod Database
pub mod Text
pub mod Maintenance
pub mod Batch
pub mod Iterator
pub mod Scan
pub mod Transaction
pub mod Transact
pub mod Closed
pub mod Store
pub mod Lifecycle
pub mod Locked
