-- ===== src/Bridge.antt =====
-- Sources/CRocksDB: RocksDBBridge.cpp and its header, function by function. A null pointer is 0;
-- a key or a value with its length is a byte string.
pub mod Status
pub mod Options
pub mod AccessOptions
pub mod Database
pub mod Batch
pub mod Iterator
pub mod Transaction
pub mod Maintenance
pub mod Header
