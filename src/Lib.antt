-- ===== src/Lib.antt =====
-- RocksDB.swift: a Swift wrapper of the RocksDB library, in three layers. Sources/CRocksDB is a
-- bridge in C++ with a C interface: most functions guard against null handles; each calls the library
-- once or twice and turns its status into a C status with an allocated message.
-- Sources/RocksDBSwift wraps the bridge in classes: it makes option handles for the time of a call,
-- copies results, frees what the bridge allocated and turns a C status into a Swift error.
-- Sources/RocksDBSwiftLite is a smaller wrapper over the same bridge.
--
-- Modules and the code they model:
--   Prelude, Prelude/*      shared names, Boolean tests, Swift's Int and its conversions
--   System                  what the program calls: the library (lib/include/rocksdb), malloc,
--                           Foundation's UTF-8; one record of operations on an unknown state, a
--                           parameter of everything else
--   System/*                the library's data that the bridge makes, fills and passes, with the
--                           defaults of its constructors: Status, ReadOptions and WriteOptions,
--                           FlushOptions, CompactRangeOptions and Range, part of DBOptions, the
--                           compression types
--   Memory                  the C heap, faults, commands (state passing with faults), malloc, strdup,
--                           new, delete, `defer`
--   Memory/Effects          commands that return and leave the heap as it was
--   Memory/Creations        commands that leave one new cell
--   Bridge/*                Sources/CRocksDB/RocksDBBridge.cpp and include/RocksDBBridge.h, one file
--                           for each of its sections; a function keeps its name
--   Bridge/*/Live, */Fresh  the bridge's functions on live and on new handles
--   Bridge/Header           include/RocksDBBridge.h as an interface: a record of operations for each
--                           of its sections, its implementation by the bridge, and its law on null
--                           handles
--   Bridge/Maintenance/Sizes
--                           the loop over the ranges of GetApproximateSizes
--   Client/Error            Sources/RocksDBSwift/RocksDBError.swift
--   Client/Options, Client/AccessOptions
--                           Sources/RocksDBSwift/RocksDBOptions.swift
--   Client/Database, Client/Text, Client/Maintenance, Client/Scan
--                           Sources/RocksDBSwift/RocksDB.swift: opening, closing, get and put; the
--                           methods on strings; maintenance; forEach and forEachWithPrefix
--   Client/Iterator         Sources/RocksDBSwift/RocksDBIterator.swift and makeIterator
--   Client/Batch            Sources/RocksDBSwift/RocksDBBatch.swift, writeBatch and batch
--   Client/Transaction, Client/Transact
--                           Sources/RocksDBSwift/RocksDBTransaction.swift, beginTransaction and
--                           transaction
--   Client/Closed           operations on closed databases
--   Client/Store            the map that a database is, and sequences of put, delete and get on it
--   Client/Lifecycle        the methods as steps of one object's life; what every step preserves
--   Client/Locked           `lock.withLock { … }`: the bodies of the five classes' members that hold
--                           the lock, access by access (Databases, Batches, Iterators,
--                           Transactions, Lites), and threads that share one object (Threads,
--                           Members)
--   Client/Locked/Mutex     NSRecursiveLock of Foundation, a parameter with its documented behaviour
--   Client/Locked/Turns, Client/Locked/Serialised
--                           what the lock gives for any class that always takes it
--   Client/Locked/Stores, Client/Locked/Life
--                           threads that use a database as a map, and its life
--   Lite                    Sources/RocksDBSwiftLite/RocksDBLite.swift
--   children of a Client module: the theorems on it
--   Client/Transact/Life    the methods of a transaction as steps of its life
--   Lite/*                  the theorems on Lite, and its agreement with Client
--   Tests/*                 a small concrete library, and runs of the model on it
--
-- Correspondence. A Swift method is a command, a function from a world (heap, next address, state of
-- the library) to a result and a world, or to a fault: a dangling access, a call that the library's
-- documentation forbids, a Swift trap, or too little fuel. A function that throws returns a `Throws`.
-- A method that changes its object returns the new one; Swift's camelCase is snake_case here, and an
-- overload on strings ends in `_string`. A class's `deinit` is `close` or `release`. An argument
-- label is dropped: `put(value, forKey: key)` is `put value key`.
--
-- Fuel: the loops of forEach and forEachWithPrefix take a number of rounds; more than the number of
-- entries that the iterator has before it are enough. The loop of rocksdb_get_approximate_sizes takes
-- one round for each range. Nothing else loops.
--
-- Threads. A body that holds the lock is a script: commands of the bridge and accesses to the object's
-- fields, one after the other, between which another thread may move. A thread has a list of calls
-- and stands outside the methods or inside one, with the rest of its script; it waits for the lock
-- where the member takes it (`takes_lock`), and for nothing where it does not. The three methods that
-- open make a new object and take no lock; `forEach`, `forEachWithPrefix`, `batch` and `transaction`
-- take it in the methods that they call, and not around the caller's closure.
--
-- Not modelled: the library itself, whose documented behaviour is a named hypothesis where a theorem
-- needs it; threads that share several objects at a time; failure of `new`; address reuse. Of the
-- library's Options, the fields outside the listed part of DBOptions that the bridge does not assign
-- are not listed one by one: they are the field `extra`.
pub mod Prelude
pub mod System
pub mod Memory
pub mod Bridge
pub mod Client
pub mod Lite
pub mod Tests
