-- ===== src/Bridge/Header/Guarded.antt =====
-- RocksDBBridge.cpp keeps what its header promises of null handles.
use rock_db_swift.System.{System}
