-- ===== src/Bridge/Header/Compression.antt =====
-- `RocksDBCompressionType` of RocksDBBridge.h.
use rock_db_swift.Prelude.{ℕ}

pub data RocksDbCompressionType : Type 0 where
  none snappy zlib bz2 lz4 lz4hc xpress zstd : RocksDbCompressionType

unfoldable pub compression_type_value : RocksDbCompressionType → ℕ
compression_type_value none = 0
compression_type_value snappy = 1
compression_type_value zlib = 2
compression_type_value bz2 = 3
compression_type_value lz4 = 4
compression_type_value lz4hc = 5
compression_type_value xpress = 6
compression_type_value zstd = 7
