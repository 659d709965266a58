-- ===== src/System/Compression.antt =====
-- `rocksdb::CompressionType` (lib/include/rocksdb/compression_type.h), an enumeration over bytes.
use rock_db_swift.Prelude.{ℕ}

pub data CompressionType : Type 0 where
  no_compression snappy_compression zlib_compression bzip2_compression : CompressionType
  lz4_compression lz4hc_compression xpress_compression zstd : CompressionType
  zstd_not_final_compression disable_compression_option : CompressionType

unfoldable pub compression_value : CompressionType → ℕ
compression_value no_compression = 0x0
compression_value snappy_compression = 0x1
compression_value zlib_compression = 0x2
compression_value bzip2_compression = 0x3
compression_value lz4_compression = 0x4
compression_value lz4hc_compression = 0x5
compression_value xpress_compression = 0x6
compression_value zstd = 0x7
compression_value zstd_not_final_compression = 0x40
compression_value disable_compression_option = 0xff
