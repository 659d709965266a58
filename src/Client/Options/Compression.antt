-- ===== src/Client/Options/Compression.antt =====
-- The three numberings of the compression types: RocksDBOptions.swift, RocksDBBridge.h, the library.
use rock_db_swift.Prelude.{◌≡◌, refl}
use rock_db_swift.Prelude.Int.{pos, to_byte}
use rock_db_swift.System.Compression.{CompressionType, compression_value}
use rock_db_swift.Bridge.Header.Compression.{RocksDbCompressionType, compression_type_value}
use rock_db_swift.Client.Options.{
  RocksDbCompression, uncompressed, snappy, zlib, bz2, lz4, lz4hc, xpress, zstd, raw_value,
}

-- The constants of the other two enumerations that a Swift case is meant for, by their names.
abbrev pub header_type : RocksDbCompression → RocksDbCompressionType
header_type uncompressed = RocksDbCompressionType.none
header_type snappy = RocksDbCompressionType.snappy
header_type zlib = RocksDbCompressionType.zlib
header_type bz2 = RocksDbCompressionType.bz2
header_type lz4 = RocksDbCompressionType.lz4
header_type lz4hc = RocksDbCompressionType.lz4hc
header_type xpress = RocksDbCompressionType.xpress
header_type zstd = RocksDbCompressionType.zstd

abbrev pub library_type : RocksDbCompression → CompressionType
library_type uncompressed = CompressionType.no_compression
library_type snappy = CompressionType.snappy_compression
library_type zlib = CompressionType.zlib_compression
library_type bz2 = CompressionType.bzip2_compression
library_type lz4 = CompressionType.lz4_compression
library_type lz4hc = CompressionType.lz4hc_compression
library_type xpress = CompressionType.xpress_compression
library_type zstd = CompressionType.zstd

-- Each compression type has one number in RocksDBOptions.swift, in RocksDBBridge.h and, as a byte,
-- in the library's enumeration.
pub raw_value-compression_value :
    (c : RocksDbCompression)
    → (raw_value c ≡ pos (compression_type_value (header_type c)))
      × (to_byte (raw_value c) ≡ compression_value (library_type c))
unfolding raw_value compression_type_value compression_value
raw_value-compression_value uncompressed = (refl, refl)
raw_value-compression_value snappy = (refl, refl)
raw_value-compression_value zlib = (refl, refl)
raw_value-compression_value bz2 = (refl, refl)
raw_value-compression_value lz4 = (refl, refl)
raw_value-compression_value lz4hc = (refl, refl)
raw_value-compression_value xpress = (refl, refl)
raw_value-compression_value zstd = (refl, refl)
