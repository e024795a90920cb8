-- ===== src/Compression.antt =====
-- v2/pkg/tcr/compression.go. A *bytes.Buffer is the bytes that it holds; what it holds after an error
-- is left out, since no caller looks at it.
use turbocookedrabbit.Letter.{Bytes}
use turbocookedrabbit.Codec.{Library, Result, ok, err, ◌>>=◌, ◌>>◌}
use turbocookedrabbit.Base.{◌++◌}

module _ {Input : Type 0} (lib : Library Input) where
  -- A writer puts its output behind what the buffer holds.
  unfoldable pub compress_with_gzip : Bytes → Bytes → Result Bytes
  compress_with_gzip contents buffer = do
    lib.gzip_write contents
    z ← lib.gzip_close contents
    ok (buffer ++ z)

  -- A copy that fails closes the writer, and hands on the error of that where it fails too.
  unfoldable pub zstd_copied : Result (Unit {0}) → Bytes → Bytes → Result Bytes
  zstd_copied (ok a) contents buffer = do z ← lib.zstd_close contents; ok (buffer ++ z)
  zstd_copied (err e) contents buffer = do z ← lib.zstd_close contents; err e

  unfoldable pub compress_with_zstd : Bytes → Bytes → Result Bytes
  compress_with_zstd contents buffer = do
    lib.zstd_writer
    zstd_copied (lib.zstd_copy contents) contents buffer

  unfoldable pub decompress_with_gzip : Bytes → Result Bytes
  decompress_with_gzip buffer = do
    lib.gzip_reader buffer
    contents ← lib.gzip_read_all buffer
    lib.gzip_reader_close buffer
    ok contents

  unfoldable pub decompress_with_zstd : Bytes → Result Bytes
  decompress_with_zstd buffer = do
    lib.zstd_reader buffer
    contents ← lib.zstd_read_all buffer
    ok contents
