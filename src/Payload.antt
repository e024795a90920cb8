-- ===== src/Payload.antt =====
-- v2/pkg/tcr/json.go: payloads, and reading the wrapped ones.
pub mod Roundtrip
use turbocookedrabbit.Letter.{Bytes, WrappedBody, ModdedBody, zero_modded_body}
use turbocookedrabbit.Config.{CompressionConfig, EncryptionConfig}
use turbocookedrabbit.Codec.{Library, Result, ok, err, ◌>>=◌, ◌>>◌}
use turbocookedrabbit.Compression.{
  compress_with_gzip, compress_with_zstd, decompress_with_gzip, decompress_with_zstd,
}
use turbocookedrabbit.Crypto.{encrypt_with_aes, decrypt_with_aes}
use turbocookedrabbit.Base.{
  ℕ, String, Bool, true, false, Option, none, some, [], if◌then◌else◌, str_eq,
}

abbrev pub zstd_compression_type : String
zstd_compression_type = "zstd"

module _ {Input : Type 0} (lib : Library Input) where
  -- Every type but "zstd" is gzip, and every type of encryption is AES.
  unfoldable pub handle_compression : CompressionConfig → Bytes → Bytes → Result Bytes
  handle_compression compression contents buffer =
      if str_eq compression.type zstd_compression_type
      then compress_with_zstd lib contents buffer
      else compress_with_gzip lib contents buffer

  -- The buffer is replaced.
  unfoldable pub handle_encryption : EncryptionConfig → Bytes → Bytes → Result Bytes
  handle_encryption encryption contents buffer = encrypt_with_aes lib contents encryption.hashkey 12

  unfoldable pub handle_decompression : CompressionConfig → Bytes → Result Bytes
  handle_decompression compression buffer =
      if str_eq compression.type zstd_compression_type
      then decompress_with_zstd lib buffer
      else decompress_with_gzip lib buffer

  unfoldable pub handle_decryption : EncryptionConfig → Bytes → Result Bytes
  handle_decryption encryption buffer = decrypt_with_aes lib buffer encryption.hashkey 12

  -- The two steps of a payload, with the bytes and the buffer at hand.
  unfoldable pub compressed : CompressionConfig → Bytes → Bytes → Result (Bytes × Bytes)
  compressed compression contents buffer =
      if compression.enabled
      then (do b ← handle_compression compression contents buffer; ok (b, b))
      else ok (contents, buffer)

  unfoldable pub encrypted : EncryptionConfig → Bytes → Bytes → Result Bytes
  encrypted encryption contents buffer =
      if encryption.enabled then handle_encryption encryption contents buffer else ok contents

  unfoldable pub create_payload : Input → CompressionConfig → EncryptionConfig → Result Bytes
  create_payload input compression encryption = do
    contents ← lib.marshal input
    (bytes, buffer) ← compressed compression contents []
    encrypted encryption bytes buffer

  -- The wrapper around the bytes; `now` is JSONUtcTimestamp's text.
  unfoldable pub wrap :
      ℕ → String → String → CompressionConfig → EncryptionConfig → Bytes → WrappedBody
  wrap letter_id metadata now compression encryption bytes = record {
    letter_id = letter_id;
    letter_metadata = metadata;
    body = record {
      encrypted = encryption.enabled;
      e_type = if encryption.enabled then encryption.type else "";
      compressed = compression.enabled;
      c_type = if compression.enabled then compression.type else "";
      utc_date_time = now;
      contents = bytes;
    };
  }

  unfoldable pub create_wrapped_payload :
      Input → ℕ → String → String → CompressionConfig → EncryptionConfig → Result Bytes
  create_wrapped_payload input letter_id metadata now compression encryption = do
    contents ← lib.marshal input
    (bytes, buffer) ← compressed compression contents []
    inner ← encrypted encryption bytes buffer
    lib.marshal_wrapped (wrap letter_id metadata now compression encryption inner)

  unfoldable pub decrypted : Option EncryptionConfig → Bytes → Result Bytes
  decrypted none buffer = ok buffer
  decrypted (some encryption) buffer =
      if encryption.enabled then handle_decryption encryption buffer else ok buffer

  unfoldable pub decompressed : Option CompressionConfig → Bytes → Result Bytes
  decompressed none buffer = ok buffer
  decompressed (some compression) buffer =
      if compression.enabled then handle_decompression compression buffer else ok buffer

  -- What the buffer holds after ReadPayload.
  unfoldable pub read_payload :
      Bytes → Option CompressionConfig → Option EncryptionConfig → Result Bytes
  read_payload buffer compression encryption = do
    b ← decrypted encryption buffer
    decompressed compression b

  unfoldable pub read_wrapped_body_from_json_bytes : Bytes → Result WrappedBody
  read_wrapped_body_from_json_bytes bytes = lib.unmarshal_wrapped bytes
