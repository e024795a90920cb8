-- ===== src/Examples/Payloads.antt =====
-- Payloads over plain stand-ins for the libraries: a byte in front marks compressed data, a seal is
-- the data behind a tag of zeros.
use turbocookedrabbit.Letter.{Bytes, WrappedBody}
use turbocookedrabbit.Config.{CompressionConfig, EncryptionConfig}
use turbocookedrabbit.Codec.{Library, IsDocumented, ok, err}
use turbocookedrabbit.Compression.{compress_with_gzip}
use turbocookedrabbit.Crypto.{
  encrypt_with_aes, decrypt_with_aes, effective_nonce_size, compare_argon2_hash,
  get_hash_with_argon,
}
use turbocookedrabbit.Crypto.Aes.{decrypt-encrypt}
use turbocookedrabbit.Crypto.Argon.{compare_argon2_hash-rejects}
use turbocookedrabbit.Amqp.{hash_was_nil}
use turbocookedrabbit.Payload.{
  create_payload, create_wrapped_payload, read_payload, compressed, encrypted, wrap,
  handle_compression, handle_encryption,
}
use turbocookedrabbit.Payload.Roundtrip.{
  read_payload-create_payload, read_payload-create_wrapped_payload, create_payload_needs_key,
}
use turbocookedrabbit.Base.{
  [], ◌∷◌, ◌≡◌, ◌<◌, ◌++◌, length, drop, replicate, length-replicate, refl, some, true, false,
  arith, ℕ,
}

abbrev pub lib : Library Bytes
lib = record {
  gzip_write = λ bytes. ok tt;
  gzip_close = λ bytes. ok (31 ∷ bytes);
  gzip_reader = λ z. ok tt;
  gzip_read_all = λ z. ok (drop 1 z);
  gzip_reader_close = λ z. ok tt;
  zstd_writer = ok tt;
  zstd_copy = λ bytes. ok tt;
  zstd_close = λ bytes. ok (40 ∷ bytes);
  zstd_reader = λ z. ok tt;
  zstd_read_all = λ z. ok (drop 1 z);
  new_cipher = λ key. ok tt;
  new_gcm = λ n. ok tt;
  random = λ n. ok (replicate n 7);
  seal = λ key nonce bytes. replicate 16 0 ++ bytes;
  open_ = λ key nonce sealed. ok (drop 16 sealed);
  id_key = λ passphrase salt t m p n. some (replicate n 1);
  encode_base64 = λ bytes. "hash";
  marshal = λ input. ok input;
  marshal_wrapped = λ w. ok w.body.contents;
  unmarshal_wrapped = λ bytes. err hash_was_nil;
}

lib-IsDocumented : IsDocumented lib
lib-IsDocumented = record {
  gzip_back = λ bytes e. (refl, ground (arith, e), refl);
  zstd_back = λ bytes e. (refl, ground (arith, e));
  open_seal = λ key nonce bytes e f. refl;
  length-seal = λ key nonce bytes. omega arith;
  length-random = λ n {nonce} e. ground (arith, e, length-replicate {A = ℕ} n 7);
}

abbrev zipped : CompressionConfig
zipped = record { enabled = true; type = "gzip" }

abbrev locked : EncryptionConfig
locked = record {
  enabled = true;
  type = "aes";
  hashkey = 5 ∷ 6 ∷ [];
  time_consideration = 1;
  memory_multiplier = 64;
  threads = 2;
}

abbrev text : Bytes
text = 104 ∷ 105 ∷ []

-- The nonce, the tag, and the compressed text.
abbrev sealed_text : Bytes
sealed_text = replicate 12 7 ++ (replicate 16 0 ++ (31 ∷ text))

decrypt-encrypt_example :
    decrypt_with_aes lib (replicate 13 7 ++ (replicate 16 0 ++ text)) (9 ∷ []) 13 ≡ ok text
unfolding encrypt_with_aes effective_nonce_size
decrypt-encrypt_example =
    decrypt-encrypt lib lib-IsDocumented text (9 ∷ []) 13 (omega arith) (omega arith) refl

read_payload-create_payload_example :
    read_payload lib sealed_text (some zipped) (some locked) ≡ ok text
unfolding create_payload compressed encrypted handle_compression handle_encryption
    compress_with_gzip encrypt_with_aes effective_nonce_size
read_payload-create_payload_example =
    read_payload-create_payload lib lib-IsDocumented text zipped locked refl refl

read_payload-create_wrapped_payload_example :
    (w : WrappedBody) × (lib.marshal_wrapped w ≡ ok sealed_text)
    × (w.letter_id ≡ 42)
    × (w.letter_metadata ≡ "meta")
    × (w.body.compressed ≡ true)
    × (w.body.encrypted ≡ true)
    × (read_payload lib w.body.contents (some zipped) (some locked) ≡ ok text)
unfolding create_wrapped_payload wrap compressed encrypted handle_compression handle_encryption
    compress_with_gzip encrypt_with_aes effective_nonce_size
read_payload-create_wrapped_payload_example =
    read_payload-create_wrapped_payload lib lib-IsDocumented text 42 "meta" "now" zipped locked refl
      refl

create_payload_needs_key_example : 0 < length locked.hashkey
unfolding create_payload compressed encrypted handle_compression handle_encryption
    compress_with_gzip encrypt_with_aes effective_nonce_size
create_payload_needs_key_example =
    create_payload_needs_key lib text zipped locked {z = sealed_text} refl refl

compare_argon2_hash-rejects_example :
    compare_argon2_hash lib "secret" "salt" 64 (replicate 32 1) ≡ (false, some hash_was_nil)
unfolding get_hash_with_argon
compare_argon2_hash-rejects_example =
    compare_argon2_hash-rejects lib "secret" "salt" 64 (replicate 32 1) (omega arith)
