-- ===== src/Payload/Roundtrip.antt =====
-- Reading a payload gives back what went into it.
use turbocookedrabbit.Crypto.Aes.{encrypt_needs_key, decrypt-encrypt}
use turbocookedrabbit.Letter.{Bytes, WrappedBody}
use turbocookedrabbit.Config.{CompressionConfig, EncryptionConfig}
use turbocookedrabbit.Compression.{
  zstd_copied, compress_with_gzip, decompress_with_gzip, compress_with_zstd, decompress_with_zstd,
}
use turbocookedrabbit.Payload.{
  encrypted, compressed, create_payload, decrypted, handle_compression, handle_encryption,
  read_payload, decompressed, handle_decompression, handle_decryption, zstd_compression_type,
  create_wrapped_payload, wrap,
}
use turbocookedrabbit.Codec.{Library, IsDocumented, Result, ok, then-ok, bind-ok, err}
use turbocookedrabbit.Base.{
  ℕ, true, [], ◌≡◌, Bool-cases, some, ◌<◌, inl, length, str_eq, if-true, sym, ◌∙◌, ap, arith, inr,
  if-false, String, refl,
}

module _ {Input : Type 0} (lib : Library Input) where
  -- A payload with encryption enabled is never made without a key.
  encrypted_needs_key :
      (encryption : EncryptionConfig) (contents buffer : Bytes) {z : Bytes}
      → encryption.enabled ≡ true
      → encrypted lib encryption contents buffer ≡ ok z
      → 0 < length encryption.hashkey
  unfolding encrypted handle_encryption
  encrypted_needs_key encryption contents buffer on e =
      encrypt_needs_key lib contents encryption.hashkey 12 (sym (if-true _ _ on) ∙ e)

  zstd_copied-ok :
      (r : Result (Unit {0})) (contents : Bytes) {z : Bytes}
      → zstd_copied lib r contents [] ≡ ok z
      → lib.zstd_close contents ≡ ok z
  unfolding zstd_copied
  zstd_copied-ok (ok a) contents {z} e =
      let (z', q, e₁) = bind-ok (lib.zstd_close contents) _ e in
      let same : z' ≡ z = cc in q ∙ ap ok same
  zstd_copied-ok (err x) contents e = let (z', q, e₁) = bind-ok (lib.zstd_close contents) _ e in cc

  module _ (doc : IsDocumented lib) where
    gzip_back :
        (contents : Bytes) {z : Bytes}
        → compress_with_gzip lib contents [] ≡ ok z
        → decompress_with_gzip lib z ≡ ok contents
    unfolding compress_with_gzip decompress_with_gzip
    gzip_back contents {z} e =
        let (_, _, e₁) = then-ok (lib.gzip_write contents) _ e in
        let (z', q, e₂) = bind-ok (lib.gzip_close contents) _ e₁ in
        let same : z' ≡ z = cc in
        let (a, b, c) = doc.gzip_back contents (q ∙ ap ok same) in simp (a, b, c)

    zstd_back :
        (contents : Bytes) {z : Bytes}
        → compress_with_zstd lib contents [] ≡ ok z
        → decompress_with_zstd lib z ≡ ok contents
    unfolding compress_with_zstd decompress_with_zstd
    zstd_back contents e =
        let (_, _, e₁) = then-ok lib.zstd_writer _ e in
        let (a, b) = doc.zstd_back contents (zstd_copied-ok (lib.zstd_copy contents) contents e₁) in
        simp (a, b)

    decompress-compress :
        (compression : CompressionConfig) (contents : Bytes) {z : Bytes}
        → handle_compression lib compression contents [] ≡ ok z
        → handle_decompression lib compression z ≡ ok contents
    unfolding handle_compression handle_decompression
    decompress-compress compression contents e =
        elim (Bool-cases (str_eq compression.type zstd_compression_type)) [
          | inl zstd ↦ if-true _ _ zstd ∙ zstd_back contents (sym (if-true _ _ zstd) ∙ e)
          | inr gzip ↦ if-false _ _ gzip ∙ gzip_back contents (sym (if-false _ _ gzip) ∙ e)
        ]

    decompressed-compressed :
        (compression : CompressionConfig) (contents bytes buffer : Bytes)
        → compressed lib compression contents [] ≡ ok (bytes, buffer)
        → decompressed lib (some compression) bytes ≡ ok contents
    unfolding compressed decompressed
    decompressed-compressed compression contents bytes buffer e =
        elim (Bool-cases compression.enabled) [
          | inl on ↦
              let (b, q, r) =
                bind-ok (handle_compression lib compression contents []) _
                  (sym (if-true _ _ on) ∙ e) in
              let same : b ≡ bytes = cc in
              if-true _ _ on ∙ decompress-compress compression contents (q ∙ ap ok same)
          | inr off ↦ if-false _ _ off ∙ ap ok (cc (sym (if-false _ _ off) ∙ e))
        ]

    decrypted-encrypted :
        (encryption : EncryptionConfig) (contents buffer : Bytes) {z : Bytes}
        → encrypted lib encryption contents buffer ≡ ok z
        → decrypted lib (some encryption) z ≡ ok contents
    unfolding encrypted decrypted handle_encryption handle_decryption
    decrypted-encrypted encryption contents buffer {z} e = elim (Bool-cases encryption.enabled) [
      | inl on ↦
          if-true _ _ on
          ∙ decrypt-encrypt lib doc contents encryption.hashkey 12 (omega arith) (omega arith)
              (sym (if-true _ _ on) ∙ e)
      | inr off ↦ if-false _ _ off ∙ sym (sym (if-false _ _ off) ∙ e)
    ]

    -- ReadPayload of the two steps.
    read-written :
        (compression : CompressionConfig) (encryption : EncryptionConfig)
        (contents bytes buffer : Bytes) {z : Bytes}
        → compressed lib compression contents [] ≡ ok (bytes, buffer)
        → encrypted lib encryption bytes buffer ≡ ok z
        → read_payload lib z (some compression) (some encryption) ≡ ok contents
    unfolding read_payload
    read-written compression encryption contents bytes buffer e f = simp (
      decrypted-encrypted encryption bytes buffer f,
      decompressed-compressed compression contents bytes buffer e,
    )

    -- ReadPayload, with the configurations that CreatePayload had, gives back the JSON of the input,
    -- for every type of compression and encryption, each enabled or not, whenever CreatePayload
    -- succeeds.
    pub read_payload-create_payload :
        (input : Input) (compression : CompressionConfig) (encryption : EncryptionConfig)
        {contents z : Bytes}
        → lib.marshal input ≡ ok contents
        → create_payload lib input compression encryption ≡ ok z
        → read_payload lib z (some compression) (some encryption) ≡ ok contents
    unfolding create_payload
    read_payload-create_payload input compression encryption {contents} {z} m e =
        let (c, q, e₁) = bind-ok (lib.marshal input) _ e in
        let ((bytes, buffer), q₁, e₂) = bind-ok (compressed lib compression c []) _ e₁ in
        let same : c ≡ contents = cc in
        read-written compression encryption c bytes buffer q₁ e₂ ∙ ap ok same

    -- CreateWrappedPayload, when it succeeds, marshals a wrapper that bears the letter's number and the
    -- metadata, tells truly whether its contents are compressed and encrypted, and from whose contents
    -- ReadPayload, with the same configurations, gives back the JSON of the input.
    pub read_payload-create_wrapped_payload :
        (input : Input) (letter_id : ℕ) (metadata now : String) (compression : CompressionConfig)
        (encryption : EncryptionConfig) {contents z : Bytes}
        → lib.marshal input ≡ ok contents
        → create_wrapped_payload lib input letter_id metadata now compression encryption ≡ ok z
        → (w : WrappedBody) × (lib.marshal_wrapped w ≡ ok z)
          × (w.letter_id ≡ letter_id)
          × (w.letter_metadata ≡ metadata)
          × (w.body.compressed ≡ compression.enabled)
          × (w.body.encrypted ≡ encryption.enabled)
          × (read_payload lib w.body.contents (some compression) (some encryption) ≡ ok contents)
    unfolding create_wrapped_payload wrap
    read_payload-create_wrapped_payload input letter_id metadata now compression encryption
          {contents} m e =
        let (c, q, e₁) = bind-ok (lib.marshal input) _ e in
        let ((bytes, buffer), q₁, e₂) = bind-ok (compressed lib compression c []) _ e₁ in
        let (inner, q₂, e₃) = bind-ok (encrypted lib encryption bytes buffer) _ e₂ in
        let same : c ≡ contents = cc in
        (
          wrap lib letter_id metadata now compression encryption inner,
          e₃,
          refl,
          refl,
          refl,
          refl,
          read-written compression encryption c bytes buffer q₁ q₂ ∙ ap ok same,
        )

  -- With encryption enabled CreatePayload makes no payload while there is no key.
  pub create_payload_needs_key :
      (input : Input) (compression : CompressionConfig) (encryption : EncryptionConfig) {z : Bytes}
      → encryption.enabled ≡ true
      → create_payload lib input compression encryption ≡ ok z
      → 0 < length encryption.hashkey
  unfolding create_payload
  create_payload_needs_key input compression encryption on e =
      let (c, q, e₁) = bind-ok (lib.marshal input) _ e in
      let ((bytes, buffer), q₁, e₂) = bind-ok (compressed lib compression c []) _ e₁ in
      encrypted_needs_key encryption bytes buffer on e₂
