-- ===== src/Crypto/Aes.antt =====
-- Encryption gives back what it was given.
use turbocookedrabbit.Letter.{Bytes}
use turbocookedrabbit.Crypto.{effective_nonce_size, encrypt_with_aes, decrypt_with_aes}
use turbocookedrabbit.Codec.{Library, IsDocumented, ok, guard-ok, then-ok, bind-ok}
use turbocookedrabbit.Base.{
  ℕ, ◌≤◌, ◌≡◌, arith, take-append, ◌++◌, drop-append, ◌<◌, length, length-append, ◌==◌, ◌||◌, subst,
  take, drop, ap₂, ◌∙◌, sym,
}

module _ {Input : Type 0} (lib : Library Input) where
  -- What an encryption that succeeds has done.
  encrypt_lem :
      (contents key : Bytes) (n : ℕ) {z : Bytes}
      → encrypt_with_aes lib contents key n ≡ ok z
      → (nonce : Bytes) × (lib.new_cipher key ≡ ok tt)
        × (lib.new_gcm (effective_nonce_size n) ≡ ok tt)
        × (lib.random (effective_nonce_size n) ≡ ok nonce)
        × (z ≡ nonce ++ lib.seal key nonce contents)
        × (0 < length key)
        × (0 < length contents)
  unfolding encrypt_with_aes
  encrypt_lem contents key n e =
      let (given, e₁) = guard-ok (length contents == 0 || length key == 0) _ _ e in
      let (_, q₁, e₂) = then-ok (lib.new_cipher key) _ e₁ in
      let (_, q₂, e₃) = then-ok (lib.new_gcm (effective_nonce_size n)) _ e₂ in
      let (nonce, q₃, e₄) = bind-ok (lib.random (effective_nonce_size n)) _ e₃ in
      let sealed = nonce ++ lib.seal key nonce contents in
      let (_, e₅) = guard-ok (length sealed == 0) _ _ e₄ in
      (nonce, q₁, q₂, q₃, cc e₅, ground arith, ground arith)

  -- A nonce's size from 12 to 32 is used as it is.
  size_kept : (n : ℕ) → 12 ≤ n → n ≤ 32 → effective_nonce_size n ≡ n
  unfolding effective_nonce_size
  size_kept n h k = ground arith

  decrypt_step :
      (z key contents : Bytes) (n : ℕ)
      → 0 < length key
      → n < length z
      → lib.new_cipher key ≡ ok tt
      → lib.new_gcm n ≡ ok tt
      → lib.open_ key (take n z) (drop n z) ≡ ok contents
      → decrypt_with_aes lib z key n ≡ ok contents
  unfolding decrypt_with_aes
  decrypt_step z key contents n h k q₁ q₂ q₃ = ground arith

  module _ (doc : IsDocumented lib) where
    -- DecryptWithAes, under the nonce size that the encryption used.
    decrypt-encrypt_size :
        (contents key : Bytes) (n : ℕ) {z : Bytes}
        → encrypt_with_aes lib contents key n ≡ ok z
        → decrypt_with_aes lib z key (effective_nonce_size n) ≡ ok contents
    decrypt-encrypt_size contents key n {z} e =
        let (nonce, q₁, q₂, q₃, out, has_key, has_contents) = encrypt_lem contents key n e in
        let size = effective_nonce_size n in
        let tail = lib.seal key nonce contents in
        let long = doc.length-random size q₃ in
        let head = take-append size nonce tail long in
        let rest = drop-append size nonce tail long in
        let back = doc.open_seal key nonce contents q₁ (rw long q₂) in
        let opened : lib.open_ key (take size (nonce ++ tail)) (drop size (nonce ++ tail))
            ≡ ok contents =
          ap₂ (λ a b. lib.open_ key a b) head rest ∙ back in
        subst (λ x. decrypt_with_aes lib x key size ≡ ok contents) (sym out)
          (decrypt_step (nonce ++ tail) key contents size has_key
            (omega (arith, long, length-append nonce tail, doc.length-seal key nonce contents)) q₁
            q₂ opened)

    -- DecryptWithAes gives back what EncryptWithAes was given, under the same key and one size of the
    -- nonce from 12 to 32, whenever the encryption succeeds.
    pub decrypt-encrypt :
        (contents key : Bytes) (n : ℕ) {z : Bytes}
        → 12 ≤ n
        → n ≤ 32
        → encrypt_with_aes lib contents key n ≡ ok z
        → decrypt_with_aes lib z key n ≡ ok contents
    decrypt-encrypt contents key n {z} h k e =
        subst (λ m. decrypt_with_aes lib z key m ≡ ok contents) (size_kept n h k)
          (decrypt-encrypt_size contents key n e)

  -- Without a key nothing is encrypted, and nothing that was encrypted is empty.
  pub encrypt_needs_key :
      (contents key : Bytes) (n : ℕ) {z : Bytes}
      → encrypt_with_aes lib contents key n ≡ ok z
      → 0 < length key
  encrypt_needs_key contents key n e =
      let (_, _, _, _, _, has_key, _) = encrypt_lem contents key n e in has_key
