-- ===== src/Crypto.antt =====
-- v2/pkg/tcr/crypto.go. An int below 1 as a nonce's size is 0 here: EncryptWithAes replaces both, and
-- the library refuses both in DecryptWithAes.
pub mod Aes
pub mod Argon
use turbocookedrabbit.Amqp.{
  Error, empty_data_or_key, empty_cipher_data_or_key, seal_failed, hash_was_nil,
}
use turbocookedrabbit.Letter.{Bytes}
use turbocookedrabbit.Codec.{Library, Result, ok, err, ◌>>=◌, ◌>>◌}
use turbocookedrabbit.Base.{
  ℕ, String, Bool, true, false, Option, none, some, [], ◌∷◌, ◌++◌, length, ltb, leb, ◌==◌, ◌||◌,
  ◌&&◌, ◌*◌, ◌%◌, ◌^◌, if◌then◌else◌, str_eq, take, drop,
}

-- defaultNonceSize.
abbrev pub default_nonce_size : ℕ
default_nonce_size = 12

unfoldable pub effective_nonce_size : ℕ → ℕ
effective_nonce_size n = if ltb n 12 || ltb 32 n then default_nonce_size else n

-- subtle.ConstantTimeCompare: whether the slices have the same contents.
unfoldable pub same_bytes : Bytes → Bytes → Bool
same_bytes [] [] = true
same_bytes (x ∷ xs) (y ∷ ys) = x == y && same_bytes xs ys
same_bytes _ _ = false

-- A nil slice has no elements.
abbrev pub or_nil : Option Bytes → Bytes
or_nil none = []
or_nil (some bytes) = bytes

module _ {Input : Type 0} (lib : Library Input) where
  -- A seal is appended to the nonce.
  unfoldable pub encrypt_with_aes : Bytes → Bytes → ℕ → Result Bytes
  encrypt_with_aes contents key nonce_size =
      if length contents == 0 || length key == 0 then err empty_data_or_key else do
        lib.new_cipher key
        lib.new_gcm (effective_nonce_size nonce_size)
        nonce ← lib.random (effective_nonce_size nonce_size)
        let sealed = nonce ++ lib.seal key nonce contents
        if length sealed == 0 then err seal_failed else ok sealed

  unfoldable pub decrypt_with_aes : Bytes → Bytes → ℕ → Result Bytes
  decrypt_with_aes sealed key nonce_size =
      if length sealed == 0 || length key == 0 || leb (length sealed) nonce_size
      then err empty_cipher_data_or_key
      else do
        lib.new_cipher key
        lib.new_gcm nonce_size
        lib.open_ key (take nonce_size sealed) (drop nonce_size sealed)

  -- GetHashWithArgon; the memory is a uint32.
  unfoldable pub get_hash_with_argon : String → String → ℕ → ℕ → ℕ → ℕ → Option Bytes
  get_hash_with_argon passphrase salt time_consideration multiplier threads hash_length =
      if str_eq passphrase "" || str_eq salt ""
      then none
      else lib.id_key passphrase salt (if time_consideration == 0 then 1 else time_consideration)
          (multiplier * 1024 % 2 ^ 32) (if threads == 0 then 1 else threads) hash_length

  -- GetStringHashWithArgon, with 64 MiB of memory.
  unfoldable pub get_string_hash_with_argon : String → String → ℕ → ℕ → ℕ → String
  get_string_hash_with_argon passphrase salt time_consideration threads hash_length =
      if str_eq passphrase "" || str_eq salt ""
      then ""
      else lib.encode_base64 (
          or_nil (
            lib.id_key passphrase salt (if time_consideration == 0 then 1 else time_consideration)
              (64 * 1024) (if threads == 0 then 1 else threads) hash_length))

  -- CompareArgon2Hash: an error stands where the hash is not nil.
  unfoldable pub compare_argon2_hash : String → String → ℕ → Bytes → Bool × Option Error
  compare_argon2_hash passphrase salt multiplier hashed_password =
      elim (get_hash_with_argon passphrase salt 1 multiplier 1 (length hashed_password % 2 ^ 32)) [
        | some h ↦ (false, some hash_was_nil)
        | none ↦ (same_bytes [] hashed_password, none)
      ]
