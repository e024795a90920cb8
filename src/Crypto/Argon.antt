-- ===== src/Crypto/Argon.antt =====
-- The comparison of hashes.
use turbocookedrabbit.Amqp.{hash_was_nil}
use turbocookedrabbit.Letter.{Bytes}
use turbocookedrabbit.Crypto.{compare_argon2_hash, same_bytes, get_hash_with_argon}
use turbocookedrabbit.Codec.{Library}
use turbocookedrabbit.Base.{
  ℕ, false, String, ◌<◌, length, ◌≡◌, if◌then◌else◌, is_some, ◌%◌, ◌^◌, some, none, arith, ◌∷◌,
  Option-cases, inl, inr, [],
}

module _ {Input : Type 0} (lib : Library Input) where
  -- CompareArgon2Hash never accepts a hash that has bytes: where a hash of the passphrase can be made
  -- it is refused with an error, also the right one, and elsewhere it is refused without.
  pub compare_argon2_hash-rejects :
      (passphrase salt : String) (multiplier : ℕ) (hashed_password : Bytes)
      → 0 < length hashed_password
      → compare_argon2_hash lib passphrase salt multiplier hashed_password ≡ (
        false,
        if is_some (
              get_hash_with_argon lib passphrase salt 1 multiplier 1
                (length hashed_password % 2 ^ 32))
            then some hash_was_nil
            else none,
      )
  unfolding compare_argon2_hash same_bytes
  compare_argon2_hash-rejects passphrase salt multiplier [] h = absurd (omega arith)
  compare_argon2_hash-rejects passphrase salt multiplier (x ∷ xs) h =
      elim (Option-cases
        (get_hash_with_argon lib passphrase salt 1 multiplier 1 (length (x ∷ xs) % 2 ^ 32))) [
          | inl nil ↦ ground arith
          | inr (hash, made) ↦ ground arith
        ]
