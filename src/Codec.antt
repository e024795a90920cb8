-- ===== src/Codec.antt =====
-- What compression.go, crypto.go and json.go of v2/pkg/tcr take from libraries: gzip, zstd, AES in
-- Galois counter mode, Argon2, random bytes and JSON. They are the fields of a record, a parameter;
-- `IsDocumented` states what their documentation says of them.
use turbocookedrabbit.Amqp.{Error}
use turbocookedrabbit.Letter.{Bytes, WrappedBody}
use turbocookedrabbit.Base.{
  ℕ, String, Option, ◌≡◌, ◌+◌, length, refl, Bool, if◌then◌else◌, false, true,
}

-- A value, or a non-nil error.
pub data Result (A : Type 0) : Type 0 where
  ok : A → Result A
  err : Error → Result A

infixl 5 ◌>>=◌ ◌>>◌
abbrev pub ◌>>=◌ : {A B : Type 0} → Result A → (A → Result B) → Result B
err failed >>= next = err failed
ok value >>= next = next value

abbrev pub ◌>>◌ : {A B : Type 0} → Result A → Result B → Result B
err failed >> next = err failed
ok value >> next = next

-- Inversion of chains that succeed.
pub bind-ok :
    {A B : Type 0} (first : Result A) (next : A → Result B) {last : B}
    → (first >>= next) ≡ ok last
    → (value : A) × (first ≡ ok value) × (next value ≡ ok last)
bind-ok (err failed) next e = cc
bind-ok (ok value) next e = (value, refl, e)

pub then-ok :
    {A B : Type 0} (m : Result A) (n : Result B) {b : B}
    → (m >> n) ≡ ok b
    → (a : A) × (m ≡ ok a) × (n ≡ ok b)
then-ok (ok a) n e = (a, refl, e)
then-ok (err x) n e = cc

-- A guard that was passed.
pub guard-ok :
    {A : Type 0} (b : Bool) (x : Error) (m : Result A) {a : A}
    → (if b then err x else m) ≡ ok a
    → (b ≡ false) × (m ≡ ok a)
guard-ok true x m e = cc
guard-ok false x m e = (refl, e)

-- A writer's close gives all that was written for the bytes; a reader reads from the bytes.
-- `random` is what the call at hand draws; `id_key` gives none where the slice is nil.
pub record Library (Input : Type 0) : Type 0 where
  pub gzip_write : Bytes → Result (Unit {0})
  pub gzip_close : Bytes → Result Bytes
  pub gzip_reader : Bytes → Result (Unit {0})
  pub gzip_read_all : Bytes → Result Bytes
  pub gzip_reader_close : Bytes → Result (Unit {0})
  pub zstd_writer : Result (Unit {0})
  pub zstd_copy : Bytes → Result (Unit {0})
  pub zstd_close : Bytes → Result Bytes
  pub zstd_reader : Bytes → Result (Unit {0})
  pub zstd_read_all : Bytes → Result Bytes
  pub new_cipher : Bytes → Result (Unit {0})
  pub new_gcm : ℕ → Result (Unit {0})
  pub random : ℕ → Result Bytes
  pub seal : Bytes → Bytes → Bytes → Bytes
  pub open_ : Bytes → Bytes → Bytes → Result Bytes
  pub id_key : String → String → ℕ → ℕ → ℕ → ℕ → Option Bytes
  pub encode_base64 : Bytes → String
  pub marshal : Input → Result Bytes
  pub marshal_wrapped : WrappedBody → Result Bytes
  pub unmarshal_wrapped : Bytes → Result WrappedBody

-- The documented behaviour: a reader gives back what a writer wrote; `open_` gives back what was
-- sealed with the key and the nonce, and a seal is longer than its data by the tag of 16 bytes; a
-- full read fills the slice.
pub record IsDocumented {Input : Type 0} (lib : Library Input) : Type 0 where
  pub gzip_back :
      (bytes : Bytes) {z : Bytes}
      → lib.gzip_close bytes ≡ ok z
      → (lib.gzip_reader z ≡ ok tt)
        × (lib.gzip_read_all z ≡ ok bytes)
        × (lib.gzip_reader_close z ≡ ok tt)
  pub zstd_back :
      (bytes : Bytes) {z : Bytes}
      → lib.zstd_close bytes ≡ ok z
      → (lib.zstd_reader z ≡ ok tt) × (lib.zstd_read_all z ≡ ok bytes)
  pub open_seal :
      (key nonce bytes : Bytes)
      → lib.new_cipher key ≡ ok tt
      → lib.new_gcm (length nonce) ≡ ok tt
      → lib.open_ key nonce (lib.seal key nonce bytes) ≡ ok bytes
  pub length-seal :
      (key nonce bytes : Bytes) → length (lib.seal key nonce bytes) ≡ length bytes + 16
  pub length-random : (n : ℕ) {nonce : Bytes} → lib.random n ≡ ok nonce → length nonce ≡ n
