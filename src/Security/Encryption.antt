-- ===== src/Security/Encryption.antt =====
-- `KeyManager` of pkg/security/encryption.go. `Crypto` is what the code takes from crypto/sha256,
-- crypto/aes, crypto/cipher, crypto/rand and encoding/base64.
pub mod Roundtrip
use Prim.Native.String.{◌++◌ as str_append, slice, len}
use go_pay.Prelude.{
  ℕ, ◌+◌, ◌-◌, String, Bool, List, ◌++◌, starts_with, take, length, ltb, if◌then◌else◌, drop,
}
use go_pay.Errors.{plain, Result, ok, err}

-- GCM with the block cipher of one key; `seal` is without the nonce that Go puts before it.
pub record Gcm (Byte : Type 0) : Type 0 where
  pub nonce_size : ℕ
  pub seal : List Byte → String → List Byte
  pub open_bytes : List Byte → List Byte → Result String

-- `random n size` is the n-th draw of `rand.Reader`.
pub record Crypto : Type 1 where
  pub Byte : Type 0
  pub sha256 : String → List Byte
  pub new_gcm : List Byte → Result (Gcm Byte)
  pub random : ℕ → ℕ → Result (List Byte)
  pub encode : List Byte → String
  pub decode : String → Result (List Byte)

abbrev pub encrypted_value_prefix : String
encrypted_value_prefix = "enc:v1:"

-- `strings.TrimPrefix`
unfoldable pub trim_prefix : String → String → String
trim_prefix text prefix =
    if starts_with text prefix then slice text (len prefix) (len text) else text

unfoldable pub is_encrypted_value : String → Bool
is_encrypted_value value = starts_with value encrypted_value_prefix

-- `KeyManager`
abbrev pub KeyManager : Crypto → Type 0
KeyManager crypto = List crypto.Byte

module _ (crypto : Crypto) where
  abbrev pub new_key_manager : String → KeyManager crypto
  new_key_manager master_key = crypto.sha256 master_key

  -- At the n-th draw.
  unfoldable pub encrypt : KeyManager crypto → ℕ → String → Result String
  encrypt km n plaintext = elim (crypto.new_gcm km) [
    | err e ↦ err e
    | ok gcm ↦ elim (crypto.random n gcm.nonce_size) [
      | err e ↦ err e
      | ok nonce ↦ ok (crypto.encode (nonce ++ gcm.seal nonce plaintext))
    ]
  ]

  unfoldable pub seal : KeyManager crypto → ℕ → String → Result String
  unfolding encrypt
  seal km n plaintext = elim (encrypt km n plaintext) [
    | err e ↦ err e
    | ok ciphertext ↦ ok (str_append encrypted_value_prefix ciphertext)
  ]

  unfoldable pub decrypt : KeyManager crypto → String → Result String
  unfolding trim_prefix
  decrypt km ciphertext = elim (crypto.decode (trim_prefix ciphertext encrypted_value_prefix)) [
    | err e ↦ err e
    | ok bytes ↦ elim (crypto.new_gcm km) [
      | err e ↦ err e
      | ok gcm ↦
          if ltb (length bytes) gcm.nonce_size
          then err (plain "ciphertext too short")
          else gcm.open_bytes (take gcm.nonce_size bytes) (drop gcm.nonce_size bytes)
    ]
  ]

  abbrev pub open_value : KeyManager crypto → String → Result String
  open_value km ciphertext = decrypt km ciphertext
