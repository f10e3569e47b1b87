-- ===== src/Security/Encryption/Roundtrip.antt =====
-- `Seal` and `Open` of pkg/security/encryption.go against each other.
use Prim.Native.String.{◌++◌ as str_append}
use go_pay.Prelude.{
  ℕ, ◌≡◌, sym, ap, ◌∙◌, String, true, List, ◌++◌, take, drop, length, length-append, take-append,
  drop-append, arith, inl, inr,
}
use text.Mathlib.TextPositions.{starts_with-append, slice-append_right, len-append}
use go_pay.Errors.{ok, Result-cases}
use go_pay.Security.Encryption.{
  Gcm, Crypto, KeyManager, encrypted_value_prefix, trim_prefix, is_encrypted_value, encrypt, seal,
  decrypt, open_value,
}

-- What the documentation of the packages says of the functions.
pub record Lawful (crypto : Crypto) : Type 0 where
  pub decode-encode : (bytes : List crypto.Byte) → crypto.decode (crypto.encode bytes) ≡ ok bytes
  pub length-random :
      (n size : ℕ) (nonce : List crypto.Byte)
      → crypto.random n size ≡ ok nonce
      → length nonce ≡ size
  pub open_bytes-seal :
      (key : List crypto.Byte) (gcm : Gcm crypto.Byte)
      → crypto.new_gcm key ≡ ok gcm
      → (nonce : List crypto.Byte) (plaintext : String) → length nonce ≡ gcm.nonce_size
      → gcm.open_bytes nonce (gcm.seal nonce plaintext) ≡ ok plaintext

trim_prefix-append : (prefix text : String) → trim_prefix (str_append prefix text) prefix ≡ text
unfolding trim_prefix
trim_prefix-append prefix text =
    rw (starts_with-append prefix text, len-append prefix text) (slice-append_right prefix text)

-- A sealed value has the prefix.
pub seal-prefix :
    (crypto : Crypto) (km : KeyManager crypto) (n : ℕ) (plaintext sealed : String)
    → seal crypto km n plaintext ≡ ok sealed
    → is_encrypted_value sealed ≡ true
unfolding seal is_encrypted_value
seal-prefix crypto km n plaintext sealed h = elim (Result-cases (encrypt crypto km n plaintext)) [
  | inl (e, k) ↦ absurd (ground (arith, h, k))
  | inr (ciphertext, k) ↦
      let same : str_append encrypted_value_prefix ciphertext ≡ sealed = ground (arith, h, k) in
      ap is_encrypted_value (sym same) ∙ starts_with-append encrypted_value_prefix ciphertext
]

module _ (crypto : Crypto) (lawful : Lawful crypto) (km : KeyManager crypto)
    (plaintext : String) where
  opened :
      (gcm : Gcm crypto.Byte) (nonce : List crypto.Byte)
      → crypto.new_gcm km ≡ ok gcm
      → length nonce ≡ gcm.nonce_size
      → let text = crypto.encode (nonce ++ gcm.seal nonce plaintext) in
        open_value crypto km (str_append encrypted_value_prefix text) ≡ ok plaintext
  unfolding decrypt
  opened gcm nonce made size =
      let bytes = nonce ++ gcm.seal nonce plaintext in
      ground (
        arith,
        made,
        size,
        trim_prefix-append encrypted_value_prefix (crypto.encode bytes),
        lawful.decode-encode bytes,
        length-append nonce (gcm.seal nonce plaintext),
        ap (λ n. take n bytes) (sym size) ∙ take-append nonce (gcm.seal nonce plaintext),
        ap (λ n. drop n bytes) (sym size) ∙ drop-append nonce (gcm.seal nonce plaintext),
        lawful.open_bytes-seal km gcm made nonce plaintext size,
      )

  -- A sealed value has the prefix, and opens to what was sealed.
  pub seal_sound :
      (n : ℕ) (sealed : String)
      → seal crypto km n plaintext ≡ ok sealed
      → (is_encrypted_value sealed ≡ true) × (open_value crypto km sealed ≡ ok plaintext)
  unfolding seal is_encrypted_value
  seal_sound n sealed h = elim (Result-cases (crypto.new_gcm km)) [
    | inl (e, k) ↦ absurd (ground (arith, h, k))
    | inr (gcm, made) ↦ elim (Result-cases (crypto.random n gcm.nonce_size)) [
      | inl (e, k) ↦ absurd (ground (arith, h, made, k))
      | inr (nonce, drawn) ↦
          let text = crypto.encode (nonce ++ gcm.seal nonce plaintext) in
          let same : str_append encrypted_value_prefix text ≡ sealed =
            ground (arith, h, made, drawn) in
          (
            ap is_encrypted_value (sym same) ∙ starts_with-append encrypted_value_prefix text,
            ap (open_value crypto km) (sym same)
                ∙ opened gcm nonce made (lawful.length-random n gcm.nonce_size nonce drawn),
          )
    ]
  ]
