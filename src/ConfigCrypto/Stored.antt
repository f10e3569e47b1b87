-- ===== src/ConfigCrypto/Stored.antt =====
-- The functions of internal/service/config_crypto.go on the text of a configuration.
use go_pay.Prelude.{ℕ, ◌≡◌, ap, ◌∙◌, String, false, none, arith, ◌⊎◌, inl, inr}
use go_pay.Errors.{GoError, ok, err, Result-cases}
use go_pay.Security.Encryption.{Crypto}
use go_pay.Security.Encryption.Roundtrip.{Lawful}
use go_pay.ConfigCrypto.{
  Json, Mode, Codec, transform_config_value, new_config_key_manager, convert_config_json,
  encrypt_config_json, decrypt_config_json, mask_sensitive_config_json,
}
use go_pay.ConfigCrypto.Transform.{IsPlain, value-roundtrip}
use go_pay.ConfigCrypto.Hidden.{any_text, leaks, shows, value-leaks, value-shows}

module _ (crypto : Crypto) (fold : String → String) (codec : Codec) (master_key : String)
    (unmarshal-marshal : (v : Json) (s : String)
      → codec.marshal v ≡ ok s
      → codec.unmarshal s ≡ ok v) where
  -- What a conversion that returns has done.
  convert-steps :
      (mode : Mode) (n : ℕ) (raw out : String)
      → convert_config_json crypto fold codec master_key mode n raw ≡ ok out
      → (v : Json) × (converted : Json) × (k : ℕ) × (codec.unmarshal raw ≡ ok v)
        × (transform_config_value crypto fold
              (new_config_key_manager crypto fold codec master_key)
              mode
              ""
              v
              n
            ≡ (ok converted, k))
        × (codec.marshal converted ≡ ok out)
  unfolding convert_config_json
  convert-steps mode n raw out h = elim (Result-cases (codec.unmarshal raw)) [
    | inl (e, k) ↦ absurd (ground (arith, h, k))
    | inr (v, k) ↦
        let r =
          transform_config_value crypto fold (new_config_key_manager crypto fold codec master_key)
            mode "" v n in
        elim (Result-cases r.0) [
          | inl (e, l) ↦ absurd (ground (arith, h, k, l))
          | inr (converted, l) ↦
              (v, converted, r.1, k, ap (λ x. (x, r.1)) l, ground (arith, h, k, l))
        ]
  ]

  -- A configuration without texts that look encrypted is decrypted from what is stored to itself,
  -- under the same master key.
  pub decrypt-encrypt_config_json :
      Lawful crypto
      → (n : ℕ) (raw stored : String) (v : Json) → codec.unmarshal raw ≡ ok v
      → IsPlain v
      → encrypt_config_json crypto fold codec master_key n raw ≡ ok stored
      → decrypt_config_json crypto fold codec master_key stored ≡ codec.marshal v
  unfolding encrypt_config_json decrypt_config_json
  decrypt-encrypt_config_json lawful n raw stored v parsed plain h =
      let km = new_config_key_manager crypto fold codec master_key in
      let (v', converted, k, parsed', encrypted, marshalled) =
        convert-steps Mode.transform_encrypt n raw stored h in
      let same : v ≡ v' = ground (arith, parsed, parsed') in
      let back = value-roundtrip crypto fold km lawful "" v n k 0 converted plain (
        ap (λ x. transform_config_value crypto fold km Mode.transform_encrypt "" x n) same
        ∙ encrypted) in
      ground (arith, unmarshal-marshal converted stored marshalled, back)

  -- What is stored holds no text under a sensitive key that is neither empty nor encrypted.
  pub encrypt_config_json-leaks :
      (n : ℕ) (raw stored : String)
      → encrypt_config_json crypto fold codec master_key n raw ≡ ok stored
      → (v : Json) × (codec.unmarshal stored ≡ ok v) × (any_text (leaks fold) "" v ≡ false)
  unfolding encrypt_config_json
  encrypt_config_json-leaks n raw stored h =
      let km = new_config_key_manager crypto fold codec master_key in
      let (v, converted, k, parsed, encrypted, marshalled) =
        convert-steps Mode.transform_encrypt n raw stored h in
      (
        converted,
        unmarshal-marshal converted stored marshalled,
        value-leaks crypto fold km "" v n k converted encrypted,
      )

  -- A configuration that is JSON has a masked value, which holds no sensitive text in the clear.
  -- What is shown is read back to that value, or `json.Marshal` fails on that value and the raw
  -- text is shown.
  pub mask_sensitive_config_json-shows :
      (raw : String) (v : Json)
      → codec.unmarshal raw ≡ ok v
      → let shown = mask_sensitive_config_json crypto fold codec master_key raw in
        let mask = transform_config_value crypto fold none Mode.transform_mask "" in
        (out : Json) × (mask v 0 ≡ (ok out, 0))
        × (any_text (shows fold) "" out ≡ false)
        × ((codec.unmarshal shown ≡ ok out)
            ⊎ ((e : GoError) × (codec.marshal out ≡ err e) × (shown ≡ raw)))
  unfolding mask_sensitive_config_json
  mask_sensitive_config_json-shows raw v parsed =
      let (out, made, hidden) = value-shows crypto fold none "" v 0 in
      elim (Result-cases (codec.marshal out)) [
        | inl (e, failed) ↦
            (out, made, hidden, inr (e, failed, ground (arith, parsed, made, failed)))
        | inr (s, marshalled) ↦ (
          out,
          made,
          hidden,
          inl (ground (arith, parsed, made, marshalled, unmarshal-marshal out s marshalled)),
        )
      ]
