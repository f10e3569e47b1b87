-- ===== src/ConfigCrypto.antt =====
-- internal/service/config_crypto.go: a channel's configuration is stored as JSON whose sensitive
-- texts are encrypted. A value of JSON is what `json.Unmarshal` gives; the members of an object
-- stand in the order in which `range` takes them, and a number is its text. `fold` is
-- `strings.ToLower` after `strings.TrimSpace`. The draws of random bytes are counted.
pub mod Transform
pub mod Hidden
pub mod Stored
use go_pay.Prelude.{
  ℕ, suc, String, Bool, true, false, not, ◌||◌, Option, none, some, List, [], ◌∷◌, ◌==◌, any,
  contains, if◌then◌else◌,
}
use go_pay.Errors.{GoError, plain, Result, ok, err}
use go_pay.Security.Encryption.{
  Crypto, KeyManager, new_key_manager, is_encrypted_value, seal, open_value,
}

mutual
  pub data Json : Type 0 where
    null : Json
    boolean : Bool → Json
    number : String → Json
    text : String → Json
    array : Items → Json
    object : Members → Json

  pub data Items : Type 0 where
    nil : Items
    item : Json → Items → Items

  pub data Members : Type 0 where
    end : Members
    member : String → Json → Members → Members

pub data Mode : Type 0 where
  transform_encrypt transform_decrypt transform_mask : Mode

abbrev pub sensitive_config_tokens : List String
sensitive_config_tokens =
    "secret" ∷ "private_key" ∷ "public_key" ∷ "api_key" ∷ "token" ∷ "password" ∷ []

unfoldable pub is_sensitive_config_key : (String → String) → String → Bool
is_sensitive_config_key fold key = any (contains (fold key)) sensitive_config_tokens

-- `if err != nil { return nil, err }`, with the count of draws passed on.
abbrev pub then_with : {A B : Type 0} → Result A × ℕ → (A → ℕ → Result B × ℕ) → Result B × ℕ
then_with (ok a, n) f = f a n
then_with (err e, n) f = (err e, n)

abbrev pub as_text : Result String → Result Json
as_text (ok s) = ok (text s)
as_text (err e) = err e

module _ (crypto : Crypto) (fold : String → String) (km : Option (KeyManager crypto)) where
  -- The `switch` on the mode, for a sensitive text that is not empty.
  unfoldable pub transform_sensitive : Mode → String → ℕ → Result Json × ℕ
  transform_sensitive Mode.transform_encrypt s n =
      if is_encrypted_value s then (ok (text s), n) else elim km [
        | none ↦ (err (plain "key manager is required for encryption"), n)
        | some key ↦ (as_text (seal crypto key n s), suc n)
      ]
  transform_sensitive Mode.transform_decrypt s n =
      if not (is_encrypted_value s) then (ok (text s), n) else elim km [
        | none ↦ (err (plain "MASTER_KEY is required to decrypt sensitive channel config"), n)
        | some key ↦ (as_text (open_value crypto key s), n)
      ]
  transform_sensitive Mode.transform_mask s n = (ok (text "******"), n)

  abbrev pub is_sensitive : String → String → Bool
  is_sensitive parent_key s = is_sensitive_config_key fold parent_key || is_encrypted_value s

  unfoldable pub transform_text : Mode → String → String → ℕ → Result Json × ℕ
  unfolding transform_sensitive
  transform_text mode parent_key s n =
      if not (is_sensitive parent_key s) || (s == "")
      then (ok (text s), n)
      else transform_sensitive mode s n

  unfoldable mutual
    pub transform_config_value : Mode → String → Json → ℕ → Result Json × ℕ
    transform_config_value mode parent_key null n = (ok null, n)
    transform_config_value mode parent_key (boolean b) n = (ok (boolean b), n)
    transform_config_value mode parent_key (number d) n = (ok (number d), n)
    transform_config_value mode parent_key (text s) n = transform_text mode parent_key s n
    transform_config_value mode parent_key (array items) n =
        then_with (transform_items mode parent_key items n) (λ out n'. (ok (array out), n'))
    transform_config_value mode parent_key (object members) n =
        then_with (transform_members mode members n) (λ out n'. (ok (object out), n'))

    pub transform_items : Mode → String → Items → ℕ → Result Items × ℕ
    transform_items mode parent_key nil n = (ok nil, n)
    transform_items mode parent_key (item child rest) n =
        then_with (transform_config_value mode parent_key child n) (λ next n'.
          then_with (transform_items mode parent_key rest n')
            (λ out n''. (ok (item next out), n'')))

    pub transform_members : Mode → Members → ℕ → Result Members × ℕ
    transform_members mode end n = (ok end, n)
    transform_members mode (member key child rest) n =
        then_with (transform_config_value mode key child n) (λ next n'.
          then_with (transform_members mode rest n') (λ out n''. (ok (member key next out), n'')))

-- `unmarshal` and `marshal` are `json.Unmarshal` and `json.Marshal`; `master_key` is the variable
-- MASTER_KEY, trimmed.
pub record Codec : Type 0 where
  pub unmarshal : String → Result Json
  pub marshal : Json → Result String

module _ (crypto : Crypto) (fold : String → String) (codec : Codec) (master_key : String) where
  unfoldable pub new_config_key_manager : Option (KeyManager crypto)
  new_config_key_manager =
      if master_key == "" then none else some (new_key_manager crypto master_key)

  unfoldable pub convert_config_json : Mode → ℕ → String → Result String
  convert_config_json mode n raw = elim (codec.unmarshal raw) [
    | err e ↦ err e
    | ok payload ↦
        elim (transform_config_value crypto fold new_config_key_manager mode "" payload n).0 [
          | err e ↦ err e
          | ok converted ↦ codec.marshal converted
        ]
  ]

  unfoldable pub encrypt_config_json : ℕ → String → Result String
  unfolding convert_config_json
  encrypt_config_json n raw = convert_config_json Mode.transform_encrypt n raw

  unfoldable pub decrypt_config_json : String → Result String
  unfolding convert_config_json
  decrypt_config_json raw = convert_config_json Mode.transform_decrypt 0 raw

  unfoldable pub mask_sensitive_config_json : String → String
  mask_sensitive_config_json raw = elim (codec.unmarshal raw) [
    | err e ↦ raw
    | ok payload ↦
        elim (transform_config_value crypto fold none Mode.transform_mask "" payload 0).0 [
          | err e ↦ raw
          | ok masked ↦ elim (codec.marshal masked) [ err e ↦ raw | ok shown ↦ shown ]
        ]
  ]
