-- ===== src/Examples/Config.antt =====
-- A configuration with one secret, under a cipher that only moves texts to bytes and back.
use Prim.Native.Char.{Char}
use mathlib.Core.Path.{subst}
use go_pay.Prelude.{
  ℕ, zero, suc, ◌≡◌, refl, sym, ap, ◌∙◌, String, true, false, List, [], ◌∷◌, ◌==◌, length, arith,
  eq_iff, none, ◌⊎◌, if◌then◌else◌,
}
use go_pay.Errors.{GoError, plain, Result, ok, err}
use go_pay.Security.Encryption.{Gcm, Crypto, seal, is_encrypted_value, open_value}
use go_pay.Security.Encryption.Roundtrip.{Lawful, seal_sound}
use go_pay.ConfigCrypto.{
  Json, Mode, null, boolean, number, text, array, object, end, member, Codec, encrypt_config_json,
  decrypt_config_json, mask_sensitive_config_json, is_sensitive_config_key, transform_config_value,
  transform_text, new_config_key_manager,
}
use go_pay.ConfigCrypto.Transform.{IsPlain}
use go_pay.ConfigCrypto.Hidden.{any_text, leaks, shows}
use go_pay.ConfigCrypto.Stored.{
  decrypt-encrypt_config_json, encrypt_config_json-leaks, mask_sensitive_config_json-shows,
}

abbrev chars : String → List Char
chars String.[] = []
chars (String.◌∷◌ c s) = c ∷ chars s

abbrev text_of : List Char → String
text_of [] = ""
text_of (c ∷ cs) = String.◌∷◌ c (text_of cs)

text_of-chars : (s : String) → text_of (chars s) ≡ s
text_of-chars String.[] = refl
text_of-chars (String.◌∷◌ c s) = ap (String.◌∷◌ c) (text_of-chars s)

chars-text_of : (cs : List Char) → chars (text_of cs) ≡ cs
chars-text_of [] = refl
chars-text_of (c ∷ cs) = ap (λ l. c ∷ l) (chars-text_of cs)

abbrev same_byte : ℕ → List Char
same_byte zero = []
same_byte (suc n) = "x" ∷ same_byte n

length-same_byte : (n : ℕ) → length (same_byte n) ≡ n
length-same_byte zero = refl
length-same_byte (suc n) = ap suc (length-same_byte n)

abbrev gcm : Gcm Char
gcm = record {
  nonce_size = 1;
  seal = λ nonce plaintext. chars plaintext;
  open_bytes = λ nonce bytes. ok (text_of bytes);
}

ok_injective : {A : Type 0} {a b : A} → (let r : Result A = ok a in r ≡ ok b) → a ≡ b
ok_injective h = ground arith

abbrev crypto : Crypto
crypto = record {
  Byte = Char;
  sha256 = chars;
  new_gcm = λ key. ok gcm;
  random = λ n size. ok (same_byte size);
  encode = text_of;
  decode = λ s. ok (chars s);
}

crypto-Lawful : Lawful crypto
crypto-Lawful = record {
  decode-encode = λ bytes. ap ok (chars-text_of bytes);
  length-random = λ n size nonce h. ap length (ok_injective (sym h)) ∙ length-same_byte size;
  open_bytes-seal = λ key g h nonce plaintext size.
      subst (λ (g : Gcm Char). g.open_bytes nonce (g.seal nonce plaintext) ≡ ok plaintext)
        (ok_injective h) (ap ok (text_of-chars plaintext));
}

abbrev marshal : Json → Result String
marshal (object (member key (text s) end)) =
    if key == "secret" then ok s else err (plain "unsupported")
marshal v = err (plain "unsupported")

abbrev codec : Codec
codec = record { unmarshal = λ s. ok (object (member "secret" (text s) end)); marshal = marshal }

unmarshal-marshal : (v : Json) (s : String) → marshal v ≡ ok s → codec.unmarshal s ≡ ok v
unmarshal-marshal null s h = absurd (ground (arith, h))
unmarshal-marshal (boolean b) s h = absurd (ground (arith, h))
unmarshal-marshal (number d) s h = absurd (ground (arith, h))
unmarshal-marshal (text t) s h = absurd (ground (arith, h))
unmarshal-marshal (array items) s h = absurd (ground (arith, h))
unmarshal-marshal (object end) s h = absurd (ground (arith, h))
unmarshal-marshal (object (member key null rest)) s h = absurd (ground (arith, h))
unmarshal-marshal (object (member key (boolean b) rest)) s h = absurd (ground (arith, h))
unmarshal-marshal (object (member key (number d) rest)) s h = absurd (ground (arith, h))
unmarshal-marshal (object (member key (array items) rest)) s h = absurd (ground (arith, h))
unmarshal-marshal (object (member key (object members) rest)) s h = absurd (ground (arith, h))
unmarshal-marshal (object (member key (text t) (member k v rest))) s h = absurd (ground (arith, h))
unmarshal-marshal (object (member key (text t) end)) s h = ground (arith, h, eq_iff key "secret")

abbrev id : String → String
id s = s

sealed_at_once : seal crypto [] 0 "pass" ≡ ok "enc:v1:xpass"
unfolding seal
sealed_at_once = refl

seal_sound_example :
    (is_encrypted_value "enc:v1:xpass" ≡ true) × (open_value crypto [] "enc:v1:xpass" ≡ ok "pass")
seal_sound_example = seal_sound crypto crypto-Lawful [] "pass" 0 "enc:v1:xpass" sealed_at_once

stored_at_once : encrypt_config_json crypto id codec "key" 0 "pass" ≡ ok "enc:v1:xpass"
unfolding encrypt_config_json transform_config_value transform_text is_sensitive_config_key
    is_encrypted_value new_config_key_manager seal
stored_at_once = refl

no_prefix_at_once : IsPlain (object (member "secret" (text "pass") end))
unfolding IsPlain is_encrypted_value
no_prefix_at_once = (refl, tt)

decrypt-encrypt_config_json_example :
    decrypt_config_json crypto id codec "key" "enc:v1:xpass"
    ≡ codec.marshal (object (member "secret" (text "pass") end))
decrypt-encrypt_config_json_example =
    decrypt-encrypt_config_json crypto id codec "key" unmarshal-marshal crypto-Lawful 0 "pass"
      "enc:v1:xpass" (object (member "secret" (text "pass") end)) refl no_prefix_at_once
      stored_at_once

encrypt_config_json-leaks_example :
    (v : Json) × (codec.unmarshal "enc:v1:xpass" ≡ ok v) × (any_text (leaks id) "" v ≡ false)
encrypt_config_json-leaks_example =
    encrypt_config_json-leaks crypto id codec "key" unmarshal-marshal 0 "pass" "enc:v1:xpass"
      stored_at_once

mask_sensitive_config_json-shows_example :
    let shown = mask_sensitive_config_json crypto id codec "key" "pass" in
    let mask = transform_config_value crypto id none Mode.transform_mask "" in
    (out : Json) × (mask (object (member "secret" (text "pass") end)) 0 ≡ (ok out, 0))
    × (any_text (shows id) "" out ≡ false)
    × ((codec.unmarshal shown ≡ ok out)
        ⊎ ((e : GoError) × (codec.marshal out ≡ err e) × (shown ≡ "pass")))
mask_sensitive_config_json-shows_example =
    mask_sensitive_config_json-shows crypto id codec "key" unmarshal-marshal "pass"
      (object (member "secret" (text "pass") end)) refl

-- The key of WeChat's API in the documented configuration is not taken for sensitive.
api_v3_key_is_readable : is_sensitive_config_key id "api_v3_key" ≡ false
unfolding is_sensitive_config_key
api_v3_key_is_readable = refl
