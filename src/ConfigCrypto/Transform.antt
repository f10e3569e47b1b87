-- ===== src/ConfigCrypto/Transform.antt =====
-- `transformConfigValue` of internal/service/config_crypto.go in its three modes.
use mathlib.Core.Path.{subst}
use go_pay.Prelude.{
  ℕ, ◌≡◌, refl, sym, ap, ◌∙◌, String, true, false, not, ◌||◌, Option, some, ◌==◌, arith, eq_iff,
  Bool-cases, Option-cases, inl, inr,
}
use go_pay.Errors.{Result, ok, err, Result-cases}
use go_pay.Security.Encryption.{Crypto, KeyManager, is_encrypted_value, seal}
use go_pay.Security.Encryption.Roundtrip.{Lawful, seal_sound}
use go_pay.ConfigCrypto.{
  Json, null, boolean, number, text, array, object, Items, nil, item, Members, end, member, Mode,
  then_with, is_sensitive, transform_text, transform_config_value, transform_items,
  transform_members,
}

-- No text starts like an encrypted one.
unfoldable mutual
  pub IsPlain : Json → Type 0
  IsPlain null = Unit
  IsPlain (boolean b) = Unit
  IsPlain (number d) = Unit
  IsPlain (text s) = is_encrypted_value s ≡ false
  IsPlain (array items) = ItemsPlain items
  IsPlain (object members) = MembersPlain members

  ItemsPlain : Items → Type 0
  ItemsPlain nil = Unit
  ItemsPlain (item child rest) = IsPlain child × ItemsPlain rest

  MembersPlain : Members → Type 0
  MembersPlain end = Unit
  MembersPlain (member key child rest) = IsPlain child × MembersPlain rest

pub then_with_ok :
    {A B : Type 0} (r : Result A × ℕ) (f : A → ℕ → Result B × ℕ) (b : B) (k : ℕ)
    → then_with r f ≡ (ok b, k)
    → (a : A) × (n : ℕ) × (r ≡ (ok a, n)) × (f a n ≡ (ok b, k))
then_with_ok (ok a, n) f b k h = (a, n, refl, h)
then_with_ok (err e, n) f b k h = absurd (ground (arith, h))

encrypted-not_empty : (s : String) → is_encrypted_value s ≡ true → (s == "") ≡ false
unfolding is_encrypted_value
encrypted-not_empty s h = elim (Bool-cases (s == "")) [
  | inl e ↦ absurd (ground (arith, ap is_encrypted_value (sym ((eq_iff s "").0 e)) ∙ h))
  | inr e ↦ e
]

pub ok_same :
    {A : Type 0} {a b : A} {n k : ℕ} → (let p : Result A × ℕ = (ok a, n) in p ≡ (ok b, k)) → a ≡ b
ok_same h = ground arith

module _ (crypto : Crypto) (fold : String → String) (km : Option (KeyManager crypto)) where
  transform_text-untouched :
      (mode : Mode) (parent s : String) (n : ℕ)
      → (not (is_sensitive crypto fold km parent s) || (s == "")) ≡ true
      → transform_text crypto fold km mode parent s n ≡ (ok (text s), n)
  unfolding transform_text
  transform_text-untouched mode parent s n h = ground (arith, h)

  abbrev encrypt_value : String → Json → ℕ → Result Json × ℕ
  encrypt_value = transform_config_value crypto fold km Mode.transform_encrypt

  abbrev decrypt_value : String → Json → ℕ → Result Json × ℕ
  decrypt_value = transform_config_value crypto fold km Mode.transform_decrypt

  abbrev encrypt_items : String → Items → ℕ → Result Items × ℕ
  encrypt_items = transform_items crypto fold km Mode.transform_encrypt

  abbrev decrypt_items : String → Items → ℕ → Result Items × ℕ
  decrypt_items = transform_items crypto fold km Mode.transform_decrypt

  abbrev encrypt_members : Members → ℕ → Result Members × ℕ
  encrypt_members = transform_members crypto fold km Mode.transform_encrypt

  abbrev decrypt_members : Members → ℕ → Result Members × ℕ
  decrypt_members = transform_members crypto fold km Mode.transform_decrypt

  module _ (lawful : Lawful crypto) where
    transform_text-sealed :
        (parent s : String) (key : KeyManager crypto) (sealed : String) (n m : ℕ)
        → km ≡ some key
        → seal crypto key n s ≡ ok sealed
        → transform_text crypto fold km Mode.transform_decrypt parent sealed m ≡ (ok (text s), m)
    unfolding transform_text
    transform_text-sealed parent s key sealed n m e h =
        let (encrypted, opens) = seal_sound crypto lawful key s n sealed h in
        ground (arith, e, encrypted, opens, encrypted-not_empty sealed encrypted)

    transform_text-roundtrip :
        (parent s : String) (n n' m : ℕ) (out : Json)
        → is_encrypted_value s ≡ false
        → transform_text crypto fold km Mode.transform_encrypt parent s n ≡ (ok out, n')
        → transform_config_value crypto fold km Mode.transform_decrypt parent out m
          ≡ (ok (text s), m)
    unfolding transform_text transform_config_value
    transform_text-roundtrip parent s n n' m out p h =
        elim (Bool-cases (not (is_sensitive crypto fold km parent s) || (s == ""))) [
          | inl e ↦
              let same : text s ≡ out = ground (arith, h, e) in
              decrypted parent s m same
                (transform_text-untouched Mode.transform_decrypt parent s m e)
          | inr e ↦ elim (Option-cases km) [
            | inl k ↦ absurd (ground (arith, h, e, p, k))
            | inr (key, k) ↦ elim (Result-cases (seal crypto key n s)) [
              | inl (x, l) ↦ absurd (ground (arith, h, e, p, k, l))
              | inr (sealed, l) ↦
                  let same : text sealed ≡ out = ground (arith, h, e, p, k, l) in
                  decrypted parent s m same (transform_text-sealed parent s key sealed n m k l)
            ]
          ]
        ]
      where
        decrypted :
            (parent s : String) (m : ℕ) {s' : String} {out : Json}
            → text s' ≡ out
            → transform_text crypto fold km Mode.transform_decrypt parent s' m ≡ (ok (text s), m)
            → transform_config_value crypto fold km Mode.transform_decrypt parent out m
              ≡ (ok (text s), m)
        decrypted parent s m e h =
            subst
              (λ o.
                transform_config_value crypto fold km Mode.transform_decrypt parent o m
                ≡ (ok (text s), m))
              e h

    mutual
      unfolding transform_config_value IsPlain

      pub value-roundtrip :
          (parent : String) (v : Json) (n n' m : ℕ) (out : Json)
          → IsPlain v
          → transform_config_value crypto fold km Mode.transform_encrypt parent v n ≡ (ok out, n')
          → transform_config_value crypto fold km Mode.transform_decrypt parent out m ≡ (ok v, m)
      value-roundtrip parent null n n' m out p h =
          subst (λ o. decrypt_value parent o m ≡ (ok null, m)) (ok_same h) refl
      value-roundtrip parent (boolean b) n n' m out p h =
          subst (λ o. decrypt_value parent o m ≡ (ok (boolean b), m)) (ok_same h) refl
      value-roundtrip parent (number d) n n' m out p h =
          subst (λ o. decrypt_value parent o m ≡ (ok (number d), m)) (ok_same h) refl
      value-roundtrip parent (text s) n n' m out p h =
          transform_text-roundtrip parent s n n' m out p h
      value-roundtrip parent (array items) n n' m out p h =
          let (items', k, first, last) = then_with_ok (encrypt_items parent items n) _ out n' h in
          subst (λ o. decrypt_value parent o m ≡ (ok (array items), m)) (ok_same last)
            (ap (λ r. then_with r (λ o j. (ok (array o), j)))
              (items-roundtrip parent items n k m items' p first))
      value-roundtrip parent (object members) n n' m out p h =
          let (members', k, first, last) = then_with_ok (encrypt_members members n) _ out n' h in
          subst (λ o. decrypt_value parent o m ≡ (ok (object members), m)) (ok_same last)
            (ap (λ r. then_with r (λ o j. (ok (object o), j)))
              (members-roundtrip members n k m members' p first))

      items-roundtrip :
          (parent : String) (v : Items) (n n' m : ℕ) (out : Items)
          → ItemsPlain v
          → transform_items crypto fold km Mode.transform_encrypt parent v n ≡ (ok out, n')
          → transform_items crypto fold km Mode.transform_decrypt parent out m ≡ (ok v, m)
      items-roundtrip parent nil n n' m out p h =
          subst (λ o. decrypt_items parent o m ≡ (ok nil, m)) (ok_same h) refl
      items-roundtrip parent (item child rest) n n' m out p h =
          let (next, k, first, others) = then_with_ok (encrypt_value parent child n) _ out n' h in
          let (rest', j, second, last) =
            then_with_ok (encrypt_items parent rest k) _ out n' others in
          let child_back = value-roundtrip parent child n k m next p.0 first in
          let rest_back = items-roundtrip parent rest k j m rest' p.1 second in
          subst (λ o. decrypt_items parent o m ≡ (ok (item child rest), m)) (ok_same last)
            (ground (arith, child_back, rest_back))

      members-roundtrip :
          (v : Members) (n n' m : ℕ) (out : Members)
          → MembersPlain v
          → transform_members crypto fold km Mode.transform_encrypt v n ≡ (ok out, n')
          → transform_members crypto fold km Mode.transform_decrypt out m ≡ (ok v, m)
      members-roundtrip end n n' m out p h =
          subst (λ o. decrypt_members o m ≡ (ok end, m)) (ok_same h) refl
      members-roundtrip (member key child rest) n n' m out p h =
          let (next, k, first, others) = then_with_ok (encrypt_value key child n) _ out n' h in
          let (rest', j, second, last) = then_with_ok (encrypt_members rest k) _ out n' others in
          let child_back = value-roundtrip key child n k m next p.0 first in
          let rest_back = members-roundtrip rest k j m rest' p.1 second in
          subst (λ o. decrypt_members o m ≡ (ok (member key child rest), m)) (ok_same last)
            (ground (arith, child_back, rest_back))
