-- ===== src/ConfigCrypto/Hidden.antt =====
-- What `transformConfigValue` of internal/service/config_crypto.go leaves readable.
use mathlib.Core.Path.{subst}
use go_pay.Prelude.{
  ℕ, ◌≡◌, refl, ap, String, Bool, false, not, ◌||◌, ◌&&◌, Option, ◌==◌, arith, Bool-cases,
  Option-cases, inl, inr,
}
use go_pay.Errors.{ok, Result-cases}
use go_pay.Security.Encryption.{Crypto, KeyManager, is_encrypted_value, seal}
use go_pay.Security.Encryption.Roundtrip.{seal-prefix}
use go_pay.ConfigCrypto.{
  Json, null, boolean, number, text, array, object, Items, nil, item, Members, end, member, Mode,
  then_with, is_sensitive_config_key, is_sensitive, transform_text, transform_config_value,
  transform_items, transform_members,
}
use go_pay.ConfigCrypto.Transform.{then_with_ok, ok_same}

-- Whether some text has a property, which may depend on the key above it.
module _ (p : String → String → Bool) where
  mutual
    pub any_text : String → Json → Bool
    any_text parent null = false
    any_text parent (boolean b) = false
    any_text parent (number d) = false
    any_text parent (text s) = p parent s
    any_text parent (array items) = any_item parent items
    any_text parent (object members) = any_member members

    any_item : String → Items → Bool
    any_item parent nil = false
    any_item parent (item child rest) = any_text parent child || any_item parent rest

    any_member : Members → Bool
    any_member end = false
    any_member (member key child rest) = any_text key child || any_member rest

-- A text under a sensitive key that is neither empty nor encrypted.
abbrev pub leaks : (String → String) → String → String → Bool
leaks fold parent s =
    is_sensitive_config_key fold parent && not (s == "") && not (is_encrypted_value s)

-- A text that is sensitive, not empty and not masked.
abbrev pub shows : (String → String) → String → String → Bool
shows fold parent s =
    (is_sensitive_config_key fold parent || is_encrypted_value s)
    && not (s == "")
    && not (s == "******")

module _ (crypto : Crypto) (fold : String → String) (km : Option (KeyManager crypto)) where
  transform_text-leaks :
      (parent s : String) (n n' : ℕ) (out : Json)
      → transform_text crypto fold km Mode.transform_encrypt parent s n ≡ (ok out, n')
      → any_text (leaks fold) parent out ≡ false
  unfolding transform_text any_text
  transform_text-leaks parent s n n' out h =
      elim (Bool-cases (not (is_sensitive crypto fold km parent s) || (s == ""))) [
        | inl e ↦ unleaked parent s out (ground (arith, h, e)) (ground (arith, e))
        | inr e ↦ elim (Bool-cases (is_encrypted_value s)) [
          | inl p ↦ unleaked parent s out (ground (arith, h, e, p)) (ground (arith, p))
          | inr p ↦ elim (Option-cases km) [
            | inl k ↦ absurd (ground (arith, h, e, p, k))
            | inr (key, k) ↦ elim (Result-cases (seal crypto key n s)) [
              | inl (x, l) ↦ absurd (ground (arith, h, e, p, k, l))
              | inr (sealed, l) ↦
                  unleaked parent sealed out (ground (arith, h, e, p, k, l))
                    (ground (arith, seal-prefix crypto key n s sealed l))
            ]
          ]
        ]
      ]
    where
      unleaked :
          (parent s : String) (out : Json)
          → text s ≡ out
          → leaks fold parent s ≡ false
          → any_text (leaks fold) parent out ≡ false
      unleaked parent s out e h = subst (λ o. any_text (leaks fold) parent o ≡ false) e h

  transform_text-shows :
      (parent s : String) (n : ℕ)
      → (out : Json) × (transform_text crypto fold km Mode.transform_mask parent s n ≡ (ok out, n))
        × (any_text (shows fold) parent out ≡ false)
  unfolding transform_text any_text
  transform_text-shows parent s n =
      elim (Bool-cases (not (is_sensitive crypto fold km parent s) || (s == ""))) [
        | inl e ↦ (text s, ground (arith, e), ground (arith, e))
        | inr e ↦ (text "******", ground (arith, e), ground arith)
      ]

  mutual
    unfolding transform_config_value any_text

    pub value-leaks :
        (parent : String) (v : Json) (n n' : ℕ) (out : Json)
        → transform_config_value crypto fold km Mode.transform_encrypt parent v n ≡ (ok out, n')
        → any_text (leaks fold) parent out ≡ false
    value-leaks parent null n n' out h =
        subst (λ o. any_text (leaks fold) parent o ≡ false) (ok_same h) refl
    value-leaks parent (boolean b) n n' out h =
        subst (λ o. any_text (leaks fold) parent o ≡ false) (ok_same h) refl
    value-leaks parent (number d) n n' out h =
        subst (λ o. any_text (leaks fold) parent o ≡ false) (ok_same h) refl
    value-leaks parent (text s) n n' out h = transform_text-leaks parent s n n' out h
    value-leaks parent (array items) n n' out h =
        let (items', k, first, last) =
          then_with_ok (transform_items crypto fold km Mode.transform_encrypt parent items n) _ out
            n' h in
        subst (λ o. any_text (leaks fold) parent o ≡ false) (ok_same last)
          (items-leaks parent items n k items' first)
    value-leaks parent (object members) n n' out h =
        let (members', k, first, last) =
          then_with_ok (transform_members crypto fold km Mode.transform_encrypt members n) _ out n'
            h in
        subst (λ o. any_text (leaks fold) parent o ≡ false) (ok_same last)
          (members-leaks members n k members' first)

    items-leaks :
        (parent : String) (v : Items) (n n' : ℕ) (out : Items)
        → transform_items crypto fold km Mode.transform_encrypt parent v n ≡ (ok out, n')
        → any_item (leaks fold) parent out ≡ false
    items-leaks parent nil n n' out h =
        subst (λ o. any_item (leaks fold) parent o ≡ false) (ok_same h) refl
    items-leaks parent (item child rest) n n' out h =
        let (next, k, first, others) =
          then_with_ok (transform_config_value crypto fold km Mode.transform_encrypt parent child n)
            _ out n' h in
        let (rest', j, second, last) =
          then_with_ok (transform_items crypto fold km Mode.transform_encrypt parent rest k) _ out
            n' others in
        subst (λ o. any_item (leaks fold) parent o ≡ false) (ok_same last)
          (ground (
            arith,
            value-leaks parent child n k next first,
            items-leaks parent rest k j rest' second,
          ))

    members-leaks :
        (v : Members) (n n' : ℕ) (out : Members)
        → transform_members crypto fold km Mode.transform_encrypt v n ≡ (ok out, n')
        → any_member (leaks fold) out ≡ false
    members-leaks end n n' out h = subst (λ o. any_member (leaks fold) o ≡ false) (ok_same h) refl
    members-leaks (member key child rest) n n' out h =
        let (next, k, first, others) =
          then_with_ok (transform_config_value crypto fold km Mode.transform_encrypt key child n) _
            out n' h in
        let (rest', j, second, last) =
          then_with_ok (transform_members crypto fold km Mode.transform_encrypt rest k) _ out n'
            others in
        subst (λ o. any_member (leaks fold) o ≡ false) (ok_same last)
          (ground
            (arith, value-leaks key child n k next first, members-leaks rest k j rest' second))

  mutual
    unfolding transform_config_value any_text

    pub value-shows :
        (parent : String) (v : Json) (n : ℕ)
        → (out : Json) × (transform_config_value crypto fold km Mode.transform_mask parent v n
            ≡ (ok out, n))
          × (any_text (shows fold) parent out ≡ false)
    value-shows parent null n = (null, refl, refl)
    value-shows parent (boolean b) n = (boolean b, refl, refl)
    value-shows parent (number d) n = (number d, refl, refl)
    value-shows parent (text s) n = transform_text-shows parent s n
    value-shows parent (array items) n =
        let (out, made, hidden) = items-shows parent items n in
        (array out, ap (λ r. then_with r (λ o k. (ok (array o), k))) made, hidden)
    value-shows parent (object members) n =
        let (out, made, hidden) = members-shows members n in
        (object out, ap (λ r. then_with r (λ o k. (ok (object o), k))) made, hidden)

    items-shows :
        (parent : String) (v : Items) (n : ℕ)
        → (out : Items) × (transform_items crypto fold km Mode.transform_mask parent v n
            ≡ (ok out, n))
          × (any_item (shows fold) parent out ≡ false)
    items-shows parent nil n = (nil, refl, refl)
    items-shows parent (item child rest) n =
        let (next, made, hidden) = value-shows parent child n in
        let (out, others, all_hidden) = items-shows parent rest n in
        (item next out, ground (arith, made, others), ground (arith, hidden, all_hidden))

    members-shows :
        (v : Members) (n : ℕ)
        → (out : Members) × (transform_members crypto fold km Mode.transform_mask v n ≡ (ok out, n))
          × (any_member (shows fold) out ≡ false)
    members-shows end n = (end, refl, refl)
    members-shows (member key child rest) n =
        let (next, made, hidden) = value-shows key child n in
        let (out, others, all_hidden) = members-shows rest n in
        (member key next out, ground (arith, made, others), ground (arith, hidden, all_hidden))
