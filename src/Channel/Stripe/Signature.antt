-- ===== src/Channel/Stripe/Signature.antt =====
-- `verifyWebhookSignature` of pkg/channel/stripe/provider.go. `hmac key text` is HMAC-SHA256 in
-- hexadecimal digits, and `now` the clock in seconds.
use Prim.Native.Char.{code}
use go_pay.Prelude.{
  ℕ, String, ⊤, Bool, true, false, ◌||◌, Option, none, some, List, [], ◌∷◌, ◌++◌, ◌==◌,
  if◌then◌else◌, eqb, any, concat,
}
use go_pay.Prelude.Int.{pos, ltb_ℤ}
use go_pay.Prelude.Word.{sub64}
use go_pay.Errors.{plain, Result, ok, err}
use go_pay.Middleware.Signature.{parse_int}

abbrev on_head : (String → String) → List String → List String
on_head f [] = f "" ∷ []
on_head f (s ∷ ss) = f s ∷ ss

-- `strings.Split(s, sep)`, for a separator of one character.
abbrev pub split : ℕ → String → List String
split sep String.[] = "" ∷ []
split sep (String.◌∷◌ c s) =
    let rest = split sep s in
    if eqb (code c) sep then "" ∷ rest else on_head (λ t. String.◌∷◌ c t) rest

-- `strings.SplitN(s, sep, 2)`, where that has two parts.
abbrev pub cut : ℕ → String → Option (String × String)
cut sep String.[] = none
cut sep (String.◌∷◌ c s) =
    let rest = cut sep s in
    if eqb (code c) sep
    then some ("", s)
    else elim rest [ none ↦ none | some (a, b) ↦ some (String.◌∷◌ c a, b) ]

-- The variables `timestamp` and `signatures`.
pub record Header : Type 0 where
  pub timestamp : String
  pub signatures : List String

abbrev read_pair : String × String → Header → Header
read_pair (key, value) h =
    if key == "t"
    then record h { timestamp = value }
    else if key == "v1"
    then record h { signatures = h.signatures ++ value ∷ [] }
    else h

abbrev read_part : String → Header → Header
read_part part h = elim (cut b'=' part) [ none ↦ h | some kv ↦ read_pair kv h ]

abbrev read_parts : List String → Header → Header
read_parts [] h = h
read_parts (part ∷ parts) h = read_parts parts (read_part part h)

unfoldable pub read_header : String → Header
read_header text = read_parts (split b',' text) (record { timestamp = ""; signatures = [] })

abbrev no_signatures : List String → Bool
no_signatures [] = true
no_signatures (s ∷ ss) = false

-- `fmt.Sprintf("%s.%s", timestamp, payload)`
abbrev pub signed_payload : String → String → String
signed_payload timestamp payload = concat (timestamp ∷ "." ∷ payload ∷ [])

-- The loop over the signatures.
abbrev pub matches : List String → String → Bool
matches signatures expected = any (λ sig. sig == expected) signatures

module _ (hmac : String → String → String) where
  unfoldable pub verify_header : ℕ → String → Header → String → Result ⊤
  verify_header now payload h secret =
      if (h.timestamp == "") || no_signatures h.signatures
      then err (plain "invalid signature header format")
      else elim (parse_int h.timestamp) [
        | none ↦ err (plain "invalid timestamp")
        | some ts ↦
            if ltb_ℤ (pos 300) (sub64 (pos now) ts)
            then err (plain "webhook timestamp too old")
            else if matches h.signatures (hmac secret (signed_payload h.timestamp payload))
            then ok tt
            else err (plain "signature mismatch")
      ]

  unfoldable pub verify_webhook_signature : ℕ → String → String → String → Result ⊤
  unfolding verify_header read_header
  verify_webhook_signature now payload header secret =
      verify_header now payload (read_header header) secret
