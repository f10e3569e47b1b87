-- ===== src/Security/Access.antt =====
-- `AccessControl` and `SignatureValidator` of pkg/security/access_control.go, and the key and IP
-- checks of pkg/middleware/auth.go, which are separate code. `Net` is what the package `net` and
-- `strings.TrimSpace` do with an address.
use go_pay.Prelude.{
  any, String, Bool, true, false, not, Option, none, some, List, [], ◌∷◌, ◌++◌, ◌==◌, concat,
  contains, if◌then◌else◌,
}
use go_pay.Prelude.Int.{ℤ, pos, ltb_ℤ}
use go_pay.Prelude.Text.{show_ℤ}
use go_pay.Prelude.Word.{sub64}
use go_pay.Errors.{plain, Result, ok, err}

-- `parse_ip` is `net.ParseIP`, `same` is `IP.Equal`, and `parse_cidr` is `net.ParseCIDR` with
-- `IPNet.Contains`, false of a nil address.
pub record Net : Type 1 where
  pub Ip : Type 0
  pub trim_space : String → String
  pub parse_ip : String → Option Ip
  pub same : Ip → Ip → Bool
  pub parse_cidr : String → Option (Option Ip → Bool)

-- `apiKeys` is the set of the keys that map to true.
pub record AccessControl : Type 0 where
  pub ip_whitelist : List String
  pub api_keys : List String

unfoldable pub add_ip_whitelist : List String → AccessControl → AccessControl
add_ip_whitelist ips ac = record ac { ip_whitelist = ac.ip_whitelist ++ ips }

unfoldable pub add_api_key : String → AccessControl → AccessControl
add_api_key key ac = record ac { api_keys = key ∷ ac.api_keys }

abbrev pub is_key : String → AccessControl → Bool
is_key key ac = any (λ k. k == key) ac.api_keys

unfoldable pub check_api_key : AccessControl → String → Bool
check_api_key ac key = elim ac.api_keys [ [] ↦ true | k ∷ ks ↦ is_key key ac ]

module _ (net : Net) where
  unfoldable pub match_ip : String → String → Bool
  match_ip ip pattern =
      if ip == pattern
      then true
      else if contains pattern "/"
      then elim (net.parse_cidr pattern) [ none ↦ false | some in_net ↦ in_net (net.parse_ip ip) ]
      else false

  unfoldable pub check_ip : AccessControl → String → Bool
  unfolding match_ip
  check_ip ac ip = elim ac.ip_whitelist [ [] ↦ true | w ∷ ws ↦ any (match_ip ip) ac.ip_whitelist ]

-- `hmac secret message` is the HMAC-SHA256 in hexadecimal.
module _ (hmac : String → String → String) where
  unfoldable pub sign : String → String → ℤ → String
  sign secret text timestamp = hmac secret (concat (text ∷ ":" ∷ show_ℤ timestamp ∷ []))

  -- `Verify`, at the Unix second `now`.
  unfoldable pub verify : ℤ → String → String → String → ℤ → Result Unit
  unfolding sign
  verify now secret text signature timestamp =
      if ltb_ℤ (pos 300) (sub64 now timestamp)
      then err (plain "signature expired")
      else if not (signature == sign secret text timestamp)
      then err (plain "invalid signature")
      else ok tt
