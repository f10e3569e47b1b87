-- ===== src/Middleware/Auth.antt =====
-- `APIKeyAuth` and `IPWhitelist` of pkg/middleware/auth.go.
use go_pay.Prelude.{any, String, ⊤, Bool, false, not, none, some, [], ◌∷◌, ◌==◌, if◌then◌else◌}
use go_pay.Response.{unauthorized, forbidden}
use go_pay.Security.Access.{Net, AccessControl, is_key}
use go_pay.Middleware.{Gate, abort, next}

-- `AuthConfig` has the fields of `AccessControl`: the keys in a map, and the whitelist.
abbrev pub AuthConfig : Type 0
AuthConfig = AccessControl

unfoldable pub api_key_auth : AuthConfig → String → Gate ⊤
api_key_auth config key =
    if key == ""
    then abort (unauthorized "缺少 API 密钥" [])
    else if not (is_key key config)
    then abort (unauthorized "无效的 API 密钥" [])
    else next tt

module _ (net : Net) where
  unfoldable pub match_ip : String → String → Bool
  match_ip ip pattern = elim (net.parse_ip (net.trim_space ip)) [
    | none ↦ false
    | some a ↦
        let p = net.trim_space pattern in
        elim (net.parse_ip p) [
          | some b ↦ net.same a b
          | none ↦ elim (net.parse_cidr p) [ some in_net ↦ in_net (some a) | none ↦ ip == p ]
        ]
  ]

  unfoldable pub ip_whitelist : AuthConfig → String → Gate ⊤
  unfolding match_ip
  ip_whitelist config ip = elim config.ip_whitelist [
    | [] ↦ next tt
    | w ∷ ws ↦
        if not (any (match_ip ip) config.ip_whitelist)
        then abort (forbidden "IP 地址未授权" [])
        else next tt
  ]
