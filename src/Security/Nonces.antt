-- ===== src/Security/Nonces.antt =====
-- `NonceManager` of pkg/security/access_control.go. The cache maps a nonce to the Unix second at
-- which it came; a reading of the clock is an argument.
use go_pay.Prelude.{
  ℕ, ◌-◌, String, Bool, true, false, Option, none, some, List, [], ◌∷◌, ◌==◌, ltb, if◌then◌else◌,
}

abbrev pub Cache : Type 0
Cache = List (String × ℕ)

-- `nm.cache[nonce]`
abbrev pub seen_at : String → Cache → Option ℕ
seen_at nonce [] = none
seen_at nonce ((n, t) ∷ cache) =
    let rest = seen_at nonce cache in if n == nonce then some t else rest

-- `CheckNonce`: whether the nonce is new, and the cache afterwards.
unfoldable pub check_nonce : ℕ → String → Cache → Bool × Cache
check_nonce now nonce cache = elim (seen_at nonce cache) [
  | some t ↦ (false, cache)
  | none ↦ (true, (nonce, now) ∷ cache)
]

-- One tick of `cleanupExpired`, at a clock that does not stand before any entry.
abbrev pub cleanup_expired : ℕ → Cache → Cache
cleanup_expired now [] = []
cleanup_expired now ((n, t) ∷ cache) =
    let rest = cleanup_expired now cache in if ltb 300 (now - t) then rest else (n, t) ∷ rest
