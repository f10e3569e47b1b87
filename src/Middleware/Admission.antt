-- ===== src/Middleware/Admission.antt =====
-- What a request that `SignatureAuth` of pkg/middleware/signature.go hands on must have.
use go_pay.Prelude.{
  refl, inl, inr, ℕ, ◌≡◌, String, false, Option, none, some, List, [], ◌∷◌, arith, eq_iff, concat,
  Option-cases,
}
use go_pay.Prelude.Int.{ℤ, pos}
use go_pay.Errors.{GoError, ok, Result-cases}
use go_pay.Models.{App}
use go_pay.Security.Nonces.{Cache, seen_at, check_nonce}
use go_pay.Middleware.{next}
use go_pay.Middleware.Signature.{
  SignedRequest, signature_auth, check_app, check_signature, parse_int, is_expired, app_row,
}

module _ (hmac : String → String → String) (fault : Option GoError) (apps : List App) where
  -- The signature of a request with a body, under the secret of an app.
  abbrev pub IsSigned : SignedRequest → App → String → Type 0
  IsSigned r app body =
      r.signature ≡ hmac app.app_secret (concat (body ∷ "\n" ∷ r.timestamp ∷ "\n" ∷ r.nonce ∷ []))

  check_signature-next :
      (r : SignedRequest) (app : App) (body app_id : String)
      → check_signature hmac fault apps r app body ≡ next app_id
      → IsSigned r app body × (app_id ≡ r.app_id)
  unfolding check_signature
  check_signature-next r app body app_id h = ground (
    arith,
    eq_iff r.signature
        (hmac app.app_secret (concat (body ∷ "\n" ∷ r.timestamp ∷ "\n" ∷ r.nonce ∷ []))),
  )

  -- The app and the body under which a request is signed.
  abbrev pub Admitted : SignedRequest → Option App → Type 0
  Admitted r row =
      (app : App) × (body : String) × (row ≡ some app)
      × (app.status ≡ "active")
      × (r.body ≡ ok body)
      × IsSigned r app body

  check_app-next :
      (r : SignedRequest) (row : Option App) (app_id : String)
      → check_app hmac fault apps r row ≡ next app_id
      → Admitted r row × (app_id ≡ r.app_id)
  unfolding check_app
  check_app-next r none app_id h = absurd (ground (arith, h))
  check_app-next r (some app) app_id h = elim (Result-cases r.body) [
    | inr (body, e) ↦
        let signed = check_signature-next r app body app_id (ground (arith, h, e)) in
        ((app, body, refl, ground (arith, h, eq_iff app.status "active"), e, signed.0), signed.1)
    | inl (x, e) ↦ absurd (ground (arith, h, e))
  ]

  -- A request that is handed on carries a timestamp in the window, a nonce that the cache does not
  -- hold, and a signature over its body, its timestamp and its nonce under the secret of the active
  -- app that it names, which is the app that the handlers are told of.
  pub signature_auth-next :
      (now now' : ℕ) (cache : Cache) (r : SignedRequest) (app_id : String)
      → (signature_auth hmac fault apps now now' (some cache) r).0 ≡ next app_id
      → (app_id ≡ r.app_id)
        × Admitted r (app_row hmac fault apps r.app_id)
        × (seen_at r.nonce cache ≡ none)
        × ((timestamp : ℤ) × (parse_int r.timestamp ≡ some timestamp)
            × (is_expired (pos now) timestamp ≡ false))
  unfolding signature_auth check_nonce
  signature_auth-next now now' cache r app_id h = elim (Option-cases (parse_int r.timestamp)) [
    | inl e ↦ absurd (ground (arith, h, e))
    | inr (timestamp, e) ↦
        let checked =
          check_app-next r (app_row hmac fault apps r.app_id) app_id (ground (arith, h, e)) in
        (checked.1, checked.0, ground (arith, h, e), (timestamp, e, ground (arith, h, e)))
  ]
