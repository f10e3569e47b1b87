-- ===== src/ConfigTemplates/Setup.antt =====
-- What `QuickSetupApp` of internal/service/config_template_service.go leaves in the tables.
use go_pay.Prelude.{
  ℕ, ◌+◌, String, Bool, true, false, Option, none, some, List, [], ◌∷◌, ◌++◌, ◌==◌, eq_iff, eq_refl,
  ◌≡◌, refl, sym, ap, ◌∙◌, ◌⊎◌, inl, inr, arith, find, any, Bool-cases, Option-cases, if◌then◌else◌,
}
use mathlib.Core.Path.{subst}
use go_pay.Errors.{GoError, wrap, Result, ok, err, Result-cases}
use go_pay.Models.{App, ChannelConfig}
use go_pay.Providers.{is_config}
use go_pay.ConfigService.{Registry, has_app_id}
use go_pay.ConfigTemplates.Rows.{is_pair, upsert-same, upsert-other}
use go_pay.ConfigTemplates.Sealed.{IsSealed, sealed_config-IsSealed}
use go_pay.ConfigTemplates.{
  ConfigTemplate, ChannelConfigRequest, QuickSetupRequest, Codec, insert_new_app, upsert_config,
  sealed_config, setup_channels, quick_setup_app,
}

module _ (codec : Codec) (templates : List ConfigTemplate) (fault : ℕ → Option GoError)
    (now : ℕ) where
  abbrev pub sealed : ChannelConfigRequest → Result String
  sealed = sealed_config codec templates fault now

  abbrev loop : ℕ → String → List ChannelConfigRequest → Registry → Result Registry
  loop = setup_channels codec templates fault now

  -- One round of the loop.
  loop-cons :
      (n : ℕ) (app_id : String) (c : ChannelConfigRequest) (cs : List ChannelConfigRequest)
      (r r' : Registry)
      → loop n app_id (c ∷ cs) r ≡ ok r'
      → (config : String) × (sealed c ≡ ok config)
        × (loop (n + 2) app_id cs (upsert_config now app_id c.channel config r) ≡ ok r')
  unfolding setup_channels
  loop-cons n app_id c cs r r' h = elim (Option-cases (fault n)) [
    | inr (e, f) ↦ absurd (ground (arith, h, f))
    | inl f ↦ elim (Result-cases (sealed c)) [
      | inl (e, g) ↦ absurd (ground (arith, h, f, g))
      | inr (config, g) ↦ elim (Option-cases (fault (n + 1))) [
        | inr (e, k) ↦ absurd (ground (arith, h, f, g, k))
        | inl k ↦ (config, g, ground (arith, h, f, g, k))
      ]
    ]
  ]

  loop-apps :
      (n : ℕ) (app_id : String) (cs : List ChannelConfigRequest) (r r' : Registry)
      → loop n app_id cs r ≡ ok r'
      → r'.apps ≡ r.apps
  unfolding setup_channels upsert_config
  loop-apps n app_id [] r r' h = ground arith
  loop-apps n app_id (c ∷ cs) r r' h =
      let (config, made, rest) = loop-cons n app_id c cs r r' h in
      let r1 = upsert_config now app_id c.channel config r in
      let same : r1.apps ≡ r.apps = ground arith in loop-apps (n + 2) app_id cs r1 r' rest ∙ same

  abbrev pub names : String → List ChannelConfigRequest → String → String → Bool
  names app_id cs a ch = any (λ (c : ChannelConfigRequest). is_pair app_id c.channel a ch) cs

  -- The last request for a channel.
  abbrev pub last_request : String → List ChannelConfigRequest → Option ChannelConfigRequest
  last_request ch [] = none
  last_request ch (c ∷ cs) = elim (last_request ch cs) [
    | some d ↦ some d
    | none ↦ if c.channel == ch then some c else none
  ]

  last_request-none :
      (app_id ch : String) (cs : List ChannelConfigRequest)
      → names app_id cs app_id ch ≡ false
      → last_request ch cs ≡ none
  last_request-none app_id ch [] h = refl
  last_request-none app_id ch (c ∷ cs) h =
      ground (arith, h, last_request-none app_id ch cs (ground (arith, h)), eq_refl app_id)

  loop-other :
      (n : ℕ) (app_id a ch : String) (cs : List ChannelConfigRequest) (r r' : Registry)
      → loop n app_id cs r ≡ ok r'
      → names app_id cs a ch ≡ false
      → find (is_config a ch) r'.configs ≡ find (is_config a ch) r.configs
  unfolding setup_channels
  loop-other n app_id a ch [] r r' h other = ground arith
  loop-other n app_id a ch (c ∷ cs) r r' h other =
      let (config, made, rest) = loop-cons n app_id c cs r r' h in
      loop-other (n + 2) app_id a ch cs (upsert_config now app_id c.channel config r) r' rest
        (ground (arith, other))
      ∙ upsert-other now app_id c.channel config a ch r (ground (arith, other))

  -- The row of the channel is active, and its configuration is sealed for the last request for the
  -- channel.
  pub record IsSetUp (app_id ch : String) (cs : List ChannelConfigRequest) (r : Registry)
      : Type 0 where
    pub row : ChannelConfig
    pub found : find (is_config app_id ch) r.configs ≡ some row
    pub active : row.status ≡ "active"
    pub request : ChannelConfigRequest
    pub last : last_request ch cs ≡ some request
    pub made : IsSealed codec templates request row.config

  loop-IsSetUp :
      (n : ℕ) (app_id ch : String) (cs : List ChannelConfigRequest) (r r' : Registry)
      → loop n app_id cs r ≡ ok r'
      → names app_id cs app_id ch ≡ true
      → IsSetUp app_id ch cs r'
  loop-IsSetUp n app_id ch [] r r' h named = absurd (ground (arith, named))
  loop-IsSetUp n app_id ch (c ∷ cs) r r' h named =
      let (config, made, rest) = loop-cons n app_id c cs r r' h in
      let r1 = upsert_config now app_id c.channel config r in
      elim (Bool-cases (names app_id cs app_id ch)) [
        | inl later ↦
            let s = loop-IsSetUp (n + 2) app_id ch cs r1 r' rest later in
            record {
              row = s.row;
              found = s.found;
              active = s.active;
              request = s.request;
              last = ground (arith, s.last);
              made = s.made;
            }
        | inr last ↦
            let here : ch ≡ c.channel =
              ground (arith, named, last, eq_iff c.channel ch, eq_iff ch c.channel) in
            let (row, found, same, active) = upsert-same now app_id c.channel config r in
            record {
              row = row;
              found = loop-other (n + 2) app_id app_id ch cs r1 r' rest last ∙ rw here found;
              active = active;
              request = c;
              last = ground (arith, last_request-none app_id ch cs last, here, eq_refl ch);
              made =
                  sealed_config-IsSealed codec templates fault now c row.config
                    (made ∙ ap ok (sym same));
            }
      ]

  -- The app was there and all apps stay, or it is added as the request names it.
  abbrev pub HasApp : QuickSetupRequest → Registry → Registry → Type 0
  HasApp req r r' =
      ((x : App) × (find (has_app_id req.app_id) r.apps ≡ some x) × (r'.apps ≡ r.apps))
      ⊎ ((x : App) × (find (has_app_id req.app_id) r.apps ≡ none)
          × (r'.apps ≡ r.apps ++ x ∷ [])
          × (x.app_id ≡ req.app_id)
          × (x.app_name ≡ req.app_name)
          × (x.app_secret ≡ req.app_secret)
          × (x.callback_url ≡ req.callback_url)
          × (x.status ≡ "active"))

  -- The row of a pair that the request names is set up, and that of any other stays.
  abbrev pub HasRow : QuickSetupRequest → String → String → Registry → Registry → Type 0
  HasRow req a ch r r' =
      ((names req.app_id req.channels a ch ≡ true)
        × (a ≡ req.app_id)
        × IsSetUp req.app_id ch req.channels r')
      ⊎ ((names req.app_id req.channels a ch ≡ false)
          × (find (is_config a ch) r'.configs ≡ find (is_config a ch) r.configs))

  inserted-configs :
      (req : QuickSetupRequest) (r : Registry) → (insert_new_app now req r).configs ≡ r.configs
  inserted-configs req r = ground arith

  inserted-HasApp :
      (req : QuickSetupRequest) (r r' : Registry)
      → r'.apps ≡ (insert_new_app now req r).apps
      → HasApp req r r'
  inserted-HasApp req r r' same = elim (Option-cases (find (has_app_id req.app_id) r.apps)) [
    | inr (x, f) ↦ inl (x, f, ground (arith, f, same))
    | inl f ↦ inr (
      record {
        id = r.next_app_id;
        app_id = req.app_id;
        app_name = req.app_name;
        app_secret = req.app_secret;
        callback_url = req.callback_url;
        status = "active";
        created_at = now;
        updated_at = now;
      },
      f,
      ground (arith, f, same),
      refl,
      refl,
      refl,
      refl,
      refl,
    )
  ]

  named-app :
      (app_id a ch : String) (cs : List ChannelConfigRequest)
      → names app_id cs a ch ≡ true
      → a ≡ app_id
  named-app app_id a ch [] h = absurd (ground (arith, h))
  named-app app_id a ch (c ∷ cs) h = elim (Bool-cases (is_pair app_id c.channel a ch)) [
    | inl e ↦ ground (arith, e, eq_iff app_id a)
    | inr e ↦ named-app app_id a ch cs (ground (arith, h, e))
  ]

  loop-HasRow :
      (req : QuickSetupRequest) (r r' : Registry) (a ch : String)
      → loop 2 req.app_id req.channels (insert_new_app now req r) ≡ ok r'
      → HasRow req a ch r r'
  loop-HasRow req r r' a ch h =
      let r1 = insert_new_app now req r in
      elim (Bool-cases (names req.app_id req.channels a ch)) [
        | inl e ↦
            let same = named-app req.app_id a ch req.channels e in
            inl (
              e,
              same,
              loop-IsSetUp 2 req.app_id ch req.channels r1 r' h
                  (subst (λ b. names req.app_id req.channels b ch ≡ true) same e),
            )
        | inr e ↦ inr (
          e,
          loop-other 2 req.app_id a ch req.channels r1 r' h e
              ∙ ap (find (is_config a ch)) (inserted-configs req r),
        )
      ]

  -- Whatever statement fails, `QuickSetupApp` returns an error and changes nothing; or it succeeds,
  -- the app is there, as it was before or active with the name, secret and callback of the
  -- request, each channel that the request names has an active row, and every other row of the
  -- configurations stays. The configuration of such a row is the encryption of the JSON of a map
  -- in which a key has the value that the last request for the channel gives it, or else that of the
  -- defaults of an active template of the channel.
  pub quick_setup_app-Outcome :
      (commit : Option GoError) (req : QuickSetupRequest) (r : Registry) (a ch : String)
      → let (result, r') = quick_setup_app codec templates fault now commit req r in
        ((e : GoError) × (result ≡ err e) × (r' ≡ r))
        ⊎ ((result ≡ ok tt) × HasApp req r r' × HasRow req a ch r r')
  unfolding quick_setup_app
  quick_setup_app-Outcome commit req r a ch = elim (Option-cases (fault 0)) [
    | inr (e, f) ↦ inl (wrap "failed to begin transaction" e, ground (arith, f), ground (arith, f))
    | inl f ↦ elim (Option-cases (fault 1)) [
      | inr (e, g) ↦ inl (wrap "failed to create app" e, ground (arith, f, g), ground (arith, f, g))
      | inl g ↦ elim (Result-cases (loop 2 req.app_id req.channels (insert_new_app now req r))) [
        | inl (e, h) ↦ inl (e, rw (f, g, h) refl, rw (f, g, h) refl)
        | inr (r', h) ↦ elim (Option-cases commit) [
          | inr (e, k) ↦
              inl
                (wrap "failed to commit transaction" e, rw (f, g, h, k) refl, rw (f, g, h, k) refl)
          | inl k ↦
              rw (f, g, h, k)
                (inr (
                  refl,
                  inserted-HasApp req r r'
                      (loop-apps 2 req.app_id req.channels (insert_new_app now req r) r' h),
                  loop-HasRow req r r' a ch h,
                ))
        ]
      ]
    ]
  ]
