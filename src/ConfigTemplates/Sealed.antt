-- ===== src/ConfigTemplates/Sealed.antt =====
-- What `QuickSetupApp` of internal/service/config_template_service.go stores for a channel: the
-- defaults of a template with the values of the request over them, encrypted.
use go_pay.Prelude.{
  ℕ, String, Bool, true, Option, none, some, List, [], ◌∷◌, ◌==◌, eq_iff, ◌≡◌, refl, ap, ◌∙◌, inl,
  inr, arith, find, find_sound, Any, Bool-cases, Option-cases, if◌then◌else◌,
}
use go_pay.Errors.{GoError, ok, Result-cases}
use go_pay.ConfigCrypto.{Json}
use go_pay.ConfigTemplates.{
  ConfigTemplate, Entries, ChannelConfigRequest, Codec, is_template_of, put, put_all, merge,
  sealed_config,
}

-- `m[k]`
abbrev pub value_of : String → Entries → Option Json
value_of k [] = none
value_of k ((j, v) ∷ m) = if j == k then some v else value_of k m

-- The last value that a list of entries gives to a key.
abbrev pub last_value : String → Entries → Option Json
last_value k [] = none
last_value k ((j, v) ∷ es) = elim (last_value k es) [
  | some w ↦ some w
  | none ↦ if j == k then some v else none
]

abbrev pub or_value : Option Json → Option Json → Option Json
or_value none y = y
or_value (some v) y = some v

value_of-put :
    (k j : String) (v : Json) (m : Entries)
    → value_of k (put j v m) ≡ (if j == k then some v else value_of k m)
value_of-put k j v [] = refl
value_of-put k j v ((i, w) ∷ m) = elim (Bool-cases (i == j)) [
  | inl e ↦ elim (Bool-cases (j == k)) [
    | inl f ↦ ground (arith, e, f)
    | inr f ↦ ground (arith, e, f, eq_iff i j, eq_iff i k, eq_iff j k)
  ]
  | inr e ↦ elim (Bool-cases (i == k)) [
    | inl f ↦ ground (arith, e, f, eq_iff i j, eq_iff i k, eq_iff j k)
    | inr f ↦ ground (arith, e, f, value_of-put k j v m)
  ]
]

value_of-put_all :
    (k : String) (es m : Entries)
    → value_of k (put_all es m) ≡ or_value (last_value k es) (value_of k m)
value_of-put_all k [] m = refl
value_of-put_all k ((j, v) ∷ es) m =
    let later = value_of-put_all k es (put j v m) in
    let here = value_of-put k j v m in
    elim (Option-cases (last_value k es)) [
      | inr (w, e) ↦ ground (arith, later, e)
      | inl e ↦ elim (Bool-cases (j == k)) [
        | inl f ↦ ground (arith, later, here, e, f)
        | inr f ↦ ground (arith, later, here, e, f)
      ]
    ]

or_value-none : (x : Option Json) → or_value x none ≡ x
or_value-none none = refl
or_value-none (some v) = refl

value_of-merge :
    (k : String) (defaults own : Entries)
    → value_of k (merge defaults own) ≡ or_value (last_value k own) (last_value k defaults)
unfolding merge
value_of-merge k defaults own =
    value_of-put_all k own (put_all defaults [])
    ∙ ap (or_value (last_value k own))
        (value_of-put_all k defaults [] ∙ or_value-none (last_value k defaults))

found-Any :
    (p : ConfigTemplate → Bool) (ts : List ConfigTemplate) (t : ConfigTemplate)
    → find p ts ≡ some t
    → Any (λ x. x ≡ t) ts
found-Any p [] t h = absurd (ground (arith, h))
found-Any p (x ∷ ts) t h = elim (Bool-cases (p x)) [
  | inl e ↦ inl (ground (arith, h, e))
  | inr e ↦ inr (found-Any p ts t (ground (arith, h, e)))
]

module _ (codec : Codec) (templates : List ConfigTemplate) where
  -- The configuration is the encryption of the JSON of a map, in which a key has the value of the
  -- request, or else that of the defaults of an active template of the channel.
  pub record IsSealed (c : ChannelConfigRequest) (config : String) : Type 0 where
    pub template : ConfigTemplate
    pub listed : Any (λ t. t ≡ template) templates
    pub channel : template.channel ≡ c.channel
    pub active : template.is_active ≡ true
    pub defaults : Entries
    pub parsed : codec.unmarshal template.default_values ≡ ok defaults
    pub merged : Entries
    pub values :
        (k : String) → value_of k merged ≡ or_value (last_value k c.config) (last_value k defaults)
    pub json : String
    pub marshalled : codec.marshal merged ≡ ok json
    pub encrypted : codec.encrypt json ≡ ok config

  pub sealed_config-IsSealed :
      (fault : ℕ → Option GoError) (now : ℕ) (c : ChannelConfigRequest) (config : String)
      → sealed_config codec templates fault now c ≡ ok config
      → IsSealed c config
  unfolding sealed_config
  sealed_config-IsSealed fault now c config h =
      let p = is_template_of c.channel in
      elim (Option-cases (find p templates)) [
        | inl e ↦ absurd (ground (arith, h, e))
        | inr (t, e) ↦ elim (Result-cases (codec.unmarshal t.default_values)) [
          | inl (x, f) ↦ absurd (ground (arith, h, e, f))
          | inr (defaults, f) ↦ elim (Result-cases (codec.marshal (merge defaults c.config))) [
            | inl (x, g) ↦ absurd (ground (arith, h, e, f, g))
            | inr (json, g) ↦
                let sound = find_sound p templates e in
                record {
                  template = t;
                  listed = found-Any p templates t e;
                  channel = (eq_iff t.channel c.channel).0 (ground (arith, sound));
                  active = ground (arith, sound);
                  defaults = defaults;
                  parsed = f;
                  merged = merge defaults c.config;
                  values = λ k. value_of-merge k defaults c.config;
                  json = json;
                  marshalled = g;
                  encrypted = elim (Result-cases (codec.encrypt json)) [
                    | inl (x, k) ↦ absurd (ground (arith, h, e, f, g, k))
                    | inr (s, k) ↦ k ∙ ground (arith, h, e, f, g, k)
                  ];
                }
          ]
        ]
      ]
