-- ===== src/Providers/Cached.antt =====
-- The cache of internal/service/channel_manager.go against a manager without one, while the rows
-- of `channel_configs` stay as they are.
use mathlib.Core.Path.{subst}
use go_pay.Prelude.{
  ◌≡◌, refl, sym, ap, ◌∙◌, String, Bool, true, false, not, ◌||◌, Option, none, some, List, [], ◌∷◌,
  ◌==◌, find, find_sound, select, order_by, all, All, All-imp, All-select_kept, All-reverse_onto,
  All-order_by, arith, eq_iff, Bool-cases, Option-cases, inl, inr,
}
use go_pay.Errors.{GoError, Result, ok, Result-cases}
use go_pay.Models.{ChannelConfig}
use go_pay.Channel.{PaymentChannel}
use go_pay.Providers.{
  Vendors, Cache, cache_key, cached, without, create_provider, is_config, load_provider,
  get_provider, is_listed, active_configs, Listing, list_row, list_rows,
  list_providers_by_channel_prefix, reload_provider, close,
}

-- A call of the manager; a query may fail.
pub data Call : Type 0 where
  get : Option GoError → String → String → Call
  list_prefix : Bool → Option GoError → String → Call
  reload : String → String → Call
  close_all : Call

-- No other row has the key of an app and a channel.
abbrev pub is_separate : List ChannelConfig → String → String → Bool
is_separate configs app_id channel =
    all
      (λ (c : ChannelConfig).
        not (cache_key c.app_id c.channel == cache_key app_id channel)
        || is_config app_id channel c)
      configs

-- `(app_id, channel)` is unique: every row is the one that its app and channel find.
abbrev pub UniqueRows : List ChannelConfig → Type 0
UniqueRows configs =
    All (λ (c : ChannelConfig). find (is_config c.app_id c.channel) configs ≡ some c) configs

find-all :
    {A : Type 0} (p q : A → Bool) (xs : List A) {x : A}
    → find p xs ≡ some x
    → all q xs ≡ true
    → q x ≡ true
find-all p q [] h a = absurd (ground (arith, h))
find-all p q (y ∷ xs) {x} h a = ground (arith, find-all p q xs {x = x})

config-same :
    (a c : String) (r : ChannelConfig) → is_config a c r ≡ true → (r.app_id ≡ a) × (r.channel ≡ c)
config-same a c r h = (ground (arith, h, eq_iff r.app_id a), ground (arith, h, eq_iff r.channel c))

module _ (vendors : Vendors) (decrypt : String → Result String) (configs : List ChannelConfig) where
  abbrev load : String → String → Result PaymentChannel
  load = load_provider vendors decrypt none configs

  CachedFrom : String × PaymentChannel → Type 0
  CachedFrom (k, p) = (a : String) × (c : String) × (k ≡ cache_key a c) × (load a c ≡ ok p)

  cached_sound :
      (key : String) (cache : Cache) (p : PaymentChannel)
      → All CachedFrom cache
      → cached key cache ≡ some p
      → CachedFrom (key, p)
  unfolding CachedFrom
  cached_sound key [] p h e = absurd (ground (arith, e))
  cached_sound key ((k, q) ∷ cache) p ((a, c, same, made), h) e = elim (Bool-cases (k == key)) [
    | inl m ↦ (a, c, sym ((eq_iff k key).0 m) ∙ same, made ∙ ap ok (ground (arith, e, m)))
    | inr m ↦ cached_sound key cache p h (ground (arith, e, m))
  ]

  -- Two pairs with one key of which one has a row and the other is separate are the same.
  load-separate :
      (a c a' c' : String) (p : PaymentChannel)
      → is_separate configs a c ≡ true
      → cache_key a c ≡ cache_key a' c'
      → load a' c' ≡ ok p
      → load a c ≡ ok p
  unfolding load_provider
  load-separate a c a' c' p s same made = elim (Option-cases (find (is_config a' c') configs)) [
    | inl e ↦ absurd (ground (arith, made, e))
    | inr (r, e) ↦
        let (same_app, same_channel) =
          config-same a' c' r (find_sound (is_config a' c') configs e) in
        let key_of_row : cache_key r.app_id r.channel ≡ cache_key a c =
          ap (λ x. cache_key x r.channel) same_app ∙ ap (cache_key a') same_channel ∙ sym same in
        let (app, channel) =
          config-same a c r (separated r key_of_row (find-all (is_config a' c') _ configs e s)) in
        ap (λ x. load x c) (sym app ∙ same_app) ∙ ap (load a') (sym channel ∙ same_channel) ∙ made
  ]
    where
      separated :
          (r : ChannelConfig)
          → cache_key r.app_id r.channel ≡ cache_key a c
          → (not (cache_key r.app_id r.channel == cache_key a c) || is_config a c r) ≡ true
          → is_config a c r ≡ true
      separated r k h =
          ground (arith, h, (eq_iff (cache_key r.app_id r.channel) (cache_key a c)).1 k)

  -- The cache after a call.
  abbrev pub serve : Call → Cache → Cache
  serve (get fault a c) cache = (get_provider vendors decrypt fault configs a c cache).1
  serve (list_prefix has_db fault prefix) cache =
      (list_providers_by_channel_prefix vendors decrypt has_db fault configs prefix cache).1
  serve (reload a c) cache = reload_provider a c cache
  serve close_all cache = close cache

  abbrev pub serve_all : List Call → Cache → Cache
  serve_all [] cache = cache
  serve_all (call ∷ calls) cache = serve_all calls (serve call cache)

  abbrev Faithful : Cache → Type 0
  Faithful cache = All CachedFrom cache

  load-fault :
      (fault : Option GoError) (a c : String) (p : PaymentChannel)
      → load_provider vendors decrypt fault configs a c ≡ ok p
      → load a c ≡ ok p
  unfolding load_provider
  load-fault none a c p h = h
  load-fault (some e) a c p h = absurd (ground (arith, h))

  get_provider-Faithful :
      (fault : Option GoError) (a c : String) (cache : Cache)
      → Faithful cache
      → Faithful (get_provider vendors decrypt fault configs a c cache).1
  unfolding get_provider CachedFrom
  get_provider-Faithful fault a c cache h = elim (Option-cases (cached (cache_key a c) cache)) [
    | inr (p, e) ↦ subst Faithful (sym (ground (arith, e))) h
    | inl e ↦ elim (Result-cases (load_provider vendors decrypt fault configs a c)) [
      | inl (x, k) ↦ subst Faithful (sym (ground (arith, e, k))) h
      | inr (p, k) ↦
          let kept : (get_provider vendors decrypt fault configs a c cache).1
              ≡ (cache_key a c, p) ∷ cache =
            ground (arith, e, k) in
          subst Faithful (sym kept) ((a, c, refl, load-fault fault a c p k), h)
    ]
  ]

  without-Faithful : (key : String) (cache : Cache) → Faithful cache → Faithful (without key cache)
  without-Faithful key [] h = tt
  without-Faithful key ((k, p) ∷ cache) h = ground (arith, h.0, without-Faithful key cache h.1)

  -- A row that is active and the one of its app and channel.
  abbrev IsLoaded : ChannelConfig → Type 0
  IsLoaded c =
      (find (is_config c.app_id c.channel) configs ≡ some c) × ((c.status == "active") ≡ true)

  load-row :
      (c : ChannelConfig) (p : PaymentChannel)
      → IsLoaded c
      → create_provider vendors decrypt c.channel c.config ≡ ok p
      → load c.app_id c.channel ≡ ok p
  unfolding load_provider
  load-row c p h made = ground (arith, h, made)

  list_row-Faithful :
      (c : ChannelConfig) (l : Listing)
      → IsLoaded c
      → Faithful l.kept
      → Faithful (list_row vendors decrypt c l).kept
  unfolding list_row CachedFrom
  list_row-Faithful c l loaded h =
      elim (Option-cases (cached (cache_key c.app_id c.channel) l.kept)) [
        | inr (p, e) ↦ subst Faithful (sym (ground (arith, e))) h
        | inl e ↦ elim (Result-cases (create_provider vendors decrypt c.channel c.config)) [
          | inl (x, k) ↦ subst Faithful (sym (ground (arith, e, k))) h
          | inr (p, k) ↦
              let kept : (list_row vendors decrypt c l).kept
                  ≡ (cache_key c.app_id c.channel, p) ∷ l.kept =
                ground (arith, e, k) in
              subst Faithful (sym kept) ((c.app_id, c.channel, refl, load-row c p loaded k), h)
        ]
      ]

  list_rows-Faithful :
      (cs : List ChannelConfig) (l : Listing)
      → All IsLoaded cs
      → Faithful l.kept
      → Faithful (list_rows vendors decrypt cs l).kept
  unfolding list_rows
  list_rows-Faithful [] l loaded h = h
  list_rows-Faithful (c ∷ cs) l loaded h =
      list_rows-Faithful cs (list_row vendors decrypt c l) loaded.1
        (list_row-Faithful c l loaded.0 h)

  active_configs-IsLoaded :
      UniqueRows configs → (prefix : String) → All IsLoaded (active_configs prefix configs)
  active_configs-IsLoaded unique prefix =
      All-reverse_onto IsLoaded
        (order_by (λ (c : ChannelConfig). c.updated_at) (select (is_listed prefix) configs)) []
        (All-order_by IsLoaded (λ (c : ChannelConfig). c.updated_at)
          (select (is_listed prefix) configs)
          (All-imp (λ c h. (h.0, ground (arith, h.1))) (select (is_listed prefix) configs)
            (All-select_kept
              (λ (c : ChannelConfig). find (is_config c.app_id c.channel) configs ≡ some c)
              (is_listed prefix) configs unique)))
        tt

  list-Faithful :
      (has_db : Bool) (fault : Option GoError) (prefix : String) (cache : Cache)
      → UniqueRows configs
      → Faithful cache
      → Faithful
          (list_providers_by_channel_prefix vendors decrypt has_db fault configs prefix cache).1
  unfolding list_providers_by_channel_prefix
  list-Faithful false fault prefix cache unique h = h
  list-Faithful true (some e) prefix cache unique h = h
  list-Faithful true none prefix cache unique h =
      list_rows-Faithful (active_configs prefix configs)
        (record { providers = []; last_err = none; kept = cache })
        (active_configs-IsLoaded unique prefix) h

  serve-Faithful :
      (call : Call) (cache : Cache)
      → UniqueRows configs
      → Faithful cache
      → Faithful (serve call cache)
  unfolding reload_provider close
  serve-Faithful (get fault a c) cache unique h = get_provider-Faithful fault a c cache h
  serve-Faithful (list_prefix has_db fault prefix) cache unique h =
      list-Faithful has_db fault prefix cache unique h
  serve-Faithful (reload a c) cache unique h = without-Faithful (cache_key a c) cache h
  serve-Faithful close_all cache unique h = tt

  serve_all-Faithful :
      (calls : List Call) (cache : Cache)
      → UniqueRows configs
      → Faithful cache
      → Faithful (serve_all calls cache)
  serve_all-Faithful [] cache unique h = h
  serve_all-Faithful (call ∷ calls) cache unique h =
      serve_all-Faithful calls (serve call cache) unique (serve-Faithful call cache unique h)

  -- After any calls, with any failures of their queries, `GetProvider` returns what it would without
  -- the cache, while the rows stay as they are and no other row has the key of the app and the
  -- channel.
  pub get_provider-load :
      (calls : List Call) (a c : String)
      → UniqueRows configs
      → is_separate configs a c ≡ true
      → (get_provider vendors decrypt none configs a c (serve_all calls [])).0
        ≡ load_provider vendors decrypt none configs a c
  unfolding get_provider CachedFrom
  get_provider-load calls a c unique separate =
      let cache = serve_all calls [] in
      let faithful = serve_all-Faithful calls [] unique tt in
      elim (Option-cases (cached (cache_key a c) cache)) [
        | inr (p, e) ↦
            let (a', c', same, made) = cached_sound (cache_key a c) cache p faithful e in
            ground (arith, e, load-separate a c a' c' p separate same made)
        | inl e ↦ elim (Result-cases (load a c)) [
          | inl (x, k) ↦ ground (arith, e, k)
          | inr (p, k) ↦ ground (arith, e, k)
        ]
      ]
