-- ===== src/Providers.antt =====
-- internal/service/channel_manager.go: providers are made from the rows of `channel_configs` and
-- kept under the key `appID_channel`. A call runs as a whole, as under the lock, so that the second
-- look into the cache sees what the first saw. `Vendors` holds `json.Unmarshal` and the
-- constructors of pkg/channel; what `Close` of a provider does is left out.
pub mod Cached
use Prim.Native.Char.{code}
use go_pay.Prelude.{
  ℕ, String, Bool, true, false, not, ◌&&◌, ◌||◌, Option, none, some, List, [], ◌∷◌, ◌++◌, ◌==◌,
  concat, eqb, find, select, order_by, reverse_onto, if◌then◌else◌,
}
use go_pay.Errors.{GoError, wrap, plain, Result, ok, err}
use go_pay.Errors.Make.{new_channel_not_found, new_channel_inactive, new_invalid_channel}
use go_pay.Models.{ChannelConfig}
use go_pay.Channel.{PaymentChannel}

-- One vendor's `Config`, how a text is read as one, and the constructors of its providers.
pub record Vendor : Type 1 where
  pub Config : Type 0
  pub unmarshal : String → Result Config

pub record Vendors : Type 1 where
  pub wechat : Vendor
  pub alipay : Vendor
  pub stripe : Vendor
  pub new_wechat_native : wechat.Config → Result PaymentChannel
  pub new_wechat_jsapi : wechat.Config → Result PaymentChannel
  pub new_wechat_h5 : wechat.Config → Result PaymentChannel
  pub new_wechat_app : wechat.Config → Result PaymentChannel
  pub new_alipay_qr : alipay.Config → Result PaymentChannel
  pub new_alipay_wap : alipay.Config → Result PaymentChannel
  pub new_alipay_app : alipay.Config → Result PaymentChannel
  pub new_alipay_face : alipay.Config → Result PaymentChannel
  pub new_stripe : stripe.Config → Result PaymentChannel

abbrev pub Cache : Type 0
Cache = List (String × PaymentChannel)

abbrev pub cache_key : String → String → String
cache_key app_id channel = concat (app_id ∷ "_" ∷ channel ∷ [])

abbrev pub cached : String → Cache → Option PaymentChannel
cached key [] = none
cached key ((k, p) ∷ cache) = let rest = cached key cache in if k == key then some p else rest

-- `delete(m.providers, key)`
abbrev pub without : String → Cache → Cache
without key [] = []
without key ((k, p) ∷ cache) =
    let rest = without key cache in if k == key then rest else (k, p) ∷ rest

abbrev wrap_error : {A : Type 0} → String → Result A → Result A
wrap_error text (ok a) = ok a
wrap_error text (err e) = err (wrap text e)

-- `WHERE app_id = $1 AND channel = $2`
abbrev pub is_config : String → String → ChannelConfig → Bool
is_config app_id channel c = (c.app_id == app_id) && (c.channel == channel)

-- `channel LIKE prefix || '%'`, for a prefix without `%`; `_` stands for any character.
abbrev like_prefix : String → String → Bool
like_prefix String.[] s = true
like_prefix (String.◌∷◌ p ps) String.[] = false
like_prefix (String.◌∷◌ p ps) (String.◌∷◌ c s) =
    (eqb (code p) b'_' || eqb (code p) (code c)) && like_prefix ps s

abbrev pub is_listed : String → ChannelConfig → Bool
is_listed prefix c = like_prefix prefix c.channel && (c.status == "active")

abbrev pub active_configs : String → List ChannelConfig → List ChannelConfig
active_configs prefix configs =
    reverse_onto
      (order_by (λ (c : ChannelConfig). c.updated_at) (select (is_listed prefix) configs)) []

-- The variables of the loop in `ListProvidersByChannelPrefix`.
pub record Listing : Type 0 where
  pub providers : List PaymentChannel
  pub last_err : Option GoError
  pub kept : Cache

-- `decrypt` is `decryptConfigJSON`.
module _ (vendors : Vendors) (decrypt : String → Result String) where
  -- The steps that the nine `create…Provider` share.
  abbrev create_with :
      (vendor : Vendor)
      → String
      → (vendor.Config → Result PaymentChannel)
      → String
      → String
      → Result PaymentChannel
  create_with vendor vendor_name new_provider provider_name config_json =
      elim (wrap_error (concat ("failed to decrypt " ∷ vendor_name ∷ " config" ∷ []))
        (decrypt config_json)) [
          | err e ↦ err e
          | ok decrypted ↦
              elim (wrap_error (concat ("failed to unmarshal " ∷ vendor_name ∷ " config" ∷ []))
                (vendor.unmarshal decrypted)) [
                  | err e ↦ err e
                  | ok cfg ↦
                      wrap_error (concat ("failed to create " ∷ provider_name ∷ " provider" ∷ []))
                        (new_provider cfg)
                ]
        ]

  abbrev create_wechat_native_provider : String → Result PaymentChannel
  create_wechat_native_provider =
      create_with vendors.wechat "wechat" vendors.new_wechat_native "wechat native"

  abbrev create_wechat_jsapi_provider : String → Result PaymentChannel
  create_wechat_jsapi_provider =
      create_with vendors.wechat "wechat" vendors.new_wechat_jsapi "wechat JSAPI"

  abbrev create_wechat_h5_provider : String → Result PaymentChannel
  create_wechat_h5_provider = create_with vendors.wechat "wechat" vendors.new_wechat_h5 "wechat H5"

  abbrev create_wechat_app_provider : String → Result PaymentChannel
  create_wechat_app_provider =
      create_with vendors.wechat "wechat" vendors.new_wechat_app "wechat APP"

  abbrev create_alipay_qr_provider : String → Result PaymentChannel
  create_alipay_qr_provider = create_with vendors.alipay "alipay" vendors.new_alipay_qr "alipay QR"

  abbrev create_alipay_wap_provider : String → Result PaymentChannel
  create_alipay_wap_provider =
      create_with vendors.alipay "alipay" vendors.new_alipay_wap "alipay Wap"

  abbrev create_alipay_app_provider : String → Result PaymentChannel
  create_alipay_app_provider =
      create_with vendors.alipay "alipay" vendors.new_alipay_app "alipay APP"

  abbrev create_alipay_face_provider : String → Result PaymentChannel
  create_alipay_face_provider =
      create_with vendors.alipay "alipay" vendors.new_alipay_face "alipay Face"

  abbrev create_stripe_provider : String → Result PaymentChannel
  create_stripe_provider = create_with vendors.stripe "stripe" vendors.new_stripe "stripe"

  unfoldable pub create_provider : String → String → Result PaymentChannel
  create_provider channel_name config_json =
      if channel_name == "wechat_native"
      then create_wechat_native_provider config_json
      else if channel_name == "wechat_jsapi"
      then create_wechat_jsapi_provider config_json
      else if channel_name == "wechat_h5"
      then create_wechat_h5_provider config_json
      else if channel_name == "wechat_app"
      then create_wechat_app_provider config_json
      else if channel_name == "alipay_qr"
      then create_alipay_qr_provider config_json
      else if channel_name == "alipay_wap"
      then create_alipay_wap_provider config_json
      else if channel_name == "alipay_app"
      then create_alipay_app_provider config_json
      else if channel_name == "alipay_face"
      then create_alipay_face_provider config_json
      else if channel_name == "stripe"
      then create_stripe_provider config_json
      else err (new_invalid_channel channel_name)

  -- What `GetProvider` does where the cache holds nothing; `fault` is the error of the query.
  unfoldable pub load_provider :
      Option GoError → List ChannelConfig → String → String → Result PaymentChannel
  load_provider (some e) configs app_id channel = err (wrap "failed to load channel config" e)
  load_provider none configs app_id channel = elim (find (is_config app_id channel) configs) [
    | none ↦ err (new_channel_not_found app_id channel)
    | some c ↦
        if not (c.status == "active")
        then err (new_channel_inactive app_id channel)
        else create_provider channel c.config
  ]

  unfoldable pub get_provider :
      Option GoError → List ChannelConfig → String → String → Cache → Result PaymentChannel × Cache
  get_provider fault configs app_id channel cache = elim (cached (cache_key app_id channel) cache) [
    | some provider ↦ (ok provider, cache)
    | none ↦ elim (load_provider fault configs app_id channel) [
      | err e ↦ (err e, cache)
      | ok provider ↦ (ok provider, (cache_key app_id channel, provider) ∷ cache)
    ]
  ]

  unfoldable pub list_row : ChannelConfig → Listing → Listing
  list_row c l = elim (cached (cache_key c.app_id c.channel) l.kept) [
    | some provider ↦ record l { providers = l.providers ++ provider ∷ [] }
    | none ↦ elim (create_provider c.channel c.config) [
      | err e ↦ record l { last_err = some e }
      | ok provider ↦ record l {
        providers = l.providers ++ provider ∷ [];
        kept = (cache_key c.app_id c.channel, provider) ∷ l.kept;
      }
    ]
  ]

  unfoldable pub list_rows : List ChannelConfig → Listing → Listing
  unfolding list_row
  list_rows [] l = l
  list_rows (c ∷ cs) l = list_rows cs (list_row c l)

  abbrev listed_result : List PaymentChannel → Option GoError → Result (List PaymentChannel)
  listed_result [] (some e) = err e
  listed_result [] none = ok []
  listed_result (p ∷ ps) e = ok (p ∷ ps)

  -- `has_db` is false where the manager has no database.
  unfoldable pub list_providers_by_channel_prefix :
      Bool
      → Option GoError
      → List ChannelConfig
      → String
      → Cache
      → Result (List PaymentChannel) × Cache
  unfolding list_rows
  list_providers_by_channel_prefix has_db fault configs prefix cache =
      if not has_db then (err (plain "channel manager is not initialized"), cache) else elim fault [
        | some e ↦ (err (wrap "failed to list channel providers" e), cache)
        | none ↦
            let l =
              list_rows (active_configs prefix configs)
                (record { providers = []; last_err = none; kept = cache }) in
            (listed_result l.providers l.last_err, l.kept)
      ]

unfoldable pub reload_provider : String → String → Cache → Cache
reload_provider app_id channel cache = without (cache_key app_id channel) cache

unfoldable pub close : Cache → Cache
close cache = []
