-- ===== src/ConfigTemplates.antt =====
-- internal/service/config_template_service.go: templates of channel configurations, and an app that
-- is set up with its channels in one transaction. A map is a list of its entries, and the templates
-- stand in the order in which a query meets them. The error of the n-th statement of a call, if it
-- fails, is `fault n`.
pub mod Rows
pub mod Sealed
pub mod Setup
use go_pay.Prelude.{
  ℕ, suc, ◌+◌, String, ⊤, Bool, true, ◌&&◌, Option, none, some, List, [], ◌∷◌, ◌++◌, ◌==◌, concat,
  eqb, find, select, update, is_some, order_by, if◌then◌else◌,
}
use go_pay.Prelude.Int.{pos}
use go_pay.Prelude.Text.{show_ℤ}
use go_pay.Errors.{
  GoError, Sentinel, no_rows, wrap, business, sentinel, type_not_found, Result, ok, err,
}
use go_pay.Models.{App, ChannelConfig}
use go_pay.Providers.{is_config}
use go_pay.ConfigCrypto.{Json}
use go_pay.ConfigService.{Registry, has_app_id}

pub record ConfigTemplate : Type 0 where
  pub id : ℕ
  pub name : String
  pub description : String
  pub channel : String
  pub config_schema : String
  pub default_values : String
  pub is_active : Bool
  pub created_at : ℕ
  pub updated_at : ℕ

abbrev pub Entries : Type 0
Entries = List (String × Json)

pub record ChannelConfigRequest : Type 0 where
  pub channel : String
  pub config : Entries

pub record QuickSetupRequest : Type 0 where
  pub app_id : String
  pub app_name : String
  pub app_secret : String
  pub callback_url : String
  pub channels : List ChannelConfigRequest

-- `json.Unmarshal` into a map, `json.Marshal` of one, and `encryptConfigJSON`.
pub record Codec : Type 0 where
  pub unmarshal : String → Result Entries
  pub marshal : Entries → Result String
  pub encrypt : String → Result String

-- `WHERE channel = $1 AND is_active = true`
abbrev pub is_template_of : String → ConfigTemplate → Bool
is_template_of channel t = (t.channel == channel) && t.is_active

-- `m[k] = v`
abbrev pub put : String → Json → Entries → Entries
put k v [] = (k, v) ∷ []
put k v ((j, w) ∷ m) = let rest = put k v m in if j == k then (k, v) ∷ m else (j, w) ∷ rest

abbrev pub put_all : Entries → Entries → Entries
put_all [] m = m
put_all ((k, v) ∷ es) m = put_all es (put k v m)

-- The values of the request over the defaults.
unfoldable pub merge : Entries → Entries → Entries
merge defaults own = put_all own (put_all defaults [])

abbrev template_not_found : String → String → String → GoError
template_not_found message key value =
    business type_not_found "TEMPLATE_NOT_FOUND" message ((key, value) ∷ [])
      (sentinel Sentinel.not_found)

-- `QueryRow` with its three ends.
abbrev read_row : Option GoError → GoError → Option ConfigTemplate → Result ConfigTemplate
read_row (some e) missing row = err (wrap "failed to get template" e)
read_row none missing none = err missing
read_row none missing (some t) = ok t

module _ (templates : List ConfigTemplate) where
  -- `ORDER BY channel, name` is `order`, the collation of the database.
  unfoldable pub get_template_list :
      (List ConfigTemplate → List ConfigTemplate)
      → Option GoError
      → String
      → Result (List ConfigTemplate)
  get_template_list order (some e) channel = err (wrap "failed to query templates" e)
  get_template_list order none channel = ok (
      order (
        select
          (λ (t : ConfigTemplate).
            t.is_active && (if channel == "" then true else (t.channel == channel)))
          templates))

  unfoldable pub get_template_by_id : Option GoError → ℕ → Result ConfigTemplate
  get_template_by_id fault id =
      read_row fault (template_not_found "模板不存在" "template_id" (show_ℤ (pos id)))
        (find (λ (t : ConfigTemplate). eqb t.id id) templates)

  unfoldable pub get_template_by_channel : Option GoError → String → Result ConfigTemplate
  get_template_by_channel fault channel =
      read_row fault (template_not_found "该渠道没有可用模板" "channel" channel)
        (find (is_template_of channel) templates)

-- `INSERT INTO apps … ON CONFLICT (app_id) DO NOTHING`
abbrev pub insert_new_app : ℕ → QuickSetupRequest → Registry → Registry
insert_new_app now req r = if is_some (find (has_app_id req.app_id) r.apps) then r else record r {
  apps =
      r.apps
      ++ record {
        id = r.next_app_id;
        app_id = req.app_id;
        app_name = req.app_name;
        app_secret = req.app_secret;
        callback_url = req.callback_url;
        status = "active";
        created_at = now;
        updated_at = now;
      }
        ∷ [];
  next_app_id = r.next_app_id + 1;
}

-- `DO UPDATE SET config, status, updated_at`
abbrev pub replace_config : String → ℕ → ChannelConfig → ChannelConfig
replace_config config now c = record c { config = config; status = "active"; updated_at = now }

-- `INSERT INTO channel_configs … ON CONFLICT (app_id, channel) DO UPDATE`
unfoldable pub upsert_config : ℕ → String → String → String → Registry → Registry
upsert_config now app_id channel config r =
    if is_some (find (is_config app_id channel) r.configs)
    then record r {
      configs = update (is_config app_id channel) (replace_config config now) r.configs;
    }
    else record r {
      configs =
          r.configs
          ++ record {
            id = r.next_config_id;
            app_id = app_id;
            channel = channel;
            config = config;
            status = "active";
            created_at = now;
            updated_at = now;
          }
            ∷ [];
      next_config_id = r.next_config_id + 1;
    }

abbrev pub wrap_err : {A B : Type 0} → String → Result A → (A → Result B) → Result B
wrap_err text (err e) f = err (wrap text e)
wrap_err text (ok a) f = f a

-- A statement that fails, or what comes after it.
abbrev pub guarded : {A : Type 0} → String → Option GoError → Result A → Result A
guarded text (some e) next = err (wrap text e)
guarded text none next = next

abbrev row_or_missing : Option ConfigTemplate → Result ConfigTemplate
row_or_missing none = err no_rows
row_or_missing (some t) = ok t

module _ (codec : Codec) (templates : List ConfigTemplate) (fault : ℕ → Option GoError)
    (now : ℕ) where
  -- What the loop computes for one channel before it is stored.
  unfoldable pub sealed_config : ChannelConfigRequest → Result String
  unfolding merge
  sealed_config c =
      wrap_err (concat ("failed to get template for channel " ∷ c.channel ∷ []))
        (row_or_missing (find (is_template_of c.channel) templates))
        λ t.
          wrap_err "failed to parse default values" (codec.unmarshal t.default_values) λ defaults.
            wrap_err "failed to marshal config" (codec.marshal (merge defaults c.config)) λ text.
              wrap_err "failed to encrypt channel config" (codec.encrypt text) λ config. ok config

  -- The loop over the channels, from the n-th statement on: the tables as the transaction sees them.
  unfoldable pub setup_channels :
      ℕ → String → List ChannelConfigRequest → Registry → Result Registry
  unfolding sealed_config
  setup_channels n app_id [] r = ok r
  setup_channels n app_id (c ∷ cs) r =
      let rest = λ (config : String).
        setup_channels (n + 2) app_id cs (upsert_config now app_id c.channel config r) in
      guarded (concat ("failed to get template for channel " ∷ c.channel ∷ [])) (fault n)
        (elim (sealed_config c) [
          | err e ↦ err e
          | ok config ↦ guarded "failed to create channel config" (fault (n + 1)) (rest config)
        ])

  -- A transaction that does not commit is rolled back.
  abbrev pub finish : Registry → Result Registry → Option GoError → Result ⊤ × Registry
  finish r (err e) commit = (err e, r)
  finish r (ok r') (some e) = (err (wrap "failed to commit transaction" e), r)
  finish r (ok r') none = (ok tt, r')

  unfoldable pub quick_setup_app :
      Option GoError → QuickSetupRequest → Registry → Result ⊤ × Registry
  unfolding setup_channels
  quick_setup_app commit req r =
      finish r
        (guarded "failed to begin transaction" (fault 0) (
          guarded "failed to create app" (fault 1)
            (setup_channels 2 req.app_id req.channels (insert_new_app now req r))))
        commit
