-- ===== src/ConfigHandler.antt =====
-- internal/admin/config_handler.go: the JSON API of the admin pages for apps and channel
-- configurations. gin's binding of a body is a result, and the id of a path is 0 where it is no
-- number; negative ids, which no row has, are left out. Values go to the database as the driver
-- writes them; one that it refuses shows as a failing statement. Pages and lists are left out.
pub mod Audited
use Prim.Native.String.{String, ◌++◌ as str_append}
use go_pay.Prelude.{
  ℕ, zero, suc, Bool, true, false, not, Option, none, some, List, [], ◌∷◌, ◌==◌, concat, find, leb,
  if◌then◌else◌, ⊤,
}
use go_pay.Errors.{GoError, error_text, Result, ok, err}
use go_pay.Models.{App, ChannelConfig}
use go_pay.Providers.{is_config}
use go_pay.ConfigCrypto.{Json}
use go_pay.ConfigTemplates.{Entries}
use go_pay.ConfigService.{
  Registry, Faults, Actor, AppColumn, ConfigColumn, Codec, has_app_id, app_name, app_secret,
  callback_url, app_status, config, config_status, get_app, create_app, update_app, delete_app,
  get_channel_config, create_channel_config, update_channel_config, delete_channel_config,
}

pub record CreateAppBody : Type 0 where
  pub app_id : String
  pub app_name : String
  pub app_secret : String
  pub callback_url : String
  pub status : String

pub record CreateConfigBody : Type 0 where
  pub channel : String
  pub config : Entries
  pub status : String

pub data Shown : Type 0 where
  nothing : Shown
  shown_app : Option App → Shown
  shown_config : Option ChannelConfig → Shown

pub record AdminReply : Type 0 where
  pub status : ℕ
  pub code : String
  pub message : String
  pub body : Shown

pub data Request : Type 0 where
  get_app_request delete_app_request : String → Request
  create_app_request : Result CreateAppBody → Request
  update_app_request : String → Result Entries → Request
  get_config_request delete_config_request : ℕ → Request
  create_config_request : String → Result CreateConfigBody → Request
  update_config_request : ℕ → Result Entries → Request

-- `json.Marshal` of a value and of a map, what the driver writes for a value, and the secret of an
-- app with its middle hidden: `s[:4] + "****" + s[len(s)-4:]`.
pub record Values : Type 0 where
  pub marshal : Json → Result String
  pub marshal_map : Entries → Result String
  pub sql_text : Json → String
  pub byte_length : String → ℕ
  pub starred : String → String

abbrev pub refused : ℕ → String → AdminReply
refused status message = record {
  status = status;
  code = "ERROR";
  message = message;
  body = nothing;
}

abbrev pub succeeded : String → Shown → AdminReply
succeeded message body = record { status = 200; code = "SUCCESS"; message = message; body = body }

abbrev pub failed : String → GoError → AdminReply
failed prefix e = refused 500 (str_append prefix (error_text e))

abbrev pub bad_body : GoError → AdminReply
bad_body e = refused 400 (str_append "参数错误: " (error_text e))

-- The default of `operator`, and of the status.
abbrev pub default_to : String → String → String
default_to default s = if s == "" then default else s

abbrev pub app_column : String → Option AppColumn
app_column key =
    if key == "app_name"
    then some app_name
    else if key == "app_secret"
    then some app_secret
    else if key == "callback_url"
    then some callback_url
    else if key == "status"
    then some app_status
    else none

abbrev pub add_column : {C : Type 0} → Option C → String → List (C × String) → List (C × String)
add_column none value us = us
add_column (some c) value us = (c, value) ∷ us

module _ (values : Values) where
  -- `updates[key] = value` for the keys of `allowedFields`.
  abbrev pub app_updates : Entries → List (AppColumn × String)
  app_updates [] = []
  app_updates ((key, v) ∷ es) = add_column (app_column key) (values.sql_text v) (app_updates es)

  abbrev pub config_updates : Entries → Result (List (ConfigColumn × String))
  config_updates [] = ok []
  config_updates ((key, v) ∷ es) =
      let rest = config_updates es in
      if key == "config"
      then elim (values.marshal v) [
        | err e ↦ err e
        | ok text ↦ elim rest [ err e ↦ err e | ok us ↦ ok ((config, text) ∷ us) ]
      ]
      else if key == "status"
      then elim rest [ err e ↦ err e | ok us ↦ ok ((config_status, values.sql_text v) ∷ us) ]
      else rest

  abbrev pub hide_secret : App → App
  hide_secret a = record a {
    app_secret =
        if leb (values.byte_length a.app_secret) 8
        then a.app_secret
        else values.starred a.app_secret;
  }

-- The reply of a call of the service, and the registry after it.
abbrev pub answered : String → String → Shown → Result ⊤ × Registry → AdminReply × Registry
answered prefix message body (err e, r) = (failed prefix e, r)
answered prefix message body (ok u, r) = (succeeded message body, r)

module _ (values : Values) (codec : Codec) (faults : Faults) (actor : Actor) (now : ℕ) where
  -- `c.GetString("operator")`, with its default.
  abbrev pub caller : Actor
  caller = record actor { operator = default_to "admin" actor.operator }

  unfoldable pub handle_get_app : String → Registry → AdminReply
  handle_get_app app_id r = elim (get_app codec faults caller app_id r) [
    | err e ↦ refused 404 (error_text e)
    | ok a ↦ succeeded "查询成功" (shown_app (some (hide_secret values a)))
  ]

  abbrev pub app_of : CreateAppBody → App
  app_of b = record {
    id = 0;
    app_id = b.app_id;
    app_name = b.app_name;
    app_secret = b.app_secret;
    callback_url = b.callback_url;
    status = default_to "active" b.status;
    created_at = 0;
    updated_at = 0;
  }

  unfoldable pub handle_create_app : Result CreateAppBody → Registry → AdminReply × Registry
  handle_create_app (err e) r = (bad_body e, r)
  handle_create_app (ok b) r =
      let done = create_app codec faults caller now (app_of b) r in
      answered "创建失败: " "创建成功" (shown_app (find (has_app_id b.app_id) done.1.apps)) done

  abbrev pub update_app_with : String → List (AppColumn × String) → Registry → AdminReply × Registry
  update_app_with app_id [] r = (refused 400 "没有可更新的字段", r)
  update_app_with app_id (u ∷ us) r =
      answered "更新失败: " "更新成功" nothing (update_app codec faults caller app_id (u ∷ us) r)

  unfoldable pub handle_update_app : String → Result Entries → Registry → AdminReply × Registry
  handle_update_app app_id (err e) r = (bad_body e, r)
  handle_update_app app_id (ok es) r = update_app_with app_id (app_updates values es) r

  unfoldable pub handle_delete_app : String → Registry → AdminReply × Registry
  handle_delete_app app_id r =
      answered "删除失败: " "删除成功" nothing (delete_app codec faults caller app_id r)

  unfoldable pub handle_get_config : ℕ → Registry → AdminReply
  handle_get_config id r = elim (get_channel_config codec faults caller id r) [
    | err e ↦ refused 404 (error_text e)
    | ok c ↦ succeeded "查询成功" (shown_config (some (record c { config = codec.mask c.config })))
  ]

  abbrev pub config_of : String → CreateConfigBody → String → ChannelConfig
  config_of app_id b text = record {
    id = 0;
    app_id = app_id;
    channel = b.channel;
    config = text;
    status = default_to "active" b.status;
    created_at = 0;
    updated_at = 0;
  }

  abbrev pub mask_found : Option ChannelConfig → Option ChannelConfig
  mask_found none = none
  mask_found (some c) = some (record c { config = codec.mask c.config })

  unfoldable pub handle_create_config :
      String → Result CreateConfigBody → Registry → AdminReply × Registry
  handle_create_config app_id (err e) r = (bad_body e, r)
  handle_create_config app_id (ok b) r = elim (values.marshal_map b.config) [
    | err e ↦ (refused 400 "配置格式错误", r)
    | ok text ↦
        let done = create_channel_config codec faults caller now (config_of app_id b text) r in
        answered "创建失败: " "创建成功"
          (shown_config (mask_found (find (is_config app_id b.channel) done.1.configs))) done
  ]

  abbrev pub update_config_with :
      ℕ → Result (List (ConfigColumn × String)) → Registry → AdminReply × Registry
  update_config_with id (err e) r = (refused 400 "配置格式错误", r)
  update_config_with id (ok []) r = (refused 400 "没有可更新的字段", r)
  update_config_with id (ok (u ∷ us)) r =
      answered "更新失败: " "更新成功" nothing (update_channel_config codec faults caller id (u ∷ us) r)

  unfoldable pub handle_update_config : ℕ → Result Entries → Registry → AdminReply × Registry
  handle_update_config id (err e) r = (bad_body e, r)
  handle_update_config id (ok es) r = update_config_with id (config_updates values es) r

  unfoldable pub handle_delete_config : ℕ → Registry → AdminReply × Registry
  handle_delete_config id r =
      answered "删除失败: " "删除成功" nothing (delete_channel_config codec faults caller id r)

  -- One request, by its route.
  unfoldable pub route : Request → Registry → AdminReply × Registry
  unfolding handle_get_app handle_create_app handle_update_app handle_delete_app handle_get_config
      handle_create_config handle_update_config handle_delete_config
  route (get_app_request app_id) r = (handle_get_app app_id r, r)
  route (create_app_request b) r = handle_create_app b r
  route (update_app_request app_id b) r = handle_update_app app_id b r
  route (delete_app_request app_id) r = handle_delete_app app_id r
  route (get_config_request id) r = (handle_get_config id r, r)
  route (create_config_request app_id b) r = handle_create_config app_id b r
  route (update_config_request id b) r = handle_update_config id b r
  route (delete_config_request id) r = handle_delete_config id r
