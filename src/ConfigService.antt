-- ===== src/ConfigService.antt =====
-- internal/service/config_service.go: apps and channel configurations are created and changed in
-- transactions that write a row of `config_audit_logs`. The columns of an update are those that the
-- handlers of internal/admin/config_handler.go let through, with texts as values. What a
-- transaction writes is seen at its COMMIT. Listing is left out.
pub mod Audited
use go_pay.Prelude.{
  ℕ, ◌+◌, String, ⊤, Bool, true, false, not, ◌&&◌, ◌||◌, Option, none, some, List, [], ◌∷◌, ◌++◌,
  ◌==◌, concat, eqb, find, update, is_some, if◌then◌else◌,
}
use go_pay.Prelude.Int.{pos}
use go_pay.Prelude.Text.{show_ℤ}
use go_pay.Errors.{GoError, plain, wrap, Result, ok, err}
use go_pay.Sql.{duplicate_key, missing_key, syntax_error}
use go_pay.Models.{App, ChannelConfig, validate_app, validate_channel_config}
use go_pay.Providers.{is_config}

-- The row's id and its time are left out; `old_value` is NULL where a resource is created.
pub record ConfigAuditLog : Type 0 where
  pub operator : String
  pub action : String
  pub resource_type : String
  pub resource_id : String
  pub old_value : Option String
  pub new_value : String
  pub ip_address : String
  pub user_agent : String

pub record Registry : Type 0 where
  pub apps : List App
  pub configs : List ChannelConfig
  pub audit_logs : List ConfigAuditLog
  pub next_app_id : ℕ
  pub next_config_id : ℕ

-- The errors of the statements of one call, where they fail.
pub record Faults : Type 0 where
  pub begin_fault : Option GoError
  pub read_fault : Option GoError
  pub write_fault : Option GoError
  pub audit_fault : Option GoError
  pub commit_fault : Option GoError

-- Who makes the call.
pub record Actor : Type 0 where
  pub operator : String
  pub ip : String
  pub user_agent : String

pub data AppColumn : Type 0 where
  app_name app_secret callback_url app_status : AppColumn

pub data ConfigColumn : Type 0 where
  config config_status : ConfigColumn

-- `encrypt` and `mask` are `encryptConfigJSON` and `MaskSensitiveConfigJSON`, and the rest is
-- `json.Marshal`, whose errors the code passes over.
pub record Codec : Type 0 where
  pub encrypt : String → Result String
  pub mask : String → String
  pub marshal_app : App → String
  pub marshal_config : ChannelConfig → String
  pub marshal_app_updates : List (AppColumn × String) → String
  pub marshal_config_updates : List (ConfigColumn × String) → String

abbrev pub audit_log : Actor → String → String → String → Option String → String → ConfigAuditLog
audit_log actor action resource_type resource_id old_value new_value = record {
  operator = actor.operator;
  action = action;
  resource_type = resource_type;
  resource_id = resource_id;
  old_value = old_value;
  new_value = new_value;
  ip_address = actor.ip;
  user_agent = actor.user_agent;
}

-- The write, the row of the audit log, and COMMIT; a transaction that fails is rolled back.
unfoldable pub write_audited :
    Faults → String → Result Registry → ConfigAuditLog → Registry → Result ⊤ × Registry
write_audited faults text written log r = elim faults.write_fault [
  | some e ↦ (err (wrap text e), r)
  | none ↦ elim written [
    | err e ↦ (err (wrap text e), r)
    | ok r' ↦ elim faults.audit_fault [
      | some e ↦ (err (wrap "insert audit log failed" e), r)
      | none ↦ elim faults.commit_fault [
        | some e ↦ (err e, r)
        | none ↦ (ok tt, record r' { audit_logs = r'.audit_logs ++ log ∷ [] })
      ]
    ]
  ]
]

abbrev pub has_app_id : String → App → Bool
has_app_id app_id a = a.app_id == app_id

abbrev pub has_config_id : ℕ → ChannelConfig → Bool
has_config_id id c = eqb c.id id

-- `INSERT INTO apps`; `app_id` is unique.
abbrev pub insert_app : ℕ → App → Registry → Result (App × Registry)
insert_app now a r =
    if is_some (find (has_app_id a.app_id) r.apps)
    then err (duplicate_key "apps_app_id_key")
    else let row = record a { id = r.next_app_id; created_at = now; updated_at = now } in
      ok (row, record r { apps = r.apps ++ row ∷ []; next_app_id = r.next_app_id + 1 })

-- `INSERT INTO channel_configs`; the app and the channel are unique, and the app exists.
abbrev pub insert_config : ℕ → ChannelConfig → Registry → Result (ChannelConfig × Registry)
insert_config now c r =
    if is_some (find (is_config c.app_id c.channel) r.configs)
    then err (duplicate_key "uk_channel_configs_app_channel")
    else if not (is_some (find (has_app_id c.app_id) r.apps))
    then err (missing_key "channel_configs" "fk_channel_configs_app_id")
    else let row = record c { id = r.next_config_id; created_at = now; updated_at = now } in
      ok (row, record r { configs = r.configs ++ row ∷ []; next_config_id = r.next_config_id + 1 })

abbrev pub set_app_column : AppColumn × String → App → App
set_app_column (app_name, v) a = record a { app_name = v }
set_app_column (app_secret, v) a = record a { app_secret = v }
set_app_column (callback_url, v) a = record a { callback_url = v }
set_app_column (app_status, v) a = record a { status = v }

abbrev pub set_app_columns : List (AppColumn × String) → App → App
set_app_columns [] a = a
set_app_columns (u ∷ us) a = set_app_columns us (set_app_column u a)

abbrev pub set_config_column : ConfigColumn × String → ChannelConfig → ChannelConfig
set_config_column (config, v) c = record c { config = v }
set_config_column (config_status, v) c = record c { status = v }

abbrev pub set_config_columns : List (ConfigColumn × String) → ChannelConfig → ChannelConfig
set_config_columns [] c = c
set_config_columns (u ∷ us) c = set_config_columns us (set_config_column u c)

-- The statement `UPDATE`, whose `SET` lists the updates: without one it is no SQL.
abbrev pub update_rows : {C : Type 0} → List (C × String) → Registry → Result Registry
update_rows [] r = err syntax_error
update_rows (u ∷ us) r = ok r

-- `updates["config"]` through a function that may fail.
abbrev pub convert_config :
    (String → Result String) → List (ConfigColumn × String) → Result (List (ConfigColumn × String))
convert_config f [] = ok []
convert_config f ((config, v) ∷ us) =
    let rest = convert_config f us in
    elim (f v) [
      | err e ↦ err e
      | ok v' ↦ elim rest [ err e ↦ err e | ok us' ↦ ok ((config, v') ∷ us') ]
    ]
convert_config f ((config_status, v) ∷ us) =
    let rest = convert_config f us in
    elim rest [ err e ↦ err e | ok us' ↦ ok ((config_status, v) ∷ us') ]

abbrev pub mask_updates :
    (String → String) → List (ConfigColumn × String) → List (ConfigColumn × String)
mask_updates mask [] = []
mask_updates mask ((config, v) ∷ us) = (config, mask v) ∷ mask_updates mask us
mask_updates mask ((config_status, v) ∷ us) = (config_status, v) ∷ mask_updates mask us

abbrev pub resource_of : ℕ → String
resource_of id = show_ℤ (pos id)

abbrev begin_failed : GoError → GoError
begin_failed = wrap "begin transaction failed"

module _ (codec : Codec) (faults : Faults) (actor : Actor) where
  unfoldable pub get_app : String → Registry → Result App
  get_app app_id r = elim faults.read_fault [
    | some e ↦ err (wrap "get app failed" e)
    | none ↦ elim (find (has_app_id app_id) r.apps) [
      | none ↦ err (plain (concat ("app not found: " ∷ app_id ∷ [])))
      | some a ↦ ok a
    ]
  ]

  unfoldable pub create_app : ℕ → App → Registry → Result ⊤ × Registry
  unfolding write_audited
  create_app now a r = elim (validate_app a) [
    | err e ↦ (err e, r)
    | ok u ↦ elim faults.begin_fault [
      | some e ↦ (err (begin_failed e), r)
      | none ↦ elim (insert_app now a r) [
        | err e ↦
            write_audited faults "insert app failed" (err e)
              (audit_log actor "create" "app" a.app_id none "") r
        | ok (row, r') ↦
            write_audited faults "insert app failed" (ok r')
              (audit_log actor "create" "app" a.app_id none (codec.marshal_app row)) r
      ]
    ]
  ]

  unfoldable pub update_app : String → List (AppColumn × String) → Registry → Result ⊤ × Registry
  unfolding get_app write_audited
  update_app app_id updates r = elim faults.begin_fault [
    | some e ↦ (err (begin_failed e), r)
    | none ↦ elim (get_app app_id r) [
      | err e ↦ (err e, r)
      | ok old ↦
          write_audited faults "update app failed"
            (update_rows updates
              (record r { apps = update (has_app_id app_id) (set_app_columns updates) r.apps }))
            (audit_log actor "update" "app" app_id (some (codec.marshal_app old))
              (codec.marshal_app_updates updates))
            r
    ]
  ]

  unfoldable pub delete_app : String → Registry → Result ⊤ × Registry
  unfolding update_app
  delete_app app_id r = update_app app_id ((app_status, "disabled") ∷ []) r

  unfoldable pub get_channel_config : ℕ → Registry → Result ChannelConfig
  get_channel_config id r = elim faults.read_fault [
    | some e ↦ err (wrap "get channel config failed" e)
    | none ↦ elim (find (has_config_id id) r.configs) [
      | none ↦ err (plain (concat ("channel config not found: " ∷ resource_of id ∷ [])))
      | some c ↦ ok c
    ]
  ]

  -- The row as the audit log shows it.
  abbrev pub masked : ChannelConfig → ChannelConfig
  masked c = record c { config = codec.mask c.config }

  unfoldable pub create_channel_config : ℕ → ChannelConfig → Registry → Result ⊤ × Registry
  unfolding write_audited
  create_channel_config now c r = elim (validate_channel_config c) [
    | err e ↦ (err e, r)
    | ok u ↦ elim (codec.encrypt c.config) [
      | err e ↦ (err (wrap "encrypt channel config failed" e), r)
      | ok encrypted ↦ elim faults.begin_fault [
        | some e ↦ (err (begin_failed e), r)
        | none ↦ elim (insert_config now (record c { config = encrypted }) r) [
          | err e ↦
              write_audited faults "insert channel config failed" (err e)
                (audit_log actor "create" "channel_config" "" none "") r
          | ok (row, r') ↦
              write_audited faults "insert channel config failed" (ok r')
                (audit_log actor "create" "channel_config" (resource_of row.id) none
                  (codec.marshal_config (masked row)))
                r
        ]
      ]
    ]
  ]

  unfoldable pub update_channel_config :
      ℕ → List (ConfigColumn × String) → Registry → Result ⊤ × Registry
  unfolding get_channel_config write_audited
  update_channel_config id updates r = elim faults.begin_fault [
    | some e ↦ (err (begin_failed e), r)
    | none ↦ elim (get_channel_config id r) [
      | err e ↦ (err e, r)
      | ok old ↦ elim (convert_config codec.encrypt updates) [
        | err e ↦ (err (wrap "encrypt channel config failed" e), r)
        | ok encrypted ↦
            write_audited faults "update channel config failed"
              (update_rows encrypted (record r {
                configs = update (has_config_id id) (set_config_columns encrypted) r.configs;
              }))
              (audit_log actor "update" "channel_config" (resource_of id)
                (some (codec.marshal_config (masked old)))
                (codec.marshal_config_updates (mask_updates codec.mask encrypted)))
              r
      ]
    ]
  ]

  unfoldable pub delete_channel_config : ℕ → Registry → Result ⊤ × Registry
  unfolding update_channel_config
  delete_channel_config id r = update_channel_config id ((config_status, "disabled") ∷ []) r
