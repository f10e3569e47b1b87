-- ===== src/ConfigService/Audited.antt =====
-- The transactions of internal/service/config_service.go and the audit log.
use mathlib.Core.Path.{subst}
use go_pay.Prelude.{
  ℕ, ◌≡◌, refl, sym, ap, String, ⊤, Option, none, some, List, [], ◌∷◌, ◌++◌, find, update,
  find-update, find_sound, arith, Option-cases, inl, inr,
}
use go_pay.Errors.{wrap, Result, ok, err, Result-cases}
use go_pay.Models.{App, ChannelConfig, validate_app, validate_channel_config}
use go_pay.ConfigService.{
  ConfigAuditLog, Registry, Faults, Actor, AppColumn, ConfigColumn, app_status, Codec, resource_of,
  masked, mask_updates, config_status, audit_log, write_audited, has_app_id, has_config_id,
  insert_app, insert_config, update_rows, set_app_columns, set_config_columns, convert_config,
  get_app, create_app, update_app, delete_app, get_channel_config, create_channel_config,
  update_channel_config, delete_channel_config,
}

pub data Call : Type 0 where
  create_an_app : ℕ → App → Call
  update_an_app : String → List (AppColumn × String) → Call
  delete_an_app : String → Call
  create_a_config : ℕ → ChannelConfig → Call
  update_a_config : ℕ → List (ConfigColumn × String) → Call
  delete_a_config : ℕ → Call

abbrev pub no_faults : Faults
no_faults = record {
  begin_fault = none;
  read_fault = none;
  write_fault = none;
  audit_fault = none;
  commit_fault = none;
}

-- What the audit log calls it: a deletion is an update too.
abbrev pub action_of : Call → String
action_of (create_an_app now a) = "create"
action_of (create_a_config now c) = "create"
action_of call = "update"

abbrev pub resource_type_of : Call → String
resource_type_of (create_an_app now a) = "app"
resource_type_of (update_an_app app_id updates) = "app"
resource_type_of (delete_an_app app_id) = "app"
resource_type_of call = "channel_config"

-- Nothing is changed, or one row of the audit log says who did what.
abbrev pub Audited : Actor → String → String → Registry → Result ⊤ → Registry → Type 0
Audited actor action kind r (err e) r' = r' ≡ r
Audited actor action kind r (ok u) r' =
    (log : ConfigAuditLog) × (r'.audit_logs ≡ r.audit_logs ++ log ∷ [])
    × (log.operator ≡ actor.operator)
    × (log.ip_address ≡ actor.ip)
    × (log.action ≡ action)
    × (log.resource_type ≡ kind)

module _ (codec : Codec) (faults : Faults) (actor : Actor) where
  abbrev pub serve : Call → Registry → Result ⊤ × Registry
  serve (create_an_app now a) = create_app codec faults actor now a
  serve (update_an_app app_id updates) = update_app codec faults actor app_id updates
  serve (delete_an_app app_id) = delete_app codec faults actor app_id
  serve (create_a_config now c) = create_channel_config codec faults actor now c
  serve (update_a_config id updates) = update_channel_config codec faults actor id updates
  serve (delete_a_config id) = delete_channel_config codec faults actor id

  at_end :
      (action kind : String) (r : Registry) {p q : Result ⊤ × Registry}
      → p ≡ q
      → Audited actor action kind r q.0 q.1
      → Audited actor action kind r p.0 p.1
  at_end action kind r e h = subst (λ p. Audited actor action kind r p.0 p.1) (sym e) h

  -- What is written leaves the audit log alone.
  Leaves : Registry → Result Registry → Type 0
  Leaves r (err e) = Unit
  Leaves r (ok r') = r'.audit_logs ≡ r.audit_logs

  update_rows-Leaves :
      {C : Type 0} (updates : List (C × String)) (r r' : Registry)
      → r'.audit_logs ≡ r.audit_logs
      → Leaves r (update_rows updates r')
  unfolding Leaves
  update_rows-Leaves [] r r' same = tt
  update_rows-Leaves (u ∷ us) r r' same = same

  abbrev changed_apps : String → List (AppColumn × String) → Registry → Registry
  changed_apps app_id updates r = record r {
    apps = update (has_app_id app_id) (set_app_columns updates) r.apps;
  }

  abbrev changed_configs : ℕ → List (ConfigColumn × String) → Registry → Registry
  changed_configs id updates r = record r {
    configs = update (has_config_id id) (set_config_columns updates) r.configs;
  }

  write_audited-Audited :
      (text action kind id : String) (old_value : Option String) (new_value : String)
      (written : Result Registry) (r : Registry)
      → Leaves r written
      → let (x, r') =
          write_audited faults text written
            (audit_log actor action kind id old_value new_value)
            r in
        Audited actor action kind r x r'
  unfolding write_audited Leaves
  write_audited-Audited text action kind id old_value new_value (err e) r same =
      elim (Option-cases faults.write_fault) [
        | inl a ↦ at_end action kind r {q = (err (wrap text e), r)} (ground (arith, a)) refl
        | inr (x, a) ↦ at_end action kind r {q = (err (wrap text x), r)} (ground (arith, a)) refl
      ]
  write_audited-Audited text action kind id old_value new_value (ok w) r same =
      let log = audit_log actor action kind id old_value new_value in
      elim (Option-cases faults.write_fault) [
        | inr (x, a) ↦ at_end action kind r {q = (err (wrap text x), r)} (ground (arith, a)) refl
        | inl a ↦ elim (Option-cases faults.audit_fault) [
          | inr (x, b) ↦
              at_end action kind r {q = (err (wrap "insert audit log failed" x), r)}
                (ground (arith, a, b)) refl
          | inl b ↦ elim (Option-cases faults.commit_fault) [
            | inr (x, c) ↦ at_end action kind r {q = (err x, r)} (ground (arith, a, b, c)) refl
            | inl c ↦
                at_end action kind r
                  {q = (ok tt, record w { audit_logs = w.audit_logs ++ log ∷ [] })}
                  (ground (arith, a, b, c))
                  (log, ap (λ l. l ++ log ∷ []) same, refl, refl, refl, refl)
          ]
        ]
      ]

  create_app-Audited :
      (now : ℕ) (a : App) (r : Registry)
      → let (x, r') = create_app codec faults actor now a r in Audited actor "create" "app" r x r'
  unfolding create_app Leaves
  create_app-Audited now a r = elim (Result-cases (validate_app a)) [
    | inl (e, v) ↦ at_end "create" "app" r {q = (err e, r)} (ground (arith, v)) refl
    | inr (u, v) ↦ elim (Option-cases faults.begin_fault) [
      | inr (e, b) ↦
          at_end "create" "app" r {q = (err (wrap "begin transaction failed" e), r)}
            (ground (arith, v, b)) refl
      | inl b ↦ elim (Result-cases (insert_app now a r)) [
        | inl (e, k) ↦
            at_end "create" "app" r (ground (arith, v, b, k)) (
              write_audited-Audited "insert app failed" "create" "app" a.app_id none "" (err e) r
                tt)
        | inr ((row, r'), k) ↦ at_end "create" "app" r (ground (arith, v, b, k)) (
            write_audited-Audited "insert app failed" "create" "app" a.app_id none
              (codec.marshal_app row) (ok r') r (ground (arith, k)))
      ]
    ]
  ]

  update_app-Audited :
      (app_id : String) (updates : List (AppColumn × String)) (r : Registry)
      → let (x, r') = update_app codec faults actor app_id updates r in
        Audited actor "update" "app" r x r'
  unfolding update_app Leaves
  update_app-Audited app_id updates r = elim (Option-cases faults.begin_fault) [
    | inr (e, b) ↦
        at_end "update" "app" r {q = (err (wrap "begin transaction failed" e), r)}
          (ground (arith, b)) refl
    | inl b ↦ elim (Result-cases (get_app codec faults actor app_id r)) [
      | inl (e, k) ↦ at_end "update" "app" r {q = (err e, r)} (ground (arith, b, k)) refl
      | inr (old, k) ↦ at_end "update" "app" r (ground (arith, b, k)) (
          write_audited-Audited "update app failed" "update" "app" app_id
            (some (codec.marshal_app old)) (codec.marshal_app_updates updates)
            (update_rows updates (changed_apps app_id updates r)) r
            (update_rows-Leaves updates r (changed_apps app_id updates r) refl))
    ]
  ]

  create_channel_config-Audited :
      (now : ℕ) (c : ChannelConfig) (r : Registry)
      → let (x, r') = create_channel_config codec faults actor now c r in
        Audited actor "create" "channel_config" r x r'
  unfolding create_channel_config Leaves
  create_channel_config-Audited now c r = elim (Result-cases (validate_channel_config c)) [
    | inl (e, v) ↦ at_end "create" "channel_config" r {q = (err e, r)} (ground (arith, v)) refl
    | inr (u, v) ↦ elim (Result-cases (codec.encrypt c.config)) [
      | inl (e, s) ↦
          at_end "create" "channel_config" r {q = (err (wrap "encrypt channel config failed" e), r)}
            (ground (arith, v, s)) refl
      | inr (encrypted, s) ↦ elim (Option-cases faults.begin_fault) [
        | inr (e, b) ↦
            at_end "create" "channel_config" r {q = (err (wrap "begin transaction failed" e), r)}
              (ground (arith, v, s, b)) refl
        | inl b ↦ elim (Result-cases (insert_config now (record c { config = encrypted }) r)) [
          | inl (e, k) ↦ at_end "create" "channel_config" r (ground (arith, v, s, b, k)) (
              write_audited-Audited "insert channel config failed" "create" "channel_config" "" none
                "" (err e) r tt)
          | inr ((row, r'), k) ↦ at_end "create" "channel_config" r (ground (arith, v, s, b, k)) (
              write_audited-Audited "insert channel config failed" "create" "channel_config"
                (resource_of row.id) none (codec.marshal_config (masked codec faults actor row))
                (ok r') r (ground (arith, k)))
        ]
      ]
    ]
  ]

  update_channel_config-Audited :
      (id : ℕ) (updates : List (ConfigColumn × String)) (r : Registry)
      → let (x, r') = update_channel_config codec faults actor id updates r in
        Audited actor "update" "channel_config" r x r'
  unfolding update_channel_config Leaves
  update_channel_config-Audited id updates r = elim (Option-cases faults.begin_fault) [
    | inr (e, b) ↦
        at_end "update" "channel_config" r {q = (err (wrap "begin transaction failed" e), r)}
          (ground (arith, b)) refl
    | inl b ↦ elim (Result-cases (get_channel_config codec faults actor id r)) [
      | inl (e, k) ↦ at_end "update" "channel_config" r {q = (err e, r)} (ground (arith, b, k)) refl
      | inr (old, k) ↦ elim (Result-cases (convert_config codec.encrypt updates)) [
        | inl (e, s) ↦
            at_end "update" "channel_config" r
              {q = (err (wrap "encrypt channel config failed" e), r)} (ground (arith, b, k, s)) refl
        | inr (encrypted, s) ↦ at_end "update" "channel_config" r (ground (arith, b, k, s)) (
            write_audited-Audited "update channel config failed" "update" "channel_config"
              (resource_of id) (some (codec.marshal_config (masked codec faults actor old)))
              (codec.marshal_config_updates (mask_updates codec.mask encrypted))
              (update_rows encrypted (changed_configs id encrypted r)) r
              (update_rows-Leaves encrypted r (changed_configs id encrypted r) refl))
      ]
    ]
  ]

  -- Whatever statement fails, a call changes nothing and returns an error, or it returns none and
  -- exactly one row is added to the audit log, with the operator, the address, the kind of resource,
  -- and the action `create` for the creation of an app or a configuration and `update` for every
  -- other call, the deletions too.
  pub serve-Audited :
      (call : Call) (r : Registry)
      → let (x, r') = serve call r in Audited actor (action_of call) (resource_type_of call) r x r'
  unfolding delete_app delete_channel_config
  serve-Audited (create_an_app now a) r = create_app-Audited now a r
  serve-Audited (update_an_app app_id updates) r = update_app-Audited app_id updates r
  serve-Audited (delete_an_app app_id) r =
      update_app-Audited app_id ((app_status, "disabled") ∷ []) r
  serve-Audited (create_a_config now c) r = create_channel_config-Audited now c r
  serve-Audited (update_a_config id updates) r = update_channel_config-Audited id updates r
  serve-Audited (delete_a_config id) r =
      update_channel_config-Audited id ((config_status, "disabled") ∷ []) r

  -- Where no statement fails, an app that exists is disabled by `DeleteApp`, and found afterwards
  -- with nothing else changed.
  pub delete_app-disabled :
      (app_id : String) (a : App) (r : Registry)
      → find (has_app_id app_id) r.apps ≡ some a
      → faults ≡ no_faults
      → find (has_app_id app_id) (delete_app codec faults actor app_id r).1.apps
        ≡ some (record a { status = "disabled" })
  unfolding delete_app
  delete_app-disabled app_id a r found calm =
      let disable = set_app_columns ((app_status, "disabled") ∷ []) in
      ground (
        arith,
        found,
        ap (λ (f : Faults). f.begin_fault) calm,
        ap (λ (f : Faults). f.read_fault) calm,
        ap (λ (f : Faults). f.write_fault) calm,
        ap (λ (f : Faults). f.audit_fault) calm,
        ap (λ (f : Faults). f.commit_fault) calm,
        find_sound (has_app_id app_id) r.apps found,
        find-update (has_app_id app_id) (has_app_id app_id) disable (λ x. refl) r.apps,
      )
