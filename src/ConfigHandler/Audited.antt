-- ===== src/ConfigHandler/Audited.antt =====
-- What the requests of internal/admin/config_handler.go do to the registry.
use Prim.Native.String.{String}
use go_pay.Prelude.{ℕ, Bool, true, false, ⊤, List, [], ◌∷◌, ◌++◌, ◌≡◌, refl, arith, find, inl, inr}
use go_pay.Errors.{Result, ok, err, Result-cases}
use go_pay.Providers.{is_config}
use go_pay.ConfigTemplates.{Entries}
use go_pay.ConfigService.{
  ConfigAuditLog, Registry, Faults, Actor, AppColumn, ConfigColumn, Codec, has_app_id, get_app,
  create_app, get_channel_config, create_channel_config,
}
use go_pay.ConfigService.Audited.{
  create_an_app, update_an_app, delete_an_app, create_a_config, update_a_config, delete_a_config,
  Audited, serve-Audited,
}
use go_pay.ConfigHandler.{
  Values, AdminReply, Shown, nothing, shown_app, shown_config, Request, CreateConfigBody,
  get_app_request, delete_app_request, create_app_request, update_app_request, get_config_request,
  delete_config_request, create_config_request, update_config_request, default_to, caller, answered,
  app_updates, config_updates, update_app_with, update_config_with, app_of, config_of, mask_found,
  handle_create_config, route,
}

-- What the audit log calls a request, a deletion being an update too, and whether it only reads.
abbrev pub action_of : Request → String
action_of (create_app_request b) = "create"
action_of (create_config_request app_id b) = "create"
action_of other = "update"

abbrev pub kind_of : Request → String
kind_of (create_app_request b) = "app"
kind_of (update_app_request app_id b) = "app"
kind_of (delete_app_request app_id) = "app"
kind_of (get_app_request app_id) = "app"
kind_of other = "channel_config"

abbrev pub is_read : Request → Bool
is_read (get_app_request app_id) = true
is_read (get_config_request id) = true
is_read other = false

-- A request is refused with nothing changed, reads, or changes the registry and leaves one row in
-- the audit log.
pub data Outcome (actor : Actor) (q : Request) (r : Registry) (x : AdminReply × Registry)
    : Type 0 where
  refuses : x.0.code ≡ "ERROR" → x.1 ≡ r → Outcome actor q r x
  reads : is_read q ≡ true → x.0.code ≡ "SUCCESS" → x.1 ≡ r → Outcome actor q r x
  changes :
      (log : ConfigAuditLog)
      → is_read q ≡ false
      → x.0.code ≡ "SUCCESS"
      → x.1.audit_logs ≡ r.audit_logs ++ log ∷ []
      → log.operator ≡ default_to "admin" actor.operator
      → log.ip_address ≡ actor.ip
      → log.action ≡ action_of q
      → log.resource_type ≡ kind_of q
      → Outcome actor q r x

module _ (values : Values) (codec : Codec) (faults : Faults) (actor : Actor) (now : ℕ) where
  abbrev who : Actor
  who = caller values codec faults actor now

  answered-Outcome :
      (q : Request) (r : Registry) (prefix message : String) (body : Shown)
      (x : Result ⊤ × Registry)
      → is_read q ≡ false
      → Audited who (action_of q) (kind_of q) r x.0 x.1
      → Outcome actor q r (answered prefix message body x)
  answered-Outcome q r prefix message body (err e, r') writes h = refuses refl h
  answered-Outcome q r prefix message body (ok u, r') writes (log, l, o, i, a, k) =
      changes log writes refl l o i a k

  update_app-Outcome :
      (app_id : String) (b : Result Entries) (us : List (AppColumn × String)) (r : Registry)
      → Outcome actor
          (update_app_request app_id b)
          r
          (update_app_with values codec faults actor now app_id us r)
  update_app-Outcome app_id b [] r = refuses refl refl
  update_app-Outcome app_id b (u ∷ us) r =
      answered-Outcome (update_app_request app_id b) r "更新失败: " "更新成功" nothing _ refl
        (serve-Audited codec faults who (update_an_app app_id (u ∷ us)) r)

  update_config-Outcome :
      (id : ℕ) (b : Result Entries) (us : Result (List (ConfigColumn × String))) (r : Registry)
      → Outcome actor
          (update_config_request id b)
          r
          (update_config_with values codec faults actor now id us r)
  update_config-Outcome id b (err e) r = refuses refl refl
  update_config-Outcome id b (ok []) r = refuses refl refl
  update_config-Outcome id b (ok (u ∷ us)) r =
      answered-Outcome (update_config_request id b) r "更新失败: " "更新成功" nothing _ refl
        (serve-Audited codec faults who (update_a_config id (u ∷ us)) r)

  create_config-Outcome :
      (app_id : String) (b : CreateConfigBody) (r : Registry)
      → Outcome actor
          (create_config_request app_id (ok b))
          r
          (handle_create_config values codec faults actor now app_id (ok b) r)
  unfolding handle_create_config
  create_config-Outcome app_id b r = elim (Result-cases (values.marshal_map b.config)) [
    | inl (e, f) ↦ rw (f, handle_create_config) (refuses refl refl)
    | inr (text, f) ↦
        let done =
          create_channel_config codec faults who now
            (config_of values codec faults actor now app_id b text) r in
        rw (f, handle_create_config)
          (answered-Outcome (create_config_request app_id (ok b)) r "创建失败: " "创建成功"
            (shown_config (
              mask_found values codec faults actor now
                (find (is_config app_id b.channel) done.1.configs)))
            done refl
            (serve-Audited codec faults who
              (create_a_config now (config_of values codec faults actor now app_id b text)) r))
  ]

  -- Whatever statement fails, a request of the admin API is refused with an error and changes
  -- nothing; or it reads, succeeds and changes nothing; or it succeeds and leaves exactly one new
  -- row in the audit log, with the operator of the request, `admin` where it names none, its
  -- address, the kind of resource, and the action `create` for a creation and `update` for a change
  -- and for a deletion.
  pub route-Outcome :
      (q : Request) (r : Registry) → Outcome actor q r (route values codec faults actor now q r)
  unfolding route
  route-Outcome (get_app_request app_id) r =
      elim (Result-cases (get_app codec faults who app_id r)) [
        | inl (e, f) ↦ refuses (ground (arith, f)) refl
        | inr (a, f) ↦ reads refl (ground (arith, f)) refl
      ]
  route-Outcome (delete_app_request app_id) r =
      answered-Outcome (delete_app_request app_id) r "删除失败: " "删除成功" nothing _ refl
        (serve-Audited codec faults who (delete_an_app app_id) r)
  route-Outcome (create_app_request (err e)) r = refuses refl refl
  route-Outcome (create_app_request (ok b)) r =
      let made = app_of values codec faults actor now b in
      let done = create_app codec faults who now made r in
      answered-Outcome (create_app_request (ok b)) r "创建失败: " "创建成功"
        (shown_app (find (has_app_id b.app_id) done.1.apps)) done refl
        (serve-Audited codec faults who (create_an_app now made) r)
  route-Outcome (update_app_request app_id (err e)) r = refuses refl refl
  route-Outcome (update_app_request app_id (ok es)) r =
      update_app-Outcome app_id (ok es) (app_updates values es) r
  route-Outcome (get_config_request id) r =
      elim (Result-cases (get_channel_config codec faults who id r)) [
        | inl (e, f) ↦ refuses (ground (arith, f)) refl
        | inr (c, f) ↦ reads refl (ground (arith, f)) refl
      ]
  route-Outcome (delete_config_request id) r =
      answered-Outcome (delete_config_request id) r "删除失败: " "删除成功" nothing _ refl
        (serve-Audited codec faults who (delete_a_config id) r)
  route-Outcome (create_config_request app_id (err e)) r = refuses refl refl
  route-Outcome (create_config_request app_id (ok b)) r = create_config-Outcome app_id b r
  route-Outcome (update_config_request id (err e)) r = refuses refl refl
  route-Outcome (update_config_request id (ok es)) r =
      update_config-Outcome id (ok es) (config_updates values es) r
