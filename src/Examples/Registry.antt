-- ===== src/Examples/Registry.antt =====
-- Changes of the shop's row, as the admin pages make them.
use go_pay.Prelude.{[], ◌∷◌}
use go_pay.Errors.{ok}
use go_pay.ConfigService.{Registry, Actor, Codec, app_secret}
use go_pay.ConfigService.Audited.{update_an_app, serve, no_faults, Audited, serve-Audited}
use go_pay.Examples.Shop.{shop}

abbrev pub codec : Codec
codec = record {
  encrypt = λ s. ok s;
  mask = λ s. "******";
  marshal_app = λ a. "{}";
  marshal_config = λ c. "{}";
  marshal_app_updates = λ us. "{}";
  marshal_config_updates = λ us. "{}";
}

abbrev pub actor : Actor
actor = record { operator = "admin"; ip = "10.0.0.1"; user_agent = "curl" }

abbrev pub registry : Registry
registry = record {
  apps = shop ∷ [];
  configs = [];
  audit_logs = [];
  next_app_id = 2;
  next_config_id = 1;
}

serve-Audited_example :
    let (x, r') =
      serve codec no_faults actor (update_an_app "shop" ((app_secret, "s") ∷ [])) registry in
    Audited actor "update" "app" registry x r'
serve-Audited_example =
    serve-Audited codec no_faults actor (update_an_app "shop" ((app_secret, "s") ∷ [])) registry
