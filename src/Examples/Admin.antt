-- ===== src/Examples/Admin.antt =====
-- The admin API changes the secret of the shop.
use go_pay.Prelude.{[], ◌∷◌}
use go_pay.Errors.{ok}
use go_pay.ConfigCrypto.{text}
use go_pay.ConfigService.Audited.{no_faults}
use go_pay.ConfigHandler.{Values, Request, update_app_request, route}
use go_pay.ConfigHandler.Audited.{Outcome, route-Outcome}
use go_pay.Examples.Registry.{codec, actor, registry}

abbrev values : Values
values = record {
  marshal = λ v. ok "{}";
  marshal_map = λ es. ok "{}";
  sql_text = λ v. "s";
  byte_length = λ s. 1;
  starred = λ s. "****";
}

abbrev new_secret : Request
new_secret = update_app_request "shop" (ok (("app_secret", text "s") ∷ []))

route-Outcome_example :
    Outcome actor new_secret registry (route values codec no_faults actor 9 new_secret registry)
route-Outcome_example = route-Outcome values codec no_faults actor 9 new_secret registry
