-- ===== src/Examples/Templates.antt =====
-- An app that is set up with two channels.
use go_pay.Prelude.{ℕ, ◌≡◌, ◌⊎◌, String, true, none, Option, List, [], ◌∷◌}
use go_pay.Errors.{GoError, ok, err}
use go_pay.ConfigCrypto.{text}
use go_pay.ConfigTemplates.{ConfigTemplate, QuickSetupRequest, Codec, quick_setup_app}
use go_pay.ConfigTemplates.Setup.{HasApp, HasRow, quick_setup_app-Outcome}
use go_pay.Examples.Registry.{registry}

abbrev codec : Codec
codec = record {
  unmarshal = λ s. ok (("gateway", text "https://gateway.example") ∷ []);
  marshal = λ m. ok "{}";
  encrypt = λ s. ok s;
}

abbrev template : String → ConfigTemplate
template channel = record {
  id = 1;
  name = channel;
  description = "";
  channel = channel;
  config_schema = "{}";
  default_values = "{}";
  is_active = true;
  created_at = 1;
  updated_at = 1;
}

abbrev templates : List ConfigTemplate
templates = template "wechat_native" ∷ template "stripe" ∷ []

abbrev request : QuickSetupRequest
request = record {
  app_id = "tea";
  app_name = "Tea";
  app_secret = "s";
  callback_url = "https://tea.example/pay";
  channels =
      record { channel = "wechat_native"; config = ("mch_id", text "1") ∷ [] }
      ∷ record { channel = "stripe"; config = [] }
      ∷ [];
}

abbrev no_fault : ℕ → Option GoError
no_fault n = none

quick_setup_app-Outcome_example :
    let (result, r') = quick_setup_app codec templates no_fault 9 none request registry in
    ((e : GoError) × (result ≡ err e) × (r' ≡ registry))
    ⊎ ((result ≡ ok tt)
        × HasApp codec templates no_fault 9 request registry r'
        × HasRow codec templates no_fault 9 request "tea" "stripe" registry r')
quick_setup_app-Outcome_example =
    quick_setup_app-Outcome codec templates no_fault 9 none request registry "tea" "stripe"
