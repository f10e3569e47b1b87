-- ===== src/Examples/Managed.antt =====
-- Calls of the channel manager, with one app and two channels.
use go_pay.Prelude.{ℕ, ◌≡◌, refl, String, true, none, List, [], ◌∷◌}
use go_pay.Errors.{Result, ok}
use go_pay.Models.{ChannelConfig}
use go_pay.Channel.{PaymentChannel}
use go_pay.Providers.{Vendor, Vendors, get_provider, load_provider, create_provider, close}
use go_pay.Providers.Cached.{
  Call, get, list_prefix, reload, close_all, serve_all, get_provider-load,
}
use go_pay.Examples.Shop.{wallet}

abbrev vendor : Vendor
vendor = record { Config = String; unmarshal = λ s. ok s }

abbrev made : String → Result PaymentChannel
made config = ok wallet

abbrev vendors : Vendors
vendors = record {
  wechat = vendor;
  alipay = vendor;
  stripe = vendor;
  new_wechat_native = made;
  new_wechat_jsapi = made;
  new_wechat_h5 = made;
  new_wechat_app = made;
  new_alipay_qr = made;
  new_alipay_wap = made;
  new_alipay_app = made;
  new_alipay_face = made;
  new_stripe = made;
}

abbrev decrypt : String → Result String
decrypt s = ok s

abbrev config : ℕ → String → String → ChannelConfig
config id channel status = record {
  id = id;
  app_id = "shop";
  channel = channel;
  config = "{}";
  status = status;
  created_at = 1;
  updated_at = id;
}

abbrev configs : List ChannelConfig
configs = config 1 "wechat_native" "active" ∷ config 2 "stripe" "disabled" ∷ []

abbrev calls : List Call
calls =
    get none "shop" "stripe"
    ∷ list_prefix true none "wechat_"
    ∷ get none "shop" "wechat_native"
    ∷ reload "shop" "wechat_native"
    ∷ close_all
    ∷ get none "shop" "wechat_native"
    ∷ []

get_provider-load_example :
    (get_provider vendors decrypt none configs "shop" "wechat_native"
      (serve_all vendors decrypt configs calls [])).0
    ≡ load_provider vendors decrypt none configs "shop" "wechat_native"
get_provider-load_example =
    get_provider-load vendors decrypt configs calls "shop" "wechat_native" (refl, (refl, tt)) refl

-- An app "shop_wechat" with a channel "native" is given the provider of the app "shop".
keys_collide :
    (get_provider vendors decrypt none configs "shop_wechat" "native"
      (serve_all vendors decrypt configs calls [])).0
    ≡ ok wallet
unfolding get_provider load_provider create_provider close
keys_collide = refl
