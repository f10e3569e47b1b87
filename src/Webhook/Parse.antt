-- ===== src/Webhook/Parse.antt =====
-- The functions of internal/handler/webhook.go that read an order number from a body, and the
-- two ways to find the order.
use go_pay.Prelude.{String, not, ◌||◌, Option, none, some, List, [], ◌∷◌, ◌==◌, if◌then◌else◌}
use go_pay.Errors.{plain, Result, ok, err}
use go_pay.Models.{Order}
use go_pay.World.{Env, M, raise}
use go_pay.OrderService.Queries.{query_order_by_out_trade_no, query_order_by_out_trade_no_global}
use go_pay.Webhook.{Handlers, Parsers}

abbrev pub lookup : {V : Type 0} → String → List (String × V) → Option V
lookup k [] = none
lookup k ((j, v) ∷ m) = if j == k then some v else lookup k m

-- `values.Get(k)`: the first value, or the empty text.
abbrev pub get : String → List (String × String) → String
get k m = elim (lookup k m) [ none ↦ "" | some v ↦ v ]

-- `data["out_trade_no"].(string)`
abbrev text_value : Option (Option String) → Result String
text_value (some (some s)) = ok s
text_value _ = err (plain "out_trade_no not found in webhook body")

module _ (parsers : Parsers) where
  unfoldable pub parse_out_trade_no_from_wechat : String → Result String
  parse_out_trade_no_from_wechat body = elim (parsers.unmarshal_any body) [
    | err e ↦ err e
    | ok entries ↦ text_value (lookup "out_trade_no" entries)
  ]

  -- What is left when the query holds none of the three fields: a JSON object, or the query.
  abbrev fallback_values :
      List (String × String) → Result (List (String × String)) → Result (List (String × String))
  fallback_values values (ok (e ∷ es)) = ok (e ∷ es)
  fallback_values [] _ = err (plain "empty alipay webhook body")
  fallback_values (v ∷ vs) _ = ok (v ∷ vs)

  unfoldable pub parse_alipay_webhook_values : String → Result (List (String × String))
  parse_alipay_webhook_values body = elim (parsers.parse_query body) [
    | err e ↦ err e
    | ok values ↦
        if not (get "out_trade_no" values == "")
          || not (get "app_id" values == "")
          || not (get "trade_no" values == "")
        then ok values
        else fallback_values values (parsers.unmarshal_strings body)
  ]

  abbrev required : String → String → Result (List (String × String)) → Result String
  required key message (err e) = err e
  required key message (ok values) =
      if get key values == "" then err (plain message) else ok (get key values)

  unfoldable pub parse_out_trade_no_from_alipay : String → Result String
  unfolding parse_alipay_webhook_values
  parse_out_trade_no_from_alipay body =
      required "out_trade_no" "out_trade_no not found in webhook body"
        (parse_alipay_webhook_values body)

  unfoldable pub parse_app_id_from_alipay : String → Result String
  unfolding parse_alipay_webhook_values
  parse_app_id_from_alipay body =
      required "app_id" "app_id not found in webhook body" (parse_alipay_webhook_values body)

module _ (env : Env) (h : Handlers) where
  unfoldable pub find_order_by_out_trade_no : String → M Order
  find_order_by_out_trade_no out_trade_no =
      if not h.initialized
      then raise (plain "order service is not initialized")
      else query_order_by_out_trade_no_global env out_trade_no

  unfoldable pub find_order_by_app_and_out_trade_no : String → String → M Order
  find_order_by_app_and_out_trade_no app_id out_trade_no =
      if not h.initialized
      then raise (plain "order service is not initialized")
      else query_order_by_out_trade_no env app_id out_trade_no
