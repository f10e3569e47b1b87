-- ===== src/Channel/Wechat/Scoped.antt =====
-- Which order a WeChat webhook finds: `WechatWebhook` of internal/handler/webhook.go with the
-- providers of pkg/channel/wechat, where the body names no order in the clear.
use go_pay.Prelude.{
  String, Bool, if◌then◌else◌, true, false, Option, none, some, List, [], ◌∷◌, ◌≡◌, refl, sym, ap,
  ◌∙◌, ◌⊎◌, inl, inr, arith, Any, All, map, find, find_sound, Bool-cases, Option-cases, ◌==◌,
  eq_iff,
}
use mathlib.Core.Path.{subst}
use go_pay.Errors.{GoError, no_rows, plain, Result, ok, err, Result-cases}
use go_pay.Models.{Order}
use go_pay.World.{World, Env, M, pure, attempt, ◌>>=◌, running}
use go_pay.World.Laws.{bind-ok, attempt-eq}
use go_pay.OrderService.Queries.{not_found_or, has_trade_no, query_order_by_out_trade_no}
use go_pay.Webhook.{WebhookReply, Handlers, Parsers, Request}
use go_pay.Webhook.Parse.{
  parse_out_trade_no_from_wechat, find_order_by_out_trade_no, find_order_by_app_and_out_trade_no,
}
use go_pay.Webhook.Wechat.{
  or_last, answer_wechat, try_providers, resolve_wechat_webhook, wechat_webhook,
}
use go_pay.Channel.{PaymentChannel, WebhookRequest, WebhookResponse}
use go_pay.Channel.Wechat.{Provider}
use go_pay.Channel.Wechat.Types.{Sdk}
use go_pay.Channel.Wechat.Prepay.{Service}
use go_pay.Channel.Wechat.Notices.{handle_webhook, channel_of}

-- A search for an order ends with an error or with an order that passes `P`, and the tables and
-- the goroutines are as they were.
data Found (P : Order → Type 0) (w : World) (x : Result Order × World) : Type 0 where
  missing : (e : GoError) → x.0 ≡ err e → x.1.db ≡ w.db → x.1.tasks ≡ w.tasks → Found P w x
  row : (o : Order) → P o → x.0 ≡ ok o → x.1.db ≡ w.db → x.1.tasks ≡ w.tasks → Found P w x

module _ (env : Env) (h : Handlers) where
  by_app-Found :
      (app_id trade_no : String) (w : World)
      → Found
          (λ o. (o.app_id ≡ app_id) × (o.out_trade_no ≡ trade_no))
          w
          (find_order_by_app_and_out_trade_no env h app_id trade_no w)
  unfolding find_order_by_app_and_out_trade_no query_order_by_out_trade_no running
  by_app-Found app_id trade_no w = elim (Bool-cases h.initialized) [
    | inr i ↦
        missing (plain "order service is not initialized") (ground (arith, i)) (ground (arith, i))
          (ground (arith, i))
    | inl i ↦ elim (Option-cases (env.fault w.statements)) [
      | inr (e, f) ↦
          missing (not_found_or trade_no "failed to query order by out_trade_no" e)
            (ground (arith, i, f)) (ground (arith, i, f)) (ground (arith, i, f))
      | inl f ↦ elim (Option-cases (find (has_trade_no app_id trade_no) w.db.orders)) [
        | inl g ↦
            missing (not_found_or trade_no "failed to query order by out_trade_no" no_rows)
              (ground (arith, i, f, g)) (ground (arith, i, f, g)) (ground (arith, i, f, g))
        | inr (o, g) ↦
            row o
              (ground (
                arith,
                find_sound (has_trade_no app_id trade_no) w.db.orders g,
                eq_iff o.app_id app_id,
                eq_iff o.out_trade_no trade_no,
              ))
              (ground (arith, i, f, g)) (ground (arith, i, f, g)) (ground (arith, i, f, g))
      ]
    ]
  ]

abbrev pub channels : Sdk → List (Service × Provider) → List PaymentChannel
channels sdk qs = map (λ q. channel_of sdk q.0 q.1) qs

module _ (sdk : Sdk) (req : WebhookRequest) where
  -- The response is verified by the provider, and names the order among those of the app whose id
  -- is the provider's app id.
  pub record Named (o : Order) (resp : WebhookResponse) (q : Service × Provider) : Type 0 where
    pub handled : handle_webhook sdk q.1 req ≡ ok resp
    pub success : resp.success ≡ true
    pub app : o.app_id ≡ q.1.app_id
    pub trade_no : o.out_trade_no ≡ resp.platform_trade_no

  data Resolved (qs : List (Service × Provider)) (w : World)
      (x : Result (Order × Option WebhookResponse) × World) : Type 0 where
    unresolved : (e : GoError) → x.0 ≡ err e → x.1.db ≡ w.db → x.1.tasks ≡ w.tasks → Resolved qs w x
    resolved :
        (o : Order) (resp : WebhookResponse)
        → Any (Named o resp) qs
        → x.0 ≡ ok (o, some resp)
        → x.1.db ≡ w.db
        → x.1.tasks ≡ w.tasks
        → Resolved qs w x

  later :
      (q : Service × Provider) (qs : List (Service × Provider)) (w w1 : World)
      (x : Result (Order × Option WebhookResponse) × World)
      → w1.db ≡ w.db
      → w1.tasks ≡ w.tasks
      → Resolved qs w1 x
      → Resolved (q ∷ qs) w x
  later q qs w w1 x d t (unresolved e r d' t') = unresolved e r (d' ∙ d) (t' ∙ t)
  later q qs w w1 x d t (resolved o resp by r d' t') = resolved o resp (inr by) r (d' ∙ d) (t' ∙ t)

  module _ (env : Env) (h : Handlers) where
    -- What the loop does with a response that is verified, by whether the provider names no app.
    abbrev searched_if :
        Bool
        → Provider
        → List (Service × Provider)
        → GoError
        → WebhookResponse
        → M (Order × Option WebhookResponse)
    searched_if nameless p qs e resp = do
      found ← attempt (
          if nameless
          then find_order_by_out_trade_no env h resp.platform_trade_no
          else find_order_by_app_and_out_trade_no env h p.app_id resp.platform_trade_no)
      elim found [
        | ok o ↦ pure (o, some resp)
        | err x ↦ try_providers env h (channels sdk qs) req (some x) e
      ]

    searched-Resolved :
        (q : Service × Provider) (qs : List (Service × Provider)) (e : GoError)
        (resp : WebhookResponse) (w : World)
        → handle_webhook sdk q.1 req ≡ ok resp
        → resp.success ≡ true
        → ((x : GoError) (w1 : World)
            → Resolved qs w1 (try_providers env h (channels sdk qs) req (some x) e w1))
        → Found
            (λ o. (o.app_id ≡ q.1.app_id) × (o.out_trade_no ≡ resp.platform_trade_no))
            w
            (find_order_by_app_and_out_trade_no env h q.1.app_id resp.platform_trade_no w)
        → Resolved (q ∷ qs) w (searched_if false q.1 qs e resp w)
    searched-Resolved q qs e resp w a s rest (missing x r d t) =
        let find_it = find_order_by_app_and_out_trade_no env h q.1.app_id resp.platform_trade_no in
        subst (Resolved (q ∷ qs) w)
          (sym
            (bind-ok (attempt find_it) _ w (attempt-eq find_it w (ap (λ f. (f, (find_it w).1)) r))))
          (later q qs w (find_it w).1 _ d t (rest x (find_it w).1))
    searched-Resolved q qs e resp w a s rest (row o (same_app, same_no) r d t) =
        let find_it = find_order_by_app_and_out_trade_no env h q.1.app_id resp.platform_trade_no in
        subst (Resolved (q ∷ qs) w)
          (sym
            (bind-ok (attempt find_it) _ w (attempt-eq find_it w (ap (λ f. (f, (find_it w).1)) r))))
          (resolved o resp
            (inl (record { handled = a; success = s; app = same_app; trade_no = same_no })) refl d
            t)

    abbrev tried :
        List (Service × Provider)
        → Option GoError
        → GoError
        → World
        → Result (Order × Option WebhookResponse) × World
    tried qs last e w = try_providers env h (channels sdk qs) req last e w

    try_providers-Resolved :
        (qs : List (Service × Provider)) (last : Option GoError) (e : GoError) (w : World)
        → All (λ q. (q.1.app_id == "") ≡ false) qs
        → Resolved qs w (tried qs last e w)
    unfolding try_providers
    try_providers-Resolved [] last e w a = unresolved (or_last last e) refl refl refl
    try_providers-Resolved (q ∷ qs) last e w a =
        let rest = λ (l : Option GoError) (w1 : World). try_providers-Resolved qs l e w1 a.1 in
        let goes_on = λ (l : Option GoError) (run : tried qs l e w ≡ tried (q ∷ qs) last e w).
          subst (Resolved (q ∷ qs) w) run (later q qs w w (tried qs l e w) refl refl (rest l w)) in
        elim (Result-cases (handle_webhook sdk q.1 req)) [
          | inl (x, f) ↦ goes_on (some x) (ground (arith, f))
          | inr (resp, f) ↦ elim (Bool-cases resp.success) [
            | inr s ↦ goes_on last (ground (arith, f, s))
            | inl s ↦ elim (Bool-cases (resp.platform_trade_no == "")) [
              | inl n ↦
                  goes_on (some (plain "platform trade no is empty in wechat webhook response"))
                    (ground (arith, f, s, n))
              | inr n ↦
                  rw (f, s, n, a.0, try_providers)
                    (searched-Resolved q qs e resp w f s (λ x w1. rest (some x) w1)
                      (by_app-Found env h q.1.app_id resp.platform_trade_no w))
            ]
          ]
        ]

-- The call is what the handler does with a response that a provider verified, for an order of the
-- app whose id is the provider's app id, found in the tables as they were.
pub record Scoped (sdk : Sdk) (req : WebhookRequest) (qs : List (Service × Provider)) (env : Env)
    (w : World) (x : Result WebhookReply × World) : Type 0 where
  pub order : Order
  pub resp : WebhookResponse
  pub before : World
  pub by : Any (Named sdk req order resp) qs
  pub db : before.db ≡ w.db
  pub tasks : before.tasks ≡ w.tasks
  pub run : x ≡ answer_wechat env (ok (order, some resp)) before

module _ (sdk : Sdk) (env : Env) (h : Handlers) (parsers : Parsers) where
  abbrev pub Outcome :
      WebhookRequest → List (Service × Provider) → World → Result WebhookReply × World → Type 0
  Outcome req qs w x = ((x.1.db ≡ w.db) × (x.1.tasks ≡ w.tasks)) ⊎ Scoped sdk req qs env w x

  answered :
      (req : WebhookRequest) (qs : List (Service × Provider)) (w : World)
      (m : M (Order × Option WebhookResponse))
      → Resolved sdk req qs w (m w)
      → Outcome req qs w ((attempt m >>= answer_wechat env) w)
  unfolding answer_wechat
  answered req qs w m (unresolved e r d t) =
      subst (Outcome req qs w)
        (sym (bind-ok (attempt m) _ w (attempt-eq m w (ap (λ f. (f, (m w).1)) r)))) (inl (d, t))
  answered req qs w m (resolved o resp by r d t) =
      subst (Outcome req qs w)
        (sym (bind-ok (attempt m) _ w (attempt-eq m w (ap (λ f. (f, (m w).1)) r))))
        (inr (record {
          order = o;
          resp = resp;
          before = (m w).1;
          by = by;
          db = d;
          tasks = t;
          run = refl;
        }))

  -- Where the body of a WeChat webhook names no order in the clear, as those that WeChat sends do
  -- not, and each of the providers that are listed has an app id: the webhook changes no table and
  -- starts no notification, or it settles an order whose app id and trade number are the
  -- provider's app id and the response's trade number, by a response that this provider verified.
  pub wechat_webhook-Scoped :
      (r : Request) (list : String → Result (List PaymentChannel)) (body : String) (e : GoError)
      (qs : List (Service × Provider)) (w : World)
      → r.body ≡ ok body
      → parse_out_trade_no_from_wechat parsers body ≡ err e
      → h.list_providers ≡ some list
      → list "wechat_" ≡ ok (channels sdk qs)
      → All (λ q. (q.1.app_id == "") ≡ false) qs
      → Outcome
          (record { raw_body = body; headers = r.headers })
          qs
          w
          (wechat_webhook env h parsers r w)
  unfolding wechat_webhook resolve_wechat_webhook ◌>>=◌
  wechat_webhook-Scoped r list body e qs w b p l c a =
      let req : WebhookRequest = record { raw_body = body; headers = r.headers } in
      rw (b, wechat_webhook)
        (answered req qs w (resolve_wechat_webhook env h parsers req) (
          rw (p, l, c, resolve_wechat_webhook)
            (try_providers-Resolved sdk req env h qs none e w a)))
