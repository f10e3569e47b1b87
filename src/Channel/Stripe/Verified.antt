-- ===== src/Channel/Stripe/Verified.antt =====
-- Which Stripe webhooks change anything: `StripeWebhook` with the providers of pkg/channel/stripe.
use go_pay.Prelude.{
  ℕ, String, true, false, some, List, [], ◌∷◌, ◌≡◌, refl, sym, ap, ◌∙◌, ◌⊎◌, inl, inr, arith, Any,
  map, ◌+◌, ◌^◌, ◌<◌, ◌≤◌, eqb, ltb, none, Option, zero, suc, Bool-cases, Option-cases, ◌==◌,
  eq_iff,
}
use mathlib.Core.Path.{subst}
use go_pay.Prelude.Int.{ℤ, pos, negsuc, ltb_ℤ}
use go_pay.Prelude.Word.{sub64}
use go_pay.Errors.{Result, ok, Result-cases}
use go_pay.Middleware.Signature.{parse_int, in_range, digits}
use go_pay.Middleware.Window.{InRange}
use Prim.Native.Char.{code}
use go_pay.World.{World, Env}
use go_pay.Webhook.{WebhookReply, Handlers, Request}
use go_pay.Webhook.Parse.{get}
use go_pay.Webhook.Stripe.{first_success, answer_stripe, answer_listed, stripe_webhook}
use go_pay.Channel.{PaymentChannel, WebhookRequest, WebhookResponse}
use go_pay.Channel.ChannelStatus
use go_pay.Channel.Stripe.{Provider, Event, Sdk, handle_event, handle_webhook, channel_of}
use go_pay.Channel.Stripe.Signature.{read_header, signed_payload, matches, verify_webhook_signature}

-- `int64` numbers.
parse_int-InRange : (s : String) (ts : ℤ) → parse_int s ≡ some ts → InRange ts
unfolding parse_int
parse_int-InRange String.[] ts h = absurd (ground (arith, h))
parse_int-InRange (String.◌∷◌ c s) ts h = elim (Bool-cases (eqb (code c) b'-')) [
  | inl e ↦ in_range-InRange (negsuc 0) (digits s) ts (ground (arith, h, e))
  | inr e ↦ elim (Bool-cases (eqb (code c) b'+')) [
    | inl f ↦ in_range-InRange (pos 0) (digits s) ts (ground (arith, h, e, f))
    | inr f ↦ in_range-InRange (pos 0) (digits (String.◌∷◌ c s)) ts (ground (arith, h, e, f))
  ]
]
  where
    in_range-InRange :
        (sign : ℤ) (n : Option ℕ) (ts : ℤ) → in_range (2 ^ 63) sign n ≡ some ts → InRange ts
    in_range-InRange sign none ts h = absurd (ground (arith, h))
    in_range-InRange (pos k) (some n) ts h = elim (Bool-cases (ltb n (2 ^ 63))) [
      | inl e ↦ subst InRange {x = pos n} (ground (arith, h, e)) (ground (arith, e))
      | inr e ↦ absurd (ground (arith, h, e))
    ]
    in_range-InRange (negsuc k) (some zero) ts h =
        subst InRange {x = pos 0} (ground (arith, h)) (omega arith)
    in_range-InRange (negsuc k) (some (suc n)) ts h = elim (Bool-cases (ltb n (2 ^ 63))) [
      | inl e ↦ subst InRange {x = negsuc n} (ground (arith, h, e)) (ground (arith, e))
      | inr e ↦ absurd (ground (arith, h, e))
    ]

-- At most 300 seconds before the clock, or 2^63 and more: such a difference is no int64, and wraps
-- around to a negative one.
abbrev pub IsCurrent : ℕ → ℤ → Type 0
IsCurrent now (pos n) = now ≤ n + 300
IsCurrent now (negsuc n) = (now + n + 1 ≤ 300) ⊎ (2 ^ 63 ≤ now + n + 1)

sub64-IsCurrent :
    (now : ℕ) (ts : ℤ)
    → now < 2 ^ 63
    → InRange ts
    → ltb_ℤ (pos 300) (sub64 (pos now) ts) ≡ false
    → IsCurrent now ts
sub64-IsCurrent now (pos n) b r h = ground arith
sub64-IsCurrent now (negsuc n) b r h = ground arith

module _ (hmac : String → String → String) (now : ℕ) (body text secret : String) where
  -- The header names a timestamp that is current, and one of its signatures is the HMAC of the
  -- timestamp and the body under the secret.
  pub record IsSigned : Type 0 where
    pub timestamp : ℤ
    pub parsed : parse_int (read_header text).timestamp ≡ some timestamp
    pub current : IsCurrent now timestamp
    pub signature :
        matches
          (read_header text).signatures
          (hmac secret (signed_payload (read_header text).timestamp body))
        ≡ true

  verified : now < 2 ^ 63 → verify_webhook_signature hmac now body text secret ≡ ok tt → IsSigned
  unfolding verify_webhook_signature
  verified b h = elim (Option-cases (parse_int (read_header text).timestamp)) [
    | inl e ↦ absurd (ground (arith, h, e))
    | inr (ts, e) ↦ record {
      timestamp = ts;
      parsed = e;
      current = sub64-IsCurrent now ts b (parse_int-InRange _ ts e) (ground (arith, h, e));
      signature = ground (arith, h, e);
    }
  ]

-- What an event may report: a payment, a refund, or nothing.
abbrev Reported : Event → WebhookResponse → Type 0
Reported event resp =
    ((event.kind ≡ "checkout.session.completed") × (resp.status ≡ ChannelStatus.paid))
    ⊎ ((event.kind ≡ "charge.refunded") × (resp.status ≡ ChannelStatus.refund))
    ⊎ (resp.order_id ≡ "")

handle_event-Reported :
    (sdk : Sdk) (now : ℕ) (event : Event) (resp : WebhookResponse)
    → handle_event sdk now event ≡ ok resp
    → Reported event resp
unfolding handle_event
handle_event-Reported sdk now event resp h =
    elim (Bool-cases (event.kind == "checkout.session.completed")) [
      | inl k ↦ elim (Result-cases (sdk.unmarshal_session event.raw)) [
        | inl (e, f) ↦ absurd (ground (arith, h, k, f))
        | inr (session, f) ↦ inl ((eq_iff event.kind _).0 k, ground (arith, h, k, f))
      ]
      | inr k ↦ elim (Bool-cases (event.kind == "charge.refunded")) [
        | inl l ↦ elim (Result-cases (sdk.unmarshal_charge event.raw)) [
          | inl (e, f) ↦ absurd (ground (arith, h, k, l, f))
          | inr (charge, f) ↦ inr (inl ((eq_iff event.kind _).0 l, ground (arith, h, k, l, f)))
        ]
        | inr l ↦ inr (inr (ground (arith, h, k, l)))
      ]
    ]

module _ (sdk : Sdk) (now now' : ℕ) (req : WebhookRequest) where
  -- The response is what `p` makes of the event in the body, and the body is signed for `p`.
  pub record Authentic (resp : WebhookResponse) (p : Provider) : Type 0 where
    pub signed :
        IsSigned sdk.hmac now req.raw_body (get "Stripe-Signature" req.headers) p.webhook_secret
    pub event : Event
    pub read : sdk.unmarshal_event req.raw_body ≡ ok event
    pub handled : handle_event sdk now' event ≡ ok resp
    pub reported : Reported event resp

  handle_webhook-Authentic :
      (p : Provider) (resp : WebhookResponse)
      → now < 2 ^ 63
      → handle_webhook sdk now now' p req ≡ ok resp
      → Authentic resp p
  unfolding handle_webhook
  handle_webhook-Authentic p resp b h =
      let text = get "Stripe-Signature" req.headers in
      let check = verify_webhook_signature sdk.hmac now req.raw_body text p.webhook_secret in
      elim (Result-cases check) [
        | inl (e, f) ↦ absurd (ground (arith, h, f))
        | inr (u, f) ↦ elim (Result-cases (sdk.unmarshal_event req.raw_body)) [
          | inl (e, g) ↦ absurd (ground (arith, h, f, g))
          | inr (event, g) ↦ record {
            signed = verified sdk.hmac now req.raw_body text p.webhook_secret b f;
            event = event;
            read = g;
            handled = ground (arith, h, f, g);
            reported = handle_event-Reported sdk now' event resp (ground (arith, h, f, g));
          }
        ]
      ]

  first_success-Authentic :
      (ps : List Provider) (resp : WebhookResponse)
      → now < 2 ^ 63
      → first_success (map (channel_of sdk now now') ps) req ≡ some resp
      → Any (Authentic resp) ps
  unfolding first_success
  first_success-Authentic [] resp b h = absurd (ground (arith, h))
  first_success-Authentic (p ∷ ps) resp b h =
      elim (Result-cases (handle_webhook sdk now now' p req)) [
        | inl (e, f) ↦ inr (first_success-Authentic ps resp b (ground (arith, h, f)))
        | inr (r, f) ↦ elim (Bool-cases r.success) [
          | inl s ↦ inl (handle_webhook-Authentic p resp b (f ∙ ap ok (ground (arith, h, f, s))))
          | inr s ↦ inr (first_success-Authentic ps resp b (ground (arith, h, f, s)))
        ]
      ]

-- The call is that of a response with an order, which a provider of the list made of a body that
-- is signed for it.
pub record Accepted (sdk : Sdk) (now now' : ℕ) (req : WebhookRequest) (ps : List Provider)
    (env : Env) (w : World) (x : Result WebhookReply × World) : Type 0 where
  pub resp : WebhookResponse
  pub by : Any (Authentic sdk now now' req resp) ps
  pub order : (resp.order_id == "") ≡ false
  pub run : x ≡ answer_stripe env (some resp) w

module _ (sdk : Sdk) (now now' : ℕ) (env : Env) (ps : List Provider) where
  abbrev pub Outcome : WebhookRequest → World → Result WebhookReply × World → Type 0
  Outcome req w x = (x.1 ≡ w) ⊎ Accepted sdk now now' req ps env w x

  answered :
      (req : WebhookRequest) (w : World)
      → now < 2 ^ 63
      → Outcome req w (answer_stripe env (first_success (map (channel_of sdk now now') ps) req) w)
  unfolding answer_stripe
  answered req w b =
      let found = first_success (map (channel_of sdk now now') ps) req in
      elim (Option-cases found) [
        | inl e ↦ inl (ground (arith, e))
        | inr (resp, e) ↦ elim (Bool-cases (resp.order_id == "")) [
          | inl o ↦ inl (ground (arith, e, o))
          | inr o ↦ inr (record {
            resp = resp;
            by = first_success-Authentic sdk now now' req ps resp b e;
            order = o;
            run = ap (λ f. answer_stripe env f w) e;
          })
        ]
      ]

  listed :
      (req : WebhookRequest) (w : World) (qs : List Provider)
      → now < 2 ^ 63
      → qs ≡ ps
      → Outcome req w (answer_listed env (ok (map (channel_of sdk now now') qs)) req w)
  listed req w [] b e = inl refl
  listed req w (q ∷ qs) b e =
      subst
        (λ l.
          Outcome req w (answer_stripe env (first_success (map (channel_of sdk now now') l) req) w))
        (sym e) (answered req w b)

  -- Where the channel manager lists the providers `ps` of pkg/channel/stripe and the clock is an
  -- int64, a Stripe webhook changes nothing; or its order is settled by a response that one of them
  -- made, whose secret signs the body, of a session that is completed, reported as paid, or a
  -- charge that is refunded, reported as a refund. The signed timestamp is not more than 300 seconds
  -- before the clock, it may lie after it, or it is 2^63 seconds or more before it, where the
  -- difference wraps around.
  pub stripe_webhook-Accepted :
      (h : Handlers) (r : Request) (list : String → Result (List PaymentChannel)) (body : String)
      (w : World)
      → now < 2 ^ 63
      → h.list_providers ≡ some list
      → list "stripe" ≡ ok (map (channel_of sdk now now') ps)
      → r.body ≡ ok body
      → Outcome (record { raw_body = body; headers = r.headers }) w (stripe_webhook env h r w)
  unfolding stripe_webhook
  stripe_webhook-Accepted h r list body w bound e f g =
      let req : WebhookRequest = record { raw_body = body; headers = r.headers } in
      let run : answer_listed env (ok (map (channel_of sdk now now') ps)) req w
          ≡ stripe_webhook env h r w =
        ground (arith, e, f, g) in
      subst (Outcome req w) run (listed req w ps bound refl)
