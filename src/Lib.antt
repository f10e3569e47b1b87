-- ===== src/Lib.antt =====
-- GoPay, a payment gateway: business systems create orders over HTTP, a payment channel (WeChat,
-- Alipay, Stripe) is asked for a payment, its webhook reports the payment, and the gateway
-- notifies the business system. This library models the Go code that carries an order through
-- that life, and proves what it keeps.
--
-- Parts, and the files that model them:
--   Models, Models/*            internal/models/models.go: rows of the tables and their constants
--   Errors, Errors/Make         pkg/errors/errors.go: sentinels, BusinessError, constructors
--   Response                    pkg/response/response.go: error replies and HandleError
--   Channel, Channel/ChannelStatus, RefundStatus
--                               pkg/channel/interface.go: what a provider is asked and answers
--   Channel/Wechat, Channel/Wechat/Types, Prepay, Notices
--                               pkg/channel/wechat
--   Channel/Alipay, Channel/Alipay/Types, Trade
--                               pkg/channel/alipay
--   Channel/Stripe, Channel/Stripe/Signature
--                               pkg/channel/stripe/provider.go
--   Sql, World                  the database and the rest of the world, see below
--   OrderService, OrderService/Queries, Create, Status
--                               internal/service/order_service.go
--   RefundService               internal/service/refund_service.go
--   Payload, NotifyService/Post, Retry, Pool
--                               internal/service/notify_service.go
--   Webhook, Webhook/Parse, Settle, Wechat, Alipay, Stripe
--                               internal/handler/webhook.go and webhook_stripe.go
--   Handler                     internal/handler/checkout.go, refund.go and internal.go
--   Security/Nonces, Access     pkg/security/access_control.go
--   Security/Encryption         pkg/security/encryption.go
--   ConfigCrypto                internal/service/config_crypto.go
--   ConfigService               internal/service/config_service.go
--   ConfigTemplates             internal/service/config_template_service.go
--   ConfigHandler               internal/admin/config_handler.go
--   WorkerPool                  pkg/pool/worker_pool.go
--   Limiter                     pkg/limiter/limiter.go, pkg/middleware/rate_limit.go and
--                               local_rate_limit.go
--   Providers                   internal/service/channel_manager.go
--   Middleware/Signature, Auth  pkg/middleware/signature.go, nonce.go and auth.go
--   Reconciliation, Reconciliation/Compare, Bills, Repository, Run, Report, Store, Schedule
--                               internal/reconciliation: wechat.go, alipay.go, repository.go,
--                               reconciliation.go, reconciliation_by_app.go, report.go, scheduler.go
--   System                      the calls that reach the program, one after the other
-- Proofs are in World/Laws, World/Keeps (relations between tables through the combinators),
-- Response/Mapping, OrderService/Transition, Settlement, Storing, Outcome and Pending,
-- RefundService/Booking and Outcome, NotifyService/Rounds and Tokens,
-- Webhook/Duplicates and Payment, Facts and Facts/* (every service keeps an `OrderFact`),
-- System/Orders, System/History and System/Valid, Middleware/Window, Replay, Admission and
-- Numerals, Channel/Stripe/Verified, Channel/Wechat/Requests and Scoped, Reconciliation/Tally,
-- Agreement, Panics, Saved, Alerts and Shortage, Security/Encryption/Roundtrip,
-- ConfigCrypto/Transform, Hidden and Stored, Providers/Cached, Limiter/Rate, WorkerPool/Invariant
-- and Ending, ConfigTemplates/Rows, Sealed and Setup, ConfigService/Audited and
-- ConfigHandler/Audited. Examples and Examples/* hold concrete runs. Prelude and Prelude/* are
-- shared: native numbers, 64-bit words, tests, lists and texts.
--
-- How the code becomes definitions. A method is an action of the monad `M` of World: it takes the
-- world and returns a value or an error with the world after it. The world holds the tables, the
-- requests that reached a channel, the goroutines that wait, the tokens of the worker pool, the
-- POSTs that were sent, the sleeps and the alerts. Each SQL statement is one step on the tables,
-- and `Env.fault` may make any statement fail; a transaction writes at its COMMIT. The clock,
-- random draws, json.Marshal, Time.Format and the outcomes of HTTP requests are parameters in
-- `Env`, and so are the providers (`ChannelManager`, `Handlers`) and the parsers of JSON and query
-- strings (`Parsers`). A call of a handler runs as a whole; a goroutine is a `Task` that runs as a
-- whole at any later time, in any order. An `int64` is an integer, a time a number of seconds.
-- The unique and foreign keys of migrations/001_init_schema.up.sql are in `insert_order` and
-- `insert_transaction`.
-- Middleware and reconciliation stand beside the world of the services: they take what they
-- read (the apps, the orders, readings of the clock, the errors of their statements) as
-- arguments, and return their state. HMAC, the package net, downloads, `csv.Reader` and the
-- floating-point amount of a text are parameters, and so are AES-GCM, base64, encoding/json
-- and the vendors' SDKs.
--
-- Bounds. The retry loop runs on the rounds that are left, 5 (`maxNotifyRetries`) at the
-- start, which is the loop's own bound; the scheduler runs on the number of ticks that come.
-- No other definition needs fuel. A run of the worker pool is a derivation, whose length
-- `work` bounds.
--
-- Not modelled: logging, the SDKs behind the providers, gin's routing and binding, the lists
-- of the configuration service, the loop of the reconciliation scheduler, the pages and lists
-- of the admin and its other handlers, configuration and start-up; `doNotify`, which nothing
-- calls; a task of the worker pool that panics; two calls that interleave between statements; and
-- the cancellation of a request's context, which shows only as faults of statements and failed
-- POSTs.
pub mod Prelude
pub mod Errors
pub mod Sql
pub mod Response
pub mod Models
pub mod Channel
pub mod Payload
pub mod World
pub mod OrderService
pub mod RefundService
pub mod NotifyService
pub mod Webhook
pub mod Handler
pub mod Security
pub mod Middleware
pub mod Reconciliation
pub mod ConfigCrypto
pub mod Providers
pub mod Limiter
pub mod WorkerPool
pub mod ConfigTemplates
pub mod ConfigService
pub mod ConfigHandler
pub mod Facts
pub mod System
pub mod Examples
