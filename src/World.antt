-- ===== src/World.antt =====
-- The world in which the services of internal/service run: the tables of the database, which the
-- SQL statements of the source read and write, and what a call leaves behind outside it. `Env`
-- holds all that the code does not decide. A method is an action of `M`: it returns a value or
-- an error, and the world after it, which keeps what was written before an error.
pub mod Laws
pub mod Keeps
use go_pay.Prelude.{ℕ, ◌+◌, String, ⊤, Option, none, some, List, [], ◌∷◌, ◌++◌}
use go_pay.Errors.{GoError, wrap, Result, ok, err}
use go_pay.Models.{App, Order, Transaction, NotifyLog}
use go_pay.Channel.{CreateOrderRequest, RefundRequest, WebhookResponse, PaymentChannel}
use go_pay.Payload.{Payload}

pub record Db : Type 0 where
  pub apps : List App
  pub orders : List Order
  pub transactions : List Transaction
  pub notify_logs : List NotifyLog

-- A request that reached a payment channel.
pub data ChannelCall : Type 0 where
  create_order : CreateOrderRequest → ChannelCall
  refund : RefundRequest → ChannelCall
  query_refund : RefundRequest → ChannelCall

-- A goroutine that `NotifyService` has started: with a token of the worker pool, for a payment or
-- for a refund, or without one, by `RetryNotify`.
pub data Task : Type 0 where
  notify : Order → Task
  notify_refund : Order → WebhookResponse → Task
  retry : Order → String → Task

-- How one HTTP attempt ends: no request could be built, it was not sent, the response was not
-- read, or a status and a body came back.
pub data HttpOutcome : Type 0 where
  request_failed send_failed : GoError → HttpOutcome
  read_failed : ℕ → GoError → HttpOutcome
  responded : ℕ → String → HttpOutcome

-- `statements`, `readings`, `draws` and `posts` count the statements that ran, the readings of the
-- clock, the random draws and the HTTP requests. `pool` is the number of tokens in `workerPool`.
pub record World : Type 0 where
  pub db : Db
  pub channel_calls : List ChannelCall
  pub tasks : List Task
  pub pool : ℕ
  pub sent : List (String × String)
  pub slept : List ℕ
  pub alerts : List Order
  pub statements : ℕ
  pub readings : ℕ
  pub draws : ℕ
  pub posts : ℕ

-- `fault n` is the error of the n-th statement, if it fails; a statement that fails writes
-- nothing. `sql_now n` is its `NOW()`, and `now n` the n-th reading of `time.Now()`. `random n` is
-- the n-th draw. `format` is `Time.Format` and `marshal` is `json.Marshal`. `http n` is the outcome
-- of the n-th POST, with its duration in milliseconds.
pub record Env : Type 0 where
  pub fault : ℕ → Option GoError
  pub sql_now : ℕ → ℕ
  pub now : ℕ → ℕ
  pub random : ℕ → ℕ
  pub format : String → ℕ → String
  pub marshal : Payload → Result String
  pub http : ℕ → HttpOutcome × ℕ

-- The interface `ChannelManagerInterface`, as the services see it.
pub record ChannelManager : Type 0 where
  pub get_provider : String → String → Result PaymentChannel

abbrev pub M : Type 0 → Type 0
M A = World → Result A × World

module _ {A : Type 0} where
  abbrev pub pure : A → M A
  pure a w = (ok a, w)

  abbrev pub raise : GoError → M A
  raise e w = (err e, w)

  abbrev pub lift : Result A → M A
  lift r w = (r, w)

  -- `if err != nil { return …, f(err) }`
  unfoldable pub map_error : (GoError → GoError) → M A → M A
  map_error f m w = let (r, w') = m w in elim r [ ok a ↦ (ok a, w') | err e ↦ (err (f e), w') ]

  -- The call's error is a value, and the caller goes on.
  unfoldable pub attempt : M A → M (Result A)
  attempt m w = let (r, w') = m w in (ok r, w')

infixl 5 ◌>>=◌ ◌>>◌
unfoldable pub ◌>>=◌ : {A B : Type 0} → M A → (A → M B) → M B
◌>>=◌ m f w = let (r, w') = m w in elim r [ ok a ↦ f a w' | err e ↦ (err e, w') ]

abbrev pub ◌>>◌ : {A B : Type 0} → M A → M B → M B
m >> k = m >>= λ _. k

abbrev pub gets : {A : Type 0} → (World → A) → M A
gets f w = (ok (f w), w)

abbrev pub modify : (World → World) → M ⊤
modify f w = (ok tt, f w)

abbrev pub call_channel : ChannelCall → M ⊤
call_channel c = modify (λ w. record w { channel_calls = w.channel_calls ++ c ∷ [] })

-- The world after one more statement that changes no table.
abbrev pub tick : World → World
tick w = record w { statements = w.statements + 1 }

module _ (env : Env) where
  -- One statement, on the tables as they are, at its `NOW()`.
  unfoldable pub statement : {A : Type 0} → (ℕ → Db → Result A × Db) → M A
  statement f w = elim (env.fault w.statements) [
    | some e ↦ (err e, tick w)
    | none ↦
        let (r, db) = f (env.sql_now w.statements) w.db in
        (r, record w { db = db; statements = w.statements + 1 })
  ]

  unfoldable pub query : {A : Type 0} → (Db → Result A) → M A
  query f = statement (λ now db. (f db, db))

  unfoldable pub exec : (ℕ → Db → Db) → M ⊤
  exec f = statement (λ now db. (ok tt, f now db))

  -- `BEGIN`, which reads and writes nothing.
  unfoldable pub begin : M ⊤
  begin = statement (λ now db. (ok tt, db))

  -- A statement inside a transaction returns what it will write, and `COMMIT` writes it. A
  -- transaction that ends without a commit is rolled back.
  unfoldable pub exec_in : (ℕ → Db → Db) → M (Db → Db)
  exec_in f = statement (λ now db. (ok (f now), db))

  unfoldable pub commit : (Db → Db) → M ⊤
  commit writes = statement (λ now db. (ok tt, writes db))

  -- `time.Now()`
  unfoldable pub time_now : M ℕ
  time_now w = (ok (env.now w.readings), record w { readings = w.readings + 1 })

  -- One random number below `bound`.
  unfoldable pub draw : M ℕ
  draw w = (ok (env.random w.draws), record w { draws = w.draws + 1 })

-- Names all of the above, for a proof that runs an action through.
unfoldable pub running : ⊤
unfolding ◌>>=◌ map_error attempt statement query exec begin exec_in commit time_now draw
running = tt
