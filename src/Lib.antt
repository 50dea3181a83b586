-- ===== src/Lib.antt =====
-- Verification library of the trading engine (engine/): the domain, the ledger, the services that keep
-- orders, fills and positions in step with an exchange, and the simulated exchange.
--
-- Parts, and the code that each is about:
--   Common, Decimal, Exec   shared helpers; Python's decimal arithmetic (28 digits, half-even); its
--                           exceptions as values and a state-and-exception monad
--   Domain                  engine/domain/{enums,events,models}.py
--   Store                   engine/infrastructure/store.py: the tables as lists of rows, the UNIQUE
--                           constraints as tests before a write, `transaction` with its depth
--   Positions               engine/application/position_service.py
--   Engine.Config           config.py, and SHA-256 and str.isalnum as functions
--   Engine.Executor, Paper  engine/execution/{base,paper}.py
--   Engine.Messages, Dispatch   engine/application/outbox.py
--   Engine.Ids              make_client_order_id and the prefix by which own orders are recognised
--   Engine.Orders           engine/application/order_service.py (Apply: reports and fills; Submit:
--                           submission, ambiguity, refresh, cancellation)
--   Engine.Stream           engine/application/stream_ingestion.py
--   Engine.Recon            engine/application/reconciliation_service.py
--   Engine.Normalizer       engine/exchanges/binance/normalizer.py
--   Engine.Validation       validate_runtime of config.py
--   Engine.Risk             risk_manager.py, engine/risk/{manager,rules}.py
--   Engine.Strategy         strategy.py, engine/strategy/strategy_service.py, ai_strategy.py
--   Engine.MarketData       engine/market_data/fetcher.py: the snapshot
--   Engine.Trading          engine/application/trading_cycle.py: intent ids, submission and the gate;
--                           below it, `run_once` with its stages
--   Engine.Binance          engine/execution/binance.py, over the REST client as a parameter
--   Engine.ControlPlane     engine/control_plane/client.py: how an answer is read
--   Engine.Worker           workers/reconciliation_worker.py: callbacks, marks of trust and the
--                           periodic task
--   Engine.Process          engine/execution/factory.py, engine/bootstrap.py (health_snapshot) and
--                           the turns of workers/trading_worker.py
--   Engine.Keeps            what every operation keeps true of the orders, fills and processed events
--   Engine.System           the operations as one sequence of steps on one ledger
--   Samples                 concrete inputs and runs
--
-- A method of the code is a function of the same name into `Action`: from the engine's state (ledger,
-- transaction depth, clock, number of requests) to a result or an exception and the new state. What was
-- written before an exception stays written unless a transaction rolls it back, as in the code. The
-- services call an `Executor`, whose answers are arbitrary: they may depend on the clock and on the
-- number of requests so far, and each may be an exception. Times are microseconds, as natural numbers;
-- the code's comparisons of ages are written as sums, and a horizon before the epoch is the epoch. Loops
-- are recursion on lists; only arithmetic helpers (the digits of a number, the rounding of a decimal)
-- run on fuel, which is the number that they work on or more.
--
-- SQLite, HTTP, the exchange, the control plane, the notifier and binary floating point are not under
-- the repository: SQLite's documented constraints are written out in Store, the others are parameters.
-- Within an operation the clock stands still. Engine.System runs whole operations one after another,
-- where the store serializes single transactions only; Engine.Worker interleaves the steps of the
-- reconciliation worker, a touch in two, a run in three, a callback in one. The values of the key-value
-- table keep their type, where the code goes through JSON. The executor of Engine.Binance answers from
-- a given cache of symbol rules. Not modelled: the sessions of the REST and WebSocket clients (sockets,
-- backoff, request signing), indicators and the model's features, the sentiment provider, heartbeats
-- and logging, the news archive, the dashboard, research and the Laravel application.
pub mod Common
pub mod Decimal
pub mod Exec
pub mod Domain
pub mod Store
pub mod Positions
pub mod Engine
pub mod Samples
