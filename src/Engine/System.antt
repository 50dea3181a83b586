-- ===== src/Engine/System.antt =====
-- What the engine's callers (the trading worker, the stream worker, the reconciler and the paper
-- process) do to one ledger, as a sequence of operations. Each operation names the executor that it
-- ran with, so the exchange may answer anything at every step; an operation that raises leaves what it
-- had written, and the next one runs on it. A write lock serializes the processes.
use cryptoaibot.Common.{String, ℕ, ◌+◌, Bool, Option, List, [], ◌∷◌}
use cryptoaibot.Exec.{Result}
use cryptoaibot.Decimal.{Decimal}
use cryptoaibot.Domain.Events.{ExchangeOrderReport, ExchangeFill}
use cryptoaibot.Domain.Order.{Order, OrderIntent}
use cryptoaibot.Domain.Rules.{SymbolRules}
use cryptoaibot.Store.Tables.{World}
use cryptoaibot.Positions.Service
use cryptoaibot.Engine.Config.{Config, Platform}
use cryptoaibot.Engine.Executor.{Executor}
use cryptoaibot.Engine.Orders.Apply
use cryptoaibot.Engine.Orders.Submit
use cryptoaibot.Engine.Stream.{NormalizedStreamEvent}
use cryptoaibot.Engine.Stream
use cryptoaibot.Engine.Recon.Service as Recon
use cryptoaibot.Engine.Trading.Decisions.{TradingCycle, Inputs}
use cryptoaibot.Engine.Trading.Cycle.{run_once}
pub mod Run
pub mod Uniqueness
pub mod Permanence
pub mod Creation
pub mod Events

pub data Operation : Type 0 where
  submit_intent : Executor → OrderIntent → SymbolRules → Operation
  apply_report : Executor → ExchangeOrderReport → Operation
  ingest_fill : Executor → ExchangeFill → Operation
  resolve_ambiguous : Executor → Order → Operation
  refresh : Executor → Order → Operation
  cancel : Executor → Order → Operation
  handle : Executor → NormalizedStreamEvent → String → Operation
  reconcile : Executor → String → String → Bool → Operation
  set_stop : String → Decimal → Operation
  mark : String → Decimal → Operation
  trade : TradingCycle → Inputs → Operation
  wait : ℕ → Operation

-- What becomes of the engine's state; the result or the exception goes to the caller.
unfoldable pub perform : Config → Platform → Operation → World → World
perform cfg py (submit_intent x i rules) w = (Submit.submit_intent x cfg py i rules w).1
perform cfg py (apply_report x r) w = (Apply.apply_report x cfg.bot_instance_id r w).1
perform cfg py (ingest_fill x xf) w = (Apply.ingest_fill x cfg.bot_instance_id xf w).1
perform cfg py (resolve_ambiguous x o) w = (Submit.resolve_ambiguous x cfg o w).1
perform cfg py (refresh x o) w = (Submit.refresh x cfg o w).1
perform cfg py (cancel x o) w = (Submit.cancel x cfg o w).1
perform cfg py (handle x ev source) w = (Stream.handle x cfg py ev source w).1
perform cfg py (reconcile x key reason ack) w = (Recon.run x cfg py key reason ack w).1
perform cfg py (set_stop symbol stop) w = (Service.set_stop cfg.bot_instance_id symbol stop w).1
perform cfg py (mark symbol price) w = (Service.mark cfg.bot_instance_id symbol price w).1
perform cfg py (trade s given) w = (run_once cfg py s given w).1
perform cfg py (wait time) w = record w { now = w.now + time }

unfoldable pub perform_all : Config → Platform → List Operation → World → World
perform_all cfg py [] w = w
perform_all cfg py (op ∷ ops) w = perform_all cfg py ops (perform cfg py op w)
