-- ===== src/Engine/Executor.antt =====
-- engine/execution/base.py: the interface `Executor`. What an exchange answers is not determined by the
-- engine, so a request may depend on the clock and on the number of requests before it; a simulated
-- exchange keeps its book in `kv`. An executor touches nothing else of the ledger. A raised exception
-- is an answer like any other.
use cryptoaibot.Common.{String, ℕ, Option, List}
use cryptoaibot.Exec.{Result, Exec}
use cryptoaibot.Domain.Order.{Order}
use cryptoaibot.Domain.Rules.{SymbolRules}
use cryptoaibot.Domain.Events.{ExchangeOrderReport, ExchangeFill, BalanceSnapshot, SubmitOutcome}
use cryptoaibot.Store.Tables.{World, Database, Action, KvValue}

pub record Desk : Type 0 where
  pub kv : List (String × KvValue)
  pub requests : ℕ

abbrev pub Call : Type 0 → Type 0
Call A = ℕ → Exec Desk A

pub record Executor : Type 0 where
  pub exchange_name : String
  pub symbol_rules : String → Call SymbolRules
  pub submit : Order → SymbolRules → Call SubmitOutcome
  pub query_order : Order → Call (Option ExchangeOrderReport)
  pub query_order_by_exchange_id : String → String → Call (Option ExchangeOrderReport)
  pub query_fills : Order → Call (List ExchangeFill)
  pub cancel : Order → Call SubmitOutcome
  pub open_orders : String → Call (List ExchangeOrderReport)
  pub recent_fills : String → ℕ → Call (List ExchangeFill)
  pub balances : Database → Call BalanceSnapshot

abbrev pub put_back : {A : Type 0} → World → Result A × Desk → Result A × World
put_back w (r, d) = (r, record w { db = record w.db { kv = d.kv }; requests = d.requests })

-- A request, from a service that runs on the engine's state.
unfoldable pub request : {A : Type 0} → Call A → Action A
request c w = put_back w (c w.now (record { kv = w.db.kv; requests = w.requests }))
