-- ===== src/Store/Tables.antt =====
-- engine/infrastructure/store.py: the tables as lists of rows in the order of their ids, and the state
-- that an engine process runs on. Reading a row back gives what was written, so the tables hold the
-- domain's records; `news_snapshots` is not modelled. The state also has the depth of nested
-- transactions, the clock's reading in microseconds, and the number of requests sent to the exchange.
use cryptoaibot.Common.{String, ℕ, Bool, Option, List, []}
use cryptoaibot.Exec.{Exec}
use cryptoaibot.Decimal.{Decimal}
use cryptoaibot.Domain.Enums.{ReconciliationStatus, MismatchSeverity, OrderPurpose, OrderStatus}
use cryptoaibot.Domain.Order.{Order, OrderIntent}
use cryptoaibot.Domain.Events.{Balance}
use cryptoaibot.Domain.Position.{Fill, Position}
use cryptoaibot.Domain.Recon.{ReconciliationState}

pub record ProcessedEvent : Type 0 where
  pub event_key : String
  pub source : String
  pub event_type : String
  pub received_at : ℕ

pub record Mismatch : Type 0 where
  pub kind : String
  pub severity : MismatchSeverity
  pub client_order_id : Option String
  pub resolved : Bool

pub record ReconRun : Type 0 where
  pub run_key : String
  pub bot_instance_id : String
  pub reason : String
  pub result_status : ReconciliationStatus
  pub started_at : ℕ
  pub finished_at : ℕ
  pub mismatches : List Mismatch

-- engine/application/outbox.py: the messages' payloads.
pub record OrderPayload : Type 0 where
  pub client_order_id : String
  pub client_intent_id : String
  pub exchange_order_id : Option String
  pub exchange : String
  pub symbol : String
  pub side : String
  pub order_type : String
  pub purpose : OrderPurpose
  pub status : OrderStatus
  pub requested_quantity : Decimal
  pub executed_quantity : Decimal
  pub cumulative_quote_quantity : Decimal
  pub average_fill_price : Option Decimal
  pub limit_price : Option Decimal
  pub stop_price : Option Decimal
  pub submission_ambiguous : Bool
  pub reject_reason : Option String
  pub submitted_at : Option ℕ
  pub acknowledged_at : Option ℕ
  pub last_exchange_update_at : Option ℕ
  pub terminal_at : Option ℕ
  pub version : ℕ
  -- added by `OrderService._enqueue_order`
  pub signal_id : Option String

pub record FillPayload : Type 0 where
  pub event_key : String
  pub client_order_id : String
  pub exchange_trade_id : Option String
  pub symbol : String
  pub side : String
  pub quantity : Decimal
  pub price : Decimal
  pub quote_quantity : Decimal
  pub commission : Decimal
  pub commission_asset : Option String
  pub execution_time : ℕ

pub record PositionPayload : Type 0 where
  pub symbol : String
  pub side : String
  pub quantity : Decimal
  pub average_entry_price : Decimal
  pub realized_pnl : Decimal
  pub unrealized_pnl : Decimal
  pub last_mark_price : Option Decimal
  pub stop_price : Option Decimal
  pub opened_at : Option ℕ
  pub updated_at : Option ℕ

pub record EventPayload : Type 0 where
  pub event_type : String
  pub severity : MismatchSeverity
  pub message : String
  pub occurred_at : ℕ

-- The payload that engine/application/trading_cycle.py puts out; `score` is the text of the score.
pub record SignalPayload : Type 0 where
  pub client_signal_id : String
  pub symbol : String
  pub action : String
  pub score : String
  pub price : Decimal
  pub reasons : List String
  pub candle_open_time : String
  pub strategy_name : String
  pub strategy_version : String
  pub occurred_at : ℕ
  pub mode : String

pub data Payload : Type 0 where
  signal : SignalPayload → Payload
  order : OrderPayload → Payload
  fill : FillPayload → Payload
  position : PositionPayload → Payload
  event : EventPayload → Payload
  telegram : String → Payload
  reconciliation : ReconRun → Payload

-- The `kind` column; `other` is any value that the dispatcher does not know.
pub data Kind : Type 0 where
  signals orders fills reconciliation events positions telegram other : Kind

pub data OutboxStatus : Type 0 where
  pending sent dead : OutboxStatus

pub record OutboxRow : Type 0 where
  pub id : ℕ
  pub kind : Kind
  pub idempotency_key : String
  pub payload : Payload
  pub status : OutboxStatus
  pub attempts : ℕ
  pub next_attempt_at : ℕ
  pub last_error : Option String
  pub sent_at : Option ℕ

pub record Lease : Type 0 where
  pub name : String
  pub owner : String
  pub expires_at : ℕ

-- The simulated exchange's record of an order (engine/execution/paper.py).
pub record PaperRecord : Type 0 where
  pub client_order_id : String
  pub exchange_order_id : String
  pub symbol : String
  pub side : String
  pub order_type : String
  pub orig_qty : Decimal
  pub executed_qty : Decimal
  pub cum_quote : Decimal
  pub time : ℕ
  pub trade_id : String
  pub trade_qty : Decimal
  pub trade_price : Decimal
  pub trade_quote : Decimal
  pub commission : Decimal
  pub commission_asset : String

-- The day's risk state (engine/risk/manager.py).
pub record DailyRisk : Type 0 where
  pub date : String
  pub day_start_equity : Decimal
  pub halted : Bool

-- What the engine keeps in `kv`.
pub data KvValue : Type 0 where
  paper_order : PaperRecord → KvValue
  balances : List (String × Balance) → KvValue
  timestamp : ℕ → KvValue
  daily_risk : DailyRisk → KvValue

pub record Database : Type 0 where
  pub order_intents : List OrderIntent
  pub orders : List Order
  pub fills : List Fill
  pub positions : List Position
  pub processed_events : List ProcessedEvent
  pub reconciliation_state : List ReconciliationState
  pub reconciliation_runs : List ReconRun
  pub outbox : List OutboxRow
  pub leases : List Lease
  pub kv : List (String × KvValue)

abbrev pub empty_database : Database
empty_database = record {
  order_intents = [];
  orders = [];
  fills = [];
  positions = [];
  processed_events = [];
  reconciliation_state = [];
  reconciliation_runs = [];
  outbox = [];
  leases = [];
  kv = [];
}

pub record World : Type 0 where
  pub db : Database
  pub depth : ℕ
  pub now : ℕ
  pub requests : ℕ

abbrev pub Action : Type 0 → Type 0
Action = Exec World

-- An empty ledger at a given time.
abbrev pub fresh : ℕ → World
fresh now = record { db = empty_database; depth = 0; now = now; requests = 0 }
