-- ===== src/Samples.antt =====
-- A configuration, an intent, orders and reports on which the theorems are tried.
use Prim.Native.Char.{code}
use cryptoaibot.Common.{String, ◌<>◌, ℕ, Bool, true, false, Option, none, some, List, [], ◌∷◌, leb}
use cryptoaibot.Exec.{err, external}
use cryptoaibot.Decimal.{Decimal, dec, zero_dec}
use cryptoaibot.Domain.Enums.{entry, OrderStatus, new, submitting}
use cryptoaibot.Domain.Events.{ExchangeOrderReport, ExchangeFill}
use cryptoaibot.Domain.Order.{Order, OrderIntent}
use cryptoaibot.Domain.Rules.{SymbolRules}
use cryptoaibot.Store.Tables.{World, empty_database, Lease, OutboxRow, Kind, Payload, OutboxStatus}
use cryptoaibot.Engine.Config.{Config, Platform}
use cryptoaibot.Engine.Executor.{Executor}
pub mod Rules
pub mod Runs
pub mod Cycle
pub mod Outside
pub mod Turns
pub mod Halted
pub mod Conflict

abbrev pub cfg : Config
cfg = record {
  bot_instance_id = "bot";
  symbol = "BTC/USDT";
  client_order_id_prefix = "cb1";
  ambiguous_order_grace_seconds = 60;
  recon_state_max_age_seconds = 90;
  recent_fills_lookback_hours = 48;
  protective_stop_on_exchange = false;
  starting_paper_balance = dec 1000 0;
  paper_fee_rate = zero_dec;
}

abbrev pub py : Platform
py = record {
  sha256_hex = λ s. s <> "0123456789abcdef";
  is_alnum = λ c. leb 48 (code c);
  type_name = λ e. "Error";
}

abbrev pub rules : SymbolRules
rules = record {
  symbol = "BTC/USDT";
  exchange_symbol = "BTCUSDT";
  base_asset = "BTC";
  quote_asset = "USDT";
  step_size = dec 1 0;
  min_qty = zero_dec;
  tick_size = dec 1 0;
  min_notional = zero_dec;
}

abbrev pub intent : OrderIntent
intent = record {
  client_intent_id = "i1";
  bot_instance_id = "bot";
  symbol = "BTC/USDT";
  side = "BUY";
  order_type = "MARKET";
  quantity = dec 2 0;
  purpose = entry;
  strategy_name = "v1";
  strategy_version = "1";
  signal_id = none;
  limit_price = none;
  stop_price = none;
  reference_price = some (dec 5 0);
  created_at = 0;
}

abbrev pub order : Order
order = record {
  bot_instance_id = "bot";
  exchange = "paper";
  symbol = "BTC/USDT";
  side = "BUY";
  order_type = "MARKET";
  purpose = entry;
  client_order_id = "cb1-i1";
  client_intent_id = "i1";
  requested_quantity = dec 2 0;
  status = submitting;
  id = 1;
  exchange_order_id = none;
  executed_quantity = zero_dec;
  cumulative_quote_quantity = zero_dec;
  average_fill_price = none;
  limit_price = none;
  stop_price = none;
  reference_price = some (dec 5 0);
  submission_ambiguous = false;
  reject_reason = none;
  submitted_at = some 0;
  acknowledged_at = none;
  last_exchange_update_at = none;
  last_exchange_update_ms = none;
  terminal_at = none;
  raw = [];
  version = 1;
}

abbrev pub report : ExchangeOrderReport
report = record {
  client_order_id = "cb1-i1";
  symbol = "BTC/USDT";
  side = "BUY";
  order_type = "MARKET";
  status = new;
  orig_qty = dec 2 0;
  executed_qty = zero_dec;
  cum_quote_qty = zero_dec;
  exchange_order_id = some "P1";
  price = none;
  stop_price = none;
  update_time_ms = some 7;
  reject_reason = none;
  raw = [];
}

abbrev pub fill : ExchangeFill
fill = record {
  exchange_trade_id = "T1";
  exchange_order_id = some "P1";
  client_order_id = some "cb1-i1";
  symbol = "BTC/USDT";
  side = "BUY";
  quantity = dec 2 0;
  price = dec 5 0;
  quote_quantity = dec 10 0;
  commission = zero_dec;
  commission_asset = none;
  execution_time_ms = 7;
  event_key = "k1";
  is_maker = none;
}

-- An exchange that cannot be reached.
abbrev pub unreachable : Executor
unreachable = record {
  exchange_name = "binance";
  symbol_rules = λ symbol now d. (err (external "timeout"), d);
  submit = λ o r now d. (err (external "timeout"), d);
  query_order = λ o now d. (err (external "timeout"), d);
  query_order_by_exchange_id = λ symbol xid now d. (err (external "timeout"), d);
  query_fills = λ o now d. (err (external "timeout"), d);
  cancel = λ o now d. (err (external "timeout"), d);
  open_orders = λ symbol now d. (err (external "timeout"), d);
  recent_fills = λ symbol since now d. (err (external "timeout"), d);
  balances = λ db now d. (err (external "timeout"), d);
}

abbrev pub with_order : World
with_order = record {
  db = record empty_database { orders = order ∷ [] };
  depth = 0;
  now = 0;
  requests = 0;
}

-- A message for the control plane.
abbrev pub message : OutboxRow
message = record {
  id = 1;
  kind = Kind.orders;
  idempotency_key = "order:1";
  payload = Payload.telegram "";
  status = OutboxStatus.pending;
  attempts = 0;
  next_attempt_at = 0;
  last_error = none;
  sent_at = none;
}
