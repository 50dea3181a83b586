-- ===== src/Engine/Paper.antt =====
-- engine/execution/paper.py: the simulated exchange. A market order fills at once, in full, at its
-- reference price. `json` returns the decimals and times that were stored.
use cryptoaibot.Common.{
  String, ◌<>◌, ℕ, ◌+◌, ◌*◌, ◌/◌, ◌≡◌, Bool, true, false, not, Option, none, some, List, [], ◌∷◌,
  show, str_eq, if◌then◌else◌,
}
use cryptoaibot.Exec.{Result, ok, err, bind_result, Exec, pure, lift}
use cryptoaibot.Decimal.{Decimal, zero_dec, dec, ◌*ᵈ◌, le_dec}
use cryptoaibot.Domain.Enums.{filled, SubmitOutcomeKind}
use cryptoaibot.Domain.Order.{Order}
use cryptoaibot.Domain.Rules.{SymbolRules, round_qty}
use cryptoaibot.Domain.Events.{
  ExchangeOrderReport, ExchangeFill, Balance, BalanceSnapshot, SubmitOutcome,
}
use cryptoaibot.Store.Tables.{Database, PaperRecord, KvValue}
use cryptoaibot.Store.Kv.{kv_get, kv_put}
use cryptoaibot.Positions.Accounting.{assets}
use cryptoaibot.Positions.Service.{paper_balances}
use cryptoaibot.Engine.Config.{Config}
use cryptoaibot.Engine.Executor.{Desk, Call, Executor}
pub mod Book

abbrev pub refusal : String → Option String → SubmitOutcome
refusal error code = record {
  kind = SubmitOutcomeKind.rejected;
  report = none;
  fills = [];
  error = some error;
  error_code = code;
}

unfoldable pub paper_key : String → String
paper_key coid = "paper_order:" <> coid

-- `_report`, `_fills`
unfoldable pub report_of : PaperRecord → ExchangeOrderReport
report_of r = record {
  client_order_id = r.client_order_id;
  symbol = r.symbol;
  side = r.side;
  order_type = r.order_type;
  status = filled;
  orig_qty = r.orig_qty;
  executed_qty = r.executed_qty;
  cum_quote_qty = r.cum_quote;
  exchange_order_id = some r.exchange_order_id;
  price = none;
  stop_price = none;
  update_time_ms = some r.time;
  reject_reason = none;
  raw = [];
}

unfoldable pub fills_of : PaperRecord → List ExchangeFill
fills_of r =
    record {
      exchange_trade_id = r.trade_id;
      exchange_order_id = some r.exchange_order_id;
      client_order_id = some r.client_order_id;
      symbol = r.symbol;
      side = r.side;
      quantity = r.trade_qty;
      price = r.trade_price;
      quote_quantity = r.trade_quote;
      commission = r.commission;
      commission_asset = some r.commission_asset;
      execution_time_ms = r.time;
      event_key =
          "paper:" <> r.symbol <> ":" <> r.exchange_order_id <> ":" <> r.trade_id <> ":TRADE";
      is_maker = none;
    }
    ∷ []

-- `kv_get` of a paper order; a JSON object is never false.
unfoldable pub record_of : Option KvValue → Option PaperRecord
record_of (some (KvValue.paper_order r)) = some r
record_of _ = none

unfoldable pub find_record : String → Desk → Option PaperRecord
find_record coid d = record_of (kv_get (paper_key coid) d.kv)

-- The time of the record is in milliseconds; the clock's is in microseconds.
unfoldable pub record_for : Decimal → Order → SymbolRules → Decimal → ℕ → PaperRecord
record_for fee_rate o rules price now =
    let qty = round_qty rules o.requested_quantity in
    let quote = qty *ᵈ price in
    record {
      client_order_id = o.client_order_id;
      exchange_order_id = "P" <> show o.id;
      symbol = o.symbol;
      side = o.side;
      order_type = o.order_type;
      orig_qty = qty;
      executed_qty = qty;
      cum_quote = quote;
      time = now / 1000;
      trade_id = "PT" <> show o.id;
      trade_qty = qty;
      trade_price = price;
      trade_quote = quote;
      commission = quote *ᵈ fee_rate;
      commission_asset = rules.quote_asset;
    }

abbrev pub acceptance : PaperRecord → SubmitOutcome
acceptance r = record {
  kind = SubmitOutcomeKind.acknowledged;
  report = some (report_of r);
  fills = fills_of r;
  error = none;
  error_code = none;
}

-- The order is new, and is a market order.
unfoldable pub submit_priced : Decimal → Order → SymbolRules → Option Decimal → Call SubmitOutcome
submit_priced fee_rate o rules none now d =
    (ok (refusal "PAPER order needs a reference price" none), d)
submit_priced fee_rate o rules (some price) now d =
    let r = record_for fee_rate o rules price now in
    if le_dec price zero_dec
    then (ok (refusal "PAPER order needs a reference price" none), d)
    else (
      ok (acceptance r),
      record d { kv = kv_put (paper_key o.client_order_id) (KvValue.paper_order r) d.kv },
    )

abbrev pub submit_known : Decimal → Order → SymbolRules → Option PaperRecord → Call SubmitOutcome
submit_known fee_rate o rules (some r) now d =
    (ok (refusal "Duplicate order sent." (some "-2010")), d)
submit_known fee_rate o rules none now d =
    if str_eq o.order_type "MARKET"
    then submit_priced fee_rate o rules o.reference_price now d
    else (ok (refusal "PAPER supports MARKET orders only" none), d)

unfoldable pub paper_submit : Decimal → Order → SymbolRules → Call SubmitOutcome
paper_submit fee_rate o rules now d =
    submit_known fee_rate o rules (find_record o.client_order_id d) now d

abbrev pub report_option : Option PaperRecord → Option ExchangeOrderReport
report_option none = none
report_option (some r) = some (report_of r)

abbrev pub fills_option : Option PaperRecord → List ExchangeFill
fills_option none = []
fills_option (some r) = fills_of r

-- `SymbolRules(symbol=..., exchange_symbol=..., base_asset=..., quote_asset=...)` with the defaults;
-- `symbol.replace("/", "")` joins the two parts.
unfoldable pub paper_rules : String → Result SymbolRules
paper_rules symbol = bind_result (assets symbol) (λ a. ok (record {
  symbol = symbol;
  exchange_symbol = a.0 <> a.1;
  base_asset = a.0;
  quote_asset = a.1;
  step_size = dec 1 8;
  min_qty = dec 0 0;
  tick_size = dec 1 8;
  min_notional = dec 0 0;
}))

unfoldable pub snapshot_of : ℕ → String × Decimal × String × Decimal → BalanceSnapshot
snapshot_of now (quote, cash, base, qty) = record {
  balances =
      (quote, record { free = cash; locked = zero_dec })
      ∷ (base, record { free = qty; locked = zero_dec })
      ∷ [];
  as_of_ms = now / 1000;
}

unfoldable pub paper_executor : Config → Executor
paper_executor cfg = record {
  exchange_name = "paper";
  symbol_rules = λ symbol now d. (paper_rules symbol, d);
  submit = paper_submit cfg.paper_fee_rate;
  query_order = λ o now d. (ok (report_option (find_record o.client_order_id d)), d);
  query_order_by_exchange_id = λ symbol xid now d. (ok none, d);
  query_fills = λ o now d. (ok (fills_option (find_record o.client_order_id d)), d);
  cancel = λ o now d. (ok (refusal "PAPER orders fill immediately; nothing to cancel" none), d);
  open_orders = λ symbol now d. (ok [], d);
  recent_fills = λ symbol since now d. (ok [], d);
  balances = λ db now d. (
    bind_result (paper_balances cfg.bot_instance_id cfg.starting_paper_balance cfg.symbol db)
        (λ b. ok (snapshot_of now b)),
    d,
  );
}
