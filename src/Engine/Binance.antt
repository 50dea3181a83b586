-- ===== src/Engine/Binance.antt =====
-- engine/execution/binance.py: `BinanceExecutor`, over the REST client of rest_client.py. The client's
-- calls, which go to ccxt, and the classification of their exceptions are parameters; a quantity or a
-- price that the code sends as a text stands here as its number.
use cryptoaibot.Common.{
  String, ◌<>◌, ℕ, zero, suc, ◌+◌, Bool, true, false, Option, none, some, List, [], ◌∷◌, ◌++◌,
  length, leb, str_eq, truthy, option_or, if◌then◌else◌,
}
use cryptoaibot.Exec.{
  Error, attribute_error, order_not_found, runtime_error, value_error, message, Result, ok, err,
  bind_result, Exec, pure, raise, lift, ◌>>=◌, ◌>>◌, try_except, or_raise,
}
use cryptoaibot.Decimal.{Decimal, dec, zero_dec}
use cryptoaibot.Domain.Enums.{SubmitOutcomeKind}
use cryptoaibot.Domain.Events.{ExchangeOrderReport, ExchangeFill, BalanceSnapshot, SubmitOutcome}
use cryptoaibot.Domain.Order.{Order}
use cryptoaibot.Domain.Rules.{SymbolRules, round_qty, round_price}
use cryptoaibot.Engine.Executor.{Call, Desk, Executor}
use cryptoaibot.Engine.Ids.{take_chars}
use cryptoaibot.Engine.Normalizer.{
  RawOrder, RawTrade, RawFill, RawBalance, get, to_exchange, rest_order_report, rest_response_fills,
  rest_trade_fill, rest_balances,
}
pub mod Pages

-- The parameters of a new order.
pub record OrderParams : Type 0 where
  pub symbol : String
  pub side : String
  pub order_type : String
  pub quantity : Decimal
  pub new_client_order_id : String
  pub time_in_force : Option String
  pub price : Option Decimal
  pub stop_price : Option Decimal

-- The supported combinations of `my_trades`.
pub data TradeQuery : Type 0 where
  by_order : String → TradeQuery
  since : ℕ → TradeQuery
  from_id : ℕ → TradeQuery

-- Filters of `exchange_info`; a missing one is `none`.
pub record SymbolInfo : Type 0 where
  pub symbol : String
  pub base_asset : String
  pub quote_asset : String
  pub step_size : Option String
  pub min_qty : Option String
  pub tick_size : Option String
  pub min_notional : Option String

pub record RestClient : Type 0 where
  pub new_order : OrderParams → Call (RawOrder × List RawFill)
  pub order_by_client_id : String → String → Call RawOrder
  pub order_by_id : String → String → Call RawOrder
  pub cancel_order : String → String → Call RawOrder
  pub open_orders : String → Call (List RawOrder)
  -- with the limit
  pub my_trades : String → TradeQuery → ℕ → Call (List RawTrade)
  -- the balances and the update time
  pub account : Call (List RawBalance × Option ℕ)
  pub exchange_info : String → Call SymbolInfo
  pub server_time_ms : Call ℕ

abbrev pub map_ok : {A B : Type 0} → (A → Result B) → List A → Result (List B)
map_ok f [] = ok []
map_ok f (a ∷ as') = bind_result (f a) (λ b. bind_result (map_ok f as') (λ bs. ok (b ∷ bs)))

-- `rows[-1]`
abbrev pub last : {A : Type 0} → List A → Option A
last [] = none
last (a ∷ []) = some a
last (a ∷ b ∷ as') = last (b ∷ as')

pub record Binance : Type 0 where
  pub rest : RestClient
  pub account_label : String
  pub symbols : List (String × String)
  pub to_decimal : String → Result Decimal
  -- `int(...)` of a trade id
  pub trade_number : String → ℕ
  pub is_definitive : Error → Bool
  pub error_code : Error → Option String
  pub type_name : Error → String

module _ (b : Binance) where
  -- A missing filter has a default.
  abbrev filter_or : Option String → String → Result Decimal
  filter_or value default = b.to_decimal (option_or value default)

  unfoldable pub rules_of : String → SymbolInfo → Result SymbolRules
  rules_of symbol info = bind_result (filter_or info.step_size "0.00000001") λ step.
      bind_result (filter_or info.min_qty "0") λ min.
        bind_result (filter_or info.tick_size "0.00000001") λ tick.
          bind_result (filter_or info.min_notional "0") λ notional. ok (record {
            symbol = symbol;
            exchange_symbol = info.symbol;
            base_asset = info.base_asset;
            quote_asset = info.quote_asset;
            step_size = step;
            min_qty = min;
            tick_size = tick;
            min_notional = notional;
          })

  -- `symbol_rules`, with the rules that were asked for before, and those with this answer
  unfoldable pub symbol_rules :
      List (String × SymbolRules) → String → Call (SymbolRules × List (String × SymbolRules))
  symbol_rules cache symbol now = from_cache (get symbol cache)
    where
      from_cache : Option SymbolRules → Exec Desk (SymbolRules × List (String × SymbolRules))
      from_cache (some rules) = pure (rules, cache)
      from_cache none = do
        info ← b.rest.exchange_info (to_exchange symbol) now
        rules ← lift (rules_of symbol info)
        pure (rules, cache ++ (symbol, rules) ∷ [])

  abbrev rounded : SymbolRules → Option Decimal → Result Decimal
  rounded rules none = err (attribute_error "NoneType")
  rounded rules (some price) = ok (round_price rules price)

  abbrev market_params : Order → SymbolRules → OrderParams
  market_params o rules = record {
    symbol = rules.exchange_symbol;
    side = o.side;
    order_type = o.order_type;
    quantity = round_qty rules o.requested_quantity;
    new_client_order_id = o.client_order_id;
    time_in_force = none;
    price = none;
    stop_price = none;
  }

  unfoldable pub order_params : Order → SymbolRules → Result OrderParams
  order_params o rules =
      if str_eq o.order_type "STOP_LOSS_LIMIT"
      then bind_result (rounded rules o.limit_price) (λ limit.
        bind_result (rounded rules o.stop_price) (λ stop. ok (record (market_params o rules) {
          time_in_force = some "GTC";
          price = some limit;
          stop_price = some stop;
        })))
      else if str_eq o.order_type "LIMIT"
      then bind_result (rounded rules o.limit_price) (λ limit.
        ok (record (market_params o rules) { time_in_force = some "GTC"; price = some limit }))
      else ok (market_params o rules)

  -- What is not certainly refused is AMBIGUOUS.
  abbrev failed_kind : Error → SubmitOutcomeKind
  failed_kind e =
      if b.is_definitive e then SubmitOutcomeKind.rejected else SubmitOutcomeKind.ambiguous

  unfoldable pub failed_submit : Error → SubmitOutcome
  failed_submit e = record {
    kind = failed_kind e;
    report = none;
    fills = [];
    error = some (b.type_name e <> ": " <> take_chars 300 (message e));
    error_code = b.error_code e;
  }

  abbrev fills_of : RawOrder → Option String → List RawFill → Result (List ExchangeFill)
  fills_of raw oid [] = ok []
  fills_of raw none (f ∷ fs) = err (value_error "orderId")
  fills_of raw (some oid) (f ∷ fs) =
      rest_response_fills b.to_decimal b.symbols b.account_label raw oid (f ∷ fs)

  unfoldable pub acknowledged_submit : RawOrder × List RawFill → Result SubmitOutcome
  acknowledged_submit (raw, fills) =
      bind_result (rest_order_report b.to_decimal b.symbols raw) (λ report.
        bind_result (fills_of raw raw.order_id fills) (λ fs. ok (record {
          kind = SubmitOutcomeKind.acknowledged;
          report = some report;
          fills = fs;
          error = none;
          error_code = none;
        })))

  -- The answer or the exception of a call.
  abbrev attempt : {A : Type 0} → Exec Desk A → Exec Desk (Result A)
  attempt m = try_except (do a ← m; pure (ok a)) (λ e. pure (err e))

  abbrev submitted : Result (RawOrder × List RawFill) → Exec Desk SubmitOutcome
  submitted (ok answer) = lift (acknowledged_submit answer)
  submitted (err e) = pure (failed_submit e)

  unfoldable pub submit : Order → SymbolRules → Call SubmitOutcome
  submit o rules now = do
    params ← lift (order_params o rules)
    answer ← attempt (b.rest.new_order params now)
    submitted answer

  -- `None` for an order that the exchange does not know
  abbrev found : Result RawOrder → Exec Desk (Option ExchangeOrderReport)
  found (ok raw) = do
    report ← lift (rest_order_report b.to_decimal b.symbols raw)
    pure (some report)
  found (err (order_not_found m)) = pure none
  found (err e) = raise e

  unfoldable pub query_order : Order → Call (Option ExchangeOrderReport)
  query_order o now = do
    answer ← attempt (b.rest.order_by_client_id (to_exchange o.symbol) o.client_order_id now)
    found answer

  unfoldable pub query_order_by_exchange_id : String → String → Call (Option ExchangeOrderReport)
  query_order_by_exchange_id symbol xid now = do
    answer ← attempt (b.rest.order_by_id (to_exchange symbol) xid now)
    found answer

  abbrev fill_of : Option String → RawTrade → Result ExchangeFill
  fill_of coid = rest_trade_fill b.to_decimal b.symbols b.account_label coid

  unfoldable pub query_fills : Order → Call (List ExchangeFill)
  query_fills o now = trades_of (truthy o.exchange_order_id) (option_or o.exchange_order_id "")
    where
      trades_of : Bool → String → Exec Desk (List ExchangeFill)
      trades_of false xid = pure []
      trades_of true xid = do
        rows ← b.rest.my_trades (to_exchange o.symbol) (by_order xid) 1000 now
        lift (map_ok (fill_of (some o.client_order_id)) rows)

  unfoldable pub failed_cancel : Error → SubmitOutcome
  failed_cancel (order_not_found m) = record {
    kind = SubmitOutcomeKind.rejected;
    report = none;
    fills = [];
    error = some "order not found on exchange";
    error_code = none;
  }
  failed_cancel e = record {
    kind = failed_kind e;
    report = none;
    fills = [];
    error = some (take_chars 300 (message e));
    error_code = b.error_code e;
  }

  abbrev canceled : Result RawOrder → Exec Desk SubmitOutcome
  canceled (err e) = pure (failed_cancel e)
  canceled (ok raw) = do
    report ← lift (rest_order_report b.to_decimal b.symbols raw)
    pure (record {
      kind = SubmitOutcomeKind.acknowledged;
      report = some report;
      fills = [];
      error = none;
      error_code = none;
    })

  unfoldable pub cancel : Order → Call SubmitOutcome
  cancel o now = do
    answer ← attempt (b.rest.cancel_order (to_exchange o.symbol) o.client_order_id now)
    canceled answer

  unfoldable pub open_orders : String → Call (List ExchangeOrderReport)
  open_orders symbol now = do
    rows ← b.rest.open_orders (to_exchange symbol) now
    lift (map_ok (rest_order_report b.to_decimal b.symbols) rows)

  -- The loop of `recent_fills`: the last page, what there is so far, and the pages that are left.
  unfoldable pub more_pages : String → ℕ → ℕ → List RawTrade → List RawTrade → Call (List RawTrade)
  more_pages exch limit zero rows out now =
      if leb limit (length rows)
      then raise (runtime_error "recent_fills exceeded the pages; widen reconciliation cadence")
      else pure out
  more_pages exch limit (suc left) rows out now =
      if leb limit (length rows)
      then (do
        end ← or_raise (last rows) (value_error "list index out of range")
        page ← b.rest.my_trades exch (from_id (b.trade_number end.trade_id + 1)) limit now
        more_pages exch limit left page (out ++ page) now)
      else pure out

  unfoldable pub recent_rows : String → ℕ → ℕ → ℕ → Call (List RawTrade)
  recent_rows symbol since_ms limit left now = do
    rows ← b.rest.my_trades (to_exchange symbol) (since since_ms) limit now
    more_pages (to_exchange symbol) limit left rows rows now

  -- `recent_fills`, by pages of 1000, at most 50 of them
  unfoldable pub recent_fills : String → ℕ → Call (List ExchangeFill)
  recent_fills symbol since_ms now = do
    rows ← recent_rows symbol since_ms 1000 49 now
    lift (map_ok (fill_of none) rows)

  unfoldable pub balances : Call BalanceSnapshot
  balances now = do
    account ← b.rest.account now
    as_of ← b.rest.server_time_ms now
    lift (rest_balances b.to_decimal b.symbols account.0 account.1 as_of)

  -- The executor with a given cache of rules, which its calls do not update: `symbol_rules` returns the
  -- cache that it leaves.
  unfoldable pub executor : List (String × SymbolRules) → Executor
  executor cache = record {
    exchange_name = "binance";
    symbol_rules = λ symbol now. do
      answer ← symbol_rules cache symbol now
      pure answer.0;
    submit = submit;
    query_order = query_order;
    query_order_by_exchange_id = query_order_by_exchange_id;
    query_fills = query_fills;
    cancel = cancel;
    open_orders = open_orders;
    recent_fills = recent_fills;
    balances = λ db. balances;
  }
