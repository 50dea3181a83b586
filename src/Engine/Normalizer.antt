-- ===== src/Engine/Normalizer.antt =====
-- engine/exchanges/binance/normalizer.py: Binance's payloads as the engine's types. A payload is a
-- record of the fields that the code reads, under the names of the engine; a field that the code takes
-- with `get` is optional. `Decimal(str(value))` of a text is the parameter `to_decimal`.
use Prim.Native.Char.{code}
use cryptoaibot.Common.{
  String, ◌<>◌, ℕ, zero, suc, Bool, true, false, not, ◌||◌, Option, none, some, is_some, option_or,
  List, [], ◌∷◌, map, show, str_eq, opt_str_eq, truthy, ◌==◌, if◌then◌else◌,
}
use cryptoaibot.Exec.{Result, ok, err, bind_result, unknown_status, value_error}
use cryptoaibot.Decimal.{Decimal, zero_dec, ◌*ᵈ◌}
use cryptoaibot.Domain.Enums.{
  OrderStatus, new, partially_filled, filled, canceled, rejected, expired,
}
use cryptoaibot.Domain.Events.{ExchangeOrderReport, ExchangeFill, Balance, BalanceSnapshot}
use cryptoaibot.Engine.Ids.{filter_chars}
use cryptoaibot.Engine.Stream.{NormalizedStreamEvent, EventKind}

-- A dictionary's value for a key, the last one that was put there.
unfoldable pub get : {A : Type 0} → String → List (String × A) → Option A
get key [] = none
get key ((k, v) ∷ rest) =
    let later = get key rest in
    if is_some later then later else if str_eq k key then some v else none

abbrev pub status_map : List (String × OrderStatus)
status_map =
    ("NEW", new)
    ∷ ("PENDING_NEW", new)
    ∷ ("PARTIALLY_FILLED", partially_filled)
    ∷ ("FILLED", filled)
    ∷ ("CANCELED", canceled)
    ∷ ("PENDING_CANCEL", new)
    ∷ ("REJECTED", rejected)
    ∷ ("EXPIRED", expired)
    ∷ ("EXPIRED_IN_MATCH", expired)
    ∷ []

abbrev pub or_unknown : String → Option OrderStatus → Result OrderStatus
or_unknown raw none = err (unknown_status raw)
or_unknown raw (some s) = ok s

unfoldable pub map_status : String → Result OrderStatus
map_status raw = or_unknown raw (get raw status_map)

unfoldable pub fill_event_key : String → String → String → String → String
fill_event_key account symbol order_id trade_id =
    "binance:" <> account <> ":" <> symbol <> ":" <> order_id <> ":" <> trade_id <> ":TRADE"

unfoldable pub order_event_key : String → String → String → String → String → String
order_event_key account symbol order_id execution_id exec_type =
    "binance:" <> account <> ":" <> symbol <> ":" <> order_id <> ":" <> execution_id <> ":"
    <> exec_type

-- `SymbolMap`: the internal symbols, keyed by themselves without the slash
unfoldable pub to_exchange : String → String
to_exchange symbol = filter_chars (λ c. not (code c == 47)) symbol

unfoldable pub symbol_map : List String → List (String × String)
symbol_map symbols = map (λ s. (to_exchange s, s)) symbols

unfoldable pub to_internal : List (String × String) → String → String
to_internal symbols symbol = option_or (get symbol symbols) symbol

-- A number's truth value is false at zero.
unfoldable pub or_number : Option ℕ → Option ℕ → Option ℕ
or_number none other = other
or_number (some zero) other = other
or_number (some (suc n)) other = some (suc n)

abbrev pub int_of : Option ℕ → Result ℕ
int_of none = err (value_error "int() argument must be a number, not 'NoneType'")
int_of (some n) = ok n

abbrev pub show_option : Option ℕ → String
show_option none = "None"
show_option (some n) = show n

abbrev pub is_zero_price : Option String → Bool
is_zero_price none = true
is_zero_price (some s) = str_eq s "" || str_eq s "0.00000000"

-- Order placement, status and cancellation responses.
pub record RawOrder : Type 0 where
  pub status : String
  pub client_order_id : String
  pub orig_client_order_id : Option String
  pub order_id : Option String
  pub symbol : String
  pub side : Option String
  pub order_type : Option String
  pub orig_qty : Option String
  pub executed_qty : Option String
  pub cum_quote_qty : Option String
  pub price : Option String
  pub stop_price : Option String
  pub update_time : Option ℕ
  pub transact_time : Option ℕ
  pub working_time : Option ℕ
  -- everything but `fills`
  pub fields : List (String × String)

pub record RawTrade : Type 0 where
  pub trade_id : String
  pub order_id : String
  pub symbol : String
  pub is_buyer : Bool
  pub qty : String
  pub price : String
  pub quote_qty : Option String
  pub commission : Option String
  pub commission_asset : Option String
  pub time : ℕ
  pub is_maker : Option Bool

-- An element of `fills`
pub record RawFill : Type 0 where
  pub trade_id : String
  pub qty : String
  pub price : String
  pub commission : Option String
  pub commission_asset : Option String

pub record RawBalance : Type 0 where
  pub asset : String
  pub free : String
  pub locked : String

-- An `executionReport`; a trade id that is missing or negative is `none`.
pub record Execution : Type 0 where
  pub symbol : String
  pub client_order_id : String
  pub orig_client_order_id : Option String
  pub order_id : String
  pub side : Option String
  pub order_type : Option String
  pub status : String
  pub exec_type : Option String
  pub orig_qty : Option String
  pub cum_qty : Option String
  pub cum_quote : Option String
  pub price : Option String
  pub stop_price : Option String
  pub transaction_time : Option ℕ
  pub event_time : Option ℕ
  pub reject_reason : Option String
  pub trade_id : Option ℕ
  pub last_qty : Option String
  pub last_price : Option String
  pub last_quote : Option String
  pub commission : Option String
  pub commission_asset : Option String
  pub is_maker : Option Bool
  pub execution_id : Option String
  pub fields : List (String × String)

pub data StreamPayload : Type 0 where
  execution_report : Execution → StreamPayload
  -- last update, event time, balances
  account_position : Option ℕ → Option ℕ → List RawBalance → StreamPayload
  stream_terminated : Option ℕ → StreamPayload
  other : String → Option ℕ → StreamPayload

abbrev pub orig_id : Option String → String → String
orig_id orig current = if truthy orig then option_or orig current else current

module _ (to_decimal : String → Result Decimal) (symbols : List (String × String)) where
  -- `_d`
  unfoldable pub number : Option String → Result Decimal
  number none = ok zero_dec
  number (some s) = if str_eq s "" then ok zero_dec else to_decimal s

  abbrev pub number_unless : Bool → Option String → Result (Option Decimal)
  number_unless true s = ok none
  number_unless false s = bind_result (number s) (λ d. ok (some d))

  unfoldable pub rest_order_report : RawOrder → Result ExchangeOrderReport
  rest_order_report raw = bind_result (map_status raw.status) λ status.
      bind_result (number raw.orig_qty) λ orig. bind_result (number raw.executed_qty) λ executed.
        bind_result (number raw.cum_quote_qty) λ quote.
          bind_result (number_unless (not (truthy raw.price)) raw.price) λ price.
            bind_result (number_unless (is_zero_price raw.stop_price) raw.stop_price) λ stop.
              ok (record {
                client_order_id =
                    if str_eq raw.status "CANCELED"
                    then orig_id raw.orig_client_order_id raw.client_order_id
                    else raw.client_order_id;
                symbol = to_internal symbols raw.symbol;
                side = option_or raw.side "";
                order_type = option_or raw.order_type "";
                status = status;
                orig_qty = orig;
                executed_qty = executed;
                cum_quote_qty = quote;
                exchange_order_id = raw.order_id;
                price = price;
                stop_price = stop;
                update_time_ms =
                    or_number raw.update_time (or_number raw.transact_time raw.working_time);
                reject_reason = none;
                raw = raw.fields;
              })

  -- The `fills` of an order placement, with the order's fields
  unfoldable pub rest_response_fills :
      String → RawOrder → String → List RawFill → Result (List ExchangeFill)
  rest_response_fills account raw order_id [] = ok []
  rest_response_fills account raw order_id (f ∷ fs) = bind_result (number (some f.qty)) λ qty.
      bind_result (number (some f.price)) λ price. bind_result (number f.commission) λ commission.
        bind_result (rest_response_fills account raw order_id fs) λ rest. ok (
          record {
            exchange_trade_id = f.trade_id;
            exchange_order_id = some order_id;
            client_order_id = some raw.client_order_id;
            symbol = to_internal symbols raw.symbol;
            side = option_or raw.side "";
            quantity = qty;
            price = price;
            quote_quantity = qty *ᵈ price;
            commission = commission;
            commission_asset = f.commission_asset;
            execution_time_ms = option_or raw.transact_time 0;
            event_key = fill_event_key account raw.symbol order_id f.trade_id;
            is_maker = none;
          }
          ∷ rest)

  unfoldable pub rest_trade_fill : String → Option String → RawTrade → Result ExchangeFill
  rest_trade_fill account coid raw = bind_result (number (some raw.qty)) λ qty.
      bind_result (number (some raw.price)) λ price. bind_result (number raw.quote_qty) λ quote.
        bind_result (number raw.commission) λ commission. ok (record {
          exchange_trade_id = raw.trade_id;
          exchange_order_id = some raw.order_id;
          client_order_id = coid;
          symbol = to_internal symbols raw.symbol;
          side = if raw.is_buyer then "BUY" else "SELL";
          quantity = qty;
          price = price;
          quote_quantity = quote;
          commission = commission;
          commission_asset = raw.commission_asset;
          execution_time_ms = raw.time;
          event_key = fill_event_key account raw.symbol raw.order_id raw.trade_id;
          is_maker = raw.is_maker;
        })

  unfoldable pub balances_of : List RawBalance → Result (List (String × Balance))
  balances_of [] = ok []
  balances_of (b ∷ bs) = bind_result (number (some b.free)) λ free.
      bind_result (number (some b.locked)) λ locked.
        bind_result (balances_of bs)
          λ rest. ok ((b.asset, record { free = free; locked = locked }) ∷ rest)

  -- `int(raw_account.get("updateTime") or as_of_ms)`
  unfoldable pub rest_balances : List RawBalance → Option ℕ → ℕ → Result BalanceSnapshot
  rest_balances balances update_time as_of_ms = bind_result (balances_of balances) λ bs.
      ok (record { balances = bs; as_of_ms = option_or (or_number update_time none) as_of_ms })

  unfoldable pub execution_order : Execution → Result ExchangeOrderReport
  execution_order e = bind_result (map_status e.status) λ status.
      bind_result (number e.orig_qty) λ orig. bind_result (number e.cum_qty) λ executed.
        bind_result (number e.cum_quote) λ quote.
          bind_result (number_unless (not (truthy e.price)) e.price) λ price.
            bind_result (number_unless (is_zero_price e.stop_price) e.stop_price) λ stop.
              ok (record {
                client_order_id = orig_id e.orig_client_order_id e.client_order_id;
                symbol = to_internal symbols e.symbol;
                side = option_or e.side "";
                order_type = option_or e.order_type "";
                status = status;
                orig_qty = orig;
                executed_qty = executed;
                cum_quote_qty = quote;
                exchange_order_id = some e.order_id;
                price = price;
                stop_price = stop;
                update_time_ms = or_number e.transaction_time e.event_time;
                reject_reason =
                    if opt_str_eq e.reject_reason (some "NONE") then none else e.reject_reason;
                raw = e.fields;
              })

  abbrev pub quote_or : Option String → Decimal → Result Decimal
  quote_or none product = ok product
  quote_or (some s) product = number (some s)

  unfoldable pub execution_trade : String → Execution → ℕ → Result (Option ExchangeFill)
  execution_trade account e trade = bind_result (number e.last_qty) λ qty.
      bind_result (number e.last_price) λ price.
        bind_result (quote_or e.last_quote (qty *ᵈ price)) λ quote.
          bind_result (number e.commission) λ commission.
            bind_result (int_of (or_number e.transaction_time e.event_time)) λ time. ok (
              some (record {
                exchange_trade_id = show trade;
                exchange_order_id = some e.order_id;
                client_order_id = some (orig_id e.orig_client_order_id e.client_order_id);
                symbol = to_internal symbols e.symbol;
                side = option_or e.side "";
                quantity = qty;
                price = price;
                quote_quantity = quote;
                commission = commission;
                commission_asset = e.commission_asset;
                execution_time_ms = time;
                event_key = fill_event_key account e.symbol e.order_id (show trade);
                is_maker = e.is_maker;
              }))

  unfoldable pub execution_fill : String → Execution → Option ℕ → Result (Option ExchangeFill)
  execution_fill account e none = ok none
  execution_fill account e (some trade) =
      if opt_str_eq e.exec_type (some "TRADE") then execution_trade account e trade else ok none

  unfoldable pub stream_event : String → StreamPayload → Result NormalizedStreamEvent
  stream_event account (execution_report e) = bind_result (execution_order e) λ report.
      bind_result (execution_fill account e e.trade_id) λ fill. ok (record {
        kind = EventKind.order report fill;
        event_key =
            order_event_key account e.symbol e.order_id
              (option_or e.execution_id (show_option e.event_time)) (option_or e.exec_type "");
        event_type = "executionReport";
      })
  stream_event account (account_position update_time event_time balances) =
      bind_result (balances_of balances) λ bs.
        bind_result (int_of (or_number update_time event_time)) λ time. ok (record {
          kind = EventKind.balance (record { balances = bs; as_of_ms = time });
          event_key =
              "binance:"
              <> account
              <> ":account:"
              <> show_option update_time
              <> ":"
              <> show_option event_time;
          event_type = "outboundAccountPosition";
        })
  stream_event account (stream_terminated event_time) = ok (record {
    kind = EventKind.terminated;
    event_key = "binance:" <> account <> ":terminated:" <> show_option event_time;
    event_type = "eventStreamTerminated";
  })
  stream_event account (other etype event_time) = ok (record {
    kind = EventKind.ignored;
    event_key = "binance:" <> account <> ":" <> etype <> ":" <> show_option event_time;
    event_type = etype;
  })
