-- ===== src/Samples/Outside.antt =====
-- Concrete answers from outside: pages of trades, the control plane, candles, a dropped stream.
use cryptoaibot.Common.{
  String, ◌≡◌, refl, ℕ, ◌+◌, ◌*◌, ◌≤◌, ◌<◌, ◌↔◌, Bool, true, false, Option, none, some, List, [],
  ◌∷◌, ◌++◌, any, show, take, select, leb, ltb, arith, if◌then◌else◌,
}
use cryptoaibot.Exec.{external, runtime_error, control_plane_unavailable, ok, err}
use cryptoaibot.Decimal.{dec, zero_dec}
use cryptoaibot.Domain.Enums.{healthy, is_healthy}
use cryptoaibot.Store.Tables.{World, fresh}
use cryptoaibot.Store.Recon.{get_recon_state, save_recon_state}
use cryptoaibot.Engine.Executor.{Desk}
use cryptoaibot.Engine.Binance.{
  Binance, RestClient, TradeQuery, by_order, since, from_id, recent_rows,
}
use cryptoaibot.Engine.Binance.Pages.{trades_from, recent_rows_complete}
use cryptoaibot.Engine.ControlPlane.{HttpAnswer, answered, Body, get_control, get_control_lem}
use cryptoaibot.Engine.Dispatch.{Outside, flush}
use cryptoaibot.Engine.Dispatch.Progress.{flush_returns}
use cryptoaibot.Engine.MarketData.{Candle, MarketConfig, snapshot, snapshot-LastClosed}
use cryptoaibot.Engine.Normalizer.{RawTrade}
use cryptoaibot.Engine.System.{Operation, perform_all}
use cryptoaibot.Engine.System.Creation.{only_submissions_create}
use cryptoaibot.Engine.Trading.Policy.{orders_with}
use cryptoaibot.Engine.Worker.{Worker, Step, Steps, on_disconnected}
use cryptoaibot.Engine.Worker.Trust.{never_healthy_offline, touch_restores}
use cryptoaibot.Samples.{cfg, py, unreachable, with_order, message}
use cryptoaibot.Samples.Cycle.{ledger_with, running}

-- A trade; its id is a text of so many characters.
abbrev trade : String → RawTrade
trade id = record {
  trade_id = id;
  order_id = "9";
  symbol = "BTCUSDT";
  is_buyer = true;
  qty = "1";
  price = "5";
  quote_qty = none;
  commission = none;
  commission_asset = none;
  time = 0;
  is_maker = none;
}

abbrev number_of : String → ℕ
number_of id =
    if cryptoaibot.Common.str_eq id "a"
    then 3
    else if cryptoaibot.Common.str_eq id "b"
    then 5
    else 8

abbrev book : List RawTrade
book = trade "a" ∷ trade "b" ∷ trade "c" ∷ []

abbrev served : TradeQuery → ℕ → List RawTrade
served (from_id k) limit = take limit (select (λ t. leb k (number_of t.trade_id)) book)
served (since ms) limit = take limit (select (λ t. leb 4 (number_of t.trade_id)) book)
served (by_order xid) limit = []

abbrev client : RestClient
client = record {
  new_order = λ p now d. (err (external "timeout"), d);
  order_by_client_id = λ s c now d. (err (external "timeout"), d);
  order_by_id = λ s c now d. (err (external "timeout"), d);
  cancel_order = λ s c now d. (err (external "timeout"), d);
  open_orders = λ s now d. (ok [], d);
  my_trades = λ s q limit now d. (ok (served q limit), record d { requests = d.requests + 1 });
  account = λ now d. (ok ([], none), d);
  exchange_info = λ s now d. (err (external "timeout"), d);
  server_time_ms = λ now d. (ok 0, d);
}

abbrev binance : Binance
binance = record {
  rest = client;
  account_label = "main";
  symbols = ("BTCUSDT", "BTC/USDT") ∷ [];
  to_decimal = λ s. ok zero_dec;
  trade_number = number_of;
  is_definitive = λ e. false;
  error_code = λ e. none;
  type_name = λ e. "Error";
}

abbrev desk : Desk
desk = record { kv = []; requests = 0 }

-- Two trades since the time, one to a page, and at most three pages.
recent_rows_complete_example : (recent_rows binance "BTC/USDT" 7 1 2 0 desk).0 ≡ (
    if ltb 2 (1 + 1 * 2)
    then ok (trades_from binance 4 book)
    else err (runtime_error "recent_fills exceeded the pages; widen reconciliation cadence"))
unfolding select cryptoaibot.Engine.Normalizer.to_exchange cryptoaibot.Engine.Ids.filter_chars
recent_rows_complete_example =
    recent_rows_complete binance "BTCUSDT" 1 book (λ d. record d { requests = d.requests + 1 })
      (omega arith, (omega arith, (omega arith, tt))) (λ k now d. refl) "BTC/USDT" 7 4 2 0 desk refl
      (omega arith) refl

only_submissions_create_example :
    orders_with
      (λ p. true)
      (perform_all cfg py
        (Operation.reconcile unreachable "r1" "periodic" false ∷ Operation.wait 5 ∷ [])
        with_order).db.orders
    ≡ orders_with (λ p. true) with_order.db.orders
only_submissions_create_example =
    only_submissions_create (λ p. true) cfg py
      (Operation.reconcile unreachable "r1" "periodic" false ∷ Operation.wait 5 ∷ []) with_order
      refl

-- A dispatcher with one message that the control plane does not take.
abbrev pub failing : Outside
failing = record {
  has_notifier = false;
  deliver = λ row n. (err (control_plane_unavailable "timeout"), 5);
}

abbrev one_message : World
one_message = record (fresh 0) {
  db = record cryptoaibot.Store.Tables.empty_database { outbox = message ∷ [] };
}

flush_returns_example :
    (n : ℕ) × ((flush failing 50 "a" 200 one_message).0 ≡ ok n)
    × (n ≤ 200)
    × ((flush failing 50 "a" 200 one_message).1.requests ≤ 0 + 200)
flush_returns_example = flush_returns failing 50 "a" 200 one_message

abbrev reply : HttpAnswer
reply = answered 200 "" (
    some (record {
      enabled = some true;
      emergency_stop = some false;
      reconciliation_ack_token = none;
    }))

get_control_lem_example :
    (code : ℕ) × (text : String) × (body : Body) × (reply ≡ answered code text (some body))
    × (code < 400)
    × (body.enabled ≡ some true)
    × (body.emergency_stop ≡ some false)
    × (body.reconciliation_ack_token ≡ none)
unfolding get_control cryptoaibot.Engine.ControlPlane.send
    cryptoaibot.Engine.ControlPlane.is_permanent
get_control_lem_example = get_control_lem reply running refl

abbrev candle : ℕ → Candle
candle t = record { open_time = t; low = dec 4 0; close = dec 5 0 }

abbrev candles : List Candle
candles = candle 0 ∷ candle 10 ∷ candle 20 ∷ candle 30 ∷ candle 40 ∷ []

abbrev at_time : ℕ → String
at_time t = show t

-- Candles of ten units, of which the last is forming.
abbrev hourly : MarketConfig
hourly = record { timeframe = 10; age_limit = 20; ema_slow = 0; signal_on_closed_candles = true }

snapshot-LastClosed_example :
    (c : Candle) × ((before : List Candle) × (after : List Candle) × (candles ≡ before ++ c ∷ after)
      × (c.open_time + 10 ≤ 45)
      × (any (λ (d : Candle). leb (d.open_time + 10) 45) after ≡ false))
    × ((snapshot hourly at_time 45 (λ e. "Error") (ok (some candles))).signal_price ≡ c.close)
    × ((snapshot hourly at_time 45 (λ e. "Error") (ok (some candles))).candle_ts
        ≡ at_time c.open_time)
    × ((snapshot hourly at_time 45 (λ e. "Error") (ok (some candles))).mark_price ≡ dec 5 0)
    × (45 ≤ c.open_time + 10 + 20)
unfolding snapshot cryptoaibot.Engine.MarketData.judge cryptoaibot.Engine.MarketData.usable
    cryptoaibot.Engine.MarketData.is_stale
snapshot-LastClosed_example =
    snapshot-LastClosed hourly at_time 45 (λ e. "Error") candles (candle 40) refl
      (omega arith, (omega arith, (omega arith, (omega arith, tt)))) refl (omega arith) refl

-- A worker that starts, touches the state, and whose stream drops.
abbrev starting : Worker
starting = record {
  connected = false;
  running = none;
  unchecked = none;
  touching = none;
  world = fresh 0;
}

abbrev reading : Worker
reading = record starting { touching = some (fresh 0) }

abbrev touched : Worker
touched = record starting {
  world = (save_recon_state (get_recon_state "bot" (fresh 0).db) (fresh 0)).1;
}

abbrev dropped : Worker
dropped = record touched { world = (on_disconnected "bot" "closed" touched.world).1 }

abbrev steps : Steps unreachable cfg py starting dropped
steps =
    Steps.then_step starting touched dropped
      (Steps.then_step starting reading touched
        (Steps.then_step starting starting reading (Steps.stay starting)
          (Step.touch_read starting refl))
        (Step.touch_saved reading (fresh 0) refl))
      (Step.connection_lost touched "closed")

never_healthy_offline_example : is_healthy (get_recon_state "bot" dropped.world.db).status ≡ false
unfolding get_recon_state cryptoaibot.Common.find
never_healthy_offline_example =
    never_healthy_offline unreachable cfg py starting dropped steps (((tt, tt), refl), tt) refl refl
      refl refl

-- A worker that is connected and HEALTHY.
abbrev well : Worker
well = record starting { connected = true; world = ledger_with healthy }

is_well : is_healthy (get_recon_state "bot" (ledger_with healthy).db).status ≡ true
unfolding get_recon_state cryptoaibot.Common.find
is_well = refl

touch_restores_example :
    (t : Worker) × Steps unreachable cfg py well t
    × (t.connected ≡ false)
    × (t.unchecked ≡ none)
    × (is_healthy (get_recon_state "bot" t.world.db).status ≡ true)
touch_restores_example = touch_restores unreachable cfg py well "closed" is_well refl refl
