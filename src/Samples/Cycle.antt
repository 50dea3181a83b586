-- ===== src/Samples/Cycle.antt =====
-- Concrete cycles of the trading worker, a page of trades, and the reconciliation worker's steps.
use cryptoaibot.Common.{
  String, ◌<>◌, ◌≡◌, refl, ℕ, ◌+◌, ◌*◌, ◌≤◌, ◌<◌, ◌⊎◌, ◌↔◌, Bool, true, false, Option, none, some,
  is_some, List, [], ◌∷◌, take, select, leb, ltb, arith, length, str_eq, if◌then◌else◌,
}
use cryptoaibot.Exec.{external, Result, ok, err}
use cryptoaibot.Decimal.{Decimal, dec, zero_dec, ◌+ᵈ◌, ◌-ᵈ◌, ◌*ᵈ◌, ◌/ᵈ◌, lt_dec, le_dec}
use cryptoaibot.Domain.Enums.{ReconciliationStatus, healthy, degraded, halted}
use cryptoaibot.Domain.Recon.{ReconciliationState, allows_entries, allows_exits}
use cryptoaibot.Domain.Rules.{is_tradeable}
use cryptoaibot.Store.Tables.{World, fresh, empty_database, KvValue, DailyRisk}
use cryptoaibot.Store.Kv.{kv_get}
use cryptoaibot.Store.Recon.{get_recon_state, never_reconciled}
use cryptoaibot.Engine.Executor.{Executor}
use cryptoaibot.Engine.Risk.{
  Floats, RiskConfig, RiskManager, Refusal, risk_manager, update_daily, is_daily_halted, size_entry,
  risk_key,
}
use cryptoaibot.Engine.Risk.Limits.{update_daily-halted, size_entry-tradeable}
use cryptoaibot.Engine.Validation.{Settings, validate_runtime, validate_live}
use cryptoaibot.Engine.Trading.Decisions.{
  Control, Signal, MarketSnapshot, Inputs, Calendar, TradingCycle,
}
use cryptoaibot.Engine.Trading.Cycle.{run_once}
use cryptoaibot.Engine.Trading.Policy.{
  orders_with, entries, signalled, paused_cycle-entries, emergency_cycle-signalled,
  uncontrolled_cycle-orders, unreconciled_cycle-entries, untrusted_cycle-orders,
}
use cryptoaibot.Samples.{cfg, py, rules, unreachable}

-- Decimals in the place of floats.
abbrev pub floats : Floats
floats = record {
  carrier = Decimal;
  of_decimal = λ d. d;
  to_decimal = λ d. d;
  literal = λ n. dec n 0;
  plus = λ a b. a +ᵈ b;
  minus = λ a b. a -ᵈ b;
  times = λ a b. a *ᵈ b;
  over = λ a b. a /ᵈ b;
  round = λ a k. a;
  lt = lt_dec;
  le = le_dec;
}

abbrev pub risk_config : RiskConfig floats
risk_config = record {
  risk_per_trade_pct = dec 1 0;
  stop_loss_pct = dec 2 0;
  daily_loss_limit_pct = dec 5 0;
  max_open_positions = 1;
}

-- A LIVE configuration that may run.
abbrev pub live : Settings
live = record {
  trading_mode = "LIVE";
  strategy_mode = "v1";
  model_file_exists = false;
  model_digest_is_hex = false;
  live_trading_confirmed = true;
  protective_stop_mode = "exchange";
  is_production_socket = true;
  api_key = "key";
  api_secret = "secret";
  control_plane_token = "0123456789abcdef0123456789abcdef";
}

-- An exchange that answers with the rules and an empty account.
abbrev answering : Executor
answering = record unreachable {
  symbol_rules = λ symbol now d. (ok rules, d);
  balances = λ db now d. (ok (record { balances = []; as_of_ms = 0 }), d);
}

abbrev trader : TradingCycle
trader = record {
  executor = answering;
  risk = risk_manager floats risk_config;
  calendar = record { isoformat = λ t. "t"; isodate = λ t. "d"; hour = λ t. "h" };
  settings = live;
  global_trading_enabled = true;
  protective_stop_limit_offset_pct = dec 5 1;
  strategy_name = "v1";
  strategy_version = "1";
}

abbrev paused : Control
paused = record { enabled = false; emergency_stop = false; reconciliation_ack_token = none }

abbrev stopped : Control
stopped = record { enabled = true; emergency_stop = true; reconciliation_ack_token = none }

abbrev pub running : Control
running = record { enabled = true; emergency_stop = false; reconciliation_ack_token = none }

-- A buy at 5, under a control state.
abbrev buying : Result Control → Inputs
buying control = record {
  control = control;
  snapshot = ok (record {
    valid = true;
    reason = "ok";
    candle_ts = "c1";
    mark_price = dec 5 0;
    signal_price = dec 5 0;
    recent_candles = (0, dec 4 0) ∷ [];
  });
  signal = ok (record { action = "BUY"; score = "2.5"; reasons = [] });
  run_key = "r1";
}

abbrev state_with : ReconciliationStatus → ReconciliationState
state_with status = record (never_reconciled "bot") { status = status; updated_at = some 0 }

-- A ledger whose reconciliation state was just written.
abbrev pub ledger_with : ReconciliationStatus → World
ledger_with status = record (fresh 0) {
  db = record empty_database { reconciliation_state = state_with status ∷ [] };
}

paused_cycle-entries_example :
    orders_with entries
      (run_once cfg py trader (buying (ok paused)) (ledger_with healthy)).1.db.orders
    ≡ []
unfolding orders_with cryptoaibot.Engine.Trading.Decisions.may_enter
paused_cycle-entries_example =
    paused_cycle-entries cfg py trader (buying (ok paused)) (ledger_with healthy) paused refl refl

emergency_cycle-signalled_example :
    orders_with signalled
      (run_once cfg py trader (buying (ok stopped)) (ledger_with healthy)).1.db.orders
    ≡ []
unfolding orders_with
emergency_cycle-signalled_example =
    emergency_cycle-signalled cfg py trader (buying (ok stopped)) (ledger_with healthy) stopped refl
      refl

uncontrolled_cycle-orders_example :
    (run_once cfg py trader (buying (err (external "timeout"))) (ledger_with healthy)).1.db.orders
    ≡ []
uncontrolled_cycle-orders_example =
    uncontrolled_cycle-orders cfg py trader (buying (err (external "timeout")))
      (ledger_with healthy) (λ c h. cc h)

unreconciled_cycle-entries_example :
    orders_with entries
      (run_once cfg py trader (buying (ok running)) (ledger_with degraded)).1.db.orders
    ≡ []
unfolding orders_with allows_entries get_recon_state cryptoaibot.Common.find
unreconciled_cycle-entries_example =
    unreconciled_cycle-entries cfg py trader (buying (ok running)) (ledger_with degraded) refl refl

untrusted_cycle-orders_example :
    (run_once cfg py trader (buying (ok running)) (ledger_with halted)).1.db.orders ≡ []
unfolding allows_exits get_recon_state cryptoaibot.Common.find
untrusted_cycle-orders_example =
    untrusted_cycle-orders cfg py trader (buying (ok running)) (ledger_with halted) refl refl

validate_live_example :
    (live.live_trading_confirmed ≡ true)
    × (str_eq live.protective_stop_mode "exchange" ≡ true)
    × (str_eq live.api_key "" ≡ false)
    × (str_eq live.api_secret "" ≡ false)
    × (str_eq live.control_plane_token "CHANGE_THIS_LONG_RANDOM_SECRET" ≡ false)
    × (32 ≤ cryptoaibot.Engine.Ids.len live.control_plane_token)
unfolding validate_runtime cryptoaibot.Engine.Validation.refusals cryptoaibot.Engine.Ids.len
validate_live_example = validate_live live refl refl

-- A day that has been halted.
abbrev halted_day : DailyRisk
halted_day = record { date = "d"; day_start_equity = dec 100 0; halted = true }

abbrev after_loss : World
after_loss = record (fresh 0) {
  db = record empty_database { kv = (risk_key "bot", KvValue.daily_risk halted_day) ∷ [] };
}

update_daily-halted_example :
    ((update_daily (risk_manager floats risk_config) "bot" (dec 200 0) "d" after_loss).0 ≡ ok true)
    × (is_daily_halted "bot"
          (update_daily (risk_manager floats risk_config) "bot" (dec 200 0) "d" after_loss).1.db
        ≡ true)
unfolding cryptoaibot.Engine.Risk.get_day kv_get
update_daily-halted_example =
    update_daily-halted floats risk_config "bot" "d" (dec 200 0) halted_day after_loss refl refl
      refl

-- 1 % of 1000 at risk, with a stop 2 % below 5.
abbrev sized : Decimal × Option Refusal
sized = size_entry floats risk_config (dec 1000 0) (dec 5 0) rules (some (dec 300 0))

size_entry-tradeable_example :
    ((sized.1 ≡ none) × (is_tradeable rules sized.0 (dec 5 0) ≡ true))
    ⊎ ((sized.0 ≡ zero_dec) × (is_some sized.1 ≡ true))
size_entry-tradeable_example =
    size_entry-tradeable floats risk_config (dec 1000 0) (dec 5 0) rules (some (dec 300 0)) sized.0
      sized.1 refl
