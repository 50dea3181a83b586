-- ===== src/Engine/Trading/Decisions.antt =====
-- engine/application/trading_cycle.py: what a cycle reads from outside, what it may answer, and the
-- tests that it makes; engine/market_data/fetcher.py: `MarketSnapshot`.
use cryptoaibot.Common.{
  String, ℕ, Bool, true, false, not, ◌&&◌, Option, none, some, List, [], ◌∷◌, ◌++◌, map, ltb,
  select, str_eq, if◌then◌else◌,
}
use cryptoaibot.Exec.{Error, Result}
use cryptoaibot.Decimal.{Decimal, lt_dec, le_dec}
use cryptoaibot.Domain.Enums.{OrderPurpose, ReconciliationStatus, OrderStatus, is_protective}
use cryptoaibot.Domain.Order.{Order}
use cryptoaibot.Domain.Rules.{SymbolRules}
use cryptoaibot.Store.Tables.{Database}
use cryptoaibot.Store.Orders.{non_terminal_orders}
use cryptoaibot.Positions.Service.{open_position_count}
use cryptoaibot.Engine.Config.{Config}
use cryptoaibot.Engine.Executor.{Executor}
use cryptoaibot.Engine.Validation.{Settings}
use cryptoaibot.Engine.Risk.{RiskManager, Refusal, entry_checks}

-- What the control plane answers to `get_control`.
pub record Control : Type 0 where
  pub enabled : Bool
  pub emergency_stop : Bool
  pub reconciliation_ack_token : Option String

pub record Signal : Type 0 where
  pub action : String
  -- the text of the score
  pub score : String
  pub reasons : List String

-- The candles themselves go to the strategy only; a closing time and a low of the last two.
pub record MarketSnapshot : Type 0 where
  pub valid : Bool
  pub reason : String
  pub candle_ts : String
  pub mark_price : Decimal
  pub signal_price : Decimal
  pub recent_candles : List (ℕ × Decimal)

-- The answers of the control plane, the market and the strategy in one cycle, each of them asked once
-- at most; the key of a reconciliation run.
pub record Inputs : Type 0 where
  pub control : Result Control
  pub snapshot : Result MarketSnapshot
  pub signal : Result Signal
  pub run_key : String

-- Python's texts of a time.
pub record Calendar : Type 0 where
  pub isoformat : ℕ → String
  pub isodate : ℕ → String
  -- strftime('%Y%m%d%H')
  pub hour : ℕ → String

-- What `TradingCycle.__init__` is given, beside the configuration of the services.
pub record TradingCycle : Type 0 where
  pub executor : Executor
  pub risk : RiskManager
  pub calendar : Calendar
  pub settings : Settings
  pub global_trading_enabled : Bool
  pub protective_stop_limit_offset_pct : Decimal
  pub strategy_name : String
  pub strategy_version : String

-- Why an entry is blocked.
pub data Blocked : Type 0 where
  bot_paused emergency_stop_engaged trading_disabled balances_unavailable : Blocked
  not_reconciled : ReconciliationStatus → Blocked
  risk_limit : Refusal → Blocked
  exits_suspended : Blocked

-- `action_taken`, a text in the code.
pub data Taken : Type 0 where
  nothing halted hold : Taken
  control_plane_unavailable : Taken
  invalid_configuration : Error → Taken
  blocked_by_reconciliation : ReconciliationStatus → String → Taken
  market_data_invalid : String → Taken
  waiting : ℕ → Taken
  stop_cancel_unconfirmed : Taken
  dust : Decimal → Taken
  attempts_exhausted : OrderPurpose → Taken
  sold : OrderPurpose → Decimal → Taken
  described : String → Taken
  below_stop_minimums : Taken
  stop_placed : OrderStatus → Taken
  blocked : List Blocked → Taken
  not_sized : Option Refusal → Taken
  already_attempted : Taken

pub record CycleResult : Type 0 where
  pub timestamp : ℕ
  pub action_taken : Taken
  pub signal : Option Signal
  pub price : Option Decimal
  pub equity : Option Decimal
  pub reconciliation : Option ReconciliationStatus
  pub control : Option Control
  pub blocked_reasons : List Blocked

-- What the balances gave: equity, the free quote balance and the daily halt; or the halt alone.
pub data Funds : Type 0 where
  known : Decimal → Decimal → Bool → Funds
  unknown : Bool → Funds

abbrev pub daily_halted : Funds → Bool
daily_halted (known e q h) = h
daily_halted (unknown h) = h

abbrev pub is_known : Funds → Bool
is_known (known e q h) = true
is_known (unknown h) = false

abbrev pub equity_of : Funds → Option Decimal
equity_of (known e q h) = some e
equity_of (unknown h) = none

-- `min(lows) if lows else None`
abbrev lowest_of : Option Decimal → Decimal → Option Decimal
lowest_of none low = some low
lowest_of (some m) low = some (if lt_dec low m then low else m)

unfoldable pub lowest : Option Decimal → List (ℕ × Decimal) → Option Decimal
lowest m [] = m
lowest m ((t, low) ∷ rest) = lowest (lowest_of m low) rest

abbrev closed_since : Option ℕ → ℕ × Decimal → Bool
closed_since none c = true
closed_since (some opened) (t, low) = ltb opened t

-- `MarketSnapshot.stop_check_low`
unfoldable pub stop_check_low : MarketSnapshot → Option ℕ → Option Decimal
unfolding lowest
stop_check_low snap opened_at = lowest none (select (closed_since opened_at) snap.recent_candles)

-- The stop price, where the low has reached it.
unfoldable pub triggered : Option Decimal → Option Decimal → Option Decimal
triggered (some stop) (some low) = if le_dec low stop then some stop else none
triggered _ _ = none

abbrev pub flag : Bool → Blocked → List Blocked
flag true b = b ∷ []
flag false b = []

-- What the control plane, the configuration and the reconciliation state say of entries.
unfoldable pub may_enter : TradingCycle → Control → Bool → Bool
may_enter s c entries_ok =
    c.enabled && (not c.emergency_stop && (s.global_trading_enabled && entries_ok))

-- The reasons that block an entry, in the code's order.
module _ (cfg : Config) (s : TradingCycle) where
  abbrev rules_of : SymbolRules → String → Option SymbolRules
  rules_of rules symbol = if str_eq symbol cfg.symbol then some rules else none

  unfoldable pub entry_blocks :
      Control → Bool → ReconciliationStatus → Funds → SymbolRules → Database → List Blocked
  entry_blocks c entries_ok status f rules d =
      flag (not c.enabled) bot_paused
      ++ (flag c.emergency_stop emergency_stop_engaged
          ++ (flag (not s.global_trading_enabled) trading_disabled
              ++ (flag (not entries_ok) (not_reconciled status)
                  ++ (flag (not (is_known f)) balances_unavailable
                      ++ map risk_limit (
                          entry_checks cfg.bot_instance_id s.risk.max_open_positions
                            (open_position_count cfg.bot_instance_id (rules_of rules) d) d)))))

abbrev pub is_protective_stop : Order → Bool
is_protective_stop o = is_protective o.purpose

-- The orders of the symbol that are not terminal: the resting stops, and the others.
module _ (bot symbol : String) where
  unfoldable pub resting_stops : Database → List Order
  resting_stops d = select is_protective_stop (non_terminal_orders bot (some symbol) d)

  unfoldable pub in_flight : Database → List Order
  in_flight d = select (λ o. not (is_protective_stop o)) (non_terminal_orders bot (some symbol) d)
