-- ===== src/Engine/Risk.antt =====
-- risk_manager.py, engine/risk/manager.py and engine/risk/rules.py. The sizes and limits are computed
-- in Python's binary floating point, which is a parameter: a type with the operations that the code
-- uses, the conversion from a Decimal and `Decimal(str(f))`.
use cryptoaibot.Common.{
  String, ◌<>◌, ℕ, Bool, true, false, not, ◌||◌, ◌&&◌, Option, none, some, List, [], ◌∷◌, ◌++◌, ltb,
  str_eq, if◌then◌else◌,
}
use cryptoaibot.Exec.{pure, gets, ◌>>=◌, ◌>>◌}
use cryptoaibot.Decimal.{Decimal, zero_dec, ◌/ᵈ◌, lt_dec, min_dec}
use cryptoaibot.Domain.Rules.{SymbolRules, round_qty, is_tradeable}
use cryptoaibot.Store.Tables.{Action, Database, DailyRisk, KvValue}
use cryptoaibot.Store.Kv.{kv_get, kv_set}
pub mod Limits

pub record Floats : Type 1 where
  pub carrier : Type 0
  pub of_decimal : Decimal → carrier
  pub to_decimal : carrier → Decimal
  pub literal : ℕ → carrier
  pub plus : carrier → carrier → carrier
  pub minus : carrier → carrier → carrier
  pub times : carrier → carrier → carrier
  pub over : carrier → carrier → carrier
  -- `round(x, digits)`
  pub round : carrier → ℕ → carrier
  pub lt : carrier → carrier → Bool
  pub le : carrier → carrier → Bool

pub record RiskConfig (F : Floats) : Type 0 where
  pub risk_per_trade_pct : F.carrier
  pub stop_loss_pct : F.carrier
  pub daily_loss_limit_pct : F.carrier
  pub max_open_positions : ℕ

pub record RiskState (F : Floats) : Type 0 where
  pub equity : F.carrier
  pub day_start_equity : F.carrier
  pub halted : Bool

-- Why an entry is refused; the code formats the numbers into the text.
pub data Refusal : Type 0 where
  too_many_positions : ℕ → ℕ → Refusal
  daily_loss_limit : Refusal
  below_minimums : Decimal → Decimal → Refusal

abbrev pub failures : List (Bool × Refusal) → List Refusal
failures [] = []
failures ((true, r) ∷ rs) = failures rs
failures ((false, r) ∷ rs) = r ∷ failures rs

unfoldable pub max_open_positions : ℕ → ℕ → Bool × Refusal
max_open_positions count limit = (ltb count limit, too_many_positions count limit)

unfoldable pub not_daily_halted : Bool → Bool × Refusal
not_daily_halted halted = (not halted, daily_loss_limit)

unfoldable pub min_notional : SymbolRules → Decimal → Decimal → Bool × Refusal
min_notional rules qty price = (is_tradeable rules qty price, below_minimums qty price)

-- `risk:{BOT_INSTANCE_ID}`
abbrev pub risk_key : String → String
risk_key bot = "risk:" <> bot

abbrev pub stored_day : Option KvValue → Option DailyRisk
stored_day (some (KvValue.daily_risk d)) = some d
stored_day _ = none

unfoldable pub get_day : String → Database → Option DailyRisk
get_day bot d = stored_day (kv_get (risk_key bot) d.kv)

abbrev pub halted_of : Option DailyRisk → Bool
halted_of none = false
halted_of (some d) = d.halted

unfoldable pub is_daily_halted : String → Database → Bool
is_daily_halted bot d = halted_of (get_day bot d)

-- `RiskManager.entry_checks`
unfoldable pub entry_checks : String → ℕ → ℕ → Database → List Refusal
entry_checks bot limit open_positions d =
    failures
      (max_open_positions open_positions limit ∷ not_daily_halted (is_daily_halted bot d) ∷ [])

-- What the trading cycle asks of the risk manager, beside the day that is stored.
pub record RiskManager : Type 0 where
  -- of the stored day, the date and the equity
  pub next_day : Option DailyRisk → String → Decimal → DailyRisk
  -- of the equity, the price, the rules and the free quote balance
  pub size_entry : Decimal → Decimal → SymbolRules → Option Decimal → Decimal × Option Refusal
  pub stop_price : Decimal → Decimal
  pub max_open_positions : ℕ

-- `RiskManager.update_daily`
unfoldable pub update_daily : RiskManager → String → Decimal → String → Action Bool
update_daily rm bot equity today = do
  stored ← gets (λ w. get_day bot w.db)
  let day = rm.next_day stored today equity
  kv_set (risk_key bot) (KvValue.daily_risk day)
  pure day.halted

module _ (F : Floats) where
  abbrev zero_float : F.carrier
  zero_float = F.literal 0

  -- A percentage as a fraction.
  abbrev percent : F.carrier → F.carrier
  percent p = F.over p (F.literal 100)

  abbrev min_float : F.carrier → F.carrier → F.carrier
  min_float a b = if F.lt b a then b else a

  abbrev max_float : F.carrier → F.carrier → F.carrier
  max_float a b = if F.lt a b then b else a

  unfoldable pub position_size : F.carrier → F.carrier → F.carrier → F.carrier → F.carrier
  position_size equity price risk_pct stop_pct =
      if F.le equity zero_float
        || F.le price zero_float
        || F.le risk_pct zero_float
        || F.le stop_pct zero_float
      then zero_float
      else let risk_amount = F.times equity (percent risk_pct) in
        let position_value = min_float (F.over risk_amount (percent stop_pct)) equity in
        max_float zero_float (F.over position_value price)

  unfoldable pub stop_loss_price : F.carrier → String → F.carrier → F.carrier
  stop_loss_price entry_price side stop_pct =
      if str_eq side "long"
      then F.times entry_price (F.minus (F.literal 1) (percent stop_pct))
      else F.times entry_price (F.plus (F.literal 1) (percent stop_pct))

  -- `check_daily_loss_limit`: the state that it leaves, whose `halted` it returns.
  unfoldable pub check_daily_loss_limit : RiskState F → F.carrier → RiskState F
  check_daily_loss_limit state limit_pct =
      let drawdown_pct =
        F.times (F.over (F.minus state.day_start_equity state.equity) state.day_start_equity)
          (F.literal 100) in
      if F.le state.day_start_equity zero_float
      then state
      else if F.le limit_pct drawdown_pct
      then record state { halted = true }
      else state

  unfoldable pub reset_day : RiskState F → RiskState F
  reset_day state = record state { day_start_equity = state.equity; halted = false }

  abbrev new_day : String → Decimal → DailyRisk
  new_day today equity = record { date = today; day_start_equity = equity; halted = false }

  -- The stored day, or a new one if the date is another.
  unfoldable pub day_for : Option DailyRisk → String → Decimal → DailyRisk
  day_for none today equity = new_day today equity
  day_for (some d) today equity = if str_eq d.date today then d else new_day today equity

  module _ (rc : RiskConfig F) where
    unfoldable pub checked_day : DailyRisk → Decimal → DailyRisk
    checked_day d equity = record d {
      halted =
          (check_daily_loss_limit
            (record {
              equity = F.of_decimal equity;
              day_start_equity = F.of_decimal d.day_start_equity;
              halted = d.halted;
            })
            rc.daily_loss_limit_pct).halted;
    }

    abbrev pub next_day : Option DailyRisk → String → Decimal → DailyRisk
    next_day stored today equity = checked_day (day_for stored today equity) equity

    -- `min(qty, quote_free / price)` where the free quote balance is known
    abbrev spendable : Decimal → Option Decimal → Decimal → Decimal
    spendable qty none price = qty
    spendable qty (some free) price =
        if lt_dec zero_dec price then min_dec qty (free /ᵈ price) else qty

    abbrev sized : Decimal → Bool × Refusal → Decimal × Option Refusal
    sized qty (true, why) = (qty, none)
    sized qty (false, why) = (zero_dec, some why)

    unfoldable pub size_entry :
        Decimal → Decimal → SymbolRules → Option Decimal → Decimal × Option Refusal
    size_entry equity price rules quote_free =
        let wanted = F.to_decimal (
          position_size (F.of_decimal equity) (F.of_decimal price) rc.risk_per_trade_pct
            rc.stop_loss_pct) in
        let qty = round_qty rules (spendable wanted quote_free price) in
        sized qty (min_notional rules qty price)

    -- `RiskManager.stop_price`
    unfoldable pub stop_price : Decimal → Decimal
    stop_price entry_price =
        F.to_decimal (stop_loss_price (F.of_decimal entry_price) "long" rc.stop_loss_pct)

    -- `RiskManager(store, cfg)`
    abbrev pub risk_manager : RiskManager
    risk_manager = record {
      next_day = next_day;
      size_entry = size_entry;
      stop_price = stop_price;
      max_open_positions = rc.max_open_positions;
    }
