-- ===== src/Domain/Events.antt =====
-- engine/domain/events.py: what comes back from an exchange, after normalization. Times are
-- milliseconds; `raw` is the payload's text fields.
use cryptoaibot.Common.{String, ℕ, Bool, Option, none, some, List, [], ◌∷◌, str_eq, if◌then◌else◌}
use cryptoaibot.Decimal.{Decimal, zero_dec, ◌+ᵈ◌, ◌/ᵈ◌, lt_dec}
use cryptoaibot.Domain.Enums.{OrderStatus, SubmitOutcomeKind}

pub record ExchangeOrderReport : Type 0 where
  pub client_order_id : String
  pub symbol : String
  pub side : String
  pub order_type : String
  pub status : OrderStatus
  pub orig_qty : Decimal
  pub executed_qty : Decimal
  pub cum_quote_qty : Decimal
  pub exchange_order_id : Option String
  pub price : Option Decimal
  pub stop_price : Option Decimal
  pub update_time_ms : Option ℕ
  pub reject_reason : Option String
  pub raw : List (String × String)

unfoldable pub average_price : ExchangeOrderReport → Option Decimal
unfolding lt_dec
average_price r =
    if lt_dec zero_dec r.executed_qty then some (r.cum_quote_qty /ᵈ r.executed_qty) else none

pub record ExchangeFill : Type 0 where
  pub exchange_trade_id : String
  pub exchange_order_id : Option String
  pub client_order_id : Option String
  pub symbol : String
  pub side : String
  pub quantity : Decimal
  pub price : Decimal
  pub quote_quantity : Decimal
  pub commission : Decimal
  pub commission_asset : Option String
  pub execution_time_ms : ℕ
  pub event_key : String
  pub is_maker : Option Bool

pub record Balance : Type 0 where
  pub free : Decimal
  pub locked : Decimal

pub record BalanceSnapshot : Type 0 where
  pub balances : List (String × Balance)
  pub as_of_ms : ℕ

unfoldable pub get_balance : String → List (String × Balance) → Option Balance
get_balance asset [] = none
get_balance asset ((a, b) ∷ rest) = if str_eq a asset then some b else get_balance asset rest

abbrev total_of : Option Balance → Decimal
total_of none = zero_dec
total_of (some b) = b.free +ᵈ b.locked

-- `BalanceSnapshot.total`: an asset that is not listed counts as zero.
unfoldable pub total : BalanceSnapshot → String → Decimal
unfolding get_balance
total s asset = total_of (get_balance asset s.balances)

pub record SubmitOutcome : Type 0 where
  pub kind : SubmitOutcomeKind
  pub report : Option ExchangeOrderReport
  pub fills : List ExchangeFill
  pub error : Option String
  pub error_code : Option String
