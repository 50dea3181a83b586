-- ===== src/Domain/Enums.antt =====
-- engine/domain/enums.py. Each enumeration is a `str`: the value is what reaches the database and
-- the messages.
use cryptoaibot.Common.{String, ℕ, ◌≡◌, ◌↔◌, Bool, true, false, arith, ◌==◌}

pub data TradingMode : Type 0 where
  paper testnet live : TradingMode

pub data OrderPurpose : Type 0 where
  entry exit stop_exit protective_stop : OrderPurpose

pub data OrderStatus : Type 0 where
  intent_created submitting new partially_filled filled canceled rejected expired : OrderStatus

pub data ReconciliationStatus : Type 0 where
  connecting reconciling healthy degraded halted : ReconciliationStatus

pub data MismatchSeverity : Type 0 where
  info warning critical : MismatchSeverity

pub data SubmitOutcomeKind : Type 0 where
  acknowledged rejected ambiguous : SubmitOutcomeKind

abbrev pub status_value : OrderStatus → String
status_value intent_created = "INTENT_CREATED"
status_value submitting = "SUBMITTING"
status_value new = "NEW"
status_value partially_filled = "PARTIALLY_FILLED"
status_value filled = "FILLED"
status_value canceled = "CANCELED"
status_value rejected = "REJECTED"
status_value expired = "EXPIRED"

abbrev pub purpose_value : OrderPurpose → String
purpose_value entry = "ENTRY"
purpose_value exit = "EXIT"
purpose_value stop_exit = "STOP_EXIT"
purpose_value protective_stop = "PROTECTIVE_STOP"

-- `OrderStatus.is_terminal`: membership in TERMINAL_STATUSES.
abbrev pub is_terminal : OrderStatus → Bool
is_terminal filled = true
is_terminal canceled = true
is_terminal rejected = true
is_terminal expired = true
is_terminal _ = false

abbrev ordinal : OrderStatus → ℕ
ordinal intent_created = 0
ordinal submitting = 1
ordinal new = 2
ordinal partially_filled = 3
ordinal filled = 4
ordinal canceled = 5
ordinal rejected = 6
ordinal expired = 7

-- `==` of two members.
unfoldable pub status_eq : OrderStatus → OrderStatus → Bool
status_eq a b = ordinal a == ordinal b

pub status_eq_iff : (a b : OrderStatus) → (status_eq a b ≡ true) ↔ (a ≡ b)
unfolding status_eq
status_eq_iff a b = ground arith

abbrev pub is_healthy : ReconciliationStatus → Bool
is_healthy healthy = true
is_healthy _ = false

abbrev pub is_degraded : ReconciliationStatus → Bool
is_degraded degraded = true
is_degraded _ = false

abbrev pub is_halted : ReconciliationStatus → Bool
is_halted halted = true
is_halted _ = false

abbrev pub is_protective : OrderPurpose → Bool
is_protective protective_stop = true
is_protective _ = false

abbrev pub is_critical : MismatchSeverity → Bool
is_critical critical = true
is_critical _ = false
