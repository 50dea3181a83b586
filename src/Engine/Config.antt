-- ===== src/Engine/Config.antt =====
-- config.py, as far as the modelled services read it, and what Python's standard library provides
-- to them as functions: SHA-256, the Unicode class of letters and digits, and the name
-- of an exception's type.
use Prim.Native.Char.{Char}
use cryptoaibot.Common.{String, ℕ, Bool}
use cryptoaibot.Decimal.{Decimal}
use cryptoaibot.Exec.{Error}

pub record Config : Type 0 where
  pub bot_instance_id : String
  pub symbol : String
  pub client_order_id_prefix : String
  pub ambiguous_order_grace_seconds : ℕ
  pub recon_state_max_age_seconds : ℕ
  pub recent_fills_lookback_hours : ℕ
  -- PROTECTIVE_STOP_MODE == "exchange"
  pub protective_stop_on_exchange : Bool
  pub starting_paper_balance : Decimal
  pub paper_fee_rate : Decimal

pub record Platform : Type 0 where
  pub sha256_hex : String → String
  pub is_alnum : Char → Bool
  -- `type(exc).__name__`
  pub type_name : Error → String
