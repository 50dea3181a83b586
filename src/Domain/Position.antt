-- ===== src/Domain/Position.antt =====
-- engine/domain/models.py: `Fill` and `Position`.
use cryptoaibot.Common.{String, ℕ, Bool, ◌&&◌, Option, none, some, List, [], if◌then◌else◌}
use cryptoaibot.Decimal.{Decimal, dec, zero_dec, ◌-ᵈ◌, ◌*ᵈ◌, lt_dec, le_dec, max_dec}
use cryptoaibot.Domain.Rules.{SymbolRules}

pub record Fill : Type 0 where
  pub order_id : ℕ
  pub client_order_id : String
  pub symbol : String
  pub side : String
  pub quantity : Decimal
  pub price : Decimal
  pub quote_quantity : Decimal
  pub commission : Decimal
  pub commission_asset : Option String
  pub execution_time : ℕ
  pub event_key : String
  pub exchange_trade_id : Option String
  pub id : ℕ

pub record Position : Type 0 where
  pub bot_instance_id : String
  pub symbol : String
  pub side : String
  pub quantity : Decimal
  pub average_entry_price : Decimal
  pub realized_pnl : Decimal
  pub unrealized_pnl : Decimal
  pub last_mark_price : Option Decimal
  pub stop_price : Option Decimal
  pub fees_other : List (String × Decimal)
  pub opened_at : Option ℕ
  pub updated_at : Option ℕ

-- `Position(bot_instance_id=..., symbol=...)`
abbrev pub flat_position : String → String → Position
flat_position bot symbol = record {
  bot_instance_id = bot;
  symbol = symbol;
  side = "LONG";
  quantity = zero_dec;
  average_entry_price = zero_dec;
  realized_pnl = zero_dec;
  unrealized_pnl = zero_dec;
  last_mark_price = none;
  stop_price = none;
  fees_other = [];
  opened_at = none;
  updated_at = none;
}

-- `Decimal("1e-12")`
abbrev pub epsilon : Decimal
epsilon = dec 1 12

unfoldable pub is_open : Option SymbolRules → Position → Bool
is_open none p = lt_dec epsilon p.quantity
is_open (some r) p = lt_dec zero_dec p.quantity && le_dec (max_dec r.min_qty r.step_size) p.quantity

unfoldable pub mark : Decimal → Position → Position
mark price p = record p {
  last_mark_price = some price;
  unrealized_pnl =
      if lt_dec zero_dec p.quantity
      then (price -ᵈ p.average_entry_price) *ᵈ p.quantity
      else zero_dec;
}
