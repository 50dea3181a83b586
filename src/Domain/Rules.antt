-- ===== src/Domain/Rules.antt =====
-- engine/domain/models.py: SymbolRules, `floor_to_step`, client order ids.
use cryptoaibot.Common.{String, Bool, false, ◌||◌, if◌then◌else◌}
use cryptoaibot.Decimal.{Decimal, zero_dec, ◌*ᵈ◌, ◌/ᵈ◌, lt_dec, le_dec, truncate}

pub record SymbolRules : Type 0 where
  pub symbol : String
  pub exchange_symbol : String
  pub base_asset : String
  pub quote_asset : String
  pub step_size : Decimal
  pub min_qty : Decimal
  pub tick_size : Decimal
  pub min_notional : Decimal

unfoldable pub floor_to_step : Decimal → Decimal → Decimal
floor_to_step value step = if le_dec step zero_dec then value else truncate (value /ᵈ step) *ᵈ step

unfoldable pub round_qty : SymbolRules → Decimal → Decimal
unfolding floor_to_step
round_qty r qty = floor_to_step qty r.step_size

unfoldable pub round_price : SymbolRules → Decimal → Decimal
unfolding floor_to_step
round_price r price = floor_to_step price r.tick_size

unfoldable pub is_tradeable : SymbolRules → Decimal → Decimal → Bool
is_tradeable r qty price =
    if le_dec qty zero_dec || lt_dec qty r.min_qty
    then false
    else le_dec r.min_notional (qty *ᵈ price)
