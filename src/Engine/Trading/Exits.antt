-- ===== src/Engine/Trading/Exits.antt =====
-- engine/application/trading_cycle.py: `_exit`, `_ensure_protective_stop`.
use cryptoaibot.Common.{
  String, ◌<>◌, ℕ, Bool, true, false, Option, none, some, List, [], ◌∷◌, if◌then◌else◌,
}
use cryptoaibot.Exec.{attribute_error, pure, raise, gets, ◌>>=◌}
use cryptoaibot.Decimal.{Decimal, dec, ◌-ᵈ◌, ◌*ᵈ◌, ◌/ᵈ◌}
use cryptoaibot.Domain.Enums.{
  OrderPurpose, stop_exit, protective_stop, filled, is_terminal, status_eq, purpose_value,
}
use cryptoaibot.Domain.Order.{Order}
use cryptoaibot.Domain.Position.{Position}
use cryptoaibot.Domain.Rules.{SymbolRules, round_qty, round_price, is_tradeable}
use cryptoaibot.Store.Tables.{Action}
use cryptoaibot.Store.Positions.{get_position}
use cryptoaibot.Engine.Config.{Config, Platform}
use cryptoaibot.Engine.Orders.Submit.{cancel}
use cryptoaibot.Engine.Trading.{Decision, submit, describe}
use cryptoaibot.Engine.Trading.Decisions.{TradingCycle, Taken, resting_stops}

-- `"STOP LOSS HIT" if purpose == OrderPurpose.STOP_EXIT else "SELL"`
abbrev exit_label : OrderPurpose → String
exit_label stop_exit = "STOP LOSS HIT"
exit_label _ = "SELL"

-- What became of the exit's order: its purpose and the change of the realized profit.
unfoldable pub closed : OrderPurpose → Option Order → Decimal → Taken
closed purpose none pnl = Taken.attempts_exhausted purpose
closed purpose (some o) pnl =
    if status_eq o.status filled
    then Taken.sold purpose pnl
    else Taken.described (describe o (exit_label purpose))

-- `o.is_terminal` of what `cancel` returned
abbrev pub confirm : Option Order → Action Bool
confirm none = raise (attribute_error "NoneType")
confirm (some o) = pure (is_terminal o.status)

abbrev pub opened_text : (ℕ → String) → Option ℕ → String
opened_text isoformat none = "na"
opened_text isoformat (some t) = isoformat t

abbrev pub stop_answer : Option Order → Option Taken
stop_answer none = none
stop_answer (some o) = some (Taken.stop_placed o.status)

module _ (cfg : Config) (py : Platform) (s : TradingCycle) where
  -- The base of the intent ids that close a position, or protect it.
  abbrev pub exit_base : Position → OrderPurpose → String
  exit_base p purpose =
      cfg.bot_instance_id
      <> ":"
      <> cfg.symbol
      <> ":"
      <> opened_text s.calendar.isoformat p.opened_at
      <> ":"
      <> purpose_value purpose

  -- A sale at the market.
  abbrev pub sale : OrderPurpose → Decimal → Decimal → Decision
  sale purpose qty reference = record {
    purpose = purpose;
    side = "SELL";
    quantity = qty;
    reference_price = reference;
    signal_id = none;
    order_type = "MARKET";
    limit_price = none;
    stop_price = none;
    strategy_name = s.strategy_name;
    strategy_version = s.strategy_version;
  }

  -- Every resting stop is canceled first; False where one is not confirmed.
  unfoldable pub cancel_stops : List Order → Action Bool
  cancel_stops [] = pure true
  cancel_stops (o ∷ os) = do
    answer ← cancel s.executor cfg o
    gone ← confirm answer
    if gone then cancel_stops os else pure false

  unfoldable pub close_position : OrderPurpose → SymbolRules → Decimal → Action Taken
  close_position purpose rules reference = do
    p ← gets (λ w. get_position cfg.bot_instance_id cfg.symbol w.db)
    let qty = round_qty rules p.quantity
    if is_tradeable rules qty reference
        then (do
          placed ← submit s.executor cfg py (sale purpose qty reference) rules (exit_base p purpose)
          now_held ← gets (λ w. get_position cfg.bot_instance_id cfg.symbol w.db)
          pure (closed purpose placed (now_held.realized_pnl -ᵈ p.realized_pnl)))
        else pure (Taken.dust p.quantity)

  -- `_exit`
  unfoldable pub exit_position : OrderPurpose → SymbolRules → Decimal → Action Taken
  exit_position purpose rules reference = do
    stops ← gets (λ w. resting_stops cfg.bot_instance_id cfg.symbol w.db)
    clear ← cancel_stops stops
    if clear then close_position purpose rules reference else pure Taken.stop_cancel_unconfirmed

  -- The limit below the stop, `stop * (1 - offset / 100)`, on a tick.
  abbrev pub stop_limit : SymbolRules → Decimal → Decimal
  stop_limit rules stop =
      round_price rules (stop *ᵈ (dec 1 0 -ᵈ s.protective_stop_limit_offset_pct /ᵈ dec 100 0))

  unfoldable pub place_stop : Position → SymbolRules → Decimal → Action (Option Taken)
  place_stop p rules stop =
      let qty = round_qty rules p.quantity in
      let limit = stop_limit rules stop in
      if is_tradeable rules qty limit
      then (do
        placed ←
            submit s.executor cfg py
              (record (sale protective_stop qty stop) {
                order_type = "STOP_LOSS_LIMIT";
                limit_price = some limit;
                stop_price = some stop;
              })
              rules (exit_base p protective_stop)
        pure (stop_answer placed))
      else pure (some Taken.below_stop_minimums)

  unfoldable pub stop_unless :
      List Order → Position → SymbolRules → Option Decimal → Action (Option Taken)
  stop_unless [] p rules (some stop) = place_stop p rules stop
  stop_unless _ p rules _ = pure none

  -- `_ensure_protective_stop`
  unfoldable pub ensure_protective_stop : Position → SymbolRules → Action (Option Taken)
  ensure_protective_stop p rules = do
    live ← gets (λ w. resting_stops cfg.bot_instance_id cfg.symbol w.db)
    stop_unless live p rules p.stop_price
