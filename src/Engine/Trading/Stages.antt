-- ===== src/Engine/Trading/Stages.antt =====
-- engine/application/trading_cycle.py: the parts of `run_once` behind the market data.
use cryptoaibot.Common.{
  String, ◌<>◌, ℕ, Bool, true, ◌&&◌, ◌||◌, Option, none, some, List, [], ◌∷◌, ◌++◌, option_or,
  str_eq, if◌then◌else◌,
}
use cryptoaibot.Exec.{external, pure, raise, gets, ◌>>=◌, ◌>>◌, try_except}
use cryptoaibot.Decimal.{Decimal, zero_dec, le_dec}
use cryptoaibot.Domain.Enums.{
  OrderPurpose, entry, exit, stop_exit, ReconciliationStatus, OrderStatus, filled, partially_filled,
  status_eq,
}
use cryptoaibot.Domain.Events.{Balance, total, get_balance}
use cryptoaibot.Domain.Order.{Order}
use cryptoaibot.Domain.Position.{Position, is_open}
use cryptoaibot.Domain.Rules.{SymbolRules, round_price}
use cryptoaibot.Store.Tables.{Action}
use cryptoaibot.Store.Positions.{get_position}
use cryptoaibot.Positions.Service.{set_stop, equity}
use cryptoaibot.Engine.Config.{Config, Platform}
use cryptoaibot.Engine.Executor.{request}
use cryptoaibot.Engine.Orders.Submit.{refresh, resolve_ambiguous}
use cryptoaibot.Engine.Risk.{Refusal, update_daily, is_daily_halted}
use cryptoaibot.Engine.Trading.{Decision, submit, describe}
use cryptoaibot.Engine.Trading.Decisions.{
  Control, Signal, MarketSnapshot, TradingCycle, Blocked, Taken, CycleResult, Funds, known, unknown,
  daily_halted, stop_check_low, triggered, entry_blocks,
}
use cryptoaibot.Engine.Trading.Exits.{exit_position, ensure_protective_stop, sale}

abbrev pub new_result : ℕ → CycleResult
new_result now = record {
  timestamp = now;
  action_taken = Taken.nothing;
  signal = none;
  price = none;
  equity = none;
  reconciliation = none;
  control = none;
  blocked_reasons = [];
}

abbrev free_of : Option Balance → Decimal
free_of none = zero_dec
free_of (some b) = b.free

abbrev is_bought : OrderStatus → Bool
is_bought s = status_eq s filled || status_eq s partially_filled

-- `"HALTED" if daily_halted and len(reasons) == 1 else "BLOCKED: ..."`
abbrev blocked_action : Bool → List Blocked → Taken
blocked_action true (r ∷ []) = Taken.halted
blocked_action _ rs = Taken.blocked rs

module _ (cfg : Config) (py : Platform) (s : TradingCycle) where
  abbrev bot : String
  bot = cfg.bot_instance_id

  abbrev get_held : Action Position
  get_held = gets (λ w. get_position cfg.bot_instance_id cfg.symbol w.db)

  -- The stop below an entry price, on a tick.
  unfoldable pub protect : SymbolRules → Position → Action Position
  protect rules p =
      set_stop cfg.bot_instance_id cfg.symbol
        (round_price rules (s.risk.stop_price p.average_entry_price))

  unfoldable pub with_stop : SymbolRules → Position → Option Decimal → Action Position
  with_stop rules p none = protect rules p
  with_stop rules p (some stop) = pure p

  unfoldable pub hold : Position → SymbolRules → CycleResult → Action CycleResult
  hold p rules res =
      if cfg.protective_stop_on_exchange
      then (do
        placed ← ensure_protective_stop cfg py s p rules
        pure (record res { action_taken = option_or placed Taken.hold }))
      else pure (record res { action_taken = Taken.hold })

  unfoldable pub leave_market :
      OrderPurpose → SymbolRules → Decimal → CycleResult → Action CycleResult
  leave_market purpose rules reference res = do
    action ← exit_position cfg py s purpose rules reference
    pure (record res { action_taken = action })

  -- A strategy exit, unless the emergency stop is engaged.
  unfoldable pub follow_signal :
      Control → Signal → MarketSnapshot → Position → SymbolRules → CycleResult → Action CycleResult
  follow_signal c sig snap p rules res =
      if str_eq sig.action "SELL"
      then (if c.emergency_stop
          then hold p rules
              (record res { blocked_reasons = res.blocked_reasons ++ Blocked.exits_suspended ∷ [] })
          else leave_market exit rules snap.signal_price res)
      else hold p rules res

  -- The stop loss comes before the signal.
  unfoldable pub on_stop :
      Control
      → Signal
      → MarketSnapshot
      → Position
      → SymbolRules
      → CycleResult
      → Option Decimal
      → Action CycleResult
  on_stop c sig snap p rules res (some stop) = leave_market stop_exit rules stop res
  on_stop c sig snap p rules res none = follow_signal c sig snap p rules res

  unfoldable pub manage_open :
      Control → Signal → MarketSnapshot → SymbolRules → CycleResult → Position → Action CycleResult
  manage_open c sig snap rules res p =
      on_stop c sig snap p rules res (triggered p.stop_price (stop_check_low snap p.opened_at))

  -- After a buy: the stop, and where the exchange keeps it, its order.
  unfoldable pub after_buy : Order → SymbolRules → Action (Unit {0})
  after_buy o rules = do
    p ← get_held
    if is_bought o.status && is_open (some rules) p
        then (do
          held ← protect rules p
          if cfg.protective_stop_on_exchange && status_eq o.status filled
              then (do ensure_protective_stop cfg py s held rules; pure tt)
              else pure tt)
        else pure tt

  unfoldable pub entered : SymbolRules → CycleResult → Option Order → Action CycleResult
  entered rules res none = pure (record res { action_taken = Taken.already_attempted })
  entered rules res (some o) = do
    after_buy o rules
    pure (record res { action_taken = Taken.described (describe o "BUY") })

  -- A purchase at the market.
  abbrev pub purchase : Decimal → Decimal → String → Decision
  purchase qty reference signal_id = record (sale cfg py s entry qty reference) {
    side = "BUY";
    signal_id = some signal_id;
  }

  unfoldable pub place_entry :
      MarketSnapshot
      → SymbolRules
      → String
      → CycleResult
      → Decimal × Option Refusal
      → Action CycleResult
  place_entry snap rules signal_id res (qty, why) =
      if le_dec qty zero_dec then pure (record res { action_taken = Taken.not_sized why }) else (do
        placed ←
            submit s.executor cfg py (purchase qty snap.signal_price signal_id) rules
              (cfg.bot_instance_id <> ":" <> cfg.symbol <> ":" <> snap.candle_ts <> ":ENTRY")
        entered rules res placed)

  -- `float(None)` raises where there is no equity.
  unfoldable pub size_and_enter :
      MarketSnapshot → SymbolRules → String → CycleResult → Funds → Action CycleResult
  size_and_enter snap rules signal_id res (known equity free halted) =
      place_entry snap rules signal_id res
        (s.risk.size_entry equity snap.signal_price rules (some free))
  size_and_enter snap rules signal_id res (unknown halted) = raise (external "TypeError")

  unfoldable pub enter_unless :
      MarketSnapshot
      → SymbolRules
      → String
      → CycleResult
      → Funds
      → List Blocked
      → Action CycleResult
  enter_unless snap rules signal_id res f [] = size_and_enter snap rules signal_id res f
  enter_unless snap rules signal_id res f (r ∷ rs) = pure (record res {
    action_taken = blocked_action (daily_halted f) (r ∷ rs);
    blocked_reasons = r ∷ rs;
  })

  unfoldable pub enter :
      Control
      → Signal
      → MarketSnapshot
      → SymbolRules
      → String
      → Bool
      → ReconciliationStatus
      → Funds
      → CycleResult
      → Action CycleResult
  enter c sig snap rules signal_id entries_ok status f res =
      if str_eq sig.action "BUY"
      then (do
        reasons ← gets (λ w. entry_blocks cfg s c entries_ok status f rules w.db)
        enter_unless snap rules signal_id res f reasons)
      else pure
          (record res { action_taken = if daily_halted f then Taken.halted else Taken.nothing })

  -- An order in flight is refreshed, or resolved; what this raises is caught.
  unfoldable pub refresh_one : Order → Action (Unit {0})
  refresh_one o =
      try_except
        (if o.submission_ambiguous
          then (do resolve_ambiguous s.executor cfg o; pure tt)
          else (do refresh s.executor cfg o; pure tt))
        (λ e. pure tt)

  unfoldable pub read_funds : SymbolRules → Decimal → Action Funds
  read_funds rules price = do
    db ← gets (λ w. w.db)
    bal ← request (s.executor.balances db)
    worth ←
        gets (λ w. equity cfg.bot_instance_id cfg.symbol (total bal rules.quote_asset) price w.db)
    now ← gets (λ w. w.now)
    halted ← update_daily s.risk cfg.bot_instance_id worth (s.calendar.isodate now)
    pure (known worth (free_of (get_balance rules.quote_asset bal.balances)) halted)

  unfoldable pub get_funds : SymbolRules → Decimal → Action Funds
  get_funds rules price =
      try_except (read_funds rules price) (λ e. do
        halted ← gets (λ w. is_daily_halted cfg.bot_instance_id w.db)
        pure (unknown halted))
