-- ===== src/Engine/Trading/Cycle.antt =====
-- engine/application/trading_cycle.py: `run_once`. Archiving the headlines is left out: it writes
-- `news_snapshots` alone, and what it raises is caught. So are the logger and the correlation id.
use cryptoaibot.Common.{
  String, ◌<>◌, Bool, false, some, List, [], ◌∷◌, length, str_eq, if◌then◌else◌,
}
use cryptoaibot.Exec.{Result, ok, err, message, pure, lift, gets, ◌>>=◌, ◌>>◌, for_each}
use cryptoaibot.Domain.Enums.{ReconciliationStatus, warning}
use cryptoaibot.Domain.Order.{Order}
use cryptoaibot.Domain.Position.{is_open}
use cryptoaibot.Domain.Recon.{ReconciliationState, allows_exits, allows_entries}
use cryptoaibot.Domain.Rules.{SymbolRules}
use cryptoaibot.Store.Tables.{Action, Kind, Payload, KvValue}
use cryptoaibot.Store.Kv.{kv_set}
use cryptoaibot.Store.Outbox.{enqueue}
use cryptoaibot.Store.Positions.{get_position}
use cryptoaibot.Positions.Service.{mark}
use cryptoaibot.Engine.Config.{Config, Platform}
use cryptoaibot.Engine.Executor.{request}
use cryptoaibot.Engine.Ids.{take_chars}
use cryptoaibot.Engine.Messages.{enqueue_event}
use cryptoaibot.Engine.Trading.{reconciliation_gate}
use cryptoaibot.Engine.Trading.Decisions.{
  Control, Signal, MarketSnapshot, Inputs, TradingCycle, Taken, CycleResult, Funds, equity_of,
  in_flight,
}
use cryptoaibot.Engine.Trading.Stages.{
  new_result, with_stop, manage_open, enter, refresh_one, get_funds,
}
use cryptoaibot.Engine.Validation.{validate_runtime}

module _ (cfg : Config) (py : Platform) (s : TradingCycle) (given : Inputs) where
  abbrev live_orders : Action (List Order)
  live_orders = gets (λ w. in_flight cfg.bot_instance_id cfg.symbol w.db)

  abbrev is_paper : Bool
  is_paper = str_eq s.settings.trading_mode "PAPER"

  -- `signal:{bot}:{symbol}:{candle_ts}:{action}:{score}`
  abbrev signal_key : MarketSnapshot → Signal → String
  signal_key snap sig =
      "signal:" <> cfg.bot_instance_id <> ":" <> cfg.symbol <> ":" <> snap.candle_ts <> ":"
      <> sig.action <> ":" <> sig.score

  unfoldable pub announce : MarketSnapshot → Signal → Action (Unit {0})
  announce snap sig = do
    now ← gets (λ w. w.now)
    enqueue Kind.signals (signal_key snap sig) (
        Payload.signal (record {
          client_signal_id = signal_key snap sig;
          symbol = cfg.symbol;
          action = sig.action;
          score = sig.score;
          price = snap.signal_price;
          reasons = sig.reasons;
          candle_open_time = snap.candle_ts;
          strategy_name = s.strategy_name;
          strategy_version = s.strategy_version;
          occurred_at = now;
          mode = s.settings.trading_mode;
        }))
    pure tt

  module _ (c : Control) (entries_ok : Bool) (status : ReconciliationStatus) where
    -- Nothing is in flight: an open position is managed, a flat one may be entered.
    unfoldable pub decide :
        MarketSnapshot → Signal → SymbolRules → Funds → CycleResult → Action CycleResult
    decide snap sig rules f res = do
      p ← gets (λ w. get_position cfg.bot_instance_id cfg.symbol w.db)
      if is_open (some rules) p
          then (do
            held ← with_stop cfg py s rules p p.stop_price
            manage_open cfg py s c sig snap rules res held)
          else enter cfg py s c sig snap rules (signal_key snap sig) entries_ok status f res

    unfoldable pub decide_unless :
        MarketSnapshot
        → Signal
        → SymbolRules
        → Funds
        → CycleResult
        → List Order
        → Action CycleResult
    decide_unless snap sig rules f res [] = decide snap sig rules f res
    decide_unless snap sig rules f res (o ∷ os) =
        pure (record res { action_taken = Taken.waiting (length (o ∷ os)) })

    unfoldable pub trade : MarketSnapshot → CycleResult → Action CycleResult
    trade snap res = do
      now ← gets (λ w. w.now)
      kv_set ("health:" <> cfg.bot_instance_id <> ":last_market_data_at") (KvValue.timestamp now)
      rules ← request (s.executor.symbol_rules cfg.symbol)
      mark cfg.bot_instance_id cfg.symbol snap.mark_price
      f ← get_funds cfg py s rules snap.mark_price
      sig ← lift given.signal
      announce snap sig
      flying ← live_orders
      for_each (refresh_one cfg py s) flying
      still ← live_orders
      decide_unless snap sig rules f
          (record res { price = some snap.mark_price; equity = equity_of f; signal = some sig })
          still

    unfoldable pub with_market : CycleResult → Action CycleResult
    with_market res = do
      snap ← lift given.snapshot
      if snap.valid
          then trade snap res
          else pure (record res { action_taken = Taken.market_data_invalid snap.reason })

  -- What the reconciliation state allows.
  unfoldable pub gated : Control → CycleResult → ReconciliationState → Action CycleResult
  gated c res st = do
    now ← gets (λ w. w.now)
    let seen = record res { reconciliation = some st.status }
    if allows_exits st now cfg.recon_state_max_age_seconds
        then with_market c (allows_entries st now cfg.recon_state_max_age_seconds) st.status seen
        else pure
            (record seen { action_taken = Taken.blocked_by_reconciliation st.status st.reason })

  unfoldable pub configured : Control → CycleResult → Result (Unit {0}) → Action CycleResult
  configured c res (err e) = pure (record res { action_taken = Taken.invalid_configuration e })
  configured c res (ok u) = do
    st ← reconciliation_gate s.executor cfg py is_paper given.run_key c.reconciliation_ack_token
    gated c res st

  unfoldable pub controlled : CycleResult → Result Control → Action CycleResult
  controlled res (err e) = do
    now ← gets (λ w. w.now)
    enqueue_event cfg.bot_instance_id "CONTROL_PLANE_UNAVAILABLE" (take_chars 200 (message e))
        warning ("cp_down:" <> cfg.bot_instance_id <> ":" <> s.calendar.hour now) false
    pure (record res { action_taken = Taken.control_plane_unavailable })
  controlled res (ok c) =
      configured c (record res { control = some c }) (validate_runtime s.settings)

  unfoldable pub run_once : Action CycleResult
  run_once = do
    now ← gets (λ w. w.now)
    kv_set ("health:" <> cfg.bot_instance_id <> ":last_cycle_at") (KvValue.timestamp now)
    controlled (new_result now) given.control
