-- ===== src/Engine/Process.antt =====
-- engine/execution/factory.py, engine/bootstrap.py (`health_snapshot`) and workers/trading_worker.py: what
-- the trading process is built of, and one turn of its loop. Heartbeats, signals and sleeping are not
-- modelled.
use cryptoaibot.Common.{
  String, ◌<>◌, ◌≡◌, ◌⊎◌, refl, sym, inl, inr, ℕ, Bool, true, false, not, ◌&&◌, Option, none,
  length, str_eq, if◌then◌else◌,
}
use cryptoaibot.Exec.{
  Error, Result, ok, err, ok-injective, runtime_error, pure, ◌>>=◌, ◌>>◌, try_except, recover, when,
  continue,
}
use cryptoaibot.Decimal.{Decimal}
use cryptoaibot.Domain.Enums.{ReconciliationStatus}
use cryptoaibot.Store.Tables.{World, Action, KvValue}
use cryptoaibot.Store.Kv.{kv_get}
use cryptoaibot.Store.Orders.{non_terminal_orders}
use cryptoaibot.Store.Outbox.{outbox_backlog}
use cryptoaibot.Store.Positions.{get_position}
use cryptoaibot.Store.Recon.{get_recon_state, open_mismatch_count}
use cryptoaibot.Engine.Config.{Config, Platform}
use cryptoaibot.Engine.Dispatch.{Outside, flush}
use cryptoaibot.Engine.Executor.{Executor}
use cryptoaibot.Engine.Validation.{Settings, is_live}
use cryptoaibot.Engine.Trading.Decisions.{TradingCycle, Inputs}
use cryptoaibot.Engine.Trading.Cycle.{run_once}

-- `build_executor`, of the simulated exchange and the real one
unfoldable pub build_executor : Settings → Executor → Executor → Result Executor
build_executor c paper binance =
    if str_eq c.trading_mode "PAPER"
    then ok paper
    else if is_live c && not c.live_trading_confirmed
    then err (runtime_error "Refusing to build a LIVE executor without LIVE_TRADING_CONFIRMED=true")
    else ok binance

chosen :
    (b u : Bool) (e : Error) (p q x : Executor)
    → (if b then ok p else if u then err e else ok q) ≡ ok x
    → ((b ≡ true) × (x ≡ p)) ⊎ ((b ≡ false) × (u ≡ false) × (x ≡ q))
chosen true u e p q x h = inl (refl, sym (ok-injective h))
chosen false true e p q x h = cc h
chosen false false e p q x h = inr (refl, refl, sym (ok-injective h))

-- The executor is the simulated one in PAPER mode and no other; in LIVE mode it is built only with
-- LIVE_TRADING_CONFIRMED.
pub build_executor_lem :
    (c : Settings) (paper binance x : Executor)
    → build_executor c paper binance ≡ ok x
    → ((str_eq c.trading_mode "PAPER" ≡ true) × (x ≡ paper))
      ⊎ ((str_eq c.trading_mode "PAPER" ≡ false)
          × ((is_live c && not c.live_trading_confirmed) ≡ false)
          × (x ≡ binance))
unfolding build_executor
build_executor_lem c paper binance x h =
    chosen (str_eq c.trading_mode "PAPER") (is_live c && not c.live_trading_confirmed) _ paper
      binance x h

pub record Health : Type 0 where
  pub worker : String
  pub mode : String
  pub symbol : String
  pub time : ℕ
  pub last_market_data_at : Option KvValue
  pub last_cycle_at : Option KvValue
  pub ws_connected : Bool
  pub last_ws_event_at : Option ℕ
  pub reconciliation_state : ReconciliationStatus
  pub reconciliation_reason : String
  pub last_reconciled_at : Option ℕ
  pub non_terminal_orders : ℕ
  pub open_mismatches : ℕ
  pub outbox_backlog : ℕ
  pub position_quantity : Decimal
  pub realized_pnl : Decimal

-- `health_snapshot`; its status and timeframe are constants
unfoldable pub health_snapshot : Config → Settings → String → World → Health
health_snapshot cfg c worker w =
    let st = get_recon_state cfg.bot_instance_id w.db in
    let p = get_position cfg.bot_instance_id cfg.symbol w.db in
    record {
      worker = worker;
      mode = c.trading_mode;
      symbol = cfg.symbol;
      time = w.now;
      last_market_data_at =
          kv_get ("health:" <> cfg.bot_instance_id <> ":last_market_data_at") w.db.kv;
      last_cycle_at = kv_get ("health:" <> cfg.bot_instance_id <> ":last_cycle_at") w.db.kv;
      ws_connected = st.ws_connected;
      last_ws_event_at = st.last_ws_event_at;
      reconciliation_state = st.status;
      reconciliation_reason = st.reason;
      last_reconciled_at = st.last_success_at;
      non_terminal_orders = length (non_terminal_orders cfg.bot_instance_id none w.db);
      open_mismatches = open_mismatch_count cfg.bot_instance_id w.db;
      outbox_backlog = outbox_backlog w.db;
      position_quantity = p.quantity;
      realized_pnl = p.realized_pnl;
    }

-- `try: ... except Exception: log`
abbrev pub survive : {A : Type 0} → Action A → Action (Unit {0})
survive m = try_except (m >> pure tt) (λ e. pure tt)

module _ (cfg : Config) (py : Platform) (out : Outside) (max_attempts : ℕ) (owner : String) where
  -- One turn of the loop: a cycle where it is due, and the delivery of messages.
  unfoldable pub turn : Bool → TradingCycle → Inputs → Action (Unit {0})
  turn due s given = do
    when due (survive (run_once cfg py s given))
    survive (flush out max_attempts owner 200)

  survive_lem : {A : Type 0} (m : Action A) (w : World) → survive m w ≡ (ok tt, (m w).1)
  unfolding try_except pure ◌>>=◌
  survive_lem m w = recovered (m w)
    where
      recovered :
          {A : Type 0} (p : Result A × World)
          → recover (λ e v. (ok tt, v)) (continue (λ a v. (ok tt, v)) p) ≡ (ok tt, p.1)
      recovered (ok a, v) = refl
      recovered (err e, v) = refl

  -- A turn of the trading worker ends without an exception whatever its cycle does, and delivers messages from
  -- what the cycle left, also where the cycle raised.
  pub turn_survives :
      (s : TradingCycle) (given : Inputs) (w : World)
      → turn true s given w
        ≡ (ok tt, (flush out max_attempts owner 200 (run_once cfg py s given w).1).1)
  unfolding turn when ◌>>=◌
  turn_survives s given w =
      rw (survive_lem (run_once cfg py s given) w)
        (survive_lem (flush out max_attempts owner 200) (run_once cfg py s given w).1)
