-- ===== src/Engine/Keeps/Cycle.antt =====
-- engine/application/trading_cycle.py: `run_once` under an invariant.
use cryptoaibot.Common.{◌≡◌, refl, Bool, true, false, List, [], ◌∷◌}
use cryptoaibot.Exec.{Result, ok, err}
use cryptoaibot.Domain.Enums.{entry, exit, stop_exit, protective_stop, ReconciliationStatus}
use cryptoaibot.Domain.Order.{Order}
use cryptoaibot.Domain.Recon.{ReconciliationState, allows_entries}
use cryptoaibot.Domain.Rules.{SymbolRules}
use cryptoaibot.Engine.Config.{Config, Platform}
use cryptoaibot.Engine.Keeps.Rules.{Invariant, Keeps, Keeps-bind, Keeps-gets, Keeps-if, Keeps-pure}
use cryptoaibot.Engine.Keeps.Tables.{IsSafe, IsStable, Admits, kv_set-Keeps, table_rules}
use cryptoaibot.Engine.Trading.Stages.{new_result}
use cryptoaibot.Engine.Keeps.Services.{enqueue_event-Keeps}
use cryptoaibot.Engine.Keeps.Trading.{
  reconciliation_gate-Keeps, mark-Keeps, with_stop-Keeps, get_funds-Keeps, refresh_one-Keeps,
  manage_open-Keeps, enter-Keeps,
}
use cryptoaibot.Engine.Trading.Decisions.{
  Control, Signal, MarketSnapshot, Inputs, TradingCycle, CycleResult, Funds, may_enter,
}
use cryptoaibot.Engine.Trading.Cycle.{
  announce, decide, decide_unless, trade, with_market, gated, configured, controlled, run_once,
}

module _ {Q : Invariant} (cfg : Config) (py : Platform) (s : TradingCycle) (given : Inputs) where
  announce-Keeps :
      (snap : MarketSnapshot) (sig : Signal) → Keeps Q (announce cfg py s given snap sig)
  unfolding announce
  announce-Keeps snap sig = search table_rules depth 12

module _ {Q : Invariant} (safe : IsSafe Q) (cfg : Config) (py : Platform) (s : TradingCycle)
    (given : Inputs) (protection : Admits Q protective_stop) (stop_loss : Admits Q stop_exit)
    (c : Control) (leaving : c.emergency_stop ≡ false → Admits Q exit) where
  module _ (entries_ok : Bool) (status : ReconciliationStatus)
      (entering : may_enter s c entries_ok ≡ true → Admits Q entry) where
    decide-Keeps :
        (snap : MarketSnapshot) (sig : Signal) (rules : SymbolRules) (f : Funds) (res : CycleResult)
        → Keeps Q (decide cfg py s given c entries_ok status snap sig rules f res)
    unfolding decide
    decide-Keeps snap sig rules f res = Keeps-bind _ _ (Keeps-gets _) (λ p.
        Keeps-if _ _ _
          (Keeps-bind _ _ (with_stop-Keeps safe cfg py s rules p p.stop_price) (λ held.
            manage_open-Keeps safe cfg py s protection c entries_ok status stop_loss leaving
              entering sig snap rules res held))
          (enter-Keeps safe cfg py s protection c entries_ok status stop_loss leaving entering sig
            snap rules _ f res))

    decide_unless-Keeps :
        (snap : MarketSnapshot) (sig : Signal) (rules : SymbolRules) (f : Funds) (res : CycleResult)
        (os : List Order)
        → Keeps Q (decide_unless cfg py s given c entries_ok status snap sig rules f res os)
    unfolding decide_unless
    decide_unless-Keeps snap sig rules f res [] = decide-Keeps snap sig rules f res
    decide_unless-Keeps snap sig rules f res (o ∷ os) = search table_rules

    trade-Keeps :
        (snap : MarketSnapshot) (res : CycleResult)
        → Keeps Q (trade cfg py s given c entries_ok status snap res)
    unfolding trade
    trade-Keeps snap res =
        search
          (
            table_rules, mark-Keeps, get_funds-Keeps, announce-Keeps, refresh_one-Keeps,
            decide_unless-Keeps,
          )
          depth 24

    pub with_market-Keeps :
        (res : CycleResult) → Keeps Q (with_market cfg py s given c entries_ok status res)
    unfolding with_market
    with_market-Keeps res = search (table_rules, trade-Keeps) depth 12

  pub gated-Keeps :
      (res : CycleResult) (st : ReconciliationState)
      → ((ok : Bool) → may_enter s c ok ≡ true → Admits Q entry)
      → Keeps Q (gated cfg py s given c res st)
  unfolding gated
  gated-Keeps res st entering = Keeps-bind _ _ (Keeps-gets _) (λ now.
      let entries_ok = allows_entries st now cfg.recon_state_max_age_seconds in
      Keeps-if _ _ _ (with_market-Keeps entries_ok st.status (entering entries_ok) _)
        (Keeps-pure _))

  pub configured-Keeps :
      (res : CycleResult) (v : Result (Unit {0}))
      → ((ok : Bool) → may_enter s c ok ≡ true → Admits Q entry)
      → Keeps Q (configured cfg py s given c res v)
  unfolding configured
  configured-Keeps res (err e) entering = search table_rules
  configured-Keeps res (ok u) entering =
      Keeps-bind _ _ (reconciliation_gate-Keeps safe cfg py s.executor _ _ _)
        (λ st. gated-Keeps res st entering)

module _ {Q : Invariant} (safe : IsSafe Q) (cfg : Config) (py : Platform) (s : TradingCycle)
    (given : Inputs) (protection : Admits Q protective_stop) (stop_loss : Admits Q stop_exit) where
  controlled-Keeps :
      (res : CycleResult) (answer : Result Control)
      → ((c : Control) → answer ≡ ok c → c.emergency_stop ≡ false → Admits Q exit)
      → ((c : Control) (healthy : Bool)
          → answer ≡ ok c
          → may_enter s c healthy ≡ true
          → Admits Q entry)
      → Keeps Q (controlled cfg py s given res answer)
  unfolding controlled
  controlled-Keeps res (err e) leaving entering = search (table_rules, enqueue_event-Keeps) depth 12
  controlled-Keeps res (ok c) leaving entering =
      configured-Keeps safe cfg py s given protection stop_loss c (leaving c refl) _ _
        (λ healthy. entering c healthy refl)

  -- A cycle keeps what admits the orders that the control plane's answer leaves it to create.
  pub run_once_under-Keeps :
      ((c : Control) → given.control ≡ ok c → c.emergency_stop ≡ false → Admits Q exit)
      → ((c : Control) (healthy : Bool)
          → given.control ≡ ok c
          → may_enter s c healthy ≡ true
          → Admits Q entry)
      → Keeps Q (run_once cfg py s given)
  unfolding run_once
  run_once_under-Keeps leaving entering = Keeps-bind _ _ (Keeps-gets _) (λ now.
      Keeps-bind _ _ (kv_set-Keeps _ _)
        (λ u. controlled-Keeps (new_result now) given.control leaving entering))

pub run_once-Keeps :
    {Q : Invariant} (stable : IsStable Q) (cfg : Config) (py : Platform) (s : TradingCycle)
    (given : Inputs)
    → Keeps Q (run_once cfg py s given)
run_once-Keeps stable cfg py s given =
    run_once_under-Keeps stable.safe cfg py s given (stable.admits protective_stop)
      (stable.admits stop_exit) (λ c answered calm. stable.admits exit)
      (λ c healthy answered may. stable.admits entry)
