-- ===== src/Engine/Keeps/Trading.antt =====
-- engine/application/trading_cycle.py under a safe invariant that admits the orders which the cycle may
-- create.
use cryptoaibot.Common.{
  String, ◌≡◌, refl, Bool, true, false, Option, none, some, List, [], ◌∷◌, Bool-cases, inl, inr,
  arith,
}
use cryptoaibot.Decimal.{Decimal}
use cryptoaibot.Domain.Enums.{
  OrderPurpose, entry, exit, stop_exit, protective_stop, ReconciliationStatus,
}
use cryptoaibot.Domain.Order.{Order}
use cryptoaibot.Domain.Position.{Position}
use cryptoaibot.Domain.Rules.{SymbolRules}
use cryptoaibot.Positions.Service
use cryptoaibot.Engine.Config.{Config, Platform}
use cryptoaibot.Engine.Executor.{Executor}
use cryptoaibot.Engine.Keeps.Rules.{
  Invariant, Keeps, Keeps-bind, Keeps-gets, Keeps-gets-bind, Keeps-if, Keeps-pure,
}
use cryptoaibot.Engine.Keeps.Tables.{IsSafe, Admits, table_rules}
use cryptoaibot.Store.Tables.{Database}
use cryptoaibot.Engine.Keeps.Services.{enqueue_event-Keeps}
use cryptoaibot.Engine.Keeps.Submission.{
  submit_intent-Keeps, resolve_ambiguous-Keeps, refresh-Keeps, cancel-Keeps,
}
use cryptoaibot.Engine.Keeps.Reconciliation.{run-Keeps}
use cryptoaibot.Engine.Risk.{RiskManager, Refusal, update_daily}
use cryptoaibot.Engine.Trading.{Decision, submit_as, submit, remember_ack, reconciliation_gate}
use cryptoaibot.Engine.Trading.Decisions.{
  Control, Signal, MarketSnapshot, TradingCycle, Blocked, CycleResult, Funds, known, unknown,
  entry_blocks, may_enter,
}
use cryptoaibot.Engine.Trading.Exits.{
  confirm, cancel_stops, close_position, exit_position, place_stop, stop_unless,
  ensure_protective_stop,
}
use cryptoaibot.Engine.Trading.Stages.{
  protect, with_stop, hold, leave_market, follow_signal, on_stop, manage_open, after_buy, entered,
  place_entry, size_and_enter, enter_unless, enter, refresh_one, read_funds, get_funds,
}

module _ {Q : Invariant} where
  pub set_stop-Keeps :
      (bot symbol : String) (stop : Decimal) → Keeps Q (Service.set_stop bot symbol stop)
  unfolding Service.set_stop
  set_stop-Keeps bot symbol stop = search table_rules depth 12

  pub mark-Keeps : (bot symbol : String) (price : Decimal) → Keeps Q (Service.mark bot symbol price)
  unfolding Service.mark
  mark-Keeps bot symbol price = search table_rules depth 12

  update_daily-Keeps :
      (rm : RiskManager) (bot : String) (equity : Decimal) (today : String)
      → Keeps Q (update_daily rm bot equity today)
  unfolding update_daily
  update_daily-Keeps rm bot equity today = search table_rules depth 12

  confirm-Keeps : (o : Option Order) → Keeps Q (confirm o)
  confirm-Keeps none = search table_rules
  confirm-Keeps (some o) = search table_rules

module _ {Q : Invariant} (safe : IsSafe Q) (cfg : Config) (py : Platform) where
  submit_as-Keeps :
      (x : Executor) (d : Decision) (rules : SymbolRules) (base : String) (iid : Option String)
      → Admits Q d.purpose
      → Keeps Q (submit_as x cfg py d rules base iid)
  unfolding submit_as
  submit_as-Keeps x d rules base none admits = search (table_rules, enqueue_event-Keeps) depth 12
  submit_as-Keeps x d rules base (some iid) admits =
      Keeps-bind _ _ (Keeps-gets _) (λ now. submit_intent-Keeps safe x cfg py _ rules admits)

  submit-Keeps :
      (x : Executor) (d : Decision) (rules : SymbolRules) (base : String)
      → Admits Q d.purpose
      → Keeps Q (submit x cfg py d rules base)
  unfolding submit
  submit-Keeps x d rules base admits =
      Keeps-bind _ _ (Keeps-gets _) (λ iid. submit_as-Keeps x d rules base iid admits)

  remember_ack-Keeps :
      (x : Executor) (b : Bool) (ack : Option String) → Keeps Q (remember_ack x cfg py b ack)
  unfolding remember_ack
  remember_ack-Keeps x false ack = search table_rules
  remember_ack-Keeps x true ack = search table_rules depth 12

  pub reconciliation_gate-Keeps :
      (x : Executor) (paper : Bool) (key : String) (ack : Option String)
      → Keeps Q (reconciliation_gate x cfg py paper key ack)
  unfolding reconciliation_gate
  reconciliation_gate-Keeps x paper key ack =
      search (table_rules, run-Keeps, remember_ack-Keeps) depth 16

  module _ (s : TradingCycle) where
    cancel_stops-Keeps : (os : List Order) → Keeps Q (cancel_stops cfg py s os)
    unfolding cancel_stops
    cancel_stops-Keeps [] = search table_rules
    cancel_stops-Keeps (o ∷ os) = Keeps-bind _ _ (cancel-Keeps safe s.executor cfg o) (λ answer.
        Keeps-bind _ _ (confirm-Keeps answer)
          (λ gone. Keeps-if gone _ _ (cancel_stops-Keeps os) (Keeps-pure false)))

    close_position-Keeps :
        (p : OrderPurpose) (rules : SymbolRules) (reference : Decimal)
        → Admits Q p
        → Keeps Q (close_position cfg py s p rules reference)
    unfolding close_position
    close_position-Keeps p rules reference admits = search (table_rules, submit-Keeps) depth 14

    exit_position-Keeps :
        (p : OrderPurpose) (rules : SymbolRules) (reference : Decimal)
        → Admits Q p
        → Keeps Q (exit_position cfg py s p rules reference)
    unfolding exit_position
    exit_position-Keeps p rules reference admits =
        search (table_rules, cancel_stops-Keeps, close_position-Keeps) depth 14

    leave_market-Keeps :
        (p : OrderPurpose) (rules : SymbolRules) (reference : Decimal) (res : CycleResult)
        → Admits Q p
        → Keeps Q (leave_market cfg py s p rules reference res)
    unfolding leave_market
    leave_market-Keeps p rules reference res admits =
        search (table_rules, exit_position-Keeps) depth 12

    protect-Keeps : (rules : SymbolRules) (p : Position) → Keeps Q (protect cfg py s rules p)
    unfolding protect
    protect-Keeps rules p = set_stop-Keeps _ _ _

    pub with_stop-Keeps :
        (rules : SymbolRules) (p : Position) (stop : Option Decimal)
        → Keeps Q (with_stop cfg py s rules p stop)
    unfolding with_stop
    with_stop-Keeps rules p none = protect-Keeps rules p
    with_stop-Keeps rules p (some stop) = search table_rules

    pub refresh_one-Keeps : (o : Order) → Keeps Q (refresh_one cfg py s o)
    unfolding refresh_one
    refresh_one-Keeps o = search (table_rules, resolve_ambiguous-Keeps, refresh-Keeps) depth 14

    read_funds-Keeps :
        (rules : SymbolRules) (price : Decimal) → Keeps Q (read_funds cfg py s rules price)
    unfolding read_funds
    read_funds-Keeps rules price = search (table_rules, update_daily-Keeps) depth 20

    pub get_funds-Keeps :
        (rules : SymbolRules) (price : Decimal) → Keeps Q (get_funds cfg py s rules price)
    unfolding get_funds
    get_funds-Keeps rules price = search (table_rules, read_funds-Keeps) depth 14

    -- Where nothing blocks an entry, trading is enabled everywhere and the state is fresh and HEALTHY.
    entry_blocks-none :
        (c : Control) (entries_ok : Bool) (status : ReconciliationStatus) (f : Funds)
        (rules : SymbolRules) (d : Database)
        → entry_blocks cfg s c entries_ok status f rules d ≡ []
        → may_enter s c entries_ok ≡ true
    unfolding entry_blocks may_enter
    entry_blocks-none c entries_ok status f rules d h = ground (arith, h)

    module _ (protection : Admits Q protective_stop) where
      place_stop-Keeps :
          (p : Position) (rules : SymbolRules) (stop : Decimal)
          → Keeps Q (place_stop cfg py s p rules stop)
      unfolding place_stop
      place_stop-Keeps p rules stop = search (table_rules, submit-Keeps) depth 14

      stop_unless-Keeps :
          (os : List Order) (p : Position) (rules : SymbolRules) (stop : Option Decimal)
          → Keeps Q (stop_unless cfg py s os p rules stop)
      unfolding stop_unless
      stop_unless-Keeps [] p rules none = search table_rules
      stop_unless-Keeps [] p rules (some stop) = place_stop-Keeps p rules stop
      stop_unless-Keeps (o ∷ os) p rules none = search table_rules
      stop_unless-Keeps (o ∷ os) p rules (some stop) = search table_rules

      ensure_protective_stop-Keeps :
          (p : Position) (rules : SymbolRules) → Keeps Q (ensure_protective_stop cfg py s p rules)
      unfolding ensure_protective_stop
      ensure_protective_stop-Keeps p rules = search (table_rules, stop_unless-Keeps) depth 14

      hold-Keeps :
          (p : Position) (rules : SymbolRules) (res : CycleResult)
          → Keeps Q (hold cfg py s p rules res)
      unfolding hold
      hold-Keeps p rules res = search (table_rules, ensure_protective_stop-Keeps) depth 14

      after_buy-Keeps : (o : Order) (rules : SymbolRules) → Keeps Q (after_buy cfg py s o rules)
      unfolding after_buy
      after_buy-Keeps o rules =
          search (table_rules, protect-Keeps, ensure_protective_stop-Keeps) depth 20

      entered-Keeps :
          (rules : SymbolRules) (res : CycleResult) (o : Option Order)
          → Keeps Q (entered cfg py s rules res o)
      unfolding entered
      entered-Keeps rules res none = search table_rules
      entered-Keeps rules res (some o) = search (table_rules, after_buy-Keeps) depth 12

      place_entry-Keeps :
          (snap : MarketSnapshot) (rules : SymbolRules) (key : String) (res : CycleResult)
          (p : Decimal × Option Refusal)
          → Admits Q entry
          → Keeps Q (place_entry cfg py s snap rules key res p)
      unfolding place_entry
      place_entry-Keeps snap rules key res (qty, why) admits =
          search (table_rules, submit-Keeps, entered-Keeps) depth 14

      size_and_enter-Keeps :
          (snap : MarketSnapshot) (rules : SymbolRules) (key : String) (res : CycleResult)
          (f : Funds)
          → Admits Q entry
          → Keeps Q (size_and_enter cfg py s snap rules key res f)
      unfolding size_and_enter
      size_and_enter-Keeps snap rules key res (known e q h) admits =
          place_entry-Keeps snap rules key res _ admits
      size_and_enter-Keeps snap rules key res (unknown h) admits = search table_rules

      enter_unless-Keeps :
          (snap : MarketSnapshot) (rules : SymbolRules) (key : String) (res : CycleResult)
          (f : Funds) (bs : List Blocked)
          → (bs ≡ [] → Admits Q entry)
          → Keeps Q (enter_unless cfg py s snap rules key res f bs)
      unfolding enter_unless
      enter_unless-Keeps snap rules key res f [] admits =
          size_and_enter-Keeps snap rules key res f (admits refl)
      enter_unless-Keeps snap rules key res f (b ∷ bs) admits = search table_rules

      module _ (c : Control) (entries_ok : Bool) (status : ReconciliationStatus)
          (stop_loss : Admits Q stop_exit) (leaving : c.emergency_stop ≡ false → Admits Q exit)
          (entering : may_enter s c entries_ok ≡ true → Admits Q entry) where
        follow_signal-Keeps :
            (sig : Signal) (snap : MarketSnapshot) (p : Position) (rules : SymbolRules)
            (res : CycleResult)
            → Keeps Q (follow_signal cfg py s c sig snap p rules res)
        unfolding follow_signal
        follow_signal-Keeps sig snap p rules res = elim (Bool-cases c.emergency_stop) [
          | inl engaged ↦ rw engaged (search (table_rules, hold-Keeps) depth 12)
          | inr free ↦
              rw free (search (table_rules, hold-Keeps, leave_market-Keeps, leaving free) depth 12)
        ]

        on_stop-Keeps :
            (sig : Signal) (snap : MarketSnapshot) (p : Position) (rules : SymbolRules)
            (res : CycleResult) (stop : Option Decimal)
            → Keeps Q (on_stop cfg py s c sig snap p rules res stop)
        unfolding on_stop
        on_stop-Keeps sig snap p rules res none = follow_signal-Keeps sig snap p rules res
        on_stop-Keeps sig snap p rules res (some stop) =
            leave_market-Keeps stop_exit rules stop res stop_loss

        pub manage_open-Keeps :
            (sig : Signal) (snap : MarketSnapshot) (rules : SymbolRules) (res : CycleResult)
            (p : Position)
            → Keeps Q (manage_open cfg py s c sig snap rules res p)
        unfolding manage_open
        manage_open-Keeps sig snap rules res p = on_stop-Keeps sig snap p rules res _

        pub enter-Keeps :
            (sig : Signal) (snap : MarketSnapshot) (rules : SymbolRules) (key : String) (f : Funds)
            (res : CycleResult)
            → Keeps Q (enter cfg py s c sig snap rules key entries_ok status f res)
        unfolding enter
        enter-Keeps sig snap rules key f res =
            Keeps-if _ _ _
              (Keeps-gets-bind _ _ (λ w. enter_unless-Keeps snap rules key res f _ (λ none_found.
                entering (entry_blocks-none c entries_ok status f rules w.db none_found))))
              (Keeps-pure _)
