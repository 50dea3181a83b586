-- ===== src/Engine/Trading/Policy.antt =====
-- The gating policy of engine/application/trading_cycle.py: which orders a cycle may create.
use cryptoaibot.Common.{
  String, ◌≡◌, refl, ap, ◌∙◌, Bool, true, false, List, [], ◌∷◌, ◌++◌, update, Bool-cases, inl, inr,
  arith, str_eq, if◌then◌else◌,
}
use cryptoaibot.Exec.{Error, Result, ok, err, pure, ◌>>=◌}
use cryptoaibot.Domain.Enums.{OrderPurpose, entry, exit, stop_exit, protective_stop}
use cryptoaibot.Domain.Order.{Order}
use cryptoaibot.Domain.Recon.{ReconciliationState, allows_entries, allows_exits}
use cryptoaibot.Store.Tables.{World}
use cryptoaibot.Store.Orders.{inserted_row, saved_row, is_row}
use cryptoaibot.Store.Recon.{get_recon_state}
use cryptoaibot.Store.Kv.{kv_set}
use cryptoaibot.Store.Transaction.{transaction}
use cryptoaibot.Engine.Config.{Config, Platform}
use cryptoaibot.Engine.Keeps.Rules.{Invariant, Keeps}
use cryptoaibot.Engine.Keeps.Tables.{IsSafe, Admits, table_rules}
use cryptoaibot.Engine.Keeps.Services.{enqueue_event-Keeps}
use cryptoaibot.Engine.Trading.Stages.{new_result}
use cryptoaibot.Engine.Keeps.Cycle.{run_once_under-Keeps, with_market-Keeps}
use cryptoaibot.Engine.Trading.{reconciliation_gate}
use cryptoaibot.Engine.Trading.Decisions.{Control, Inputs, TradingCycle, CycleResult, may_enter}
use cryptoaibot.Engine.Trading.Cycle.{run_once, controlled, configured, gated}
use cryptoaibot.Engine.Validation.{validate_runtime}

-- The client order ids of the orders whose purpose passes a test, in the order of the rows.
unfoldable pub orders_with : (OrderPurpose → Bool) → List Order → List String
orders_with q [] = []
orders_with q (o ∷ os) =
    let rest = orders_with q os in if q o.purpose then o.client_order_id ∷ rest else rest

-- The entries; the entries and the strategy's exits; everything.
abbrev pub entries : OrderPurpose → Bool
entries entry = true
entries _ = false

abbrev pub signalled : OrderPurpose → Bool
signalled entry = true
signalled exit = true
signalled _ = false

module _ (q : OrderPurpose → Bool) where
  orders_with-append :
      (os : List Order) (o : Order)
      → q o.purpose ≡ false
      → orders_with q (os ++ o ∷ []) ≡ orders_with q os
  unfolding orders_with
  orders_with-append [] o h = rw h refl
  orders_with-append (x ∷ os) o h = rw (orders_with-append os o h) refl

  orders_with-update :
      (t : Order → Bool) (f : Order → Order) (os : List Order)
      → ((o : Order) → (f o).purpose ≡ o.purpose)
      → ((o : Order) → (f o).client_order_id ≡ o.client_order_id)
      → orders_with q (update t f os) ≡ orders_with q os
  unfolding orders_with update
  orders_with-update t f [] same_purpose same_id = refl
  orders_with-update t f (o ∷ os) same_purpose same_id = elim (Bool-cases (t o)) [
    | inl hit ↦
        rw (hit, same_purpose o, same_id o, orders_with-update t f os same_purpose same_id) refl
    | inr miss ↦ rw (miss, orders_with-update t f os same_purpose same_id) refl
  ]

-- The orders that pass are these, and no others.
abbrev pub Unchanged : (OrderPurpose → Bool) → List String → Invariant
Unchanged q ids os fs es = orders_with q os ≡ ids

pub Unchanged-IsSafe : (q : OrderPurpose → Bool) (ids : List String) → IsSafe (Unchanged q ids)
unfolding saved_row
Unchanged-IsSafe q ids = record {
  order_saved =
      λ o os fs es h. orders_with-update q (is_row o) (saved_row o) os (λ r. refl) (λ r. refl) ∙ h;
  fill_inserted = λ f os fs es free h. h;
  event_inserted = λ e os fs es free h. h;
}

pub Unchanged-Admits :
    (q : OrderPurpose → Bool) (ids : List String) (p : OrderPurpose)
    → q p ≡ false
    → Admits (Unchanged q ids) p
unfolding inserted_row
Unchanged-Admits q ids p other = record {
  order_inserted = λ o os fs es same free h. orders_with-append q os _ (ap q same ∙ other) ∙ h;
}

module _ (s : TradingCycle) (c : Control) where
  may_enter-healthy : (healthy : Bool) → may_enter s c healthy ≡ true → may_enter s c true ≡ true
  unfolding may_enter
  may_enter-healthy healthy h = ground (arith, h)

  may_enter-reconciled : (healthy : Bool) → may_enter s c healthy ≡ true → healthy ≡ true
  unfolding may_enter
  may_enter-reconciled healthy h = ground (arith, h)

  may_enter-calm : (healthy : Bool) → may_enter s c healthy ≡ true → c.emergency_stop ≡ false
  unfolding may_enter
  may_enter-calm healthy h = ground (arith, h)

module _ (cfg : Config) (py : Platform) (s : TradingCycle) (given : Inputs) where
  -- The control plane's failure is an event.
  failed_control-Keeps :
      {Q : Invariant} (res : CycleResult) (e : Error)
      → Keeps Q (controlled cfg py s given res (err e))
  unfolding controlled
  failed_control-Keeps res e = search (table_rules, enqueue_event-Keeps) depth 12

  uncontrolled-orders :
      (res : CycleResult) (answer : Result Control) (v : World)
      → ((c : Control) → answer ≡ ok c → (e : Error) × (validate_runtime s.settings ≡ err e))
      → (controlled cfg py s given res answer v).1.db.orders ≡ v.db.orders
  unfolding controlled configured pure
  uncontrolled-orders res (err e) v refused =
      (failed_control-Keeps {Q = λ os fs es. os ≡ v.db.orders} res e).at v refl
  uncontrolled-orders res (ok c) v refused = rw (refused c refl).1 refl

  gated-entries :
      (c : Control) (res : CycleResult) (st : ReconciliationState) (v : World)
      → allows_entries st v.now cfg.recon_state_max_age_seconds ≡ false
      → orders_with entries (gated cfg py s given c res st v).1.db.orders
        ≡ orders_with entries v.db.orders
  unfolding gated ◌>>=◌
  gated-entries c res st v unhealthy =
      elim (Bool-cases (allows_exits st v.now cfg.recon_state_max_age_seconds)) [
        | inr shut ↦ rw shut refl
        | inl trusted ↦ rw trusted (
            (with_market-Keeps (Unchanged-IsSafe entries _) cfg py s given
                (Unchanged-Admits entries _ protective_stop refl)
                (Unchanged-Admits entries _ stop_exit refl) c
                (λ calm. Unchanged-Admits entries _ exit refl)
                (allows_entries st v.now cfg.recon_state_max_age_seconds) st.status
                (λ may. let healthy = may_enter-reconciled s c _ may in cc) _).at
              v refl)
      ]

  gated-orders :
      (c : Control) (res : CycleResult) (st : ReconciliationState) (v : World)
      → allows_exits st v.now cfg.recon_state_max_age_seconds ≡ false
      → (gated cfg py s given c res st v).1.db.orders ≡ v.db.orders
  unfolding gated ◌>>=◌
  gated-orders c res st v untrusted = rw untrusted refl

  -- Outside PAPER mode the gate reads the stored state.
  module _ (real : str_eq s.settings.trading_mode "PAPER" ≡ false) {A : Type 0}
      (see : List Order → A) (v : World) where
    configured-gated :
        (c : Control) (res : CycleResult) (r : Result (Unit {0}))
        → ((res : CycleResult)
            → see
                (gated cfg py s given c res
                  (get_recon_state cfg.bot_instance_id v.db)
                  v).1.db.orders
              ≡ see v.db.orders)
        → see (configured cfg py s given c res r v).1.db.orders ≡ see v.db.orders
    unfolding configured reconciliation_gate ◌>>=◌
    configured-gated c res (err e) h = refl
    configured-gated c res (ok u) h = rw real (h res)

    controlled-gated :
        (res : CycleResult) (answer : Result Control)
        → ((c : Control) (res : CycleResult)
            → see
                (gated cfg py s given c res
                  (get_recon_state cfg.bot_instance_id v.db)
                  v).1.db.orders
              ≡ see v.db.orders)
        → see (controlled cfg py s given res answer v).1.db.orders ≡ see v.db.orders
    unfolding controlled configured
    controlled-gated res (err e) h =
        (failed_control-Keeps {Q = λ os fs es. see os ≡ see v.db.orders} res e).at v refl
    controlled-gated res (ok c) h = configured-gated c _ _ (h c)

module _ (cfg : Config) (py : Platform) (s : TradingCycle) (given : Inputs) (w : World) where
  abbrev next : World
  next = (run_once cfg py s given w).1

  -- A cycle for a bot that is paused or under the emergency stop, or with GLOBAL_TRADING_ENABLED off,
  -- creates no entry order, whatever the market, the strategy and the exchange say.
  pub paused_cycle-entries :
      (c : Control)
      → given.control ≡ ok c
      → may_enter s c true ≡ false
      → orders_with entries next.db.orders ≡ orders_with entries w.db.orders
  paused_cycle-entries c answered paused =
      (run_once_under-Keeps (Unchanged-IsSafe entries _) cfg py s given
          (Unchanged-Admits entries _ protective_stop refl)
          (Unchanged-Admits entries _ stop_exit refl)
          (λ d same calm. Unchanged-Admits entries _ exit refl)
          (λ d healthy same may. let allowed = may_enter-healthy s d healthy may in cc)).at
        w refl

  -- A cycle under the emergency stop creates no entry and no strategy exit: only a stop exit or a
  -- protective stop may be new.
  pub emergency_cycle-signalled :
      (c : Control)
      → given.control ≡ ok c
      → c.emergency_stop ≡ true
      → orders_with signalled next.db.orders ≡ orders_with signalled w.db.orders
  emergency_cycle-signalled c answered engaged =
      (run_once_under-Keeps (Unchanged-IsSafe signalled _) cfg py s given
          (Unchanged-Admits signalled _ protective_stop refl)
          (Unchanged-Admits signalled _ stop_exit refl) (λ d same calm. cc)
          (λ d healthy same may. let engaged_too = may_enter-calm s d healthy may in cc)).at
        w refl

  -- A cycle that cannot read the control state, or whose configuration is refused, changes no order.
  pub uncontrolled_cycle-orders :
      ((c : Control) → given.control ≡ ok c → (e : Error) × (validate_runtime s.settings ≡ err e))
      → next.db.orders ≡ w.db.orders
  unfolding run_once ◌>>=◌ kv_set transaction
  uncontrolled_cycle-orders refused =
      uncontrolled-orders cfg py s given (new_result w.now) given.control _ refused

  -- Outside PAPER mode, a cycle whose stored reconciliation state is not HEALTHY, or is too old, creates no
  -- entry order, whatever the control plane, the market, the strategy and the exchange say.
  pub unreconciled_cycle-entries :
      str_eq s.settings.trading_mode "PAPER" ≡ false
      → allows_entries
          (get_recon_state cfg.bot_instance_id w.db)
          w.now
          cfg.recon_state_max_age_seconds
        ≡ false
      → orders_with entries next.db.orders ≡ orders_with entries w.db.orders
  unfolding run_once ◌>>=◌ kv_set transaction get_recon_state
  unreconciled_cycle-entries real unhealthy =
      controlled-gated cfg py s given real (orders_with entries) _ (new_result w.now) given.control
        (λ c res. gated-entries cfg py s given c res _ _ unhealthy)

  -- Outside PAPER mode, a cycle whose stored reconciliation state is neither HEALTHY nor DEGRADED, or is
  -- too old, changes no order.
  pub untrusted_cycle-orders :
      str_eq s.settings.trading_mode "PAPER" ≡ false
      → allows_exits
          (get_recon_state cfg.bot_instance_id w.db)
          w.now
          cfg.recon_state_max_age_seconds
        ≡ false
      → next.db.orders ≡ w.db.orders
  unfolding run_once ◌>>=◌ kv_set transaction get_recon_state
  untrusted_cycle-orders real untrusted =
      controlled-gated cfg py s given real (λ os. os) _ (new_result w.now) given.control
        (λ c res. gated-orders cfg py s given c res _ _ untrusted)
