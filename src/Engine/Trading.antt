-- ===== src/Engine/Trading.antt =====
-- engine/application/trading_cycle.py: the identity of a decision's orders, their submission, and the
-- gate before a cycle.
use cryptoaibot.Common.{
  String, ◌<>◌, ◌≡◌, ◌≢◌, refl, sym, subst, arith, ℕ, zero, suc, ◌+◌, ◌≤◌, ◌<◌, Bool, true, false,
  not, ◌&&◌, Option, none, some, opt_str_eq, truthy, show, if◌then◌else◌,
}
use cryptoaibot.Exec.{pure, gets, ◌>>=◌, ◌>>◌}
use cryptoaibot.Decimal.{Decimal, zero_dec, eq_dec}
use cryptoaibot.Domain.Enums.{
  OrderPurpose, entry, exit, stop_exit, protective_stop, OrderStatus, rejected, canceled, expired,
  filled, critical, status_value, status_eq,
}
use cryptoaibot.Domain.Order.{Order, OrderIntent}
use cryptoaibot.Domain.Recon.{ReconciliationState}
use cryptoaibot.Domain.Rules.{SymbolRules}
use cryptoaibot.Store.Tables.{Action, Database}
use cryptoaibot.Store.Orders.{get_order_by_intent}
use cryptoaibot.Store.Recon.{get_recon_state, save_recon_state}
use cryptoaibot.Engine.Config.{Config, Platform}
use cryptoaibot.Engine.Executor.{Executor}
use cryptoaibot.Engine.Messages.{enqueue_event}
use cryptoaibot.Engine.Orders.Submit.{submit_intent}
use cryptoaibot.Engine.Recon.Service.{run}
pub mod Decisions
pub mod Exits
pub mod Stages
pub mod Cycle
pub mod Policy

unfoldable pub max_attempts : OrderPurpose → ℕ
max_attempts entry = 1
max_attempts exit = 3
max_attempts stop_exit = 3
max_attempts protective_stop = 3

abbrev pub is_retryable : OrderStatus → Bool
is_retryable rejected = true
is_retryable canceled = true
is_retryable expired = true
is_retryable _ = false

-- The attempt ended without any fill.
unfoldable pub may_retry : Option Order → Bool
may_retry none = false
may_retry (some o) = is_retryable o.status && eq_dec o.executed_quantity zero_dec

some-injective : {a b : String} → some a ≡ some b → a ≡ b
some-injective h = cc h

-- The attempts from a number on, as many as are left.
unfoldable pub first_usable : String → ℕ → ℕ → Database → Option String
first_usable base attempt zero d = none
first_usable base attempt (suc left) d =
    let iid = base <> ":" <> show attempt in
    let later = first_usable base (attempt + 1) left d in
    if may_retry (get_order_by_intent iid d) then later else some iid

-- `_next_intent_id`
unfoldable pub next_intent_id : String → OrderPurpose → Database → Option String
next_intent_id base purpose d = first_usable base 0 (max_attempts purpose) d

differs : (f : ℕ → Bool) (a b : ℕ) → f a ≡ true → f b ≡ false → a ≢ b
differs f a b holds fails same = let on = subst (λ k. f k ≡ true) same holds in cc

-- An attempt that is stopped at is the last one.
first_usable_stops :
    (base : String) (attempt left m : ℕ) (d : Database) (iid : String)
    → attempt ≤ m
    → may_retry (get_order_by_intent (base <> ":" <> show m) d) ≡ false
    → first_usable base attempt left d ≡ some iid
    → (n : ℕ) × (n ≤ m) × (n < attempt + left) × (iid ≡ base <> ":" <> show n)
unfolding first_usable
first_usable_stops base attempt zero m d iid below stops h = cc h
first_usable_stops base attempt (suc left) m d iid below stops h =
    by_test (may_retry (get_order_by_intent (base <> ":" <> show attempt) d)) refl
      (λ next. first_usable_stops base (attempt + 1) left m d iid next stops) h
  where
    by_test :
        (b : Bool)
        → may_retry (get_order_by_intent (base <> ":" <> show attempt) d) ≡ b
        → (attempt + 1 ≤ m
            → first_usable base (attempt + 1) left d ≡ some iid
            → (n : ℕ) × (n ≤ m) × (n < attempt + 1 + left) × (iid ≡ base <> ":" <> show n))
        → (if b then first_usable base (attempt + 1) left d else some (base <> ":" <> show attempt))
          ≡ some iid
        → (n : ℕ) × (n ≤ m) × (n < attempt + suc left) × (iid ≡ base <> ":" <> show n)
    by_test false tested rest g = (attempt, below, omega arith, sym (some-injective g))
    by_test true tested rest g =
        let other =
          differs (λ k. may_retry (get_order_by_intent (base <> ":" <> show k) d)) attempt m tested
            stops in
        let (n, up_to, few, named) = rest (omega (arith, below, other)) g in
        (n, up_to, omega (arith, few), named)

filled_in_part :
    (d : Database) (iid : String) (o : Order)
    → get_order_by_intent iid d ≡ some o
    → eq_dec o.executed_quantity zero_dec ≡ false
    → may_retry (get_order_by_intent iid d) ≡ false
unfolding may_retry
filled_in_part d iid o found sold = rw found (ground (arith, sold))

-- A decision is never attempted again past a fill: where the order of an attempt has executed any
-- quantity, whatever its status, the intent id that the decision gets next is that of this attempt or of
-- an earlier one, and one of the attempts that the purpose allows.
pub next_intent_id_stops :
    (base : String) (purpose : OrderPurpose) (d : Database) (m : ℕ) (o : Order) (iid : String)
    → get_order_by_intent (base <> ":" <> show m) d ≡ some o
    → eq_dec o.executed_quantity zero_dec ≡ false
    → next_intent_id base purpose d ≡ some iid
    → (n : ℕ) × (n ≤ m) × (n < max_attempts purpose) × (iid ≡ base <> ":" <> show n)
unfolding next_intent_id
next_intent_id_stops base purpose d m o iid found sold h =
    let (n, up_to, few, named) =
      first_usable_stops base 0 (max_attempts purpose) m d iid (omega arith)
        (filled_in_part d (base <> ":" <> show m) o found sold) h in
    (n, up_to, omega (arith, few), named)

-- `_describe`
unfoldable pub describe : Order → String → String
describe o label =
    if status_eq o.status filled
    then label
    else if status_eq o.status rejected
    then label <> " REJECTED: " <> reason o.reject_reason
    else label
      <> " "
      <> status_value o.status
      <> (if o.submission_ambiguous then " (ambiguous - reconciling)" else "")
  where
    reason : Option String → String
    reason none = "None"
    reason (some s) = s

-- What `_submit` is called with, beside the base of the intent id.
pub record Decision : Type 0 where
  pub purpose : OrderPurpose
  pub side : String
  pub quantity : Decimal
  pub reference_price : Decimal
  pub signal_id : Option String
  pub order_type : String
  pub limit_price : Option Decimal
  pub stop_price : Option Decimal
  pub strategy_name : String
  pub strategy_version : String

module _ (x : Executor) (cfg : Config) (py : Platform) where
  unfoldable pub submit_as : Decision → SymbolRules → String → Option String → Action (Option Order)
  submit_as d rules base none = do
    enqueue_event cfg.bot_instance_id "ORDER_ATTEMPTS_EXHAUSTED" base critical
        ("exhausted:" <> base) true
    pure none
  submit_as d rules base (some intent_id) = do
    now ← gets (λ w. w.now)
    submit_intent x cfg py (intent_of intent_id now d) rules
    where
      intent_of : String → ℕ → Decision → OrderIntent
      intent_of iid at e = record {
        client_intent_id = iid;
        bot_instance_id = cfg.bot_instance_id;
        symbol = cfg.symbol;
        side = e.side;
        order_type = e.order_type;
        quantity = e.quantity;
        purpose = e.purpose;
        strategy_name = e.strategy_name;
        strategy_version = e.strategy_version;
        signal_id = e.signal_id;
        limit_price = e.limit_price;
        stop_price = e.stop_price;
        reference_price = some e.reference_price;
        created_at = at;
      }

  -- `_submit`
  unfoldable pub submit : Decision → SymbolRules → String → Action (Option Order)
  submit d rules base = do
    intent_id ← gets (λ w. next_intent_id base d.purpose w.db)
    submit_as d rules base intent_id

  unfoldable pub remember_ack : Bool → Option String → Action (Unit {0})
  remember_ack false ack = pure tt
  remember_ack true ack = do
    st ← gets (λ w. get_recon_state cfg.bot_instance_id w.db)
    save_recon_state (record st { last_ack_token = ack })
    pure tt

  -- `_reconciliation_gate`: in PAPER mode the ledger is reconciled first.
  unfoldable pub reconciliation_gate : Bool → String → Option String → Action ReconciliationState
  reconciliation_gate is_paper run_key ack = do
    state ← gets (λ w. get_recon_state cfg.bot_instance_id w.db)
    let operator_ack = truthy ack && not (opt_str_eq ack state.last_ack_token)
    if is_paper
        then (do
          run x cfg py run_key "paper-cycle" operator_ack
          remember_ack operator_ack ack
          gets (λ w. get_recon_state cfg.bot_instance_id w.db))
        else pure state
