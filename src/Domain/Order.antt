-- ===== src/Domain/Order.antt =====
-- engine/domain/models.py: the order and its state machine. The methods mutate a copy that the store
-- handed out and that is dropped when they raise, so a raise returns no order.
pub mod Transitions
pub mod Reports
pub mod Repeats
use cryptoaibot.Common.{
  String, ◌<>◌, ℕ, zero, suc, ◌*◌, Bool, true, false, not, ◌&&◌, ◌||◌, Option, none, some, List, [],
  ◌∷◌, ltb, leb, str_eq, starts_with, truthy, option_or, is_some, if◌then◌else◌, any, select,
}
use cryptoaibot.Exec.{Result, ok, err, Error, illegal_transition, bind_result}
use cryptoaibot.Decimal.{Decimal, zero_dec, ◌/ᵈ◌, lt_dec}
use cryptoaibot.Domain.Enums.{
  OrderPurpose, OrderStatus, intent_created, submitting, new, partially_filled, filled, canceled,
  rejected, expired, is_terminal, status_eq, status_value,
}
use cryptoaibot.Domain.Events.{ExchangeOrderReport}

-- `new in ALLOWED_TRANSITIONS[current]`
unfoldable pub can_transition : OrderStatus → OrderStatus → Bool
can_transition intent_created submitting = true
can_transition intent_created rejected = true
can_transition submitting new = true
can_transition submitting partially_filled = true
can_transition submitting filled = true
can_transition submitting rejected = true
can_transition submitting canceled = true
can_transition submitting expired = true
can_transition new partially_filled = true
can_transition new filled = true
can_transition new canceled = true
can_transition new expired = true
can_transition partially_filled filled = true
can_transition partially_filled canceled = true
can_transition partially_filled expired = true
can_transition _ _ = false

unfoldable pub rank : OrderStatus → ℕ
rank intent_created = 0
rank submitting = 1
rank new = 2
rank partially_filled = 3
rank _ = 4

pub record OrderIntent : Type 0 where
  pub client_intent_id : String
  pub bot_instance_id : String
  pub symbol : String
  pub side : String
  pub order_type : String
  pub quantity : Decimal
  pub purpose : OrderPurpose
  pub strategy_name : String
  pub strategy_version : String
  pub signal_id : Option String
  pub limit_price : Option Decimal
  pub stop_price : Option Decimal
  pub reference_price : Option Decimal
  pub created_at : ℕ

-- Times of the engine's clock are microseconds.
pub record Order : Type 0 where
  pub bot_instance_id : String
  pub exchange : String
  pub symbol : String
  pub side : String
  pub order_type : String
  pub purpose : OrderPurpose
  pub client_order_id : String
  pub client_intent_id : String
  pub requested_quantity : Decimal
  pub status : OrderStatus
  pub id : ℕ
  pub exchange_order_id : Option String
  pub executed_quantity : Decimal
  pub cumulative_quote_quantity : Decimal
  pub average_fill_price : Option Decimal
  pub limit_price : Option Decimal
  pub stop_price : Option Decimal
  pub reference_price : Option Decimal
  pub submission_ambiguous : Bool
  pub reject_reason : Option String
  pub submitted_at : Option ℕ
  pub acknowledged_at : Option ℕ
  pub last_exchange_update_at : Option ℕ
  pub last_exchange_update_ms : Option ℕ
  pub terminal_at : Option ℕ
  pub raw : List (String × String)
  pub version : ℕ

abbrev transition_message : Order → OrderStatus → String
transition_message o s =
    o.client_order_id <> ": " <> status_value o.status <> " -> " <> status_value s

-- `_transition`: the same state is no transition; a terminal state stamps `terminal_at`.
unfoldable pub transition : OrderStatus → ℕ → Order → Result Order
transition s now o =
    if status_eq s o.status
    then ok o
    else if not (can_transition o.status s)
    then err (illegal_transition (transition_message o s))
    else ok
        (record o { status = s; terminal_at = if is_terminal s then some now else o.terminal_at })

unfoldable pub mark_submitting : ℕ → Order → Result Order
unfolding transition
mark_submitting now o =
    bind_result (transition submitting now o) (λ t. ok (record t { submitted_at = some now }))

-- `mark_rejected`, with whether anything changed.
unfoldable pub mark_rejected : String → ℕ → Order → Result (Bool × Order)
unfolding transition
mark_rejected reason now o =
    if is_terminal o.status
    then ok (false, o)
    else bind_result (transition rejected now o)
        (λ t. ok (true, record t { reject_reason = some reason }))

abbrev pub not_found_reason : String
not_found_reason = "NOT_FOUND_ON_EXCHANGE"

is_unsafe : String × String → Bool
is_unsafe e = str_eq e.0 "apiKey" || str_eq e.0 "signature" || str_eq e.0 "secret"

-- The first part of `apply_report`: the exchange's id, once, and the two quantities, upwards only.
take_id : ExchangeOrderReport → Order → Bool × Order
take_id r o =
    if truthy r.exchange_order_id && not (truthy o.exchange_order_id)
    then (true, record o { exchange_order_id = r.exchange_order_id })
    else (false, o)

take_executed : ExchangeOrderReport → Bool × Order → Bool × Order
take_executed r (c, o) =
    if lt_dec o.executed_quantity r.executed_qty
    then (true, record o { executed_quantity = r.executed_qty })
    else (c, o)

take_quote : ExchangeOrderReport → Bool × Order → Bool × Order
take_quote r (c, o) =
    if lt_dec o.cumulative_quote_quantity r.cum_quote_qty
    then (true, record o { cumulative_quote_quantity = r.cum_quote_qty })
    else (c, o)

take_average : Bool × Order → Bool × Order
take_average (c, o) =
    if c && lt_dec zero_dec o.executed_quantity
    then (
      c,
      record o { average_fill_price = some (o.cumulative_quote_quantity /ᵈ o.executed_quantity) },
    )
    else (c, o)

-- The order was given up as never received, and now the exchange reports it.
unfoldable pub was_not_found : OrderStatus → Option String → OrderStatus → Bool
was_not_found s reason t =
    status_eq s rejected
    && starts_with (option_or reason "") not_found_reason
    && not (status_eq t rejected)

abbrev pub conflict_message : Order → OrderStatus → String
conflict_message o s =
    o.client_order_id <> ": terminal " <> status_value o.status <> " vs exchange " <> status_value s

abbrev pub not_found_message : Order → OrderStatus → String
not_found_message o s =
    o.client_order_id <> ": locally REJECTED(not found) but exchange reports " <> status_value s

unfoldable pub moves_forward : OrderStatus → OrderStatus → Bool
moves_forward s t = not (status_eq t s) && ltb (rank s) (rank t) && can_transition s t

unfoldable pub contradicts : OrderStatus → OrderStatus → Bool
contradicts s t = not (status_eq t s) && leb (rank s) (rank t) && is_terminal s

-- The second part: the status moves forward, is left alone, or is in conflict.
unfoldable pub take_status : ExchangeOrderReport → ℕ → Bool × Order → Result (Bool × Order)
unfolding moves_forward transition
take_status r now (c, o) =
    if was_not_found o.status o.reject_reason r.status
    then err (illegal_transition (not_found_message o r.status))
    else if moves_forward o.status r.status
    then bind_result (transition r.status now o) (λ t. ok (
      true,
      if status_eq r.status rejected then record t { reject_reason = r.reject_reason } else t,
    ))
    else if contradicts o.status r.status
    then err (illegal_transition (conflict_message o r.status))
    else ok (c, o)

-- `report.update_time_ms and (... is None or report.update_time_ms > ...)`: zero counts as absent.
newer : Option ℕ → Option ℕ → Bool
newer none last = false
newer (some zero) last = false
newer (some (suc t)) none = true
newer (some (suc t)) (some last) = ltb last (suc t)

take_time : ExchangeOrderReport → Bool × Order → Bool × Order
unfolding newer
take_time r (c, o) =
    if newer r.update_time_ms o.last_exchange_update_ms
    then (
      true,
      record o {
        last_exchange_update_ms = r.update_time_ms;
        last_exchange_update_at = elim r.update_time_ms [ none ↦ none | some t ↦ some (t * 1000) ];
      },
    )
    else (c, o)

unfoldable pub is_acknowledged : OrderStatus → Bool
is_acknowledged intent_created = false
is_acknowledged submitting = false
is_acknowledged rejected = false
is_acknowledged _ = true

take_ack : ℕ → Bool × Order → Bool × Order
unfolding is_acknowledged
take_ack now (c, o) =
    if not (is_some o.acknowledged_at) && is_acknowledged o.status
    then (true, record o { acknowledged_at = some now })
    else (c, o)

take_raw : ExchangeOrderReport → Bool × Order → Bool × Order
unfolding is_unsafe
take_raw r (c, o) =
    if c then (c, record o { raw = select (λ e. not (is_unsafe e)) r.raw }) else (c, o)

-- What comes before the status, and what follows it.
unfoldable pub take_quantities : ExchangeOrderReport → Order → Bool × Order
unfolding take_id take_executed take_quote take_average
take_quantities r o = take_average (take_quote r (take_executed r (take_id r o)))

unfoldable pub take_rest : ExchangeOrderReport → ℕ → Bool × Order → Bool × Order
unfolding take_time take_ack take_raw
take_rest r now s = take_raw r (take_ack now (take_time r s))

-- `Order.apply_report`: whether anything changed, and the order.
unfoldable pub apply_report : ExchangeOrderReport → ℕ → Order → Result (Bool × Order)
apply_report r now o =
    bind_result (take_status r now (take_quantities r o)) (λ s. ok (take_rest r now s))
