-- ===== src/Domain/Order/Repeats.antt =====
-- engine/domain/models.py, `Order.apply_report`: a report that comes again, and reports that raise.
use cryptoaibot.Common.{
  String, ℕ, ◌≡◌, ◌≢◌, ◌↔◌, ◌⊎◌, ap, Bool, true, false, arith, ◌&&◌, ◌||◌, Option, is_some, truthy,
  not, starts_with, option_or,
}
use cryptoaibot.Exec.{ok, is_err}
use cryptoaibot.Decimal.{lt_dec}
use cryptoaibot.Decimal.Order.{lt_dec_irrefl}
use cryptoaibot.Domain.Enums.{OrderStatus, rejected, is_terminal, status_eq_iff}
use cryptoaibot.Domain.Events.{ExchangeOrderReport}
use cryptoaibot.Domain.Order.{
  Order, take_quantities, take_rest, take_status, apply_report, moves_forward, contradicts,
  was_not_found, not_found_reason, rank, newer, is_acknowledged,
}
use cryptoaibot.Domain.Order.Transitions.{
  moves_forward-step, moves_forward_irrefl, contradicts_irrefl, was_not_found_irrefl,
}
use cryptoaibot.Domain.Order.Reports.{
  Settled, take_status-Settled, split, take_quantities-status, take_quantities-reject_reason,
  take_rest-status,
}

-- The order has nothing to learn from the report.
record Absorbed (r : ExchangeOrderReport) (o : Order) : Type 0 where
  exchange_id : (truthy r.exchange_order_id && not (truthy o.exchange_order_id)) ≡ false
  executed : lt_dec o.executed_quantity r.executed_qty ≡ false
  quote : lt_dec o.cumulative_quote_quantity r.cum_quote_qty ≡ false
  found : was_not_found o.status o.reject_reason r.status ≡ false
  forward : moves_forward o.status r.status ≡ false
  agrees : contradicts o.status r.status ≡ false
  time : newer r.update_time_ms o.last_exchange_update_ms ≡ false
  ack : (not (is_some o.acknowledged_at) && is_acknowledged o.status) ≡ false

take_quantities-Absorbed :
    (r : ExchangeOrderReport) (o : Order) → Absorbed r o → take_quantities r o ≡ (false, o)
unfolding take_quantities
take_quantities-Absorbed r o a = ground arith

take_status-Absorbed :
    (r : ExchangeOrderReport) (now : ℕ) (o : Order)
    → Absorbed r o
    → take_status r now (false, o) ≡ ok (false, o)
unfolding take_status
take_status-Absorbed r now o a = ground arith

take_rest-Absorbed :
    (r : ExchangeOrderReport) (now : ℕ) (o : Order)
    → Absorbed r o
    → take_rest r now (false, o) ≡ (false, o)
unfolding take_rest
take_rest-Absorbed r now o a = ground arith

-- The quantities after the first stage, and the fields that the others leave alone.
take_quantities_known :
    (r : ExchangeOrderReport) (o : Order)
    → let p = (take_quantities r o).1 in
      ((truthy r.exchange_order_id && not (truthy p.exchange_order_id)) ≡ false)
      × (lt_dec p.executed_quantity r.executed_qty ≡ false)
      × (lt_dec p.cumulative_quote_quantity r.cum_quote_qty ≡ false)
unfolding take_quantities
take_quantities_known r o =
    ground (arith, lt_dec_irrefl r.executed_qty, lt_dec_irrefl r.cum_quote_qty)

take_rest_known :
    (r : ExchangeOrderReport) (now : ℕ) (s : Bool × Order)
    → let o = (take_rest r now s).1 in
      (newer r.update_time_ms o.last_exchange_update_ms ≡ false)
      × ((not (is_some o.acknowledged_at) && is_acknowledged o.status) ≡ false)
unfolding take_rest
take_rest_known r now s = ground arith

take_rest_keeps :
    (r : ExchangeOrderReport) (now : ℕ) (s : Bool × Order)
    → let o = (take_rest r now s).1 in
      (o.exchange_order_id ≡ s.1.exchange_order_id)
      × (o.executed_quantity ≡ s.1.executed_quantity)
      × (o.cumulative_quote_quantity ≡ s.1.cumulative_quote_quantity)
      × (o.reject_reason ≡ s.1.reject_reason)
unfolding take_rest
take_rest_keeps r now s = ground arith

-- After the status stage the report's status is neither news nor a contradiction.
Settled-quiet :
    (r : ExchangeOrderReport) (s t : Bool × Order)
    → Settled r s t
    → (was_not_found t.1.status t.1.reject_reason r.status ≡ false)
      × (moves_forward t.1.status r.status ≡ false)
      × (contradicts t.1.status r.status ≡ false)
Settled-quiet r s t h = ground (
  arith,
  moves_forward_irrefl r.status,
  contradicts_irrefl r.status,
  was_not_found_irrefl r.status t.1.reject_reason,
)

apply_report-Absorbed :
    (r : ExchangeOrderReport) (now : ℕ) (o : Order) (b : Bool) (o' : Order)
    → apply_report r now o ≡ ok (b, o')
    → Absorbed r o'
apply_report-Absorbed r now o b o' h =
    let (t, e, f) = split r now o b o' h in
    let s = take_quantities r o in
    let settled = take_status-Settled r now s t e in
    let same : (take_rest r now t).1 ≡ o' = ap (λ (x : Bool × Order). x.1) f in
    let known = take_quantities_known r o in
    let kept = take_rest_keeps r now t in
    let quiet = Settled-quiet r s t settled in
    let status = take_rest-status r now t in
    let last = take_rest_known r now t in
    record {
      exchange_id = ground (arith, known.0, settled.exchange_id, kept.0, same);
      executed = ground (arith, known.1, settled.executed, kept.1, same);
      quote = ground (arith, known.2, settled.quote, kept.2, same);
      found = ground (arith, quiet.0, kept.3, status, same);
      forward = ground (arith, quiet.1, status, same);
      agrees = ground (arith, quiet.2, status, same);
      time = ground (arith, last.0, same);
      ack = ground (arith, last.1, same);
    }

-- A report that was accepted once changes nothing when it comes again, at whatever time: the order
-- stays as it is and no change is reported, so nothing is saved or sent.
pub apply_report_idempotent :
    (r : ExchangeOrderReport) (now later : ℕ) (o : Order) (b : Bool) (o' : Order)
    → apply_report r now o ≡ ok (b, o')
    → apply_report r later o' ≡ ok (false, o')
unfolding apply_report
apply_report_idempotent r now later o b o' h =
    let a = apply_report-Absorbed r now o b o' h in
    ground (
      arith,
      take_quantities-Absorbed r o' a,
      take_status-Absorbed r later o' a,
      take_rest-Absorbed r later o' a,
    )

forward_agrees : (a b : OrderStatus) → moves_forward a b ≡ true → contradicts a b ≡ false
unfolding contradicts
forward_agrees a b h = ground (arith, moves_forward-step a b h)

take_status_raises :
    (r : ExchangeOrderReport) (now : ℕ) (s : Bool × Order)
    → is_err (take_status r now s)
      ≡ (was_not_found s.1.status s.1.reject_reason r.status || contradicts s.1.status r.status)
unfolding take_status
take_status_raises r now s =
    ground (arith, moves_forward-step s.1.status r.status, forward_agrees s.1.status r.status)

raising :
    (r : ExchangeOrderReport) (now : ℕ) (o : Order)
    → is_err (apply_report r now o)
      ≡ (was_not_found o.status o.reject_reason r.status || contradicts o.status r.status)
unfolding apply_report
raising r now o = ground (
  arith,
  take_status_raises r now (take_quantities r o),
  take_quantities-status r o,
  take_quantities-reject_reason r o,
)

raises_iff :
    (known told : OrderStatus) (reason : Option String)
    → ((was_not_found known reason told || contradicts known told) ≡ true) ↔ (
        (is_terminal known ≡ true)
        × (told ≢ known)
        × ((is_terminal told ≡ true)
            ⊎ ((known ≡ rejected) × (starts_with (option_or reason "") not_found_reason ≡ true))))
unfolding was_not_found contradicts rank
raises_iff known told reason =
    ground
      (arith, status_eq_iff told known, status_eq_iff known rejected, status_eq_iff told rejected)

-- A report raises exactly when it contradicts what is known for good: the order is terminal, the report
-- has another status, and either this is terminal too, or the order was given up as never received
-- on the exchange and the exchange has it.
pub apply_report_raises :
    (r : ExchangeOrderReport) (now : ℕ) (o : Order)
    → (is_err (apply_report r now o) ≡ true) ↔ (
        (is_terminal o.status ≡ true)
        × (r.status ≢ o.status)
        × ((is_terminal r.status ≡ true)
            ⊎ ((o.status ≡ rejected)
                × (starts_with (option_or o.reject_reason "") not_found_reason ≡ true))))
apply_report_raises r now o = rw (raising r now o) (raises_iff o.status r.status o.reject_reason)
