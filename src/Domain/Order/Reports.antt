-- ===== src/Domain/Order/Reports.antt =====
-- engine/domain/models.py, `Order.apply_report`: what its stages do to an order.
use cryptoaibot.Common.{
  ℕ, ◌≤◌, ◌≡◌, refl, ◌⊎◌, inl, inr, subst, Bool, true, false, if◌then◌else◌, arith,
}
use cryptoaibot.Exec.{ok, err, illegal_transition, bind_result, bind_result-eq-ok, ok-injective}
use cryptoaibot.Decimal.{le_dec}
use cryptoaibot.Decimal.Order.{le_dec_refl, le_dec_of_lt}
use cryptoaibot.Domain.Enums.{OrderStatus, is_terminal, rejected, status_eq, status_eq_iff}
use cryptoaibot.Domain.Events.{ExchangeOrderReport}
use cryptoaibot.Domain.Order.{
  Order, rank, take_quantities, take_rest, take_status, apply_report, moves_forward, contradicts,
  was_not_found, transition, conflict_message, not_found_message,
}
use cryptoaibot.Domain.Order.Transitions.{moves_forward-step}

pub take_quantities-status :
    (r : ExchangeOrderReport) (o : Order) → (take_quantities r o).1.status ≡ o.status
unfolding take_quantities
take_quantities-status r o = ground arith

pub take_rest-status :
    (r : ExchangeOrderReport) (now : ℕ) (s : Bool × Order)
    → (take_rest r now s).1.status ≡ s.1.status
unfolding take_rest
take_rest-status r now s = ground arith

pub take_quantities-reject_reason :
    (r : ExchangeOrderReport) (o : Order) → (take_quantities r o).1.reject_reason ≡ o.reject_reason
unfolding take_quantities
take_quantities-reject_reason r o = ground arith

take_quantities-executed :
    (r : ExchangeOrderReport) (o : Order)
    → le_dec o.executed_quantity (take_quantities r o).1.executed_quantity ≡ true
unfolding take_quantities
take_quantities-executed r o =
    ground (arith, le_dec_refl o.executed_quantity, le_dec_of_lt o.executed_quantity r.executed_qty)

take_quantities-quote :
    (r : ExchangeOrderReport) (o : Order)
    → le_dec o.cumulative_quote_quantity (take_quantities r o).1.cumulative_quote_quantity ≡ true
unfolding take_quantities
take_quantities-quote r o = ground (
  arith,
  le_dec_refl o.cumulative_quote_quantity,
  le_dec_of_lt o.cumulative_quote_quantity r.cum_quote_qty,
)

take_rest-executed :
    (r : ExchangeOrderReport) (now : ℕ) (s : Bool × Order)
    → (take_rest r now s).1.executed_quantity ≡ s.1.executed_quantity
unfolding take_rest
take_rest-executed r now s = ground arith

take_rest-quote :
    (r : ExchangeOrderReport) (now : ℕ) (s : Bool × Order)
    → (take_rest r now s).1.cumulative_quote_quantity ≡ s.1.cumulative_quote_quantity
unfolding take_rest
take_rest-quote r now s = ground arith

-- What the status stage does when it does not raise.
pub record Settled (r : ExchangeOrderReport) (s t : Bool × Order) : Type 0 where
  pub executed : t.1.executed_quantity ≡ s.1.executed_quantity
  pub quote : t.1.cumulative_quote_quantity ≡ s.1.cumulative_quote_quantity
  pub exchange_id : t.1.exchange_order_id ≡ s.1.exchange_order_id
  pub step :
      ((t.1.status ≡ s.1.status)
        × (t.1.reject_reason ≡ s.1.reject_reason)
        × (moves_forward s.1.status r.status ≡ false)
        × (contradicts s.1.status r.status ≡ false))
      ⊎ ((t.1.status ≡ r.status) × (moves_forward s.1.status r.status ≡ true))
  pub found : was_not_found s.1.status s.1.reject_reason r.status ≡ false

transition-quantities :
    (s : OrderStatus) (now : ℕ) (o u : Order)
    → transition s now o ≡ ok u
    → (u.status ≡ s)
      × (u.executed_quantity ≡ o.executed_quantity)
      × (u.cumulative_quote_quantity ≡ o.cumulative_quote_quantity)
      × (u.exchange_order_id ≡ o.exchange_order_id)
unfolding transition
transition-quantities s now o u h = ground (arith, status_eq_iff s o.status)

module _ (r : ExchangeOrderReport) (now : ℕ) (c : Bool) (o : Order) where
  moved-Settled :
      (b : Bool) (u : Order)
      → was_not_found o.status o.reject_reason r.status ≡ false
      → moves_forward o.status r.status ≡ true
      → transition r.status now o ≡ ok u
      → Settled r (c, o) (true, if b then record u { reject_reason = r.reject_reason } else u)
  moved-Settled true u found moves stepped =
      let (status, executed, quote, id) = transition-quantities r.status now o u stepped in
      record {
        executed = executed;
        quote = quote;
        exchange_id = id;
        step = inr (status, moves);
        found = found;
      }
  moved-Settled false u found moves stepped =
      let (status, executed, quote, id) = transition-quantities r.status now o u stepped in
      record {
        executed = executed;
        quote = quote;
        exchange_id = id;
        step = inr (status, moves);
        found = found;
      }

  -- By the results of the three tests.
  tested-Settled :
      (found moves against : Bool) (t : Bool × Order)
      → was_not_found o.status o.reject_reason r.status ≡ found
      → moves_forward o.status r.status ≡ moves
      → contradicts o.status r.status ≡ against
      → (if found
          then err (illegal_transition (not_found_message o r.status))
          else if moves
          then bind_result (transition r.status now o) (λ u. ok (
            true,
            if status_eq r.status rejected then record u { reject_reason = r.reject_reason } else u,
          ))
          else if against
          then err (illegal_transition (conflict_message o r.status))
          else ok (c, o))
        ≡ ok t
      → Settled r (c, o) t
  tested-Settled true moves against t hf hm ha h = cc h
  tested-Settled false true against t hf hm ha h =
      let (u, stepped, e) = bind_result-eq-ok (transition r.status now o) _ h in
      subst (λ (x : Bool × Order). Settled r (c, o) x) (ok-injective e)
        (moved-Settled (status_eq r.status rejected) u hf hm stepped)
  tested-Settled false false true t hf hm ha h = cc h
  tested-Settled false false false t hf hm ha h =
      subst (λ (x : Bool × Order). Settled r (c, o) x) (ok-injective h)
        (record {
          executed = refl;
          quote = refl;
          exchange_id = refl;
          step = inl (refl, refl, hm, ha);
          found = hf;
        })

pub take_status-Settled :
    (r : ExchangeOrderReport) (now : ℕ) (s t : Bool × Order)
    → take_status r now s ≡ ok t
    → Settled r s t
unfolding take_status
take_status-Settled r now (c, o) t h =
    tested-Settled r now c o (was_not_found o.status o.reject_reason r.status)
      (moves_forward o.status r.status) (contradicts o.status r.status) t refl refl refl h

-- `apply_report` splits at the status stage.
pub split :
    (r : ExchangeOrderReport) (now : ℕ) (o : Order) (b : Bool) (o' : Order)
    → apply_report r now o ≡ ok (b, o')
    → (t : Bool × Order) × (take_status r now (take_quantities r o) ≡ ok t)
      × (take_rest r now t ≡ (b, o'))
unfolding apply_report
split r now o b o' h =
    let (t, e, f) =
      bind_result-eq-ok (take_status r now (take_quantities r o)) (λ s. ok (take_rest r now s)) h in
    (t, e, ok-injective f)

-- The status after an accepted report: unchanged, or one step of the table forward.
pub apply_report_status :
    (r : ExchangeOrderReport) (now : ℕ) (o : Order) (b : Bool) (o' : Order)
    → apply_report r now o ≡ ok (b, o')
    → (o'.status ≡ o.status) ⊎ ((o'.status ≡ r.status) × (moves_forward o.status r.status ≡ true))
apply_report_status r now o b o' h =
    let (t, e, f) = split r now o b o' h in
    let settled = take_status-Settled r now (take_quantities r o) t e in
    ground (arith, settled.step, f, take_rest-status r now t, take_quantities-status r o)

-- An accepted report never lowers the executed quantity or the cumulative quote quantity, and never
-- takes the status back in rank.
pub apply_report_monotone :
    (r : ExchangeOrderReport) (now : ℕ) (o : Order) (b : Bool) (o' : Order)
    → apply_report r now o ≡ ok (b, o')
    → (le_dec o.executed_quantity o'.executed_quantity ≡ true)
      × (le_dec o.cumulative_quote_quantity o'.cumulative_quote_quantity ≡ true)
      × (rank o.status ≤ rank o'.status)
apply_report_monotone r now o b o' h =
    let (t, e, f) = split r now o b o' h in
    let settled = take_status-Settled r now (take_quantities r o) t e in
    let step = apply_report_status r now o b o' h in
    (
      ground (arith, f, settled.executed, take_rest-executed r now t, take_quantities-executed r o),
      ground (arith, f, settled.quote, take_rest-quote r now t, take_quantities-quote r o),
      ground (arith, step, moves_forward-step o.status r.status),
    )

-- An accepted report leaves the status of a terminal order as it is.
pub apply_report_final :
    (r : ExchangeOrderReport) (now : ℕ) (o : Order) (b : Bool) (o' : Order)
    → apply_report r now o ≡ ok (b, o')
    → is_terminal o.status ≡ true
    → o'.status ≡ o.status
apply_report_final r now o b o' h final =
    let step = apply_report_status r now o b o' h in
    ground (arith, final, step, moves_forward-step o.status r.status)
