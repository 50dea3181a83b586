-- ===== src/Engine/Keeps/Services.antt =====
-- engine/application/order_service.py, reports and fills, under a safe invariant.
use cryptoaibot.Common.{String, Bool, true, false, Option, none, some, List, [], ◌∷◌}
use cryptoaibot.Exec.{Result, ok, err, illegal_transition}
use cryptoaibot.Domain.Enums.{MismatchSeverity}
use cryptoaibot.Domain.Events.{ExchangeOrderReport, ExchangeFill}
use cryptoaibot.Domain.Order.{Order}
use cryptoaibot.Domain.Position.{Fill}
use cryptoaibot.Positions.Service.{apply_fill}
use cryptoaibot.Engine.Messages.{enqueue_event}
use cryptoaibot.Engine.Executor.{Executor}
use cryptoaibot.Engine.Keeps.Rules.{Invariant, Keeps}
use cryptoaibot.Engine.Keeps.Tables.{IsSafe, table_rules}
use cryptoaibot.Engine.Orders.Apply.{
  enqueue_order, save_if, apply_result, apply_found, record_conflict, settle, apply_report,
  report_anomalies, account_for, account_if_new, ingest_found, ingest_fill, ingest_each,
  ingest_order_fills, Applied, missing, applied, conflicted,
}

module _ {Q : Invariant} where
  pub enqueue_event-Keeps :
      (bot t m : String) (s : MismatchSeverity) (key : String) (alert : Bool)
      → Keeps Q (enqueue_event bot t m s key alert)
  unfolding enqueue_event
  enqueue_event-Keeps bot t m s key alert = search table_rules depth 12

module _ {Q : Invariant} (safe : IsSafe Q) where
  pub enqueue_order-Keeps : (o : Order) → Keeps Q (enqueue_order o)
  unfolding enqueue_order
  enqueue_order-Keeps o = search table_rules depth 12

  save_if-Keeps : (b : Bool) (o : Order) → Keeps Q (save_if b o)
  unfolding save_if
  save_if-Keeps false o = search table_rules depth 12
  save_if-Keeps true o = search (table_rules, enqueue_order-Keeps) depth 12

  apply_result-Keeps : (coid : String) (r : Result (Bool × Order)) → Keeps Q (apply_result coid r)
  unfolding apply_result
  apply_result-Keeps coid (ok (b, o)) = save_if-Keeps b o
  apply_result-Keeps coid (err (illegal_transition m)) = search table_rules
  apply_result-Keeps coid (err e) = search table_rules

  apply_found-Keeps : (r : ExchangeOrderReport) (o : Option Order) → Keeps Q (apply_found r o)
  unfolding apply_found
  apply_found-Keeps r none = search table_rules
  apply_found-Keeps r (some o) = search (table_rules, apply_result-Keeps) depth 12

  module _ (x : Executor) (bot : String) where
    pub record_conflict-Keeps : (coid st m : String) → Keeps Q (record_conflict x bot coid st m)
    unfolding record_conflict
    record_conflict-Keeps coid st m = search (table_rules, enqueue_event-Keeps) depth 12

    settle-Keeps : (r : ExchangeOrderReport) (a : Applied) → Keeps Q (settle x bot r a)
    unfolding settle
    settle-Keeps r missing = search table_rules
    settle-Keeps r (applied o) = search table_rules
    settle-Keeps r (conflicted coid m) = search (table_rules, record_conflict-Keeps) depth 12

    pub apply_report-Keeps : (r : ExchangeOrderReport) → Keeps Q (apply_report x bot r)
    unfolding apply_report
    apply_report-Keeps r = search (table_rules, apply_found-Keeps, settle-Keeps) depth 12

    apply_fill-Keeps : (f : Fill) → Keeps Q (apply_fill bot f)
    unfolding apply_fill
    apply_fill-Keeps f = search table_rules depth 12

    report_anomalies-Keeps : (f : Fill) (as' : List String) → Keeps Q (report_anomalies x bot f as')
    unfolding report_anomalies
    report_anomalies-Keeps f [] = search table_rules
    report_anomalies-Keeps f (a ∷ as') = enqueue_event-Keeps bot _ _ _ _ _

    account_for-Keeps : (f : Fill) → Keeps Q (account_for x bot f)
    unfolding account_for
    account_for-Keeps f = search (table_rules, apply_fill-Keeps, report_anomalies-Keeps) depth 12

    account_if_new-Keeps : (f : Option Fill) → Keeps Q (account_if_new x bot f)
    unfolding account_if_new
    account_if_new-Keeps none = search table_rules
    account_if_new-Keeps (some f) = account_for-Keeps f

    ingest_found-Keeps : (xf : ExchangeFill) (o : Option Order) → Keeps Q (ingest_found x bot xf o)
    unfolding ingest_found
    ingest_found-Keeps xf none = search table_rules
    ingest_found-Keeps xf (some o) = search (table_rules, account_if_new-Keeps) depth 12

    pub ingest_fill-Keeps : (xf : ExchangeFill) → Keeps Q (ingest_fill x bot xf)
    unfolding ingest_fill
    ingest_fill-Keeps xf = search (table_rules, ingest_found-Keeps) depth 12

    pub ingest_each-Keeps : (xf : ExchangeFill) → Keeps Q (ingest_each x bot xf)
    unfolding ingest_each
    ingest_each-Keeps xf = search (table_rules, ingest_fill-Keeps) depth 12

    pub ingest_order_fills-Keeps : (o : Option Order) → Keeps Q (ingest_order_fills x bot o)
    unfolding ingest_order_fills
    ingest_order_fills-Keeps none = search table_rules
    ingest_order_fills-Keeps (some o) = search (table_rules, ingest_each-Keeps) depth 12
