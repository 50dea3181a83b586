-- ===== src/Engine/Keeps/Submission.antt =====
-- engine/application/order_service.py, submission and cancellation, and stream_ingestion.py, under a
-- safe invariant.
use cryptoaibot.Common.{String, ◌≡◌, Bool, true, false, Option, none, some, List}
use cryptoaibot.Exec.{Error, order_conflict}
use cryptoaibot.Domain.Enums.{SubmitOutcomeKind, OrderPurpose}
use cryptoaibot.Domain.Events.{ExchangeOrderReport, ExchangeFill, BalanceSnapshot, SubmitOutcome}
use cryptoaibot.Domain.Order.{Order, OrderIntent}
use cryptoaibot.Domain.Order.Transitions.{mark_submitting-purpose}
use cryptoaibot.Domain.Rules.{SymbolRules}
use cryptoaibot.Engine.Config.{Config, Platform}
use cryptoaibot.Engine.Executor.{Executor}
use cryptoaibot.Engine.Keeps.Rules.{
  Invariant, Keeps, Keeps-transaction, Keeps-bind, Keeps-gets, Keeps-lift-bind,
}
use cryptoaibot.Engine.Keeps.Tables.{IsSafe, Admits, insert_intent_and_order-Keeps, table_rules}
use cryptoaibot.Engine.Keeps.Services.{
  enqueue_event-Keeps, enqueue_order-Keeps, apply_report-Keeps, ingest_each-Keeps,
  ingest_order_fills-Keeps, ingest_fill-Keeps, record_conflict-Keeps,
}
use cryptoaibot.Engine.Orders.Submit.{
  fetch, save_rejection, reject, refresh, resolve_answer, ask, resolve_ambiguous, acknowledge,
  flag_ambiguous, resolve_flagged, handle_kind, handle_outcome, submit_safely, persist_row, persist,
  send, submit_new, submit_once, submit_intent, after_cancel, apply_cancel, cancel, apply_option,
  Answer, answered, failed, order_for,
}
use cryptoaibot.Engine.Stream.{
  NormalizedStreamEvent, EventKind, take_balances, ingest_option, apply_new, apply_event,
  after_conflict, handle_order, handle,
}
use cryptoaibot.Engine.Stream

module _ {Q : Invariant} (safe : IsSafe Q) where
  pub fetch-Keeps : (coid : String) → Keeps Q (fetch coid)
  unfolding fetch
  fetch-Keeps coid = search table_rules depth 12

  save_rejection-Keeps : (p : Bool × Order) → Keeps Q (save_rejection p)
  unfolding save_rejection
  save_rejection-Keeps (false, o) = search table_rules
  save_rejection-Keeps (true, o) = search (table_rules, enqueue_order-Keeps) depth 12

  reject-Keeps : (coid reason : String) → Keeps Q (reject coid reason)
  unfolding reject
  reject-Keeps coid reason = search (table_rules, fetch-Keeps, save_rejection-Keeps) depth 12

  module _ (x : Executor) (cfg : Config) where
    apply_option-Keeps : (r : Option ExchangeOrderReport) → Keeps Q (apply_option x cfg r)
    apply_option-Keeps none = search table_rules
    apply_option-Keeps (some r) = search (table_rules, apply_report-Keeps) depth 12

    pub refresh-Keeps : (o : Order) → Keeps Q (refresh x cfg o)
    unfolding refresh
    refresh-Keeps o = search (table_rules, apply_option-Keeps, ingest_order_fills-Keeps) depth 14

    resolve_answer-Keeps : (o : Order) (a : Answer) → Keeps Q (resolve_answer x cfg o a)
    unfolding resolve_answer
    resolve_answer-Keeps o failed = search table_rules
    resolve_answer-Keeps o (answered (some r)) =
        search (table_rules, apply_report-Keeps, ingest_order_fills-Keeps) depth 14
    resolve_answer-Keeps o (answered none) = search (table_rules, reject-Keeps) depth 14

    ask-Keeps : (o : Order) → Keeps Q (ask x cfg o)
    unfolding ask
    ask-Keeps o = search table_rules depth 12

    pub resolve_ambiguous-Keeps : (o : Order) → Keeps Q (resolve_ambiguous x cfg o)
    unfolding resolve_ambiguous
    resolve_ambiguous-Keeps o = search (table_rules, ask-Keeps, resolve_answer-Keeps) depth 14

    acknowledge-Keeps :
        (r : Option ExchangeOrderReport) (fs : List ExchangeFill) → Keeps Q (acknowledge x cfg r fs)
    unfolding acknowledge
    acknowledge-Keeps none fs = search table_rules
    acknowledge-Keeps (some r) fs =
        search (table_rules, apply_report-Keeps, ingest_each-Keeps) depth 14

    flag_ambiguous-Keeps :
        (coid : String) (e : Option String) → Keeps Q (flag_ambiguous x cfg coid e)
    unfolding flag_ambiguous
    flag_ambiguous-Keeps coid e =
        search (table_rules, fetch-Keeps, enqueue_order-Keeps, enqueue_event-Keeps) depth 14

    resolve_flagged-Keeps : (coid : String) → Keeps Q (resolve_flagged x cfg coid)
    unfolding resolve_flagged
    resolve_flagged-Keeps coid = search (table_rules, fetch-Keeps, resolve_ambiguous-Keeps) depth 14

    handle_outcome-Keeps :
        (coid : String) (out : SubmitOutcome) → Keeps Q (handle_outcome x cfg coid out)
    unfolding handle_outcome handle_kind
    handle_outcome-Keeps coid out = by_kind out.kind
      where
        by_kind : (k : SubmitOutcomeKind) → Keeps Q (handle_kind x cfg coid k out)
        by_kind SubmitOutcomeKind.acknowledged = acknowledge-Keeps out.report out.fills
        by_kind SubmitOutcomeKind.rejected = reject-Keeps coid _
        by_kind SubmitOutcomeKind.ambiguous =
            search (table_rules, flag_ambiguous-Keeps, resolve_flagged-Keeps)

    submit_safely-Keeps : (o : Order) (rules : SymbolRules) → Keeps Q (submit_safely x cfg o rules)
    unfolding submit_safely
    submit_safely-Keeps o rules = search table_rules depth 12

    persist_row-Keeps : (o : Option Order) → Keeps Q (persist_row x cfg o)
    unfolding persist_row
    persist_row-Keeps none = search table_rules
    persist_row-Keeps (some o) = search (table_rules, enqueue_order-Keeps) depth 12

    persist-Keeps :
        (i : OrderIntent) (o : Order) (p : OrderPurpose)
        → Admits Q p
        → o.purpose ≡ p
        → Keeps Q (persist x cfg i o)
    unfolding persist
    persist-Keeps i o p admits same =
        Keeps-transaction _
          (Keeps-bind _ _ (insert_intent_and_order-Keeps i o p admits same) persist_row-Keeps)

    send-Keeps :
        (i : OrderIntent) (rules : SymbolRules) (o : Option Order) → Keeps Q (send x cfg i rules o)
    unfolding send
    send-Keeps i rules none = search table_rules
    send-Keeps i rules (some o) =
        search (table_rules, submit_safely-Keeps, handle_outcome-Keeps) depth 12

    submit_new-Keeps :
        (py : Platform) (i : OrderIntent) (rules : SymbolRules)
        → Admits Q i.purpose
        → Keeps Q (submit_new x cfg py i rules)
    unfolding submit_new order_for
    submit_new-Keeps py i rules admits = Keeps-bind _ _ (Keeps-gets _) (λ now.
        Keeps-lift-bind _ _ (λ o marked.
          Keeps-bind _ _
            (persist-Keeps i o i.purpose admits
              (mark_submitting-purpose now (order_for x cfg py i rules) o marked))
            (send-Keeps i rules)))

    submit_once-Keeps :
        (py : Platform) (i : OrderIntent) (rules : SymbolRules) (o : Option Order)
        → Admits Q i.purpose
        → Keeps Q (submit_once x cfg py i rules o)
    unfolding submit_once
    submit_once-Keeps py i rules (some o) admits = search table_rules
    submit_once-Keeps py i rules none admits = submit_new-Keeps py i rules admits

    pub submit_intent-Keeps :
        (py : Platform) (i : OrderIntent) (rules : SymbolRules)
        → Admits Q i.purpose
        → Keeps Q (submit_intent x cfg py i rules)
    unfolding submit_intent
    submit_intent-Keeps py i rules admits = search (table_rules, submit_once-Keeps) depth 12

    after_cancel-Keeps : (coid : String) (e : Error) → Keeps Q (after_cancel x cfg coid e)
    unfolding after_cancel
    after_cancel-Keeps coid (order_conflict m) = search table_rules
    after_cancel-Keeps coid e = search table_rules

    apply_cancel-Keeps :
        (k : SubmitOutcomeKind) (r : Option ExchangeOrderReport) → Keeps Q (apply_cancel x cfg k r)
    unfolding apply_cancel
    apply_cancel-Keeps SubmitOutcomeKind.acknowledged r = apply_option-Keeps r
    apply_cancel-Keeps SubmitOutcomeKind.rejected r = search table_rules
    apply_cancel-Keeps SubmitOutcomeKind.ambiguous r = search table_rules

    pub cancel-Keeps : (o : Order) → Keeps Q (cancel x cfg o)
    unfolding cancel
    cancel-Keeps o =
        search (table_rules, apply_cancel-Keeps, refresh-Keeps, after_cancel-Keeps) depth 12

    take_balances-Keeps : (s : BalanceSnapshot) → Keeps Q (take_balances x cfg s)
    unfolding take_balances
    take_balances-Keeps s = search table_rules depth 12

    ingest_option-Keeps : (f : Option ExchangeFill) → Keeps Q (ingest_option x cfg f)
    unfolding ingest_option
    ingest_option-Keeps none = search table_rules
    ingest_option-Keeps (some f) = search (table_rules, ingest_fill-Keeps) depth 12

    apply_new-Keeps :
        (r : ExchangeOrderReport) (f : Option ExchangeFill) (b : Bool)
        → Keeps Q (apply_new x cfg r f b)
    unfolding apply_new
    apply_new-Keeps r f false = search table_rules
    apply_new-Keeps r f true =
        search (table_rules, apply_report-Keeps, ingest_option-Keeps) depth 12

    apply_event-Keeps :
        (ev : NormalizedStreamEvent) (source : String) (r : ExchangeOrderReport)
        (f : Option ExchangeFill)
        → Keeps Q (apply_event x cfg ev source r f)
    unfolding apply_event
    apply_event-Keeps ev source r f = search (table_rules, apply_new-Keeps) depth 12

    after_conflict-Keeps :
        (r : ExchangeOrderReport) (e : Error) → Keeps Q (after_conflict x cfg r e)
    unfolding after_conflict
    after_conflict-Keeps r (order_conflict m) = search (table_rules, record_conflict-Keeps) depth 12
    after_conflict-Keeps r e = search table_rules

    handle_order-Keeps :
        (py : Platform) (ev : NormalizedStreamEvent) (source : String) (r : ExchangeOrderReport)
        (f : Option ExchangeFill) (o : Option Order)
        → Keeps Q (handle_order x cfg py ev source r f o)
    unfolding handle_order
    handle_order-Keeps py ev source r f none = search table_rules
    handle_order-Keeps py ev source r f (some o) =
        search (table_rules, apply_event-Keeps, after_conflict-Keeps) depth 12

    pub handle-Keeps :
        (py : Platform) (ev : NormalizedStreamEvent) (source : String)
        → Keeps Q (handle x cfg py ev source)
    unfolding handle Stream.handle_kind
    handle-Keeps py ev source = by_kind ev.kind
      where
        by_kind : (k : EventKind) → Keeps Q (Stream.handle_kind x cfg py ev source k)
        by_kind EventKind.terminated = search table_rules
        by_kind (EventKind.balance s) = take_balances-Keeps s
        by_kind EventKind.ignored = search table_rules
        by_kind (EventKind.order r f) = search (table_rules, handle_order-Keeps) depth 12
