-- ===== src/Samples/Runs.antt =====
-- Concrete runs of the engine: an intent submitted while the exchange cannot be reached, its fill
-- later, a reconciliation, and the simulated exchange.
use cryptoaibot.Common.{
  String, ◌<>◌, ℕ, ◌≡◌, refl, sym, Bool, true, false, Option, none, some, is_some, option_or, List,
  [], ◌∷◌, any, find, str_eq, str_eq_refl, arith, ◌||◌, ◌↔◌, ◌&&◌, not, show, ◌≤◌, ◌<◌,
}
use cryptoaibot.Common.Distinct.{get_elem?}
use cryptoaibot.Exec.{Result, ok, err, ◌>>=◌}
use cryptoaibot.Decimal.{Decimal, dec, zero_dec}
use cryptoaibot.Domain.Enums.{
  entry, exit, canceled, SubmitOutcomeKind, healthy, halted, degraded, ReconciliationStatus,
  is_halted,
}
use cryptoaibot.Domain.Events.{SubmitOutcome}
use cryptoaibot.Domain.Order.{Order}
use cryptoaibot.Domain.Position.{Fill}
use cryptoaibot.Domain.Recon.{ReconciliationState}
use cryptoaibot.Store.Tables.{World, Database, fresh, empty_database}
use cryptoaibot.Store.Orders.{get_order_by_intent}
use cryptoaibot.Store.Fills.{same_execution, fill_exists}
use cryptoaibot.Store.Recon.{get_recon_state, never_reconciled}
use cryptoaibot.Engine.Executor.{Executor, Desk}
use cryptoaibot.Engine.Ids.{make_client_order_id}
use cryptoaibot.Engine.Orders.Apply.{ingest_fill, order_of_report}
use cryptoaibot.Engine.Orders.Submit.{submit_intent}
use cryptoaibot.Engine.Paper.{acceptance, record_for}
use cryptoaibot.Engine.Recon.Checks.{Findings, no_findings}
use cryptoaibot.Engine.Recon.Service.{run, ReconResult, verdict, criticals, is_nonempty}
use cryptoaibot.Engine.Recon.Verdict.{verdict_healthy_iff, run_stores_verdict}
use cryptoaibot.Engine.Stream.{NormalizedStreamEvent, EventKind, handle, done, Outcome}
use cryptoaibot.Engine.Trading.{next_intent_id, next_intent_id_stops, max_attempts}
use cryptoaibot.Engine.System.{Operation, perform_all}
use cryptoaibot.Engine.System.Uniqueness.{one_order_per_intent, one_fill_per_execution}
use cryptoaibot.Engine.System.Permanence.{submit_intent_once, ingest_fill_once, handle_once}
use cryptoaibot.Samples.{cfg, py, rules, intent, order, report, fill, unreachable, with_order}

abbrev place : ℕ
place = 0

present : {A : Type 0} (o : Option A) (d : A) → is_some o ≡ true → o ≡ some (option_or o d)
present none d h = cc h
present (some a) d h = refl

-- What is done next to a ledger with an order: a reconciliation, then a wait.
abbrev after_that : List Operation
after_that = Operation.reconcile unreachable "r1" "periodic" false ∷ Operation.wait 5 ∷ []

ordered : is_some (get_order_by_intent "i1" with_order.db) ≡ true
unfolding get_order_by_intent find cryptoaibot.Store.Orders.has_intent_id
ordered = refl

submit_intent_once_example :
    let later = perform_all cfg py after_that with_order in
    (is_some (get_order_by_intent "i1" later.db) ≡ true)
    × (submit_intent unreachable cfg py intent rules later
        ≡ (ok (get_order_by_intent "i1" later.db), later))
submit_intent_once_example =
    submit_intent_once cfg py after_that with_order unreachable intent rules ordered

-- The order is persisted and left ambiguous; its fill comes later.
abbrev first_trade : List Operation
first_trade =
    Operation.submit_intent unreachable intent rules
    ∷ Operation.ingest_fill unreachable
        (record fill { client_order_id = some (make_client_order_id py "cb1" "i1") })
    ∷ []

abbrev first_row : Option Order
first_row = get_elem? (perform_all cfg py first_trade (fresh 0)).db.orders 0

abbrev first_fill : Option Fill
first_fill = get_elem? (perform_all cfg py first_trade (fresh 0)).db.fills 0

abbrev the_fill : Fill
the_fill = option_or first_fill (record {
  order_id = 0;
  client_order_id = "";
  symbol = "";
  side = "";
  quantity = zero_dec;
  price = zero_dec;
  quote_quantity = zero_dec;
  commission = zero_dec;
  commission_asset = none;
  execution_time = 0;
  event_key = "";
  exchange_trade_id = none;
  id = 0;
})

row_stored : is_some first_row ≡ true
unfolding perform_all cryptoaibot.Engine.System.perform submit_intent
    cryptoaibot.Engine.Orders.Submit.submit_once cryptoaibot.Engine.Orders.Submit.submit_new
    cryptoaibot.Engine.Orders.Submit.order_for cryptoaibot.Engine.Orders.Submit.persist
    cryptoaibot.Engine.Orders.Submit.persist_row cryptoaibot.Engine.Orders.Submit.send
    cryptoaibot.Engine.Orders.Submit.submit_safely cryptoaibot.Engine.Orders.Submit.handle_outcome
    cryptoaibot.Engine.Orders.Submit.handle_kind cryptoaibot.Engine.Orders.Submit.flag_ambiguous
    cryptoaibot.Engine.Orders.Submit.fetch cryptoaibot.Engine.Orders.Submit.resolve_flagged
    cryptoaibot.Engine.Orders.Submit.resolve_ambiguous cryptoaibot.Engine.Orders.Submit.ask
    cryptoaibot.Engine.Orders.Submit.resolve_answer cryptoaibot.Engine.Orders.Apply.enqueue_order
    cryptoaibot.Engine.Executor.request cryptoaibot.Engine.Messages.enqueue_event
    cryptoaibot.Store.Outbox.enqueue cryptoaibot.Store.Outbox.insert_message
    cryptoaibot.Store.Outbox.has_idempotency_key cryptoaibot.Store.Transaction.transaction ◌>>=◌
    cryptoaibot.Exec.when cryptoaibot.Exec.try_except cryptoaibot.Store.Orders.get_order_by_intent
    cryptoaibot.Store.Orders.get_order cryptoaibot.Store.Orders.insert_intent_and_order
    cryptoaibot.Store.Orders.insert_rows cryptoaibot.Store.Orders.inserted_row
    cryptoaibot.Store.Orders.is_duplicate cryptoaibot.Store.Orders.save_order
    cryptoaibot.Store.Orders.update_row cryptoaibot.Store.Orders.saved_row
    cryptoaibot.Store.Orders.is_row cryptoaibot.Store.Orders.takes_exchange_id
    cryptoaibot.Store.Orders.has_order_id cryptoaibot.Store.Orders.has_intent_id
    cryptoaibot.Store.Orders.intent_signal_id cryptoaibot.Domain.Order.mark_submitting
    cryptoaibot.Domain.Order.transition cryptoaibot.Domain.Order.can_transition
    cryptoaibot.Domain.Enums.status_eq find any cryptoaibot.Common.update make_client_order_id
    cryptoaibot.Engine.Ids.safe_prefix cryptoaibot.Engine.Ids.take_chars
    cryptoaibot.Engine.Ids.filter_chars cryptoaibot.Engine.Ids.len cryptoaibot.Common.show
    ingest_fill cryptoaibot.Engine.Orders.Apply.ingest_found
    cryptoaibot.Engine.Orders.Apply.account_if_new cryptoaibot.Engine.Orders.Apply.account_for
    cryptoaibot.Engine.Orders.Apply.fill_for cryptoaibot.Engine.Orders.Apply.time_or
    cryptoaibot.Engine.Orders.Apply.order_of_fill cryptoaibot.Engine.Orders.Apply.by_client_id
    cryptoaibot.Engine.Orders.Apply.or_exchange_id cryptoaibot.Engine.Orders.Apply.report_anomalies
    cryptoaibot.Positions.Service.apply_fill cryptoaibot.Positions.Accounting.apply_fill_to_position
    cryptoaibot.Positions.Accounting.assets cryptoaibot.Store.Fills.insert_fill
    cryptoaibot.Store.Fills.insert_row same_execution cryptoaibot.Store.Positions.save_position
    cryptoaibot.Store.Positions.upsert_position cryptoaibot.Positions.Accounting.apply_sides
    cryptoaibot.Positions.Accounting.buy_fill cryptoaibot.Decimal.le_dec
    cryptoaibot.Positions.Accounting.received cryptoaibot.Positions.Accounting.fee_in
    cryptoaibot.Decimal.◌-ᵈ◌
row_stored = refl

fill_stored : is_some first_fill ≡ true
unfolding perform_all cryptoaibot.Engine.System.perform submit_intent
    cryptoaibot.Engine.Orders.Submit.submit_once cryptoaibot.Engine.Orders.Submit.submit_new
    cryptoaibot.Engine.Orders.Submit.order_for cryptoaibot.Engine.Orders.Submit.persist
    cryptoaibot.Engine.Orders.Submit.persist_row cryptoaibot.Engine.Orders.Submit.send
    cryptoaibot.Engine.Orders.Submit.submit_safely cryptoaibot.Engine.Orders.Submit.handle_outcome
    cryptoaibot.Engine.Orders.Submit.handle_kind cryptoaibot.Engine.Orders.Submit.flag_ambiguous
    cryptoaibot.Engine.Orders.Submit.fetch cryptoaibot.Engine.Orders.Submit.resolve_flagged
    cryptoaibot.Engine.Orders.Submit.resolve_ambiguous cryptoaibot.Engine.Orders.Submit.ask
    cryptoaibot.Engine.Orders.Submit.resolve_answer cryptoaibot.Engine.Orders.Apply.enqueue_order
    cryptoaibot.Engine.Executor.request cryptoaibot.Engine.Messages.enqueue_event
    cryptoaibot.Store.Outbox.enqueue cryptoaibot.Store.Outbox.insert_message
    cryptoaibot.Store.Outbox.has_idempotency_key cryptoaibot.Store.Transaction.transaction ◌>>=◌
    cryptoaibot.Exec.when cryptoaibot.Exec.try_except cryptoaibot.Store.Orders.get_order_by_intent
    cryptoaibot.Store.Orders.get_order cryptoaibot.Store.Orders.insert_intent_and_order
    cryptoaibot.Store.Orders.insert_rows cryptoaibot.Store.Orders.inserted_row
    cryptoaibot.Store.Orders.is_duplicate cryptoaibot.Store.Orders.save_order
    cryptoaibot.Store.Orders.update_row cryptoaibot.Store.Orders.saved_row
    cryptoaibot.Store.Orders.is_row cryptoaibot.Store.Orders.takes_exchange_id
    cryptoaibot.Store.Orders.has_order_id cryptoaibot.Store.Orders.has_intent_id
    cryptoaibot.Store.Orders.intent_signal_id cryptoaibot.Domain.Order.mark_submitting
    cryptoaibot.Domain.Order.transition cryptoaibot.Domain.Order.can_transition
    cryptoaibot.Domain.Enums.status_eq find any cryptoaibot.Common.update make_client_order_id
    cryptoaibot.Engine.Ids.safe_prefix cryptoaibot.Engine.Ids.take_chars
    cryptoaibot.Engine.Ids.filter_chars cryptoaibot.Engine.Ids.len cryptoaibot.Common.show
    ingest_fill cryptoaibot.Engine.Orders.Apply.ingest_found
    cryptoaibot.Engine.Orders.Apply.account_if_new cryptoaibot.Engine.Orders.Apply.account_for
    cryptoaibot.Engine.Orders.Apply.fill_for cryptoaibot.Engine.Orders.Apply.time_or
    cryptoaibot.Engine.Orders.Apply.order_of_fill cryptoaibot.Engine.Orders.Apply.by_client_id
    cryptoaibot.Engine.Orders.Apply.or_exchange_id cryptoaibot.Engine.Orders.Apply.report_anomalies
    cryptoaibot.Positions.Service.apply_fill cryptoaibot.Positions.Accounting.apply_fill_to_position
    cryptoaibot.Positions.Accounting.assets cryptoaibot.Store.Fills.insert_fill
    cryptoaibot.Store.Fills.insert_row same_execution cryptoaibot.Store.Positions.save_position
    cryptoaibot.Store.Positions.upsert_position cryptoaibot.Positions.Accounting.apply_sides
    cryptoaibot.Positions.Accounting.buy_fill cryptoaibot.Decimal.le_dec
    cryptoaibot.Positions.Accounting.received cryptoaibot.Positions.Accounting.fee_in
    cryptoaibot.Decimal.◌-ᵈ◌
fill_stored = refl

one_order_per_intent_example : place ≡ place
one_order_per_intent_example =
    one_order_per_intent cfg py first_trade 0 place place (option_or first_row order)
      (option_or first_row order) (present first_row order row_stored)
      (present first_row order row_stored) refl

same : same_execution the_fill the_fill ≡ true
unfolding same_execution
same = ground (arith, str_eq_refl the_fill.event_key)

one_fill_per_execution_example : place ≡ place
one_fill_per_execution_example =
    one_fill_per_execution cfg py first_trade 0 place place the_fill the_fill
      (present first_fill _ fill_stored) (present first_fill _ fill_stored) same

abbrev after_fill : World
after_fill = perform_all cfg py first_trade (fresh 0)

recorded : fill_exists "k1" after_fill.db ≡ true
unfolding perform_all cryptoaibot.Engine.System.perform submit_intent
    cryptoaibot.Engine.Orders.Submit.submit_once cryptoaibot.Engine.Orders.Submit.submit_new
    cryptoaibot.Engine.Orders.Submit.order_for cryptoaibot.Engine.Orders.Submit.persist
    cryptoaibot.Engine.Orders.Submit.persist_row cryptoaibot.Engine.Orders.Submit.send
    cryptoaibot.Engine.Orders.Submit.submit_safely cryptoaibot.Engine.Orders.Submit.handle_outcome
    cryptoaibot.Engine.Orders.Submit.handle_kind cryptoaibot.Engine.Orders.Submit.flag_ambiguous
    cryptoaibot.Engine.Orders.Submit.fetch cryptoaibot.Engine.Orders.Submit.resolve_flagged
    cryptoaibot.Engine.Orders.Submit.resolve_ambiguous cryptoaibot.Engine.Orders.Submit.ask
    cryptoaibot.Engine.Orders.Submit.resolve_answer cryptoaibot.Engine.Orders.Apply.enqueue_order
    cryptoaibot.Engine.Executor.request cryptoaibot.Engine.Messages.enqueue_event
    cryptoaibot.Store.Outbox.enqueue cryptoaibot.Store.Outbox.insert_message
    cryptoaibot.Store.Outbox.has_idempotency_key cryptoaibot.Store.Transaction.transaction ◌>>=◌
    cryptoaibot.Exec.when cryptoaibot.Exec.try_except cryptoaibot.Store.Orders.get_order_by_intent
    cryptoaibot.Store.Orders.get_order cryptoaibot.Store.Orders.insert_intent_and_order
    cryptoaibot.Store.Orders.insert_rows cryptoaibot.Store.Orders.inserted_row
    cryptoaibot.Store.Orders.is_duplicate cryptoaibot.Store.Orders.save_order
    cryptoaibot.Store.Orders.update_row cryptoaibot.Store.Orders.saved_row
    cryptoaibot.Store.Orders.is_row cryptoaibot.Store.Orders.takes_exchange_id
    cryptoaibot.Store.Orders.has_order_id cryptoaibot.Store.Orders.has_intent_id
    cryptoaibot.Store.Orders.intent_signal_id cryptoaibot.Domain.Order.mark_submitting
    cryptoaibot.Domain.Order.transition cryptoaibot.Domain.Order.can_transition
    cryptoaibot.Domain.Enums.status_eq find any cryptoaibot.Common.update make_client_order_id
    cryptoaibot.Engine.Ids.safe_prefix cryptoaibot.Engine.Ids.take_chars
    cryptoaibot.Engine.Ids.filter_chars cryptoaibot.Engine.Ids.len cryptoaibot.Common.show
    ingest_fill cryptoaibot.Engine.Orders.Apply.ingest_found
    cryptoaibot.Engine.Orders.Apply.account_if_new cryptoaibot.Engine.Orders.Apply.account_for
    cryptoaibot.Engine.Orders.Apply.fill_for cryptoaibot.Engine.Orders.Apply.time_or
    cryptoaibot.Engine.Orders.Apply.order_of_fill cryptoaibot.Engine.Orders.Apply.by_client_id
    cryptoaibot.Engine.Orders.Apply.or_exchange_id cryptoaibot.Engine.Orders.Apply.report_anomalies
    cryptoaibot.Positions.Service.apply_fill cryptoaibot.Positions.Accounting.apply_fill_to_position
    cryptoaibot.Positions.Accounting.assets cryptoaibot.Store.Fills.insert_fill
    cryptoaibot.Store.Fills.insert_row same_execution cryptoaibot.Store.Positions.save_position
    cryptoaibot.Store.Positions.upsert_position cryptoaibot.Positions.Accounting.apply_sides
    cryptoaibot.Positions.Accounting.buy_fill cryptoaibot.Decimal.le_dec
    cryptoaibot.Positions.Accounting.received cryptoaibot.Positions.Accounting.fee_in
    cryptoaibot.Decimal.◌-ᵈ◌ fill_exists
recorded = refl

ingest_fill_once_example :
    let later = perform_all cfg py after_that after_fill in
    ingest_fill unreachable "bot" fill later ≡ (ok false, later)
ingest_fill_once_example = ingest_fill_once cfg py after_that after_fill unreachable fill recorded

abbrev event : NormalizedStreamEvent
event = record {
  kind = EventKind.order report none;
  event_key = "e1";
  event_type = "executionReport";
}

-- A ledger that has applied the event.
abbrev heard : World
heard = record with_order {
  db = record with_order.db {
    processed_events =
        record { event_key = "e1"; source = "ws"; event_type = "executionReport"; received_at = 0 }
        ∷ [];
  };
}

known_event : any (λ p. str_eq p.event_key "e1") heard.db.processed_events ≡ true
unfolding any
known_event = refl

known_order :
    order_of_report "binance" report (perform_all cfg py (Operation.wait 5 ∷ []) heard).db
    ≡ some order
unfolding order_of_report cryptoaibot.Engine.Orders.Apply.or_exchange_id
    cryptoaibot.Store.Orders.get_order find perform_all cryptoaibot.Engine.System.perform
    cryptoaibot.Store.Orders.has_order_id
known_order = refl

handle_once_example :
    let later = perform_all cfg py (Operation.wait 5 ∷ []) heard in
    handle unreachable cfg py event "ws" later ≡ (ok (done Outcome.duplicate), later)
handle_once_example =
    handle_once cfg py (Operation.wait 5 ∷ []) heard unreachable event "ws" report none order
      known_event refl known_order

-- The state of a bot that was halted.
abbrev pub halted_state : ReconciliationState
halted_state = record (never_reconciled "bot") { status = halted; updated_at = some 0 }

verdict_healthy_iff_example : ((verdict no_findings halted_state true).0 ≡ healthy) ↔ (
    (is_nonempty (criticals []) ≡ false)
    × (place ≡ place)
    × ((is_halted halted && not true) ≡ false))
verdict_healthy_iff_example = verdict_healthy_iff no_findings halted_state true

abbrev pub halted_world : World
halted_world = record (fresh 0) {
  db = record empty_database { reconciliation_state = halted_state ∷ [] };
}

abbrev pub failure : ReconResult
failure = record {
  status = degraded;
  reason = "reconciliation failed: Error: timeout";
  mismatches = [];
}

pub run_fails : (run unreachable cfg py "r1" "startup" false halted_world).0 ≡ ok failure
unfolding run ◌>>=◌ cryptoaibot.Engine.Recon.Service.set_state
    cryptoaibot.Store.Recon.save_recon_state cryptoaibot.Store.Transaction.transaction
    cryptoaibot.Store.Recon.write_state cryptoaibot.Engine.Recon.Service.checks
    cryptoaibot.Engine.Recon.Checks.ask cryptoaibot.Engine.Executor.request
    cryptoaibot.Engine.Recon.Service.conclude cryptoaibot.Engine.Recon.Service.persist_run
    cryptoaibot.Store.Recon.record_recon_run cryptoaibot.Store.Recon.insert_run any
    cryptoaibot.Store.Outbox.enqueue cryptoaibot.Store.Outbox.insert_message
    cryptoaibot.Engine.Ids.take_chars
run_fails = refl

run_stores_verdict_example :
    (get_recon_state "bot" (run unreachable cfg py "r1" "startup" false halted_world).1.db).status
    ≡ degraded
run_stores_verdict_example =
    run_stores_verdict unreachable cfg py "r1" "startup" false halted_world failure run_fails

abbrev desk : Desk
desk = record { kv = []; requests = 0 }

abbrev bought : SubmitOutcome
bought = acceptance (record_for zero_dec order rules (dec 5 0) 0)

-- Two attempts to sell: the first came to nothing, the second was canceled after a fill.
abbrev sold_in_part : Order
sold_in_part = record order {
  client_intent_id = "b:1";
  status = canceled;
  executed_quantity = dec 1 0;
}

abbrev two_attempts : Database
two_attempts = record empty_database {
  orders = record order { client_intent_id = "b:0"; status = canceled } ∷ sold_in_part ∷ [];
}

second_attempt : get_order_by_intent ("b" <> ":" <> show 1) two_attempts ≡ some sold_in_part
unfolding get_order_by_intent find cryptoaibot.Store.Orders.has_intent_id show
second_attempt = refl

stays : next_intent_id "b" exit two_attempts ≡ some "b:1"
unfolding next_intent_id cryptoaibot.Engine.Trading.first_usable
    cryptoaibot.Engine.Trading.max_attempts cryptoaibot.Engine.Trading.may_retry get_order_by_intent
    find cryptoaibot.Store.Orders.has_intent_id show cryptoaibot.Decimal.eq_dec
stays = refl

next_intent_id_stops_example :
    (n : ℕ) × (n ≤ 1) × (n < max_attempts exit) × ("b:1" ≡ "b" <> ":" <> show n)
unfolding cryptoaibot.Decimal.eq_dec
next_intent_id_stops_example =
    next_intent_id_stops "b" exit two_attempts 1 sold_in_part "b:1" second_attempt refl stays
