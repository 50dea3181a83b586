-- ===== src/Samples/Conflict.antt =====
-- A filled order, and an event that says it was canceled.
use cryptoaibot.Common.{◌≡◌, ◌≢◌, refl, sym, ◌∙◌, none, [], ◌∷◌, any, find}
use cryptoaibot.Exec.{Result, ok, ◌>>=◌}
use cryptoaibot.Decimal.{dec}
use cryptoaibot.Domain.Enums.{filled, canceled}
use cryptoaibot.Domain.Events.{ExchangeOrderReport}
use cryptoaibot.Domain.Order.{Order}
use cryptoaibot.Store.Tables.{World}
use cryptoaibot.Engine.Stream.{
  NormalizedStreamEvent, EventKind, Outcome, IngestResult, done, needs, handle,
}
use cryptoaibot.Engine.System.Events.{handle_all_or_nothing}
use cryptoaibot.Samples.{cfg, py, order, report, unreachable, with_order}

abbrev filled_world : World
filled_world = record with_order {
  db = record cryptoaibot.Store.Tables.empty_database {
    orders = record order { status = filled; executed_quantity = dec 2 0 } ∷ [];
  };
}

abbrev canceled_report : ExchangeOrderReport
canceled_report = record report { status = canceled }

abbrev event : NormalizedStreamEvent
event = record {
  event_key = "e9";
  event_type = "executionReport";
  kind = EventKind.order canceled_report none;
}

conflicts : (handle unreachable cfg py event "ws" filled_world).0 ≡ ok (needs Outcome.conflict)
unfolding handle cryptoaibot.Engine.Stream.handle_kind ◌>>=◌ cryptoaibot.Engine.Stream.handle_order
    cryptoaibot.Engine.Orders.Apply.order_of_report cryptoaibot.Engine.Orders.Apply.or_exchange_id
    cryptoaibot.Store.Orders.get_order find cryptoaibot.Store.Orders.has_order_id
    cryptoaibot.Exec.try_except cryptoaibot.Engine.Stream.apply_event
    cryptoaibot.Store.Transaction.transaction cryptoaibot.Store.Recon.mark_event_processed
    cryptoaibot.Store.Recon.insert_event any cryptoaibot.Engine.Stream.apply_new
    cryptoaibot.Engine.Orders.Apply.apply_report cryptoaibot.Engine.Orders.Apply.apply_found
    cryptoaibot.Engine.Orders.Apply.apply_result cryptoaibot.Domain.Order.apply_report
    cryptoaibot.Domain.Order.take_status cryptoaibot.Domain.Order.was_not_found
    cryptoaibot.Domain.Enums.status_eq cryptoaibot.Domain.Order.take_quantities
    cryptoaibot.Decimal.lt_dec cryptoaibot.Domain.Order.rank cryptoaibot.Domain.Order.contradicts
    cryptoaibot.Engine.Orders.Apply.settle cryptoaibot.Engine.Orders.Apply.record_conflict
    cryptoaibot.Exec.when cryptoaibot.Store.Transaction.in_transaction
    cryptoaibot.Engine.Stream.after_conflict cryptoaibot.Engine.Messages.enqueue_event
    cryptoaibot.Store.Outbox.enqueue cryptoaibot.Store.Outbox.insert_message
    cryptoaibot.Store.Outbox.has_idempotency_key
conflicts = refl

not_applied : (ok (needs Outcome.conflict)) ≢ (ok (done Outcome.applied))
not_applied h = cc h

handle_all_or_nothing_example :
    ((handle unreachable cfg py event "ws" filled_world).1.db.orders ≡ filled_world.db.orders)
    × ((handle unreachable cfg py event "ws" filled_world).1.db.fills ≡ [])
    × ((handle unreachable cfg py event "ws" filled_world).1.db.processed_events ≡ [])
handle_all_or_nothing_example =
    handle_all_or_nothing unreachable cfg py event "ws" canceled_report none filled_world refl refl
      (λ h. not_applied (sym conflicts ∙ h))
