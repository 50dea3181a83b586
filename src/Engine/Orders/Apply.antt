-- ===== src/Engine/Orders/Apply.antt =====
-- engine/application/order_service.py: applying exchange data. The section's parameters are
-- `self.executor` and `self.bot`.
use cryptoaibot.Common.{
  String, ◌<>◌, ℕ, zero, suc, ◌*◌, Bool, true, false, not, Option, none, some, List, [], ◌∷◌,
  truthy, show, if◌then◌else◌,
}
use cryptoaibot.Exec.{
  Result, ok, err, illegal_transition, order_conflict, pure, raise, gets, ◌>>=◌, ◌>>◌, when,
  for_each,
}
use cryptoaibot.Decimal.{Decimal, zero_dec, ◌+ᵈ◌}
use cryptoaibot.Domain.Enums.{critical, status_value}
use cryptoaibot.Domain.Events.{ExchangeOrderReport, ExchangeFill}
use cryptoaibot.Domain.Order
use cryptoaibot.Domain.Order.{Order}
use cryptoaibot.Domain.Position.{Fill}
use cryptoaibot.Positions.Service.{apply_fill}
use cryptoaibot.Store.Tables.{Database, Action, Kind, Payload}
use cryptoaibot.Store.Transaction.{transaction, in_transaction}
use cryptoaibot.Store.Orders.{get_order, get_order_by_exchange_id, intent_signal_id, save_order}
use cryptoaibot.Store.Fills.{insert_fill, fills_for_order}
use cryptoaibot.Store.Outbox.{enqueue}
use cryptoaibot.Engine.Messages.{order_payload, fill_payload, position_payload, enqueue_event}
use cryptoaibot.Engine.Executor.{Executor, request}

-- `_enqueue_order`
unfoldable pub enqueue_order : Order → Action (Unit {0})
enqueue_order o = do
  signal ← gets (λ w. intent_signal_id o.client_intent_id w.db)
  enqueue Kind.orders ("order:" <> o.client_order_id <> ":v" <> show o.version)
      (Payload.order (order_payload o signal))
  pure tt

-- `get_order_by_exchange_id`, where there is an exchange id
unfoldable pub by_exchange_id : String → Option String → Database → Option Order
by_exchange_id exchange none d = none
by_exchange_id exchange (some xid) d =
    if truthy (some xid) then get_order_by_exchange_id exchange xid d else none

unfoldable pub or_exchange_id : Option Order → String → Option String → Database → Option Order
or_exchange_id (some o) exchange xid d = some o
or_exchange_id none exchange xid d = by_exchange_id exchange xid d

-- The order that a report is about, and the order that a fill is about.
unfoldable pub order_of_report : String → ExchangeOrderReport → Database → Option Order
order_of_report exchange r d =
    or_exchange_id (get_order r.client_order_id d) exchange r.exchange_order_id d

unfoldable pub by_client_id : Option String → Database → Option Order
by_client_id none d = none
by_client_id (some coid) d = if truthy (some coid) then get_order coid d else none

unfoldable pub order_of_fill : String → ExchangeFill → Database → Option Order
order_of_fill exchange xf d =
    or_exchange_id (by_client_id xf.client_order_id d) exchange xf.exchange_order_id d

-- What the transaction of `apply_report` leaves: no such order, the order, or a conflict with its
-- client order id and the exception's text.
pub data Applied : Type 0 where
  missing : Applied
  applied : Order → Applied
  conflicted : String → String → Applied

unfoldable pub save_if : Bool → Order → Action Applied
save_if false o = pure (applied o)
save_if true o = do saved ← save_order o; enqueue_order saved; pure (applied saved)

-- `except IllegalTransition`
unfoldable pub apply_result : String → Result (Bool × Order) → Action Applied
apply_result coid (ok (changed, o)) = save_if changed o
apply_result coid (err (illegal_transition m)) = pure (conflicted coid m)
apply_result coid (err e) = raise e

unfoldable pub apply_found : ExchangeOrderReport → Option Order → Action Applied
apply_found r none = pure missing
apply_found r (some o) = do
  now ← gets (λ w. w.now)
  apply_result o.client_order_id (Order.apply_report r now o)

-- `fromtimestamp(ms / 1000)`, or the clock where the time is zero
unfoldable pub time_or : ℕ → ℕ → ℕ
time_or zero now = now
time_or (suc ms) now = suc ms * 1000

-- `Fill(...)` of an execution on a known order
unfoldable pub fill_for : ExchangeFill → ℕ → Order → Fill
fill_for xf now o = record {
  order_id = o.id;
  client_order_id = o.client_order_id;
  symbol = o.symbol;
  side = o.side;
  quantity = xf.quantity;
  price = xf.price;
  quote_quantity = xf.quote_quantity;
  commission = xf.commission;
  commission_asset = xf.commission_asset;
  execution_time = time_or xf.execution_time_ms now;
  event_key = xf.event_key;
  exchange_trade_id = some xf.exchange_trade_id;
  id = 0;
}

abbrev pub join_comma : List String → String
join_comma [] = ""
join_comma (s ∷ []) = s
join_comma (s ∷ (t ∷ rest)) = s <> "," <> join_comma (t ∷ rest)

module _ (x : Executor) (bot : String) where
  -- Inside a caller's transaction nothing is recorded: the caller does it after its rollback.
  unfoldable pub record_conflict : String → String → String → Action (Unit {0})
  record_conflict coid exchange_status text = do
    inside ← gets in_transaction
    when (not inside) (
        enqueue_event bot "ORDER_STATE_CONFLICT" text critical
          ("conflict:" <> coid <> ":" <> exchange_status) true)

  unfoldable pub settle : ExchangeOrderReport → Applied → Action (Option Order)
  settle r missing = pure none
  settle r (applied o) = pure (some o)
  settle r (conflicted coid text) = do
    record_conflict coid (status_value r.status) text
    raise (order_conflict text)

  -- `OrderService.apply_report`
  unfoldable pub apply_report : ExchangeOrderReport → Action (Option Order)
  apply_report r = do
    outcome ←
        transaction
          do found ← gets (λ w. order_of_report x.exchange_name r w.db); apply_found r found
    settle r outcome

  unfoldable pub report_anomalies : Fill → List String → Action (Unit {0})
  report_anomalies f [] = pure tt
  report_anomalies f (a ∷ as') =
      enqueue_event bot "POSITION_ANOMALY" (join_comma (a ∷ as')) critical
        ("anomaly:" <> f.event_key) true

  -- The fill is new: the position and the messages follow in the same transaction.
  unfoldable pub account_for : Fill → Action Bool
  account_for f = do
    result ← apply_fill bot f
    enqueue Kind.fills ("fill:" <> f.event_key) (Payload.fill (fill_payload f))
    enqueue Kind.positions ("position:" <> f.symbol <> ":fill:" <> f.event_key)
        (Payload.position (position_payload result.position))
    report_anomalies f result.anomalies
    pure true

  unfoldable pub account_if_new : Option Fill → Action Bool
  account_if_new none = pure false
  account_if_new (some f) = account_for f

  unfoldable pub ingest_found : ExchangeFill → Option Order → Action Bool
  ingest_found xf none = pure false
  ingest_found xf (some o) = do
    now ← gets (λ w. w.now)
    stored ← insert_fill (fill_for xf now o)
    account_if_new stored

  -- `OrderService.ingest_fill`
  unfoldable pub ingest_fill : ExchangeFill → Action Bool
  ingest_fill xf =
      transaction
        do found ← gets (λ w. order_of_fill x.exchange_name xf w.db); ingest_found xf found

  unfoldable pub ingest_each : ExchangeFill → Action (Unit {0})
  ingest_each xf = do ingest_fill xf; pure tt

  -- `_ingest_order_fills`
  unfoldable pub ingest_order_fills : Option Order → Action (Unit {0})
  ingest_order_fills none = pure tt
  ingest_order_fills (some o) =
      when (truthy o.exchange_order_id) do fs ← request (x.query_fills o); for_each ingest_each fs

unfoldable pub sum_quantities : Decimal → List Fill → Decimal
sum_quantities acc [] = acc
sum_quantities acc (f ∷ fs) = sum_quantities (acc +ᵈ f.quantity) fs

unfoldable pub fill_quantity : Order → Database → Decimal
fill_quantity o d = sum_quantities zero_dec (fills_for_order o.id d)
