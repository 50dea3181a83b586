-- ===== src/Engine/Orders/Submit.antt =====
-- engine/application/order_service.py: submission, ambiguity, refresh and cancellation.
use cryptoaibot.Common.{
  String, ◌<>◌, ℕ, ◌+◌, ◌-◌, ◌*◌, ◌/◌, Bool, true, false, Option, none, some, List, [], ltb, show,
  option_or, if◌then◌else◌,
}
use cryptoaibot.Exec.{
  Error, order_conflict, attribute_error, message, pure, raise, lift, gets, ◌>>=◌, ◌>>◌, try_except,
  for_each, or_raise,
}
use cryptoaibot.Decimal.{zero_dec}
use cryptoaibot.Domain.Enums.{warning, SubmitOutcomeKind, intent_created, is_terminal}
use cryptoaibot.Domain.Events.{ExchangeOrderReport, ExchangeFill, SubmitOutcome}
use cryptoaibot.Domain.Order.{Order, OrderIntent, mark_submitting, mark_rejected, not_found_reason}
use cryptoaibot.Domain.Recon.{microseconds_per_second}
use cryptoaibot.Domain.Rules.{SymbolRules, round_qty}
use cryptoaibot.Store.Tables.{Action}
use cryptoaibot.Store.Transaction.{transaction}
use cryptoaibot.Store.Orders.{get_order, get_order_by_intent, insert_intent_and_order, save_order}
use cryptoaibot.Engine.Config.{Config, Platform}
use cryptoaibot.Engine.Ids.{make_client_order_id, take_chars}
use cryptoaibot.Engine.Messages.{enqueue_event}
use cryptoaibot.Engine.Executor.{Executor, request}
use cryptoaibot.Engine.Orders.Apply.{enqueue_order, apply_report, ingest_each, ingest_order_fills}

-- `get_order(...)`, used as an object: `None` has no attributes.
unfoldable pub fetch : String → Action Order
fetch coid = do found ← gets (λ w. get_order coid w.db); or_raise found (attribute_error "NoneType")

unfoldable pub save_rejection : Bool × Order → Action (Unit {0})
save_rejection (false, o) = pure tt
save_rejection (true, o) = do saved ← save_order o; enqueue_order saved

-- The order, reread, is rejected with a reason unless it is terminal.
unfoldable pub reject : String → String → Action (Unit {0})
reject coid reason = transaction do
  fresh ← fetch coid
  now ← gets (λ w. w.now)
  marked ← lift (mark_rejected reason now fresh)
  save_rejection marked

-- `f"{error_code or ''} {error or 'rejected'}".strip()`, for an error with no blanks at its ends
unfoldable pub reject_text : Option String → Option String → String
reject_text none error = option_or error "rejected"
reject_text (some code) error = code <> " " <> option_or error "rejected"

pub data Resolution : Type 0 where
  resolved pending : Resolution

-- A query that raised says as much as no answer yet.
pub data Answer : Type 0 where
  answered : Option ExchangeOrderReport → Answer
  failed : Answer

-- `Order(...)` of an intent, before it has an id
unfoldable pub order_for : Executor → Config → Platform → OrderIntent → SymbolRules → Order
order_for x cfg py intent rules = record {
  bot_instance_id = cfg.bot_instance_id;
  exchange = x.exchange_name;
  symbol = intent.symbol;
  side = intent.side;
  order_type = intent.order_type;
  purpose = intent.purpose;
  client_order_id = make_client_order_id py cfg.client_order_id_prefix intent.client_intent_id;
  client_intent_id = intent.client_intent_id;
  requested_quantity = round_qty rules intent.quantity;
  status = intent_created;
  id = 0;
  exchange_order_id = none;
  executed_quantity = zero_dec;
  cumulative_quote_quantity = zero_dec;
  average_fill_price = none;
  limit_price = intent.limit_price;
  stop_price = intent.stop_price;
  reference_price = intent.reference_price;
  submission_ambiguous = false;
  reject_reason = none;
  submitted_at = none;
  acknowledged_at = none;
  last_exchange_update_at = none;
  last_exchange_update_ms = none;
  terminal_at = none;
  raw = [];
  version = 0;
}

-- `submitted_at or now`
unfoldable pub since : Option ℕ → ℕ → ℕ
since none now = now
since (some t) now = t

module _ (x : Executor) (cfg : Config) where
  abbrev pub apply_option : Option ExchangeOrderReport → Action (Unit {0})
  apply_option none = pure tt
  apply_option (some r) = do apply_report x cfg.bot_instance_id r; pure tt

  -- `refresh`: the exchange's report, then its fills
  unfoldable pub refresh : Order → Action (Option Order)
  refresh o = do
    report ← request (x.query_order o)
    apply_option report
    known ← gets (λ w. get_order o.client_order_id w.db)
    ingest_order_fills x cfg.bot_instance_id known
    gets (λ w. get_order o.client_order_id w.db)

  -- The part of `resolve_ambiguous` behind the query.
  unfoldable pub resolve_answer : Order → Answer → Action Resolution
  resolve_answer o failed = pure pending
  resolve_answer o (answered (some r)) = do
    apply_report x cfg.bot_instance_id r
    known ← gets (λ w. get_order o.client_order_id w.db)
    ingest_order_fills x cfg.bot_instance_id known
    pure resolved
  resolve_answer o (answered none) = do
    now ← gets (λ w. w.now)
    let sent = since o.submitted_at now
    if ltb now (sent + cfg.ambiguous_order_grace_seconds * microseconds_per_second)
        then pure pending
        else do
          reject o.client_order_id (
              not_found_reason <> " after " <> show ((now - sent) / microseconds_per_second) <> "s")
          pure resolved

  unfoldable pub ask : Order → Action Answer
  ask o = do report ← request (x.query_order o); pure (answered report)

  unfoldable pub resolve_ambiguous : Order → Action Resolution
  resolve_ambiguous o =
      if is_terminal o.status
      then pure resolved
      else do answer ← try_except (ask o) (λ e. pure failed); resolve_answer o answer

  -- `apply_report(outcome.report)` of an acknowledgement
  unfoldable pub acknowledge : Option ExchangeOrderReport → List ExchangeFill → Action (Unit {0})
  acknowledge none fs = raise (attribute_error "NoneType")
  acknowledge (some r) fs = do
    apply_report x cfg.bot_instance_id r
    for_each (ingest_each x cfg.bot_instance_id) fs

  -- The order is flagged, and the exchange is asked before anything else is tried.
  unfoldable pub flag_ambiguous : String → Option String → Action (Unit {0})
  flag_ambiguous coid error = transaction do
    fresh ← fetch coid
    saved ← save_order (record fresh { submission_ambiguous = true })
    enqueue_order saved
    enqueue_event cfg.bot_instance_id "ORDER_SUBMISSION_AMBIGUOUS"
        (coid <> ": " <> option_or error "None") warning ("ambiguous:" <> coid) false

  unfoldable pub resolve_flagged : String → Action (Unit {0})
  resolve_flagged coid = do flagged ← fetch coid; resolve_ambiguous flagged; pure tt

  unfoldable pub handle_kind : String → SubmitOutcomeKind → SubmitOutcome → Action (Unit {0})
  handle_kind coid SubmitOutcomeKind.acknowledged out = acknowledge out.report out.fills
  handle_kind coid SubmitOutcomeKind.rejected out =
      reject coid (reject_text out.error_code out.error)
  handle_kind coid SubmitOutcomeKind.ambiguous out =
      flag_ambiguous coid out.error >> resolve_flagged coid

  -- What `submit_intent` does with the outcome.
  unfoldable pub handle_outcome : String → SubmitOutcome → Action (Unit {0})
  handle_outcome coid out = handle_kind coid out.kind out

  -- An executor that raises has an unknown outcome.
  unfoldable pub submit_safely : Order → SymbolRules → Action SubmitOutcome
  submit_safely o rules = try_except (request (x.submit o rules)) (λ e. pure (record {
    kind = SubmitOutcomeKind.ambiguous;
    report = none;
    fills = [];
    error = some (take_chars 300 (message e));
    error_code = none;
  }))

  unfoldable pub persist_row : Option Order → Action (Option Order)
  persist_row none = pure none
  persist_row (some o) = do saved ← save_order o; enqueue_order saved; pure (some saved)

  -- The transaction before the network call; `none` if the intent was there already.
  unfoldable pub persist : OrderIntent → Order → Action (Option Order)
  persist intent o = transaction do row ← insert_intent_and_order intent o; persist_row row

  unfoldable pub send : OrderIntent → SymbolRules → Option Order → Action (Option Order)
  send intent rules none = gets (λ w. get_order_by_intent intent.client_intent_id w.db)
  send intent rules (some o) = do
    out ← submit_safely o rules
    handle_outcome o.client_order_id out
    gets (λ w. get_order o.client_order_id w.db)

  unfoldable pub submit_new : Platform → OrderIntent → SymbolRules → Action (Option Order)
  submit_new py intent rules = do
    now ← gets (λ w. w.now)
    o ← lift (mark_submitting now (order_for x cfg py intent rules))
    persisted ← persist intent o
    send intent rules persisted

  unfoldable pub submit_once :
      Platform → OrderIntent → SymbolRules → Option Order → Action (Option Order)
  submit_once py intent rules (some existing) = pure (some existing)
  submit_once py intent rules none = submit_new py intent rules

  -- `OrderService.submit_intent`
  unfoldable pub submit_intent : Platform → OrderIntent → SymbolRules → Action (Option Order)
  submit_intent py intent rules = do
    existing ← gets (λ w. get_order_by_intent intent.client_intent_id w.db)
    submit_once py intent rules existing

  -- The handler of `cancel`: a conflict goes on, anything else leaves the order as it is known.
  unfoldable pub after_cancel : String → Error → Action (Option Order)
  after_cancel coid (order_conflict m) = raise (order_conflict m)
  after_cancel coid e = gets (λ w. get_order coid w.db)

  unfoldable pub apply_cancel : SubmitOutcomeKind → Option ExchangeOrderReport → Action (Unit {0})
  apply_cancel SubmitOutcomeKind.acknowledged r = apply_option r
  apply_cancel _ r = pure tt

  unfoldable pub cancel : Order → Action (Option Order)
  cancel o = do
    out ← request (x.cancel o)
    apply_cancel out.kind out.report
    try_except (refresh o) (after_cancel o.client_order_id)
