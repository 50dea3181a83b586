-- ===== src/Samples/Rules.antt =====
-- Concrete inputs of the theorems on orders, positions, the ledger's primitives and the dispatcher.
use cryptoaibot.Common.{
  String, ℕ, ◌+◌, ◌*◌, ◌≤◌, ◌<◌, ◌≡◌, ◌≢◌, ◌⊎◌, refl, arith, Bool, true, false, ◌||◌, ◌↔◌, ◌&&◌,
  not, Option, none, some, List, [], ◌∷◌, find, starts_with, str_eq, if◌then◌else◌,
}
use cryptoaibot.Exec.{ok, err, is_err, control_plane_unavailable}
use cryptoaibot.Decimal.{dec, zero_dec, le_dec, lt_dec}
use cryptoaibot.Domain.Enums.{
  OrderStatus, rejected, filled, new, is_halted, healthy, halted, degraded, SubmitOutcomeKind,
}
use cryptoaibot.Domain.Order.{
  Order, apply_report, rank, was_not_found, contradicts, take_quantities, take_status, take_rest,
  can_transition,
}
use cryptoaibot.Domain.Order.Reports.{apply_report_monotone, apply_report_final}
use cryptoaibot.Domain.Order.Repeats.{apply_report_idempotent, apply_report_raises}
use cryptoaibot.Domain.Position.{Fill, flat_position}
use cryptoaibot.Domain.Recon.{microseconds_per_second}
use cryptoaibot.Positions.Accounting.{apply_fill_to_position, apply_sides, assets, ApplyResult}
use cryptoaibot.Positions.Invariant.{IsSound, apply_fill_to_position-IsSound, flat_position-IsSound}
use cryptoaibot.Positions.Replay.{
  run-eq-replay, SameOutcome, PositionEvent, marked, stopped, run, fills_of,
}
use cryptoaibot.Positions.Service.{replay}
use cryptoaibot.Store.Tables.{World, fresh}
use cryptoaibot.Store.Transaction.{transaction}
use cryptoaibot.Store.Leases.{acquire_lease, take_lease, get_lease}
use cryptoaibot.Store.Leases.Exclusion.{acquire_lease_excludes}
use cryptoaibot.Engine.Dispatch.{Outside, flush}
use cryptoaibot.Engine.Dispatch.Delivery.{flush_excludes}
use cryptoaibot.Engine.Ids.{
  make_client_order_id, own_prefix, safe_prefix, take_chars, filter_chars, len,
  make_client_order_id_fits, own_orders_recognised, own_orders_missed,
}
use cryptoaibot.Samples.{py, order, report}

-- The order after the report.
abbrev acknowledged_order : Order
acknowledged_order = record order {
  exchange_order_id = some "P1";
  status = new;
  last_exchange_update_ms = some 7;
  last_exchange_update_at = some 7000;
  acknowledged_at = some 3;
}

first_report : apply_report report 3 order ≡ ok (true, acknowledged_order)
unfolding apply_report take_status was_not_found cryptoaibot.Domain.Enums.status_eq take_quantities
    lt_dec rank can_transition take_rest cryptoaibot.Common.select
first_report = refl

apply_report_monotone_example :
    (le_dec order.executed_quantity acknowledged_order.executed_quantity ≡ true)
    × (le_dec order.cumulative_quote_quantity acknowledged_order.cumulative_quote_quantity ≡ true)
    × (rank order.status ≤ rank acknowledged_order.status)
apply_report_monotone_example =
    apply_report_monotone report 3 order true acknowledged_order first_report

apply_report_idempotent_example :
    apply_report report 9 acknowledged_order ≡ ok (false, acknowledged_order)
apply_report_idempotent_example =
    apply_report_idempotent report 3 9 order true acknowledged_order first_report

abbrev given_up : Order
given_up = record order {
  status = rejected;
  reject_reason = some "NOT_FOUND_ON_EXCHANGE after 61s";
}

apply_report_raises_example : (is_err (apply_report report 3 given_up) ≡ true) ↔ (
    (cryptoaibot.Domain.Enums.is_terminal given_up.status ≡ true)
    × (report.status ≢ given_up.status)
    × ((cryptoaibot.Domain.Enums.is_terminal report.status ≡ true)
        ⊎ ((given_up.status ≡ rejected)
            × (starts_with "NOT_FOUND_ON_EXCHANGE after 61s" "NOT_FOUND_ON_EXCHANGE" ≡ true))))
apply_report_raises_example = apply_report_raises report 3 given_up

abbrev done_order : Order
done_order = record acknowledged_order {
  status = filled;
  executed_quantity = dec 2 0;
  terminal_at = some 4;
}

late_report : apply_report report 9 done_order ≡ ok (false, done_order)
unfolding apply_report take_status was_not_found cryptoaibot.Domain.Enums.status_eq take_quantities
    lt_dec rank contradicts take_rest
late_report = refl

apply_report_final_example : done_order.status ≡ done_order.status
apply_report_final_example =
    apply_report_final report 9 done_order false done_order late_report refl

-- A purchase of two at five.
abbrev bought : Fill
bought = record {
  order_id = 1;
  client_order_id = "cb1-i1";
  symbol = "BTC/USDT";
  side = "BUY";
  quantity = dec 2 0;
  price = dec 5 0;
  quote_quantity = dec 10 0;
  commission = zero_dec;
  commission_asset = none;
  execution_time = 7;
  event_key = "k1";
  exchange_trade_id = some "T1";
  id = 1;
}

abbrev purchase : ApplyResult
purchase = apply_sides "BTC" "USDT" bought (flat_position "bot" "BTC/USDT")

buys : apply_fill_to_position (flat_position "bot" "BTC/USDT") bought ≡ ok purchase
unfolding apply_fill_to_position assets
buys = refl

apply_fill_to_position-IsSound_example : IsSound purchase.position
apply_fill_to_position-IsSound_example =
    apply_fill_to_position-IsSound (flat_position "bot" "BTC/USDT") bought purchase
      (flat_position-IsSound "bot" "BTC/USDT") buys

abbrev history : List PositionEvent
history = marked (dec 6 0) ∷ PositionEvent.filled bought ∷ stopped (dec 4 0) ∷ []

run-eq-replay_example :
    SameOutcome
      (run history (flat_position "bot" "BTC/USDT") [])
      (replay (fills_of history) (flat_position "bot" "BTC/USDT") [])
run-eq-replay_example =
    run-eq-replay history (flat_position "bot" "BTC/USDT") (flat_position "bot" "BTC/USDT") []
      (record { quantity = refl; entry = refl; realized = refl; fees = refl; opened = refl })

first_owner : (acquire_lease "outbox-dispatch" "a" 60 (fresh 0)).0 ≡ ok true
unfolding acquire_lease transaction take_lease get_lease find
first_owner = refl

-- A second later, with the first owner's lease.
abbrev a_second_later : World
a_second_later = record (acquire_lease "outbox-dispatch" "a" 60 (fresh 0)).1 {
  now = microseconds_per_second;
}

acquire_lease_excludes_example :
    acquire_lease "outbox-dispatch" "b" 60 a_second_later ≡ (ok false, a_second_later)
acquire_lease_excludes_example =
    acquire_lease_excludes "outbox-dispatch" "a" "b" 60 60 (fresh 0) a_second_later first_owner refl
      refl (omega arith)

abbrev silent : Outside
silent = record {
  has_notifier = true;
  deliver = λ row n. (err (control_plane_unavailable "timeout"), 5);
}

flush_excludes_example : flush silent 50 "b" 200 a_second_later ≡ (ok 0, a_second_later)
flush_excludes_example =
    flush_excludes silent 50 "a" "b" 200 (fresh 0) a_second_later first_owner refl refl
      (omega arith)

make_client_order_id_fits_example : len (make_client_order_id py "cb1" "i1") ≤ 36
make_client_order_id_fits_example = make_client_order_id_fits py "cb1" "i1"

has_prefix : str_eq (safe_prefix py "cb1") "" ≡ false
unfolding safe_prefix take_chars filter_chars
has_prefix = refl

own_orders_recognised_example :
    starts_with (make_client_order_id py "cb1" "i1") (own_prefix py "cb1") ≡ true
own_orders_recognised_example = own_orders_recognised py "cb1" "i1" has_prefix

has_no_prefix : str_eq (safe_prefix py "--") "" ≡ true
unfolding safe_prefix take_chars filter_chars
has_no_prefix = refl

own_orders_missed_example :
    starts_with (make_client_order_id py "--" "i1") (own_prefix py "--") ≡ false
own_orders_missed_example = own_orders_missed py "--" "i1" has_no_prefix
