-- ===== src/Store/Orders.antt =====
-- engine/infrastructure/store.py: `order_intents` and `orders`.
use mathlib.Core.List.{reverse}
use cryptoaibot.Common.{
  String, ◌<>◌, ℕ, ◌+◌, Bool, false, not, ◌&&◌, ◌||◌, Option, none, some, List, [], ◌∷◌, ◌++◌,
  str_eq, opt_str_eq, truthy, is_some, ◌==◌, if◌then◌else◌, length, find, any, select, update, take,
}
use cryptoaibot.Exec.{ok, err, concurrent_modification, integrity_error}
use cryptoaibot.Decimal.{zero_dec}
use cryptoaibot.Domain.Enums.{is_terminal}
use cryptoaibot.Domain.Order.{Order, OrderIntent}
use cryptoaibot.Store.Tables.{Database, Action}
use cryptoaibot.Store.Transaction.{transaction}

-- The row that the INSERT writes: the columns that it does not name have their defaults.
unfoldable pub inserted_row : ℕ → Order → Order
inserted_row id o = record o {
  id = id;
  exchange_order_id = none;
  executed_quantity = zero_dec;
  cumulative_quote_quantity = zero_dec;
  average_fill_price = none;
  submission_ambiguous = false;
  reject_reason = none;
  submitted_at = none;
  acknowledged_at = none;
  last_exchange_update_at = none;
  last_exchange_update_ms = none;
  terminal_at = none;
  raw = [];
  version = 0;
}

-- UNIQUE client_order_id and UNIQUE client_intent_id
unfoldable pub is_duplicate : Order → Order → Bool
is_duplicate o row =
    str_eq row.client_order_id o.client_order_id || str_eq row.client_intent_id o.client_intent_id

unfoldable pub insert_rows : OrderIntent → Order → Action (Option Order)
insert_rows intent o w =
    let d = w.db in
    let id = length d.orders + 1 in
    let intents = d.order_intents ++ intent ∷ [] in
    if any (λ i. str_eq i.client_intent_id intent.client_intent_id) d.order_intents
    then (ok none, w)
    else if any (is_duplicate o) d.orders
    then (err (integrity_error "orders"), record w { db = record d { order_intents = intents } })
    else (
      ok (some (record o { id = id })),
      record w {
        db = record d { order_intents = intents; orders = d.orders ++ inserted_row id o ∷ [] };
      },
    )

-- `insert_intent_and_order`: the order with its id, or `none` (False) if the intent exists.
unfoldable pub insert_intent_and_order : OrderIntent → Order → Action (Option Order)
insert_intent_and_order intent o = transaction (insert_rows intent o)

-- The UPDATE of `save_order`: the columns that it sets, and the version.
unfoldable pub saved_row : Order → Order → Order
saved_row o row = record row {
  exchange_order_id = o.exchange_order_id;
  executed_quantity = o.executed_quantity;
  cumulative_quote_quantity = o.cumulative_quote_quantity;
  average_fill_price = o.average_fill_price;
  status = o.status;
  submission_ambiguous = o.submission_ambiguous;
  reject_reason = o.reject_reason;
  submitted_at = o.submitted_at;
  acknowledged_at = o.acknowledged_at;
  last_exchange_update_at = o.last_exchange_update_at;
  last_exchange_update_ms = o.last_exchange_update_ms;
  terminal_at = o.terminal_at;
  raw = o.raw;
  version = row.version + 1;
}

-- `WHERE id=? AND version=?`
unfoldable pub is_row : Order → Order → Bool
is_row o row = row.id == o.id && row.version == o.version

-- UNIQUE (exchange, exchange_order_id) where the latter is not null
unfoldable pub takes_exchange_id : Order → Order → Bool
takes_exchange_id o row =
    not (row.id == o.id)
    && (str_eq row.exchange o.exchange
        && (is_some o.exchange_order_id && opt_str_eq row.exchange_order_id o.exchange_order_id))

unfoldable pub update_row : Order → Action Order
update_row o w =
    let d = w.db in
    if not (any (is_row o) d.orders)
    then (
      err (concurrent_modification ("order " <> o.client_order_id <> " changed concurrently")),
      w,
    )
    else if any (takes_exchange_id o) d.orders
    then (err (integrity_error "idx_orders_exchange_id"), w)
    else (
      ok (record o { version = o.version + 1 }),
      record w { db = record d { orders = update (is_row o) (saved_row o) d.orders } },
    )

-- `save_order`: the order with its new version.
unfoldable pub save_order : Order → Action Order
save_order o = transaction (update_row o)

unfoldable pub has_order_id : String → Order → Bool
has_order_id coid o = str_eq o.client_order_id coid

unfoldable pub has_intent_id : String → Order → Bool
has_intent_id iid o = str_eq o.client_intent_id iid

unfoldable pub get_order : String → Database → Option Order
get_order coid d = find (has_order_id coid) d.orders

unfoldable pub get_order_by_intent : String → Database → Option Order
get_order_by_intent iid d = find (has_intent_id iid) d.orders

unfoldable pub get_order_by_exchange_id : String → String → Database → Option Order
get_order_by_exchange_id exchange xid d =
    find (λ o. str_eq o.exchange exchange && opt_str_eq o.exchange_order_id (some xid)) d.orders

-- `SELECT signal_id FROM order_intents ...`
unfoldable pub intent_signal_id : String → Database → Option String
intent_signal_id iid d = elim (find (λ i. str_eq i.client_intent_id iid) d.order_intents) [
  | none ↦ none
  | some i ↦ i.signal_id
]

is_live_row : String → Option String → Order → Bool
is_live_row bot symbol o =
    str_eq o.bot_instance_id bot
    && (not (is_terminal o.status) && (not (truthy symbol) || opt_str_eq (some o.symbol) symbol))

unfoldable pub non_terminal_orders : String → Option String → Database → List Order
unfolding is_live_row
non_terminal_orders bot symbol d = select (is_live_row bot symbol) d.orders

-- `ORDER BY id DESC LIMIT ?`
unfoldable pub orders : String → Option String → ℕ → Database → List Order
orders bot symbol limit d = take limit (
    reverse (
      select
        (λ o.
          str_eq o.bot_instance_id bot
          && (not (truthy symbol) || opt_str_eq (some o.symbol) symbol))
        d.orders))
