-- ===== src/Store/Fills.antt =====
-- engine/infrastructure/store.py: `fills`.
use cryptoaibot.Common.{
  String, ℕ, ◌+◌, Bool, ◌&&◌, ◌||◌, Option, none, some, is_some, List, [], ◌∷◌, ◌++◌, leb, str_eq,
  opt_str_eq, ◌==◌, if◌then◌else◌, length, any, select,
}
use cryptoaibot.Exec.{ok}
use cryptoaibot.Domain.Order.{Order}
use cryptoaibot.Domain.Position.{Fill}
use cryptoaibot.Store.Tables.{Database, Action}
use cryptoaibot.Store.Transaction.{transaction}

-- UNIQUE event_key, and UNIQUE (order_id, exchange_trade_id) where the latter is not null
unfoldable pub same_execution : Fill → Fill → Bool
same_execution f row =
    str_eq row.event_key f.event_key
    || (row.order_id == f.order_id
        && (is_some f.exchange_trade_id && opt_str_eq row.exchange_trade_id f.exchange_trade_id))

unfoldable pub insert_row : Fill → Action (Option Fill)
insert_row f w =
    let d = w.db in
    let stored = record f { id = length d.fills + 1 } in
    if any (same_execution f) d.fills
    then (ok none, w)
    else (ok (some stored), record w { db = record d { fills = d.fills ++ stored ∷ [] } })

-- `insert_fill`: the fill with its id, or `none` (False) if INSERT OR IGNORE ignored it.
unfoldable pub insert_fill : Fill → Action (Option Fill)
insert_fill f = transaction (insert_row f)

unfoldable pub fill_exists : String → Database → Bool
fill_exists key d = any (λ f. str_eq f.event_key key) d.fills

-- `ORDER BY f.execution_time, f.id`: the rows stand in the order of their ids.
insert_by_time : Fill → List Fill → List Fill
insert_by_time f [] = f ∷ []
insert_by_time f (g ∷ gs) =
    let rest = g ∷ insert_by_time f gs in
    if leb f.execution_time g.execution_time then f ∷ g ∷ gs else rest

unfoldable pub by_time : List Fill → List Fill
unfolding insert_by_time
by_time [] = []
by_time (f ∷ fs) = insert_by_time f (by_time fs)

-- The JOIN with the bot's orders.
belongs_to : String → List Order → Fill → Bool
belongs_to bot rows f = any (λ o. o.id == f.order_id && str_eq o.bot_instance_id bot) rows

unfoldable pub fills : String → String → Database → List Fill
unfolding belongs_to
fills bot symbol d =
    by_time (select (λ f. belongs_to bot d.orders f && str_eq f.symbol symbol) d.fills)

unfoldable pub fills_for_order : ℕ → Database → List Fill
fills_for_order id d = select (λ f. f.order_id == id) d.fills
