-- ===== src/Engine/System/Creation.antt =====
-- Which operations of the engine may create an order.
use cryptoaibot.Common.{◌≡◌, refl, ◌&&◌, not, Bool, true, false, List, [], ◌∷◌, arith}
use cryptoaibot.Domain.Enums.{OrderPurpose}
use cryptoaibot.Store.Tables.{World}
use cryptoaibot.Engine.Config.{Config, Platform}
use cryptoaibot.Engine.Keeps.Rules.{Invariant, Holds}
use cryptoaibot.Engine.Keeps.Tables.{IsSafe}
use cryptoaibot.Engine.Keeps.Services.{apply_report-Keeps, ingest_fill-Keeps}
use cryptoaibot.Engine.Keeps.Submission.{
  resolve_ambiguous-Keeps, refresh-Keeps, cancel-Keeps, handle-Keeps,
}
use cryptoaibot.Engine.Keeps.Reconciliation.{run-Keeps}
use cryptoaibot.Engine.Keeps.Trading.{set_stop-Keeps, mark-Keeps}
use cryptoaibot.Engine.System.{
  Operation, perform, perform_all, submit_intent, apply_report, ingest_fill, resolve_ambiguous,
  refresh, cancel, handle, reconcile, set_stop, mark, trade, wait,
}
use cryptoaibot.Engine.Trading.Policy.{orders_with, Unchanged-IsSafe}

abbrev pub is_submission : Operation → Bool
is_submission (submit_intent x i rules) = true
is_submission (trade s given) = true
is_submission _ = false

abbrev pub no_submission : List Operation → Bool
no_submission [] = true
no_submission (op ∷ ops) = not (is_submission op) && no_submission ops

module _ {Q : Invariant} (safe : IsSafe Q) (cfg : Config) (py : Platform) where
  perform_safe :
      (op : Operation) (w : World)
      → is_submission op ≡ false
      → Holds Q w.db
      → Holds Q (perform cfg py op w).db
  unfolding perform
  perform_safe (submit_intent x i rules) w quiet = cc quiet
  perform_safe (trade s given) w quiet = cc quiet
  perform_safe (apply_report x r) w quiet = (apply_report-Keeps safe x cfg.bot_instance_id r).at w
  perform_safe (ingest_fill x xf) w quiet = (ingest_fill-Keeps safe x cfg.bot_instance_id xf).at w
  perform_safe (resolve_ambiguous x o) w quiet = (resolve_ambiguous-Keeps safe x cfg o).at w
  perform_safe (refresh x o) w quiet = (refresh-Keeps safe x cfg o).at w
  perform_safe (cancel x o) w quiet = (cancel-Keeps safe x cfg o).at w
  perform_safe (handle x ev source) w quiet = (handle-Keeps safe x cfg py ev source).at w
  perform_safe (reconcile x key reason ack) w quiet = (run-Keeps safe x cfg py key reason ack).at w
  perform_safe (set_stop symbol stop) w quiet =
      (set_stop-Keeps {Q = Q} cfg.bot_instance_id symbol stop).at w
  perform_safe (mark symbol price) w quiet =
      (mark-Keeps {Q = Q} cfg.bot_instance_id symbol price).at w
  perform_safe (wait time) w quiet = λ h. h

  perform_all_safe :
      (ops : List Operation) (w : World)
      → no_submission ops ≡ true
      → Holds Q w.db
      → Holds Q (perform_all cfg py ops w).db
  unfolding perform_all
  perform_all_safe [] w quiet h = h
  perform_all_safe (op ∷ ops) w quiet h =
      perform_all_safe ops (perform cfg py op w) (ground (arith, quiet))
        (perform_safe op w (ground (arith, quiet)) h)

-- Only submissions and trading cycles create orders: whatever else the engine does, and whatever the
-- exchange answers, the orders with any given purposes stay the same ones, in the same places.
pub only_submissions_create :
    (q : OrderPurpose → Bool) (cfg : Config) (py : Platform) (ops : List Operation) (w : World)
    → no_submission ops ≡ true
    → orders_with q (perform_all cfg py ops w).db.orders ≡ orders_with q w.db.orders
only_submissions_create q cfg py ops w quiet =
    perform_all_safe (Unchanged-IsSafe q (orders_with q w.db.orders)) cfg py ops w quiet refl
