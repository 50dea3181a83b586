-- ===== src/Engine/System/Run.antt =====
-- The operations, and sequences of them, under a stable invariant.
use cryptoaibot.Common.{List, [], ◌∷◌}
use cryptoaibot.Store.Tables.{World}
use cryptoaibot.Engine.Config.{Config, Platform}
use cryptoaibot.Engine.Keeps.Rules.{Invariant, Holds}
use cryptoaibot.Engine.Keeps.Tables.{IsStable}
use cryptoaibot.Engine.Keeps.Services.{apply_report-Keeps, ingest_fill-Keeps}
use cryptoaibot.Engine.Keeps.Submission.{
  submit_intent-Keeps, resolve_ambiguous-Keeps, refresh-Keeps, cancel-Keeps, handle-Keeps,
}
use cryptoaibot.Engine.Keeps.Reconciliation.{run-Keeps}
use cryptoaibot.Engine.Keeps.Trading.{set_stop-Keeps, mark-Keeps}
use cryptoaibot.Engine.Keeps.Cycle.{run_once-Keeps}
use cryptoaibot.Engine.System.{
  Operation, perform, perform_all, submit_intent, apply_report, ingest_fill, resolve_ambiguous,
  refresh, cancel, handle, reconcile, set_stop, mark, trade, wait,
}

module _ {Q : Invariant} (stable : IsStable Q) (cfg : Config) (py : Platform) where
  perform_keeps : (op : Operation) (w : World) → Holds Q w.db → Holds Q (perform cfg py op w).db
  unfolding perform
  perform_keeps (submit_intent x i rules) w =
      (submit_intent-Keeps stable.safe x cfg py i rules (stable.admits i.purpose)).at w
  perform_keeps (apply_report x r) w = (apply_report-Keeps stable.safe x cfg.bot_instance_id r).at w
  perform_keeps (ingest_fill x xf) w = (ingest_fill-Keeps stable.safe x cfg.bot_instance_id xf).at w
  perform_keeps (resolve_ambiguous x o) w = (resolve_ambiguous-Keeps stable.safe x cfg o).at w
  perform_keeps (refresh x o) w = (refresh-Keeps stable.safe x cfg o).at w
  perform_keeps (cancel x o) w = (cancel-Keeps stable.safe x cfg o).at w
  perform_keeps (handle x ev source) w = (handle-Keeps stable.safe x cfg py ev source).at w
  perform_keeps (reconcile x key reason ack) w =
      (run-Keeps stable.safe x cfg py key reason ack).at w
  perform_keeps (set_stop symbol stop) w =
      (set_stop-Keeps {Q = Q} cfg.bot_instance_id symbol stop).at w
  perform_keeps (mark symbol price) w = (mark-Keeps {Q = Q} cfg.bot_instance_id symbol price).at w
  perform_keeps (trade s given) w = (run_once-Keeps stable cfg py s given).at w
  perform_keeps (wait time) w = λ h. h

  pub perform_all_keeps :
      (ops : List Operation) (w : World) → Holds Q w.db → Holds Q (perform_all cfg py ops w).db
  unfolding perform_all
  perform_all_keeps [] w h = h
  perform_all_keeps (op ∷ ops) w h =
      perform_all_keeps ops (perform cfg py op w) (perform_keeps op w h)
