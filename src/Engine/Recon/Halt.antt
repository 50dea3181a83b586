-- ===== src/Engine/Recon/Halt.antt =====
-- engine/application/reconciliation_service.py: what becomes of HALTED where an exception ends a run.
use cryptoaibot.Common.{String, ℕ, ◌≡◌, ap, ◌∙◌, sym, ◌<>◌, Bool, true, false, ◌&&◌}
use cryptoaibot.Exec.{Error, ok, ok-injective, pure-eq-ok, gets, ◌>>=◌, bind-eq-ok}
use cryptoaibot.Domain.Enums.{
  ReconciliationStatus, healthy, degraded, halted, reconciling, is_halted,
}
use cryptoaibot.Domain.Recon.{ReconciliationState}
use cryptoaibot.Store.Tables.{World}
use cryptoaibot.Store.Transaction.{transaction}
use cryptoaibot.Store.Recon.{get_recon_state, save_recon_state, write_state}
use cryptoaibot.Engine.Config.{Config, Platform}
use cryptoaibot.Engine.Executor.{Executor}
use cryptoaibot.Engine.Recon.Checks.{Findings, Checked, completed, aborted}
use cryptoaibot.Engine.Recon.Service.{
  ReconResult, criticals, is_nonempty, verdict, set_state, checks, conclude, run,
}
use cryptoaibot.Engine.Recon.Verdict.{verdict_healthy_iff, run_stores_verdict}

module _ (cfg : Config) (py : Platform) where
  -- The bot's state, and the ledger as a run's checks meet it.
  abbrev pub state_in : World → ReconciliationState
  state_in w = get_recon_state cfg.bot_instance_id w.db

  abbrev pub begun : String → World → World
  begun why w =
      (set_state cfg.bot_instance_id reconciling ("reconciling (" <> why <> ")") false w).1

  -- The status that the checks come to.
  abbrev status_after : ReconciliationState → Bool → Checked → ReconciliationStatus
  status_after st ack (completed fs) = (verdict fs st ack).0
  status_after st ack (aborted fs e) = degraded

  conclude-status :
      (x : Executor) (key why : String) (t : ℕ) (st : ReconciliationState) (ack : Bool)
      (c : Checked) (w : World) (r : ReconResult)
      → (conclude x cfg py key why t st ack c w).0 ≡ ok r
      → r.status ≡ status_after st ack c
  unfolding conclude
  conclude-status x key why t st ack (completed fs) w r h =
      let (u, hu, h1) = bind-eq-ok _ _ w h in
      let (s, hs, h2) = bind-eq-ok _ _ _ h1 in
      let (m, hm, h3) = bind-eq-ok _ _ _ h2 in sym (ap (λ q. q.status) (pure-eq-ok _ _ h3))
  conclude-status x key why t st ack (aborted fs e) w r h =
      let (u, hu, h1) = bind-eq-ok _ _ w h in
      let (s, hs, h2) = bind-eq-ok _ _ _ h1 in sym (ap (λ q. q.status) (pure-eq-ok _ _ h2))

  run-status :
      (x : Executor) (key why : String) (ack : Bool) (c : Checked) (w : World) (r : ReconResult)
      → (checks x cfg py key (state_in w) (begun why w)).0 ≡ ok c
      → (run x cfg py key why ack w).0 ≡ ok r
      → r.status ≡ status_after (state_in w) ack c
  unfolding run set_state save_recon_state write_state transaction ◌>>=◌ gets
  run-status x key why ack c w r found h =
      let (c', hc, h1) =
        bind-eq-ok (checks x cfg py key (state_in w))
          (conclude x cfg py key why w.now (state_in w) ack) (begun why w) h in
      conclude-status x key why w.now (state_in w) ack c'
        (checks x cfg py key (state_in w) (begun why w)).1 r h1
      ∙ ap (status_after (state_in w) ack) (ok-injective (sym hc ∙ found))

  -- An exception forgets a halt: where the bot is HALTED and an exception ends the checks of a run, the
  -- run ends DEGRADED; and where the checks of the run that follows find nothing critical and nothing
  -- pending, this run ends HEALTHY and stores it, though the operator acknowledged neither.
  pub abort_forgets_halt :
      (x y : Executor) (key why next_key next_why : String) (w : World) (fs found : Findings)
      (e : Error) (r s : ReconResult)
      → (state_in w).status ≡ halted
      → (checks x cfg py key (state_in w) (begun why w)).0 ≡ ok (aborted fs e)
      → (run x cfg py key why false w).0 ≡ ok r
      → (checks y cfg py next_key
          (state_in (run x cfg py key why false w).1)
          (begun next_why (run x cfg py key why false w).1)).0
        ≡ ok (completed found)
      → is_nonempty (criticals found.mismatches) ≡ false
      → found.pending_ambiguous ≡ 0
      → (run y cfg py next_key next_why false (run x cfg py key why false w).1).0 ≡ ok s
      → (r.status ≡ degraded)
        × (s.status ≡ healthy)
        × ((state_in
              (run y cfg py next_key next_why false (run x cfg py key why false w).1).1).status
            ≡ healthy)
  abort_forgets_halt x y key why next_key next_why w fs found e r s was raised first clear clean
        settled second =
      let lost = run-status x key why false (aborted fs e) w r raised first in
      let stored = run_stores_verdict x cfg py key why false w r first ∙ lost in
      let v = (run x cfg py key why false w).1 in
      let fine =
        (verdict_healthy_iff found (state_in v) false).1
          (clean, settled, ap (λ t. is_halted t && true) stored) in
      let ends = run-status y next_key next_why false (completed found) v s clear second ∙ fine in
      (lost, ends, run_stores_verdict y cfg py next_key next_why false v s second ∙ ends)
