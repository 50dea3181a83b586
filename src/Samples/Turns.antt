-- ===== src/Samples/Turns.antt =====
-- A reconciliation worker that stays connected while its exchange cannot be reached, turn by turn.
use cryptoaibot.Common.{
  ◌≡◌, refl, ℕ, ◌%◌, ◌*◌, ◌≤◌, ◌<◌, true, false, not, none, List, [], ◌∷◌, any, arith, str_eq,
}
use cryptoaibot.Exec.{ok, err, external, try_except, ◌>>=◌}
use cryptoaibot.Domain.Enums.{healthy}
use cryptoaibot.Engine.Worker.Periodic.{
  Meanwhile, Loop, turns, periodic, polled, poll, acknowledge, reconcile, reconcile_if,
  reconcile_when_due, is_due,
}
use cryptoaibot.Engine.Worker.Schedule.{Reconciled, turns_reconcile}
use cryptoaibot.Engine.Dispatch.{flush, flush_held, flush_rows}
use cryptoaibot.Engine.Recon.Service.{touch, run}
use cryptoaibot.Engine.Worker.{check_result}
use cryptoaibot.Store.Leases.{acquire_lease}
use cryptoaibot.Samples.{cfg, py, unreachable}
use cryptoaibot.Samples.Cycle.{ledger_with}
use cryptoaibot.Samples.Outside.{failing}

abbrev uneventful : Meanwhile
uneventful = record {
  control = err (external "timeout");
  ack_key = "a";
  key = "k";
  connected_after_ack = true;
  connected = true;
  connected_after = true;
}

abbrev at_start : Loop
at_start = record { elapsed = 15; last_ack = none }

abbrev two_turns : List Meanwhile
two_turns = uneventful ∷ uneventful ∷ []

stays_up :
    (turns unreachable cfg py failing 30 50 "w" at_start two_turns (ledger_with healthy)).0
    ≡ ok (record { elapsed = 45; last_ack = none })
unfolding turns ◌>>=◌ periodic polled poll acknowledge reconcile reconcile_if reconcile_when_due
    is_due flush flush_held flush_rows touch run cryptoaibot.Engine.Recon.Service.set_state
    cryptoaibot.Store.Recon.save_recon_state cryptoaibot.Store.Transaction.transaction
    cryptoaibot.Store.Recon.write_state cryptoaibot.Engine.Recon.Service.checks
    cryptoaibot.Engine.Recon.Checks.ask cryptoaibot.Engine.Executor.request
    cryptoaibot.Engine.Recon.Service.conclude cryptoaibot.Engine.Recon.Service.persist_run
    cryptoaibot.Store.Recon.record_recon_run cryptoaibot.Store.Recon.insert_run any
    cryptoaibot.Store.Outbox.enqueue cryptoaibot.Store.Outbox.insert_message check_result
    acquire_lease cryptoaibot.Store.Outbox.pending_outbox try_except
    cryptoaibot.Store.Leases.take_lease cryptoaibot.Store.Leases.get_lease cryptoaibot.Common.find
    cryptoaibot.Common.select cryptoaibot.Store.Leases.upsert_lease
    cryptoaibot.Engine.Dispatch.deliver_row cryptoaibot.Engine.Dispatch.attempt_kind
    cryptoaibot.Engine.Dispatch.carry_out cryptoaibot.Engine.Dispatch.settle
    cryptoaibot.Store.Outbox.mark_outbox_failed cryptoaibot.Common.update
    cryptoaibot.Engine.Dispatch.delay cryptoaibot.Engine.Worker.Periodic.ack_after
stays_up = refl

always_connected : any (λ (g : Meanwhile). not g.connected) two_turns ≡ false
unfolding any
always_connected = refl

turns_reconcile_example :
    Reconciled unreachable cfg py failing 30 50 "w" at_start two_turns (ledger_with healthy)
turns_reconcile_example =
    turns_reconcile unreachable cfg py failing 30 50 "w" at_start
      (record { elapsed = 45; last_ack = none }) two_turns (ledger_with healthy) (omega arith)
      (omega arith) always_connected stays_up
