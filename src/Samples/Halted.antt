-- ===== src/Samples/Halted.antt =====
-- A HALTED bot whose reconciliation is ended by an exception, and runs again when the exchange is back.
use cryptoaibot.Common.{◌≡◌, refl, ◌+◌, Bool, false, none, some, List, [], ◌∷◌, any, find}
use cryptoaibot.Exec.{ok, external, ◌>>=◌}
use cryptoaibot.Domain.Enums.{healthy, degraded, halted}
use cryptoaibot.Store.Tables.{World}
use cryptoaibot.Store.Recon.{get_recon_state}
use cryptoaibot.Engine.Executor.{Executor}
use cryptoaibot.Engine.Recon.Checks.{no_findings, completed, aborted}
use cryptoaibot.Engine.Recon.Service.{ReconResult, run, checks, criticals, is_nonempty}
use cryptoaibot.Engine.Recon.Halt.{state_in, begun, abort_forgets_halt}
use cryptoaibot.Samples.{cfg, py, rules, unreachable}
use cryptoaibot.Samples.Runs.{halted_world, failure, run_fails}

-- The exchange, with nothing on it.
abbrev reachable : Executor
reachable = record unreachable {
  symbol_rules = λ symbol now d. (ok rules, d);
  open_orders = λ symbol now d. (ok [], d);
  recent_fills = λ symbol since now d. (ok [], d);
  balances = λ db now d. (ok (record { balances = []; as_of_ms = now }), d);
}

abbrev afterwards : World
afterwards = (run unreachable cfg py "r1" "startup" false halted_world).1

abbrev success : ReconResult
success = record { status = healthy; reason = "reconciled"; mismatches = [] }

was_halted : (state_in cfg py halted_world).status ≡ halted
unfolding get_recon_state find
was_halted = refl

raises :
    (checks unreachable cfg py "r1"
      (state_in cfg py halted_world)
      (begun cfg py "startup" halted_world)).0
    ≡ ok (aborted no_findings (external "timeout"))
unfolding checks ◌>>=◌ cryptoaibot.Engine.Recon.Checks.ask cryptoaibot.Engine.Executor.request
raises = refl

clears :
    (checks reachable cfg py "r2"
      (state_in cfg py afterwards)
      (begun cfg py "periodic" afterwards)).0
    ≡ ok (completed no_findings)
unfolding checks ◌>>=◌ cryptoaibot.Engine.Recon.Checks.ask cryptoaibot.Engine.Executor.request
    cryptoaibot.Engine.Recon.Checks.scan cryptoaibot.Store.Orders.non_terminal_orders
    cryptoaibot.Common.select cryptoaibot.Engine.Recon.Service.set_state
    cryptoaibot.Store.Recon.save_recon_state cryptoaibot.Store.Transaction.transaction
    cryptoaibot.Store.Recon.write_state run cryptoaibot.Engine.Recon.Service.conclude
    cryptoaibot.Engine.Recon.Service.persist_run cryptoaibot.Store.Recon.record_recon_run
    cryptoaibot.Store.Recon.insert_run any cryptoaibot.Store.Outbox.enqueue
    cryptoaibot.Store.Outbox.insert_message cryptoaibot.Engine.Recon.Checks.proceed
    cryptoaibot.Engine.Recon.Service.check_remote cryptoaibot.Engine.Recon.Checks.recent_terminal
    cryptoaibot.Store.Orders.orders cryptoaibot.Engine.Recon.Service.check_recent
    cryptoaibot.Engine.Recon.Service.check_totals cryptoaibot.Engine.Recon.Checks.step
    cryptoaibot.Engine.Recon.Service.rebuild_position cryptoaibot.Positions.Service.rebuild
    cryptoaibot.Positions.Service.replay cryptoaibot.Store.Fills.fills
    cryptoaibot.Store.Fills.by_time cryptoaibot.Store.Positions.save_position
    cryptoaibot.Store.Positions.upsert_position cryptoaibot.Store.Kv.kv_set
    cryptoaibot.Store.Outbox.has_idempotency_key cryptoaibot.Common.find
    cryptoaibot.Store.Recon.get_recon_state cryptoaibot.Engine.Recon.Service.since_of
    cryptoaibot.Engine.Recon.Checks.check_position cryptoaibot.Engine.Recon.Checks.check_protective
    cryptoaibot.Engine.Recon.Checks.tolerance_of cryptoaibot.Domain.Events.total
    cryptoaibot.Domain.Events.get_balance cryptoaibot.Store.Positions.get_position
    cryptoaibot.Store.Positions.has_key cryptoaibot.Store.Positions.upsert
    cryptoaibot.Positions.Service.keep_stop cryptoaibot.Store.Kv.kv_put
    cryptoaibot.Domain.Position.mark cryptoaibot.Positions.Accounting.remark
    cryptoaibot.Engine.Recon.Checks.note_anomalies cryptoaibot.Decimal.lt_dec
    cryptoaibot.Decimal.◌-ᵈ◌ cryptoaibot.Decimal.abs_dec cryptoaibot.Decimal.max_dec
    cryptoaibot.Engine.Ids.take_chars
clears = refl

clean : is_nonempty (criticals no_findings.mismatches) ≡ false
unfolding criticals cryptoaibot.Common.select
clean = refl

succeeds : (run reachable cfg py "r2" "periodic" false afterwards).0 ≡ ok success
unfolding checks ◌>>=◌ cryptoaibot.Engine.Recon.Checks.ask cryptoaibot.Engine.Executor.request
    cryptoaibot.Engine.Recon.Checks.scan cryptoaibot.Store.Orders.non_terminal_orders
    cryptoaibot.Common.select cryptoaibot.Engine.Recon.Service.set_state
    cryptoaibot.Store.Recon.save_recon_state cryptoaibot.Store.Transaction.transaction
    cryptoaibot.Store.Recon.write_state run cryptoaibot.Engine.Recon.Service.conclude
    cryptoaibot.Engine.Recon.Service.persist_run cryptoaibot.Store.Recon.record_recon_run
    cryptoaibot.Store.Recon.insert_run any cryptoaibot.Store.Outbox.enqueue
    cryptoaibot.Store.Outbox.insert_message cryptoaibot.Engine.Recon.Checks.proceed
    cryptoaibot.Engine.Recon.Service.check_remote cryptoaibot.Engine.Recon.Checks.recent_terminal
    cryptoaibot.Store.Orders.orders cryptoaibot.Engine.Recon.Service.check_recent
    cryptoaibot.Engine.Recon.Service.check_totals cryptoaibot.Engine.Recon.Checks.step
    cryptoaibot.Engine.Recon.Service.rebuild_position cryptoaibot.Positions.Service.rebuild
    cryptoaibot.Positions.Service.replay cryptoaibot.Store.Fills.fills
    cryptoaibot.Store.Fills.by_time cryptoaibot.Store.Positions.save_position
    cryptoaibot.Store.Positions.upsert_position cryptoaibot.Store.Kv.kv_set
    cryptoaibot.Store.Outbox.has_idempotency_key cryptoaibot.Common.find
    cryptoaibot.Store.Recon.get_recon_state cryptoaibot.Engine.Recon.Service.since_of
    cryptoaibot.Engine.Recon.Checks.check_position cryptoaibot.Engine.Recon.Checks.check_protective
    cryptoaibot.Engine.Recon.Checks.tolerance_of cryptoaibot.Domain.Events.total
    cryptoaibot.Domain.Events.get_balance cryptoaibot.Store.Positions.get_position
    cryptoaibot.Store.Positions.has_key cryptoaibot.Store.Positions.upsert
    cryptoaibot.Positions.Service.keep_stop cryptoaibot.Store.Kv.kv_put
    cryptoaibot.Domain.Position.mark cryptoaibot.Positions.Accounting.remark
    cryptoaibot.Engine.Recon.Checks.note_anomalies cryptoaibot.Decimal.lt_dec
    cryptoaibot.Decimal.◌-ᵈ◌ cryptoaibot.Decimal.abs_dec cryptoaibot.Decimal.max_dec
    cryptoaibot.Engine.Ids.take_chars cryptoaibot.Engine.Recon.Service.verdict criticals
    cryptoaibot.Exec.when cryptoaibot.Store.Recon.upsert_state
succeeds = refl

abort_forgets_halt_example :
    (degraded ≡ degraded)
    × (healthy ≡ healthy)
    × ((state_in cfg py (run reachable cfg py "r2" "periodic" false afterwards).1).status ≡ healthy)
abort_forgets_halt_example =
    abort_forgets_halt cfg py unreachable reachable "r1" "startup" "r2" "periodic" halted_world
      no_findings no_findings (external "timeout") failure success was_halted raises run_fails
      clears clean refl succeeds
