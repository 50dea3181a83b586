-- ===== src/Engine/Recon/Service.antt =====
-- engine/application/reconciliation_service.py: `run`, its verdict and the state that it leaves. The
-- run's key, which the code makes of the time and a random number, is an argument.
use Prim.Native.Nat.{Ordering}
use Prim.Native.String.{compare as compare_str}
use cryptoaibot.Common.{
  String, ◌<>◌, ℕ, ◌-◌, ◌*◌, ◌/◌, max, Bool, true, false, not, ◌&&◌, Option, none, some, List, [],
  ◌∷◌, ltb, show, if◌then◌else◌, select,
}
use cryptoaibot.Exec.{message, pure, gets, ◌>>=◌, ◌>>◌, when}
use cryptoaibot.Domain.Enums.{
  ReconciliationStatus, reconciling, healthy, degraded, halted, critical, is_critical, is_halted,
  is_healthy,
}
use cryptoaibot.Domain.Events.{ExchangeOrderReport, total}
use cryptoaibot.Domain.Recon.{ReconciliationState, microseconds_per_second}
use cryptoaibot.Domain.Rules.{SymbolRules}
use cryptoaibot.Store.Tables.{Action, Mismatch, ReconRun, Kind, Payload, KvValue}
use cryptoaibot.Store.Orders.{non_terminal_orders, orders}
use cryptoaibot.Store.Positions.{get_position}
use cryptoaibot.Store.Recon.{get_recon_state, save_recon_state, record_recon_run}
use cryptoaibot.Store.Outbox.{enqueue}
use cryptoaibot.Store.Kv.{kv_set}
use cryptoaibot.Positions.Service.{rebuild}
use cryptoaibot.Engine.Config.{Config, Platform}
use cryptoaibot.Engine.Ids.{own_prefix, take_chars}
use cryptoaibot.Engine.Messages.{enqueue_event, position_payload}
use cryptoaibot.Engine.Executor.{Executor, request}
use cryptoaibot.Engine.Recon.Checks.{
  Findings, no_findings, Checked, completed, aborted, step, ask, proceed, scan,
  microseconds_per_hour, tolerance_of, check_open, recent_terminal, verify_terminal,
  check_exchange_open, recover_fill, check_fills, check_position, check_protective,
}

-- `ReconResult.critical`
unfoldable pub is_open_critical : Mismatch → Bool
is_open_critical m = is_critical m.severity && not m.resolved

unfoldable pub criticals : List Mismatch → List Mismatch
criticals ms = select is_open_critical ms

-- `"; ".join(sorted({m["kind"] for m in ...}))`
unfoldable pub insert_kind : String → List String → List String
insert_kind k [] = k ∷ []
insert_kind k (j ∷ js) =
    let later = j ∷ insert_kind k js in
    elim (compare_str k j) [
      | Ordering.lt ↦ k ∷ (j ∷ js)
      | Ordering.eq ↦ j ∷ js
      | Ordering.gt ↦ later
    ]

unfoldable pub sorted_kinds : List Mismatch → List String
sorted_kinds [] = []
sorted_kinds (m ∷ ms) = insert_kind m.kind (sorted_kinds ms)

unfoldable pub join_kinds : List String → String
join_kinds [] = ""
join_kinds (k ∷ []) = k
join_kinds (k ∷ (j ∷ js)) = k <> "; " <> join_kinds (j ∷ js)

unfoldable pub halt_reason : List Mismatch → String
halt_reason ms = join_kinds (sorted_kinds ms)

abbrev pub is_nonempty : List Mismatch → Bool
is_nonempty [] = false
is_nonempty (m ∷ ms) = true

-- The verdict of a run whose checks were completed: status and reason.
unfoldable pub verdict : Findings → ReconciliationState → Bool → ReconciliationStatus × String
verdict fs previous operator_ack =
    if is_nonempty (criticals fs.mismatches)
    then (halted, halt_reason (criticals fs.mismatches))
    else if ltb 0 fs.pending_ambiguous
    then (reconciling, show fs.pending_ambiguous <> " ambiguous order(s) inside grace window")
    else if is_halted previous.status && not operator_ack
    then (
      halted,
      "clean, awaiting operator acknowledgement (was HALTED: " <> previous.reason <> ")",
    )
    else (healthy, "reconciled")

pub record ReconResult : Type 0 where
  pub status : ReconciliationStatus
  pub reason : String
  pub mismatches : List Mismatch

-- `since`, in milliseconds
unfoldable pub since_of : ℕ → Option ℕ → ℕ
since_of horizon none = horizon / 1000
since_of horizon (some last) = max horizon (last - 600 * microseconds_per_second) / 1000

module _ (bot : String) where
  -- `set_state(status, reason, success)`
  unfoldable pub set_state : ReconciliationStatus → String → Bool → Action ReconciliationState
  set_state status reason success = do
    st ← gets (λ w. get_recon_state bot w.db)
    now ← gets (λ w. w.now)
    save_recon_state (record st {
      status = status;
      reason = reason;
      last_success_at = if success then some now else st.last_success_at;
    })

  unfoldable pub touch : Action ReconciliationState
  touch = do st ← gets (λ w. get_recon_state bot w.db); save_recon_state st

  -- `_persist`
  unfoldable pub persist_run : String → String → ℕ → ReconResult → Action (Unit {0})
  persist_run run_key reason started r = do
    now ← gets (λ w. w.now)
    let run = run_of run_key reason started now r
    record_recon_run run
    enqueue Kind.reconciliation ("recon:" <> run_key) (Payload.reconciliation run)
    pure tt
    where
      run_of : String → String → ℕ → ℕ → ReconResult → ReconRun
      run_of key why start now result = record {
        run_key = key;
        bot_instance_id = bot;
        reason = why;
        result_status = result.status;
        started_at = start;
        finished_at = now;
        mismatches = result.mismatches;
      }

module _ (x : Executor) (cfg : Config) (py : Platform) where
  -- Steps 6 and 7: balances, the rebuilt position, what is stored of them.
  unfoldable pub rebuild_position : String → SymbolRules → Findings → Action Findings
  rebuild_position run_key rules fs = do
    db ← gets (λ w. w.db)
    balances ← request (x.balances db)
    before ← gets (λ w. get_position cfg.bot_instance_id cfg.symbol w.db)
    rebuilt ← rebuild cfg.bot_instance_id cfg.symbol
    kv_set ("balances:" <> cfg.bot_instance_id) (KvValue.balances balances.balances)
    enqueue Kind.positions ("position:" <> cfg.symbol <> ":recon:" <> run_key)
        (Payload.position (position_payload rebuilt.0))
    gets (λ w. check_protective cfg rules rebuilt.0 w.db (
        check_position (tolerance_of rules) before rebuilt.0 rebuilt.1
          (total balances rules.base_asset) fs))

  unfoldable pub check_totals : String → SymbolRules → Findings → Action Checked
  check_totals run_key rules fs = do
    all ← gets (λ w. orders cfg.bot_instance_id (some cfg.symbol) 100 w.db)
    explained ← scan (check_fills x cfg (tolerance_of rules)) all fs
    proceed (λ found. step found (rebuild_position run_key rules found)) explained

  unfoldable pub prefix : String
  prefix = own_prefix py cfg.client_order_id_prefix

  unfoldable pub check_recent :
      String → ReconciliationState → SymbolRules → Findings → Action Checked
  check_recent run_key previous rules fs = do
    now ← gets (λ w. w.now)
    ask fs
        (request (
          x.recent_fills cfg.symbol (
            since_of (now - cfg.recent_fills_lookback_hours * microseconds_per_hour)
              previous.last_success_at)))
        λ found. do
          recovered ← scan (recover_fill x cfg prefix) found fs
          proceed (check_totals run_key rules) recovered

  unfoldable pub check_remote :
      String
      → ReconciliationState
      → SymbolRules
      → List ExchangeOrderReport
      → Findings
      → Action Checked
  check_remote run_key previous rules exchange_open fs = do
    now ← gets (λ w. w.now)
    terminal ← gets (λ w. recent_terminal x cfg now w.db)
    verified ← scan (verify_terminal x cfg) terminal fs
    known ← proceed (scan (check_exchange_open x cfg prefix) exchange_open) verified
    proceed (check_recent run_key previous rules) known

  -- The `try` block of `run`.
  unfoldable pub checks : String → ReconciliationState → Action Checked
  checks run_key previous = ask no_findings (request (x.symbol_rules cfg.symbol)) λ rules. do
    local_open ← gets (λ w. non_terminal_orders cfg.bot_instance_id (some cfg.symbol) w.db)
    ask no_findings (request (x.open_orders cfg.symbol)) λ exchange_open. do
      opened ← scan (check_open x cfg) local_open no_findings
      proceed (check_remote run_key previous rules exchange_open) opened

  unfoldable pub conclude :
      String → String → ℕ → ReconciliationState → Bool → Checked → Action ReconResult
  conclude run_key reason started previous ack (aborted fs e) = do
    let result : ReconResult = record {
      status = degraded;
      reason = "reconciliation failed: " <> py.type_name e <> ": " <> take_chars 200 (message e);
      mismatches = fs.mismatches;
    }
    persist_run cfg.bot_instance_id run_key reason started result
    set_state cfg.bot_instance_id result.status result.reason false
    pure result
  conclude run_key reason started previous ack (completed fs) = do
    let v = verdict fs previous ack
    let result : ReconResult = record { status = v.0; reason = v.1; mismatches = fs.mismatches }
    persist_run cfg.bot_instance_id run_key reason started result
    set_state cfg.bot_instance_id result.status result.reason (is_healthy result.status)
    when (is_halted result.status && is_nonempty (criticals fs.mismatches)) (
        enqueue_event cfg.bot_instance_id "RECONCILIATION_HALTED" result.reason critical
          ("halt:" <> run_key) true)
    pure result

  -- `run`
  unfoldable pub run : String → String → Bool → Action ReconResult
  run run_key reason operator_ack = do
    started ← gets (λ w. w.now)
    previous ← gets (λ w. get_recon_state cfg.bot_instance_id w.db)
    set_state cfg.bot_instance_id reconciling ("reconciling (" <> reason <> ")") false
    outcome ← checks run_key previous
    conclude run_key reason started previous operator_ack outcome
