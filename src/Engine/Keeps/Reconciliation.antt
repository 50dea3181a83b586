-- ===== src/Engine/Keeps/Reconciliation.antt =====
-- engine/application/reconciliation_service.py under a safe invariant.
use cryptoaibot.Common.{String, ℕ, Bool, Option, none, some, List, [], ◌∷◌}
use cryptoaibot.Exec.{Error, order_conflict, Result, ok, err}
use cryptoaibot.Decimal.{Decimal}
use cryptoaibot.Domain.Enums.{ReconciliationStatus}
use cryptoaibot.Domain.Events.{ExchangeOrderReport, ExchangeFill}
use cryptoaibot.Domain.Order.{Order}
use cryptoaibot.Domain.Recon.{ReconciliationState}
use cryptoaibot.Domain.Rules.{SymbolRules}
use cryptoaibot.Store.Tables.{World, Action}
use cryptoaibot.Positions.Service.{rebuild}
use cryptoaibot.Engine.Config.{Config, Platform}
use cryptoaibot.Engine.Executor.{Executor}
use cryptoaibot.Engine.Keeps.Rules.{Invariant, Keeps, Holds}
use cryptoaibot.Engine.Keeps.Tables.{IsSafe, table_rules}
use cryptoaibot.Engine.Keeps.Services.{
  enqueue_event-Keeps, apply_report-Keeps, ingest_order_fills-Keeps, ingest_fill-Keeps,
}
use cryptoaibot.Engine.Keeps.Submission.{fetch-Keeps, refresh-Keeps, resolve_ambiguous-Keeps}
use cryptoaibot.Engine.Recon.Checks.{
  Findings, Checked, to_checked, completed, aborted, step, ask, answer_to, proceed, scan,
  on_conflict, after_resolution, update_open, check_open, compare_executed, verify_answer,
  verify_terminal, check_exchange_open, query_of_fill, apply_seen, ingest_seen, fill_of_queried,
  fill_of_unknown, recover_known, recover_fill, refill, check_fills,
}
use cryptoaibot.Engine.Recon.Service.{
  ReconResult, set_state, persist_run, rebuild_position, check_totals, check_recent, check_remote,
  checks, conclude, run,
}
use cryptoaibot.Engine.Orders.Submit.{Resolution, resolved, pending}

step_keeps :
    (Q : Invariant) (fs : Findings) (p : Result Findings × World)
    → Holds Q p.1.db
    → Holds Q (to_checked fs p).1.db
step_keeps Q fs (ok a, w) h = h
step_keeps Q fs (err e, w) h = h

module _ {Q : Invariant} where
  step-Keeps : (fs : Findings) (m : Action Findings) → Keeps Q m → Keeps Q (step fs m)
  unfolding step
  step-Keeps fs m k = record { at = λ w h. step_keeps Q fs (m w) (k.at w h) }

  module _ {A : Type 0} where
    answer-Keeps :
        (fs : Findings) (k : A → Action Checked) (p : Result A × World)
        → ((a : A) → Keeps Q (k a))
        → Holds Q p.1.db
        → Holds Q (answer_to fs k p).1.db
    answer-Keeps fs k (ok a, w) kk h = (kk a).at w h
    answer-Keeps fs k (err e, w) kk h = h

    ask-Keeps :
        (fs : Findings) (m : Action A) (k : A → Action Checked)
        → Keeps Q m
        → ((a : A) → Keeps Q (k a))
        → Keeps Q (ask fs m k)
    unfolding ask
    ask-Keeps fs m k km kk = record { at = λ w h. answer-Keeps fs k (m w) kk (km.at w h) }

  proceed-Keeps :
      (k : Findings → Action Checked) (c : Checked)
      → ((fs : Findings) → Keeps Q (k fs))
      → Keeps Q (proceed k c)
  unfolding proceed
  proceed-Keeps k (completed fs) kk = kk fs
  proceed-Keeps k (aborted fs e) kk = search table_rules

  scan-Keeps :
      {A : Type 0} (f : A → Findings → Action Findings) (xs : List A) (fs : Findings)
      → ((a : A) (gs : Findings) → Keeps Q (f a gs))
      → Keeps Q (scan f xs fs)
  unfolding scan
  scan-Keeps f [] fs k = search table_rules
  scan-Keeps f (a ∷ as') fs k =
      search (table_rules, step-Keeps, proceed-Keeps, λ (gs : Findings). scan-Keeps f as' gs k)
        depth 12

  on_conflict-Keeps : (coid : String) (fs : Findings) (e : Error) → Keeps Q (on_conflict coid fs e)
  unfolding on_conflict
  on_conflict-Keeps coid fs (order_conflict m) = search table_rules
  on_conflict-Keeps coid fs e = search table_rules

  set_state-Keeps :
      (bot : String) (s : ReconciliationStatus) (m : String) (b : Bool)
      → Keeps Q (set_state bot s m b)
  unfolding set_state
  set_state-Keeps bot s m b = search table_rules depth 12

  persist_run-Keeps :
      (bot k why : String) (t : ℕ) (r : ReconResult) → Keeps Q (persist_run bot k why t r)
  unfolding persist_run
  persist_run-Keeps bot k why t r = search table_rules depth 12

  rebuild-Keeps : (bot symbol : String) → Keeps Q (rebuild bot symbol)
  unfolding rebuild
  rebuild-Keeps bot symbol = search table_rules depth 12

ruleset check_rules = (
  table_rules, step-Keeps, ask-Keeps, proceed-Keeps, scan-Keeps, on_conflict-Keeps, set_state-Keeps,
  persist_run-Keeps, rebuild-Keeps,
)

module _ {Q : Invariant} (safe : IsSafe Q) (x : Executor) (cfg : Config) where
  after_resolution-Keeps :
      (o : Order) (fs : Findings) (r : Resolution) → Keeps Q (after_resolution x cfg o fs r)
  unfolding after_resolution
  after_resolution-Keeps o fs resolved = search table_rules
  after_resolution-Keeps o fs pending = search table_rules

  check_open-Keeps : (o : Order) (fs : Findings) → Keeps Q (check_open x cfg o fs)
  unfolding check_open update_open
  check_open-Keeps o fs =
      search (check_rules, after_resolution-Keeps, resolve_ambiguous-Keeps, refresh-Keeps) depth 14

  verify_answer-Keeps :
      (o : Order) (fs : Findings) (r : Option ExchangeOrderReport)
      → Keeps Q (verify_answer x cfg o fs r)
  unfolding verify_answer compare_executed
  verify_answer-Keeps o fs none = search table_rules
  verify_answer-Keeps o fs (some r) = search (table_rules, apply_report-Keeps, fetch-Keeps) depth 14

  verify_terminal-Keeps : (o : Order) (fs : Findings) → Keeps Q (verify_terminal x cfg o fs)
  unfolding verify_terminal
  verify_terminal-Keeps o fs = search (check_rules, verify_answer-Keeps) depth 14

  check_exchange_open-Keeps :
      (p : String) (r : ExchangeOrderReport) (fs : Findings)
      → Keeps Q (check_exchange_open x cfg p r fs)
  unfolding check_exchange_open
  check_exchange_open-Keeps p r fs = search table_rules

  query_of_fill-Keeps : (xid : Option String) → Keeps Q (query_of_fill x cfg xid)
  unfolding query_of_fill
  query_of_fill-Keeps none = search table_rules
  query_of_fill-Keeps (some xid) = search table_rules depth 12

  apply_seen-Keeps : (r : Option ExchangeOrderReport) → Keeps Q (apply_seen x cfg r)
  unfolding apply_seen
  apply_seen-Keeps none = search table_rules
  apply_seen-Keeps (some r) = search (table_rules, apply_report-Keeps) depth 12

  ingest_seen-Keeps : (xf : ExchangeFill) (fs : Findings) → Keeps Q (ingest_seen x cfg xf fs)
  unfolding ingest_seen
  ingest_seen-Keeps xf fs = search (table_rules, ingest_fill-Keeps) depth 12

  fill_of_queried-Keeps :
      (p : String) (xf : ExchangeFill) (fs : Findings) (r : Option ExchangeOrderReport)
      (o : Option Order)
      → Keeps Q (fill_of_queried x cfg p xf fs r o)
  unfolding fill_of_queried
  fill_of_queried-Keeps p xf fs r none = search table_rules
  fill_of_queried-Keeps p xf fs r (some o) =
      search (table_rules, apply_seen-Keeps, ingest_seen-Keeps) depth 12

  recover_known-Keeps :
      (p : String) (xf : ExchangeFill) (fs : Findings) (o : Option Order)
      → Keeps Q (recover_known x cfg p xf fs o)
  unfolding recover_known fill_of_unknown
  recover_known-Keeps p xf fs (some o) = ingest_seen-Keeps xf fs
  recover_known-Keeps p xf fs none =
      search (table_rules, query_of_fill-Keeps, fill_of_queried-Keeps) depth 14

  recover_fill-Keeps :
      (p : String) (xf : ExchangeFill) (fs : Findings) → Keeps Q (recover_fill x cfg p xf fs)
  unfolding recover_fill
  recover_fill-Keeps p xf fs = search (table_rules, recover_known-Keeps) depth 12

  check_fills-Keeps : (t : Decimal) (o : Order) (fs : Findings) → Keeps Q (check_fills x cfg t o fs)
  unfolding check_fills refill
  check_fills-Keeps t o fs = search (table_rules, ingest_order_fills-Keeps) depth 16

  module _ (py : Platform) where
    rebuild_position-Keeps :
        (k : String) (rules : SymbolRules) (fs : Findings)
        → Keeps Q (rebuild_position x cfg py k rules fs)
    unfolding rebuild_position
    rebuild_position-Keeps k rules fs = search check_rules depth 20

    check_totals-Keeps :
        (k : String) (rules : SymbolRules) (fs : Findings)
        → Keeps Q (check_totals x cfg py k rules fs)
    unfolding check_totals
    check_totals-Keeps k rules fs =
        search (check_rules, check_fills-Keeps, rebuild_position-Keeps) depth 16

    check_recent-Keeps :
        (k : String) (st : ReconciliationState) (rules : SymbolRules) (fs : Findings)
        → Keeps Q (check_recent x cfg py k st rules fs)
    unfolding check_recent
    check_recent-Keeps k st rules fs =
        search (check_rules, recover_fill-Keeps, check_totals-Keeps) depth 16

    check_remote-Keeps :
        (k : String) (st : ReconciliationState) (rules : SymbolRules)
        (remote : List ExchangeOrderReport) (fs : Findings)
        → Keeps Q (check_remote x cfg py k st rules remote fs)
    unfolding check_remote
    check_remote-Keeps k st rules remote fs =
        search (check_rules, verify_terminal-Keeps, check_exchange_open-Keeps, check_recent-Keeps)
          depth 20

    checks-Keeps : (k : String) (st : ReconciliationState) → Keeps Q (checks x cfg py k st)
    unfolding checks
    checks-Keeps k st = search (check_rules, check_open-Keeps, check_remote-Keeps) depth 20

    conclude-Keeps :
        (k why : String) (t : ℕ) (st : ReconciliationState) (ack : Bool) (c : Checked)
        → Keeps Q (conclude x cfg py k why t st ack c)
    unfolding conclude
    conclude-Keeps k why t st ack (aborted fs e) = search check_rules depth 20
    conclude-Keeps k why t st ack (completed fs) =
        search (check_rules, enqueue_event-Keeps) depth 20

    pub run-Keeps : (k why : String) (ack : Bool) → Keeps Q (run x cfg py k why ack)
    unfolding run
    run-Keeps k why ack = search (check_rules, checks-Keeps, conclude-Keeps) depth 20
