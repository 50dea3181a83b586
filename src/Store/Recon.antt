-- ===== src/Store/Recon.antt =====
-- engine/infrastructure/store.py: `processed_events`, `reconciliation_state`, `reconciliation_runs`.
use mathlib.Core.List.{reverse}
use cryptoaibot.Common.{
  String, ℕ, ◌+◌, Bool, true, false, not, ◌&&◌, Option, none, some, List, [], ◌∷◌, ◌++◌, str_eq,
  if◌then◌else◌, length, any, find, select,
}
use cryptoaibot.Exec.{ok, err, integrity_error}
use cryptoaibot.Domain.Enums.{connecting, is_critical}
use cryptoaibot.Domain.Recon.{ReconciliationState}
use cryptoaibot.Store.Tables.{Database, Action, ProcessedEvent, ReconRun}
use cryptoaibot.Store.Transaction.{transaction}

unfoldable pub insert_event : ProcessedEvent → Action Bool
insert_event e w =
    if any (λ p. str_eq p.event_key e.event_key) w.db.processed_events then (ok false, w) else (
      ok true,
      record w { db = record w.db { processed_events = w.db.processed_events ++ e ∷ [] } },
    )

-- `mark_event_processed`: True for a key that was not there.
unfoldable pub mark_event_processed : String → String → String → Action Bool
mark_event_processed key source event_type = transaction (λ w.
    insert_event
      (record { event_key = key; source = source; event_type = event_type; received_at = w.now }) w)

-- `ReconciliationState(bot, CONNECTING, "never reconciled")`
abbrev pub never_reconciled : String → ReconciliationState
never_reconciled bot = record {
  bot_instance_id = bot;
  status = connecting;
  reason = "never reconciled";
  updated_at = none;
  last_success_at = none;
  ws_connected = false;
  last_ws_event_at = none;
  last_ack_token = none;
}

abbrev or_never : String → Option ReconciliationState → ReconciliationState
or_never bot none = never_reconciled bot
or_never bot (some st) = st

unfoldable pub get_recon_state : String → Database → ReconciliationState
get_recon_state bot d =
    or_never bot (find (λ st. str_eq st.bot_instance_id bot) d.reconciliation_state)

unfoldable pub upsert_state :
    ReconciliationState → List ReconciliationState → List ReconciliationState
upsert_state st [] = st ∷ []
upsert_state st (t ∷ ts) =
    if str_eq t.bot_instance_id st.bot_instance_id then st ∷ ts else t ∷ upsert_state st ts

unfoldable pub write_state : ReconciliationState → Action ReconciliationState
write_state st w =
    let stamped = record st { updated_at = some w.now } in
    (
      ok stamped,
      record w {
        db = record w.db { reconciliation_state = upsert_state stamped w.db.reconciliation_state };
      },
    )

-- `save_recon_state` stamps `updated_at`.
unfoldable pub save_recon_state : ReconciliationState → Action ReconciliationState
save_recon_state st = transaction (write_state st)

unfoldable pub insert_run : ReconRun → Action ℕ
insert_run run w =
    let d = w.db in
    if any (λ r. str_eq r.run_key run.run_key) d.reconciliation_runs
    then (err (integrity_error "reconciliation_runs.run_key"), w)
    else (
      ok (length d.reconciliation_runs + 1),
      record w {
        db = record d {
          reconciliation_runs = d.reconciliation_runs ++ record run { finished_at = w.now } ∷ [];
        };
      },
    )

-- `record_recon_run`, with its mismatches
unfoldable pub record_recon_run : ReconRun → Action ℕ
record_recon_run run = transaction (insert_run run)

abbrev open_mismatches : Option ReconRun → ℕ
open_mismatches none = 0
open_mismatches (some r) =
    length (select (λ m. not m.resolved && is_critical m.severity) r.mismatches)

-- `open_mismatch_count`: the unresolved critical mismatches of the bot's latest run.
unfoldable pub open_mismatch_count : String → Database → ℕ
open_mismatch_count bot d =
    open_mismatches (find (λ r. str_eq r.bot_instance_id bot) (reverse d.reconciliation_runs))
