-- ===== src/Engine/Recon/Checks.antt =====
-- engine/application/reconciliation_service.py: the checks of `run`, each over the findings so far.
-- The summary's counts are not modelled.
use cryptoaibot.Common.{
  String, ℕ, ◌+◌, ◌*◌, Bool, true, false, not, ◌&&◌, ◌||◌, Option, none, some, List, [], ◌∷◌, ◌++◌,
  leb, truthy, option_or, starts_with, if◌then◌else◌, select, take,
}
use cryptoaibot.Exec.{
  Result, ok, err, Error, order_conflict, pure, raise, gets, ◌>>=◌, ◌>>◌, try_except,
}
use cryptoaibot.Decimal.{Decimal, zero_dec, dec, ◌-ᵈ◌, lt_dec, le_dec, eq_dec, max_dec, abs_dec}
use cryptoaibot.Domain.Enums.{
  MismatchSeverity, critical, warning, submitting, status_eq, is_terminal, is_protective,
}
use cryptoaibot.Domain.Events.{ExchangeOrderReport, ExchangeFill}
use cryptoaibot.Domain.Order.{Order}
use cryptoaibot.Domain.Position.{Position, is_open}
use cryptoaibot.Domain.Recon.{microseconds_per_second}
use cryptoaibot.Domain.Rules.{SymbolRules}
use cryptoaibot.Store.Tables.{World, Database, Action, Mismatch}
use cryptoaibot.Store.Orders.{get_order, get_order_by_exchange_id, non_terminal_orders, orders}
use cryptoaibot.Engine.Config.{Config}
use cryptoaibot.Engine.Executor.{Executor, request}
use cryptoaibot.Engine.Orders.Apply.{apply_report, ingest_fill, ingest_order_fills, fill_quantity}
use cryptoaibot.Engine.Orders.Submit.{
  Resolution, resolved, pending, resolve_ambiguous, refresh, fetch,
}

-- `mismatches` and `pending_ambiguous`
pub record Findings : Type 0 where
  pub mismatches : List Mismatch
  pub pending_ambiguous : ℕ

abbrev pub no_findings : Findings
no_findings = record { mismatches = []; pending_ambiguous = 0 }

abbrev pub mismatch : String → MismatchSeverity → Option String → Bool → Mismatch
mismatch kind severity coid settled = record {
  kind = kind;
  severity = severity;
  client_order_id = coid;
  resolved = settled;
}

-- `mismatches.append(self._m(...))`
unfoldable pub note : String → MismatchSeverity → Option String → Findings → Findings
note kind severity coid fs = record fs {
  mismatches = fs.mismatches ++ mismatch kind severity coid false ∷ [];
}

-- The checks so far were completed, or an exception ended them; the findings made before it stay.
pub data Checked : Type 0 where
  completed : Findings → Checked
  aborted : Findings → Error → Checked

abbrev pub to_checked : Findings → Result Findings × World → Result Checked × World
to_checked fs (ok found, w) = (ok (completed found), w)
to_checked fs (err e, w) = (ok (aborted fs e), w)

-- A step that adds its findings at its end, if it does not raise.
unfoldable pub step : Findings → Action Findings → Action Checked
step fs m w = to_checked fs (m w)

-- A request whose exception ends the checks.
abbrev pub answer_to :
    {A : Type 0} → Findings → (A → Action Checked) → Result A × World → Result Checked × World
answer_to fs k (ok a, w) = k a w
answer_to fs k (err e, w) = (ok (aborted fs e), w)

unfoldable pub ask : {A : Type 0} → Findings → Action A → (A → Action Checked) → Action Checked
ask fs m k w = answer_to fs k (m w)

unfoldable pub proceed : (Findings → Action Checked) → Checked → Action Checked
proceed k (completed fs) = k fs
proceed k (aborted fs e) = pure (aborted fs e)

-- A loop whose body extends the findings.
unfoldable pub scan :
    {A : Type 0} → (A → Findings → Action Findings) → List A → Findings → Action Checked
scan f [] fs = pure (completed fs)
scan f (a ∷ as') fs = step fs (f a fs) >>= proceed (scan f as')

abbrev pub microseconds_per_hour : ℕ
microseconds_per_hour = 3600 * microseconds_per_second

-- `except OrderConflict`
unfoldable pub on_conflict : String → Findings → Error → Action Findings
on_conflict coid fs (order_conflict m) = pure (note "ORDER_STATE_CONFLICT" critical (some coid) fs)
on_conflict coid fs e = raise e

unfoldable pub tolerance_of : SymbolRules → Decimal
tolerance_of rules = max_dec rules.step_size (dec 1 8)

unfoldable pub is_ours : String → Option String → Bool
is_ours prefix none = false
is_ours prefix (some coid) = truthy (some coid) && starts_with coid prefix

module _ (x : Executor) (cfg : Config) where
  unfoldable pub after_resolution : Order → Findings → Resolution → Action Findings
  after_resolution o fs resolved = pure fs
  after_resolution o fs pending = pure (
      note "AMBIGUOUS_ORDER_PENDING" warning (some o.client_order_id)
        (record fs { pending_ambiguous = fs.pending_ambiguous + 1 }))

  unfoldable pub update_open : Order → Findings → Action Findings
  update_open o fs =
      if o.submission_ambiguous || status_eq o.status submitting
      then (do r ← resolve_ambiguous x cfg o; after_resolution o fs r)
      else (do refresh x cfg o; pure fs)

  -- Steps 2 to 4: one local order that is not terminal.
  unfoldable pub check_open : Order → Findings → Action Findings
  check_open o fs = try_except (update_open o fs) (on_conflict o.client_order_id fs)

  -- Which terminal orders are verified, at most twenty, latest first.
  unfoldable pub is_recent : ℕ → Order → Bool
  is_recent now o =
      is_terminal o.status
      && (truthy o.exchange_order_id
          && (is_after o.terminal_at
              && not (starts_with (option_or o.reject_reason "") "NOT_FOUND")))
    where
      is_after : Option ℕ → Bool
      is_after none = false
      is_after (some t) = leb now (t + cfg.recent_fills_lookback_hours * microseconds_per_hour)

  unfoldable pub recent_terminal : ℕ → Database → List Order
  recent_terminal now d =
      take 20 (select (is_recent now) (orders cfg.bot_instance_id (some cfg.symbol) 100 d))

  unfoldable pub compare_executed : Order → ExchangeOrderReport → Findings → Action Findings
  compare_executed o r fs = do
    apply_report x cfg.bot_instance_id r
    fresh ← fetch o.client_order_id
    pure (
        if lt_dec r.executed_qty fresh.executed_quantity
        then note "EXECUTED_QTY_EXCEEDS_EXCHANGE" critical (some o.client_order_id) fs
        else fs)

  unfoldable pub verify_answer : Order → Findings → Option ExchangeOrderReport → Action Findings
  verify_answer o fs none =
      pure (note "TERMINAL_ORDER_MISSING_ON_EXCHANGE" critical (some o.client_order_id) fs)
  verify_answer o fs (some r) =
      if status_eq r.status o.status && eq_dec r.executed_qty o.executed_quantity
      then pure fs
      else compare_executed o r fs

  unfoldable pub verify_terminal : Order → Findings → Action Findings
  verify_terminal o fs =
      try_except (do r ← request (x.query_order o); verify_answer o fs r)
        (on_conflict o.client_order_id fs)

  unfoldable pub check_known : String → ExchangeOrderReport → Findings → Option Order → Findings
  check_known prefix r fs (some o) = fs
  check_known prefix r fs none =
      if starts_with r.client_order_id prefix
      then note "UNKNOWN_BOT_ORDER" critical (some r.client_order_id) fs
      else note "FOREIGN_OPEN_ORDER" warning (some r.client_order_id) fs

  -- An open order at the exchange.
  unfoldable pub check_exchange_open : String → ExchangeOrderReport → Findings → Action Findings
  check_exchange_open prefix r fs =
      gets (λ w. check_known prefix r fs (get_order r.client_order_id w.db))

  unfoldable pub local_of_fill : Option String → Database → Option Order
  local_of_fill none d = none
  local_of_fill (some xid) d =
      if truthy (some xid) then get_order_by_exchange_id x.exchange_name xid d else none

  unfoldable pub query_of_fill : Option String → Action (Option ExchangeOrderReport)
  query_of_fill none = pure none
  query_of_fill (some xid) =
      if truthy (some xid) then request (x.query_order_by_exchange_id cfg.symbol xid) else pure none

  unfoldable pub coid_of : Option ExchangeOrderReport → Option String
  coid_of none = none
  coid_of (some r) = some r.client_order_id

  unfoldable pub order_of_coid : Option String → Database → Option Order
  order_of_coid none d = none
  order_of_coid (some coid) d = if truthy (some coid) then get_order coid d else none

  unfoldable pub apply_seen : Option ExchangeOrderReport → Action (Unit {0})
  apply_seen none = pure tt
  apply_seen (some r) = do apply_report x cfg.bot_instance_id r; pure tt

  unfoldable pub ingest_seen : ExchangeFill → Findings → Action Findings
  ingest_seen xf fs = do ingest_fill x cfg.bot_instance_id xf; pure fs

  -- The fill's order is known by its client order id, once the exchange was asked, or is not ours.
  unfoldable pub fill_of_queried :
      String → ExchangeFill → Findings → Option ExchangeOrderReport → Option Order → Action Findings
  fill_of_queried prefix xf fs r none = pure (
      if is_ours prefix (coid_of r)
      then note "UNKNOWN_BOT_FILL" critical (coid_of r) fs
      else note "FOREIGN_FILL" warning (coid_of r) fs)
  fill_of_queried prefix xf fs r (some o) = apply_seen r >> ingest_seen xf fs

  unfoldable pub fill_of_unknown : String → ExchangeFill → Findings → Action Findings
  fill_of_unknown prefix xf fs = do
    r ← query_of_fill xf.exchange_order_id
    known ← gets (λ w. order_of_coid (coid_of r) w.db)
    fill_of_queried prefix xf fs r known

  unfoldable pub recover_known : String → ExchangeFill → Findings → Option Order → Action Findings
  recover_known prefix xf fs (some o) = ingest_seen xf fs
  recover_known prefix xf fs none = fill_of_unknown prefix xf fs

  -- Step 5: one recent fill at the exchange.
  unfoldable pub recover_fill : String → ExchangeFill → Findings → Action Findings
  recover_fill prefix xf fs = do
    known ← gets (λ w. local_of_fill xf.exchange_order_id w.db)
    recover_known prefix xf fs known

  unfoldable pub is_explained : Decimal → Order → Database → Bool
  is_explained tolerance o d = le_dec (abs_dec (fill_quantity o d -ᵈ o.executed_quantity)) tolerance

  unfoldable pub refill : Decimal → Order → Findings → Action Findings
  refill tolerance o fs = do
    ingest_order_fills x cfg.bot_instance_id (some o)
    fine ← gets (λ w. is_explained tolerance o w.db)
    pure (if fine then fs else note "FILLS_INCOMPLETE" critical (some o.client_order_id) fs)

  -- The executed quantity must be explained by the recorded fills.
  unfoldable pub check_fills : Decimal → Order → Findings → Action Findings
  check_fills tolerance o fs = do
    fine ← gets (λ w. is_explained tolerance o w.db)
    if le_dec o.executed_quantity zero_dec || status_eq o.status submitting || fine
        then pure fs
        else refill tolerance o fs

unfoldable pub note_anomalies : List String → Findings → Findings
note_anomalies [] fs = fs
note_anomalies (a ∷ as') fs = note_anomalies as' (note "POSITION_ANOMALY" critical none fs)

-- Steps 6 and 7: the rebuilt position against the one before, its anomalies, and the base balance.
unfoldable pub check_position :
    Decimal → Position → Position → List String → Decimal → Findings → Findings
check_position tolerance before rebuilt anomalies base_total fs =
    let corrected =
      if lt_dec tolerance (abs_dec (before.quantity -ᵈ rebuilt.quantity))
      then record fs {
        mismatches = fs.mismatches ++ mismatch "POSITION_CORRECTED" warning none true ∷ [];
      }
      else fs in
    let noted = note_anomalies anomalies corrected in
    if lt_dec tolerance (rebuilt.quantity -ᵈ base_total)
    then note "BALANCE_BELOW_POSITION" critical none noted
    else noted

-- The resting stop of an open position, where stops rest at the exchange.
unfoldable pub check_protective : Config → SymbolRules → Position → Database → Findings → Findings
check_protective cfg rules rebuilt d fs =
    if cfg.protective_stop_on_exchange && is_open (some rules) rebuilt
    then no_stop (
        select (λ o. is_protective o.purpose)
          (non_terminal_orders cfg.bot_instance_id (some cfg.symbol) d))
    else fs
  where
    no_stop : List Order → Findings
    no_stop [] = note "PROTECTIVE_STOP_MISSING" warning none fs
    no_stop (o ∷ os) = fs
