-- ===== src/Engine/Stream.antt =====
-- engine/application/stream_ingestion.py: `StreamIngestionService.handle`.
use cryptoaibot.Common.{
  String, ◌<>◌, Bool, true, false, Option, none, some, List, [], ◌∷◌, str_eq, starts_with,
  if◌then◌else◌,
}
use cryptoaibot.Exec.{Error, order_conflict, pure, raise, gets, ◌>>=◌, ◌>>◌, try_except}
use cryptoaibot.Domain.Enums.{status_value}
use cryptoaibot.Domain.Events.{ExchangeOrderReport, ExchangeFill, Balance, BalanceSnapshot}
use cryptoaibot.Domain.Order.{Order}
use cryptoaibot.Store.Tables.{Action, KvValue}
use cryptoaibot.Store.Transaction.{transaction}
use cryptoaibot.Store.Recon.{mark_event_processed}
use cryptoaibot.Store.Kv.{kv_get, kv_set}
use cryptoaibot.Engine.Config.{Config, Platform}
use cryptoaibot.Engine.Ids.{own_prefix}
use cryptoaibot.Engine.Executor.{Executor}
use cryptoaibot.Engine.Orders.Apply.{order_of_report, apply_report, ingest_fill, record_conflict}

-- The `kind` of a `NormalizedStreamEvent`, with the parts that such an event has.
pub data EventKind : Type 0 where
  order : ExchangeOrderReport → Option ExchangeFill → EventKind
  balance : BalanceSnapshot → EventKind
  terminated ignored : EventKind

pub record NormalizedStreamEvent : Type 0 where
  pub kind : EventKind
  pub event_key : String
  pub event_type : String

pub data Outcome : Type 0 where
  applied duplicate foreign unknown_bot_order conflict balance terminated ignored : Outcome

pub record IngestResult : Type 0 where
  pub outcome : Outcome
  pub needs_reconciliation : Bool

abbrev pub done : Outcome → IngestResult
done o = record { outcome = o; needs_reconciliation = false }

abbrev pub needs : Outcome → IngestResult
needs o = record { outcome = o; needs_reconciliation = true }

unfoldable pub put_balance : String → Balance → List (String × Balance) → List (String × Balance)
put_balance asset b [] = (asset, b) ∷ []
put_balance asset b ((a, c) ∷ rest) =
    if str_eq a asset then (asset, b) ∷ rest else (a, c) ∷ put_balance asset b rest

unfoldable pub merge : List (String × Balance) → List (String × Balance) → List (String × Balance)
merge [] current = current
merge ((a, b) ∷ rest) current = merge rest (put_balance a b current)

unfoldable pub stored_balances : Option KvValue → List (String × Balance)
stored_balances (some (KvValue.balances bs)) = bs
stored_balances _ = []

module _ (x : Executor) (cfg : Config) where
  unfoldable pub take_balances : BalanceSnapshot → Action IngestResult
  take_balances s = do
    current ← gets (λ w. stored_balances (kv_get ("balances:" <> cfg.bot_instance_id) w.db.kv))
    kv_set ("balances:" <> cfg.bot_instance_id) (KvValue.balances (merge s.balances current))
    pure (done Outcome.balance)

  unfoldable pub ingest_option : Option ExchangeFill → Action (Unit {0})
  ingest_option none = pure tt
  ingest_option (some f) = do ingest_fill x cfg.bot_instance_id f; pure tt

  -- Behind the `processed_events` row: `false` is a key that was there.
  unfoldable pub apply_new : ExchangeOrderReport → Option ExchangeFill → Bool → Action IngestResult
  apply_new r f false = pure (done Outcome.duplicate)
  apply_new r f true = do
    apply_report x cfg.bot_instance_id r
    ingest_option f
    pure (done Outcome.applied)

  -- The one transaction for the event, the order and the fill.
  unfoldable pub apply_event :
      NormalizedStreamEvent
      → String
      → ExchangeOrderReport
      → Option ExchangeFill
      → Action IngestResult
  apply_event ev source r f =
      transaction
        do new_key ← mark_event_processed ev.event_key source ev.event_type; apply_new r f new_key

  -- `except OrderConflict`: the rollback is over, and the conflict is recorded.
  unfoldable pub after_conflict : ExchangeOrderReport → Error → Action IngestResult
  after_conflict r (order_conflict m) = do
    record_conflict x cfg.bot_instance_id r.client_order_id (status_value r.status) m
    pure (needs Outcome.conflict)
  after_conflict r e = raise e

  unfoldable pub handle_order :
      Platform
      → NormalizedStreamEvent
      → String
      → ExchangeOrderReport
      → Option ExchangeFill
      → Option Order
      → Action IngestResult
  handle_order py ev source r f none = pure (
      if starts_with r.client_order_id (own_prefix py cfg.client_order_id_prefix)
      then needs Outcome.unknown_bot_order
      else done Outcome.foreign)
  handle_order py ev source r f (some o) = try_except (apply_event ev source r f) (after_conflict r)

  unfoldable pub handle_kind :
      Platform → NormalizedStreamEvent → String → EventKind → Action IngestResult
  handle_kind py ev source EventKind.terminated = pure (needs Outcome.terminated)
  handle_kind py ev source (EventKind.balance s) = take_balances s
  handle_kind py ev source EventKind.ignored = pure (done Outcome.ignored)
  handle_kind py ev source (EventKind.order r f) = do
    known ← gets (λ w. order_of_report x.exchange_name r w.db)
    handle_order py ev source r f known

  -- `handle`
  unfoldable pub handle : Platform → NormalizedStreamEvent → String → Action IngestResult
  handle py ev source = handle_kind py ev source ev.kind
