-- ===== src/Engine/Keeps/Tables.antt =====
-- The operations of the store under `Keeps`: four of them write the tables that matter.
use cryptoaibot.Common.{
  String, ◌+◌, ◌≡◌, false, List, [], ◌∷◌, ◌++◌, any, update, str_eq, length, Bool-cases, inl, inr,
}
use cryptoaibot.Domain.Enums.{OrderPurpose}
use cryptoaibot.Domain.Order.{Order, OrderIntent}
use cryptoaibot.Domain.Position.{Fill, Position}
use cryptoaibot.Domain.Recon.{ReconciliationState}
use cryptoaibot.Store.Tables.{ProcessedEvent, Kind, Payload, KvValue, ReconRun}
use cryptoaibot.Store.Orders.{
  inserted_row, is_duplicate, insert_intent_and_order, insert_rows, saved_row, is_row,
  takes_exchange_id, save_order, update_row,
}
use cryptoaibot.Store.Fills.{same_execution, insert_fill, insert_row}
use cryptoaibot.Store.Positions.{save_position, upsert_position}
use cryptoaibot.Store.Recon.{
  mark_event_processed, insert_event, save_recon_state, write_state, record_recon_run, insert_run,
}
use cryptoaibot.Store.Outbox.{enqueue, insert_message, has_idempotency_key}
use cryptoaibot.Store.Kv.{kv_set}
use cryptoaibot.Engine.Keeps.Rules.{Invariant, Holds, Keeps, Keeps-transaction, keeps_rules}

-- An invariant that three of the four writes keep, under the tests that guard them.
pub record IsSafe (Q : Invariant) : Type 0 where
  pub order_saved :
      (o : Order) (os : List Order) (fs : List Fill) (es : List ProcessedEvent)
      → Q os fs es
      → Q (update (is_row o) (saved_row o) os) fs es
  pub fill_inserted :
      (f : Fill) (os : List Order) (fs : List Fill) (es : List ProcessedEvent)
      → any (same_execution f) fs ≡ false
      → Q os fs es
      → Q os (fs ++ record f { id = length fs + 1 } ∷ []) es
  pub event_inserted :
      (e : ProcessedEvent) (os : List Order) (fs : List Fill) (es : List ProcessedEvent)
      → any (λ p. str_eq p.event_key e.event_key) es ≡ false
      → Q os fs es
      → Q os fs (es ++ e ∷ [])

-- An invariant that a new order with the purpose `p` keeps.
pub record Admits (Q : Invariant) (p : OrderPurpose) : Type 0 where
  pub order_inserted :
      (o : Order) (os : List Order) (fs : List Fill) (es : List ProcessedEvent)
      → o.purpose ≡ p
      → any (is_duplicate o) os ≡ false
      → Q os fs es
      → Q (os ++ inserted_row (length os + 1) o ∷ []) fs es

pub record IsStable (Q : Invariant) : Type 0 where
  pub safe : IsSafe Q
  pub admits : (p : OrderPurpose) → Admits Q p

module _ {Q : Invariant} (i : OrderIntent) (o : Order) (p : OrderPurpose) where
  insert_rows-Keeps : Admits Q p → o.purpose ≡ p → Keeps Q (insert_rows i o)
  unfolding insert_rows
  insert_rows-Keeps admits same = record {
    at = λ w h.
        elim (Bool-cases
          (any (λ j. str_eq j.client_intent_id i.client_intent_id) w.db.order_intents)) [
            | inl known ↦ rw known h
            | inr fresh ↦ rw fresh (elim (Bool-cases (any (is_duplicate o) w.db.orders)) [
              | inl taken ↦ rw taken h
              | inr free ↦
                  rw free (
                    admits.order_inserted o w.db.orders w.db.fills w.db.processed_events same free
                      h)
            ])
          ];
  }

  pub insert_intent_and_order-Keeps :
      Admits Q p → o.purpose ≡ p → Keeps Q (insert_intent_and_order i o)
  unfolding insert_intent_and_order
  insert_intent_and_order-Keeps admits same = Keeps-transaction _ (insert_rows-Keeps admits same)

module _ {Q : Invariant} (safe : IsSafe Q) where
  update_row-Keeps : (o : Order) → Keeps Q (update_row o)
  unfolding update_row
  update_row-Keeps o = record {
    at = λ w h. elim (Bool-cases (any (is_row o) w.db.orders)) [
      | inl present ↦ rw present (elim (Bool-cases (any (takes_exchange_id o) w.db.orders)) [
        | inl taken ↦ rw taken h
        | inr free ↦ rw free (safe.order_saved o w.db.orders w.db.fills w.db.processed_events h)
      ])
      | inr stale ↦ rw stale h
    ];
  }

  pub save_order-Keeps : (o : Order) → Keeps Q (save_order o)
  unfolding save_order
  save_order-Keeps o = Keeps-transaction _ (update_row-Keeps o)

  insert_row-Keeps : (f : Fill) → Keeps Q (insert_row f)
  unfolding insert_row
  insert_row-Keeps f = record {
    at = λ w h. elim (Bool-cases (any (same_execution f) w.db.fills)) [
      | inl known ↦ rw known h
      | inr fresh ↦
          rw fresh (safe.fill_inserted f w.db.orders w.db.fills w.db.processed_events fresh h)
    ];
  }

  pub insert_fill-Keeps : (f : Fill) → Keeps Q (insert_fill f)
  unfolding insert_fill
  insert_fill-Keeps f = Keeps-transaction _ (insert_row-Keeps f)

  insert_event-Keeps : (e : ProcessedEvent) → Keeps Q (insert_event e)
  unfolding insert_event
  insert_event-Keeps e = record {
    at = λ w h.
        elim (Bool-cases (any (λ p. str_eq p.event_key e.event_key) w.db.processed_events)) [
          | inl known ↦ rw known h
          | inr fresh ↦
              rw fresh (safe.event_inserted e w.db.orders w.db.fills w.db.processed_events fresh h)
        ];
  }

  pub mark_event_processed-Keeps : (k s t : String) → Keeps Q (mark_event_processed k s t)
  unfolding mark_event_processed
  mark_event_processed-Keeps k s t = Keeps-transaction _ (record {
    at = λ w h.
        (insert_event-Keeps
            (record { event_key = k; source = s; event_type = t; received_at = w.now })).at
          w h;
  })

-- The writes of the other tables.
module _ {Q : Invariant} where
  upsert_position-Keeps : (p : Position) → Keeps Q (upsert_position p)
  unfolding upsert_position
  upsert_position-Keeps p = record { at = λ w h. h }

  write_state-Keeps : (st : ReconciliationState) → Keeps Q (write_state st)
  unfolding write_state
  write_state-Keeps st = record { at = λ w h. h }

  pub save_position-Keeps : (p : Position) → Keeps Q (save_position p)
  unfolding save_position
  save_position-Keeps p = Keeps-transaction _ (upsert_position-Keeps p)

  pub save_recon_state-Keeps : (st : ReconciliationState) → Keeps Q (save_recon_state st)
  unfolding save_recon_state
  save_recon_state-Keeps st = Keeps-transaction _ (write_state-Keeps st)

  insert_run-Keeps : (r : ReconRun) → Keeps Q (insert_run r)
  unfolding insert_run
  insert_run-Keeps r = record {
    at = λ w h. elim (Bool-cases (any (λ s. str_eq s.run_key r.run_key) w.db.reconciliation_runs)) [
      | inl known ↦ rw known h
      | inr fresh ↦ rw fresh h
    ];
  }

  pub record_recon_run-Keeps : (r : ReconRun) → Keeps Q (record_recon_run r)
  unfolding record_recon_run
  record_recon_run-Keeps r = Keeps-transaction _ (insert_run-Keeps r)

  insert_message-Keeps :
      (kind : Kind) (key : String) (p : Payload) → Keeps Q (insert_message kind key p)
  unfolding insert_message
  insert_message-Keeps kind key p = record {
    at = λ w h. elim (Bool-cases (any (has_idempotency_key key) w.db.outbox)) [
      | inl known ↦ rw known h
      | inr fresh ↦ rw fresh h
    ];
  }

  pub enqueue-Keeps : (kind : Kind) (key : String) (p : Payload) → Keeps Q (enqueue kind key p)
  unfolding enqueue
  enqueue-Keeps kind key p = Keeps-transaction _ (insert_message-Keeps kind key p)

  pub kv_set-Keeps : (key : String) (v : KvValue) → Keeps Q (kv_set key v)
  unfolding kv_set
  kv_set-Keeps key v = Keeps-transaction _ (record { at = λ w h. h })

pub ruleset table_rules = (
  keeps_rules, save_order-Keeps, insert_fill-Keeps, mark_event_processed-Keeps, save_position-Keeps,
  save_recon_state-Keeps, record_recon_run-Keeps, enqueue-Keeps, kv_set-Keeps,
)
