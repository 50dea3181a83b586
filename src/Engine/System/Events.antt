-- ===== src/Engine/System/Events.antt =====
-- engine/application/stream_ingestion.py: what is stored of an event that is not applied.
use cryptoaibot.Common.{
  String, ◌≡◌, ◌≢◌, refl, sym, ap, ◌∙◌, subst, ◌+◌, ◌⊎◌, Bool, true, false, Option, none, some,
  str_eq, any, inl, inr, if◌then◌else◌,
}
use cryptoaibot.Exec.{
  Result, ok, err, Error, order_conflict, pure, recover, try_except, ◌>>=◌, bind-eq-ok, bind-ok,
  pure-eq-ok,
}
use cryptoaibot.Domain.Enums.{status_value}
use cryptoaibot.Domain.Events.{ExchangeOrderReport, ExchangeFill}
use cryptoaibot.Domain.Order.{Order}
use cryptoaibot.Store.Tables.{World, Database}
use cryptoaibot.Store.Transaction.{transaction, leave, transaction_atomic}
use cryptoaibot.Store.Recon.{mark_event_processed, insert_event}
use cryptoaibot.Engine.Config.{Config, Platform}
use cryptoaibot.Engine.Executor.{Executor}
use cryptoaibot.Engine.Keeps.Rules.{Invariant, Keeps}
use cryptoaibot.Engine.Keeps.Tables.{table_rules}
use cryptoaibot.Engine.Keeps.Services.{enqueue_event-Keeps}
use cryptoaibot.Engine.Orders.Apply.{record_conflict, order_of_report}
use cryptoaibot.Engine.Stream.{
  NormalizedStreamEvent, EventKind, Outcome, IngestResult, done, apply_new, apply_event,
  after_conflict, handle_order, handle_kind, handle,
}

-- The orders, fills and processed events are those of a ledger.
abbrev AsIn : Database → Invariant
AsIn d os fs es = (os ≡ d.orders) × (fs ≡ d.fills) × (es ≡ d.processed_events)

abbrev Unmoved : World → World → Type 0
Unmoved w v = AsIn w.db v.db.orders v.db.fills v.db.processed_events

known_leaves :
    (b : Bool) (w v u : World)
    → (leave w (if b then (ok false, v) else (ok true, u))).0 ≡ ok false
    → (leave w (if b then (ok false, v) else (ok true, u))).1.db ≡ v.db
known_leaves true w v u h = refl
known_leaves false w v u h = cc h

duplicate_leaves :
    (key source t : String) (w : World)
    → (mark_event_processed key source t w).0 ≡ ok false
    → (mark_event_processed key source t w).1.db ≡ w.db
unfolding mark_event_processed insert_event transaction
duplicate_leaves key source t w h =
    known_leaves (any (λ p. str_eq p.event_key key) w.db.processed_events) w _ _ h

-- A transaction that returns leaves what its body left.
left_ok :
    {A : Type 0} (w : World) (p : Result A × World) {a : A}
    → (leave w p).0 ≡ ok a
    → (p.0 ≡ ok a) × ((leave w p).1.db ≡ p.1.db)
left_ok w (ok b, v) h = (h, refl)
left_ok w (err e, v) h = cc h

module _ (x : Executor) (cfg : Config) where
  record-Keeps :
      {Q : Invariant} (coid st m : String)
      → Keeps Q (record_conflict x cfg.bot_instance_id coid st m)
  unfolding record_conflict
  record-Keeps coid st m = search (table_rules, enqueue_event-Keeps) depth 12

  conflict-Keeps :
      {Q : Invariant} (r : ExchangeOrderReport) (e : Error) → Keeps Q (after_conflict x cfg r e)
  unfolding after_conflict
  conflict-Keeps r (order_conflict m) =
      search (table_rules, record-Keeps r.client_order_id (status_value r.status) m) depth 12
  conflict-Keeps r e = search table_rules

  applied_new :
      (r : ExchangeOrderReport) (f : Option ExchangeFill) (w : World) (a : IngestResult)
      → (apply_new x cfg r f true w).0 ≡ ok a
      → a ≡ done Outcome.applied
  unfolding apply_new
  applied_new r f w a h =
      let (o, ho, h1) = bind-eq-ok _ _ w h in
      let (u, hu, h2) = bind-eq-ok _ _ _ h1 in sym (pure-eq-ok _ _ h2)

  seen :
      (r : ExchangeOrderReport) (f : Option ExchangeFill) (w : World)
      → (apply_new x cfg r f false w).1.db ≡ w.db
  unfolding apply_new pure
  seen r f w = refl

  event_err :
      (ev : NormalizedStreamEvent) (source : String) (r : ExchangeOrderReport)
      (f : Option ExchangeFill) (w : World) (e : Error)
      → w.depth ≡ 0
      → (apply_event x cfg ev source r f w).0 ≡ err e
      → (apply_event x cfg ev source r f w).1.db ≡ w.db
  unfolding apply_event
  event_err ev source r f w e top h = (transaction_atomic _ w e top h).0

  event_ok :
      (ev : NormalizedStreamEvent) (source : String) (r : ExchangeOrderReport)
      (f : Option ExchangeFill) (w : World) (a : IngestResult)
      → (apply_event x cfg ev source r f w).0 ≡ ok a
      → (a ≡ done Outcome.applied) ⊎ ((apply_event x cfg ev source r f w).1.db ≡ w.db)
  unfolding apply_event transaction
  event_ok ev source r f w a h =
      let inside : World = record w { depth = w.depth + 1 } in
      let mark = mark_event_processed ev.event_key source ev.event_type in
      let (returned, same) = left_ok w ((mark >>= apply_new x cfg r f) inside) h in
      let (b, marked, rest) = bind-eq-ok mark (apply_new x cfg r f) inside returned in
      by_answer b marked rest same
    where
      by_answer :
          (b : Bool)
          → (mark_event_processed ev.event_key source ev.event_type
              (record w { depth = w.depth + 1 })).0
            ≡ ok b
          → (apply_new x cfg r f b
              (mark_event_processed ev.event_key source ev.event_type
                (record w { depth = w.depth + 1 })).1).0
            ≡ ok a
          → (leave w (
              (mark_event_processed ev.event_key source ev.event_type >>= apply_new x cfg r f)
                (record w { depth = w.depth + 1 }))).1.db
            ≡ ((mark_event_processed ev.event_key source ev.event_type >>= apply_new x cfg r f)
                (record w { depth = w.depth + 1 })).1.db
          → (a ≡ done Outcome.applied)
            ⊎ ((leave w (
                  (mark_event_processed ev.event_key source ev.event_type >>= apply_new x cfg r f)
                    (record w { depth = w.depth + 1 }))).1.db
                ≡ w.db)
      by_answer true marked rest same = inl (applied_new r f _ a rest)
      by_answer false marked rest same = inr (
          same
          ∙ ap (λ p. p.1.db) (bind-ok _ (apply_new x cfg r f) _ marked)
          ∙ seen r f _
          ∙ duplicate_leaves ev.event_key source ev.event_type _ marked)

  -- What a conflict or another exception leaves.
  recovered :
      (r : ExchangeOrderReport) (w : World) (p : Result IngestResult × World)
      → ((a : IngestResult) → p.0 ≡ ok a → (a ≡ done Outcome.applied) ⊎ (p.1.db ≡ w.db))
      → ((e : Error) → p.0 ≡ err e → p.1.db ≡ w.db)
      → (recover (after_conflict x cfg r) p).0 ≢ ok (done Outcome.applied)
      → Unmoved w (recover (after_conflict x cfg r) p).1
  recovered r w (ok a, v) fine raised other = elim (fine a refl) [
    | inl same ↦ absurd (other (ap ok same))
    | inr same ↦
        (ap (λ d. d.orders) same, ap (λ d. d.fills) same, ap (λ d. d.processed_events) same)
  ]
  recovered r w (err e, v) fine raised other =
      let same = raised e refl in
      (conflict-Keeps {Q = AsIn w.db} r e).at v
        (ap (λ d. d.orders) same, ap (λ d. d.fills) same, ap (λ d. d.processed_events) same)

  order_leaves :
      (py : Platform) (ev : NormalizedStreamEvent) (source : String) (r : ExchangeOrderReport)
      (f : Option ExchangeFill) (known : Option Order) (w : World)
      → w.depth ≡ 0
      → (handle_order x cfg py ev source r f known w).0 ≢ ok (done Outcome.applied)
      → Unmoved w (handle_order x cfg py ev source r f known w).1
  unfolding handle_order pure try_except
  order_leaves py ev source r f none w top other = (refl, refl, refl)
  order_leaves py ev source r f (some o) w top other =
      recovered r w (apply_event x cfg ev source r f w) (event_ok ev source r f w)
        (λ e h. event_err ev source r f w e top h) other

  -- All or nothing: an event about an order, heard outside a transaction, either is applied, or leaves
  -- the orders, the fills and the processed events as they were, whether it is a duplicate, about no
  -- known order, in conflict with the order, or ended by another exception; so an event that failed is
  -- not marked as processed.
  pub handle_all_or_nothing :
      (py : Platform) (ev : NormalizedStreamEvent) (source : String) (r : ExchangeOrderReport)
      (f : Option ExchangeFill) (w : World)
      → ev.kind ≡ EventKind.order r f
      → w.depth ≡ 0
      → (handle x cfg py ev source w).0 ≢ ok (done Outcome.applied)
      → ((handle x cfg py ev source w).1.db.orders ≡ w.db.orders)
        × ((handle x cfg py ev source w).1.db.fills ≡ w.db.fills)
        × ((handle x cfg py ev source w).1.db.processed_events ≡ w.db.processed_events)
  unfolding handle handle_kind ◌>>=◌
  handle_all_or_nothing py ev source r f w kind top =
      subst
        (λ k.
          (handle_kind x cfg py ev source k w).0 ≢ ok (done Outcome.applied)
          → Unmoved w (handle_kind x cfg py ev source k w).1)
        (sym kind) (order_leaves py ev source r f (order_of_report x.exchange_name r w.db) w top)
