-- ===== src/Engine/System/Permanence.antt =====
-- What was done once, and is asked for again: an intent submitted, an execution or an event reported
-- (engine/application/order_service.py, stream_ingestion.py).
use cryptoaibot.Common.{
  String, ◌+◌, ◌≡◌, refl, Bool, true, false, ◌||◌, Option, none, some, is_some, List, [], ◌∷◌, ◌++◌,
  any, any-append, find, str_eq, arith, ap, ◌∙◌, sym, Option-cases, inl, inr, Bool-cases,
}
use cryptoaibot.Common.Distinct.{any-update}
use cryptoaibot.Exec.{ok, ◌>>=◌, try_except}
use cryptoaibot.Domain.Events.{ExchangeOrderReport, ExchangeFill}
use cryptoaibot.Domain.Order.{Order, OrderIntent}
use cryptoaibot.Domain.Position.{Fill}
use cryptoaibot.Domain.Rules.{SymbolRules}
use cryptoaibot.Store.Tables.{World}
use cryptoaibot.Store.Transaction.{transaction}
use cryptoaibot.Store.Orders.{saved_row, is_row, has_intent_id, get_order_by_intent}
use cryptoaibot.Store.Fills.{same_execution, insert_fill, insert_row, fill_exists}
use cryptoaibot.Store.Recon.{mark_event_processed, insert_event}
use cryptoaibot.Engine.Config.{Config, Platform}
use cryptoaibot.Engine.Executor.{Executor}
use cryptoaibot.Engine.Orders.Submit.{submit_intent, submit_once}
use cryptoaibot.Engine.Orders.Apply.{
  ingest_fill, ingest_found, fill_for, order_of_fill, order_of_report, account_if_new,
}
use cryptoaibot.Engine.Stream.{
  NormalizedStreamEvent, EventKind, handle, handle_kind, handle_order, apply_event, apply_new, done,
  Outcome,
}
use cryptoaibot.Engine.System.{Operation, perform_all}
use cryptoaibot.Engine.System.Run.{perform_all_keeps}
use cryptoaibot.Engine.Keeps.Tables.{IsStable}
use cryptoaibot.Engine.Keeps.Rules.{Invariant}

any_append_left :
    {A : Type 0} (p : A → Bool) (xs ys : List A) → any p xs ≡ true → any p (xs ++ ys) ≡ true
any_append_left p xs ys h = any-append p xs ys ∙ ap (λ b. b || any p ys) h

is_some-find : {A : Type 0} (p : A → Bool) (xs : List A) → is_some (find p xs) ≡ any p xs
unfolding find any
is_some-find p [] = refl
is_some-find p (x ∷ xs) = elim (Bool-cases (p x)) [
  | inl hit ↦ rw hit refl
  | inr miss ↦ rw (miss, is_some-find p xs) refl
]

-- Some order has the client intent id, some fill the event key, some processed event the key.
abbrev HasIntent : String → Invariant
HasIntent iid os fs es = any (has_intent_id iid) os ≡ true

abbrev HasFill : String → Invariant
HasFill key os fs es = any (λ f. str_eq f.event_key key) fs ≡ true

abbrev HasEvent : String → Invariant
HasEvent key os fs es = any (λ p. str_eq p.event_key key) es ≡ true

HasIntent-IsStable : (iid : String) → IsStable (HasIntent iid)
unfolding has_intent_id saved_row
HasIntent-IsStable iid = record {
  safe = record {
    order_saved = λ o os fs es h.
        any-update (has_intent_id iid) (is_row o) (saved_row o) os (λ row. refl) ∙ h;
    fill_inserted = λ f os fs es free h. h;
    event_inserted = λ e os fs es free h. h;
  };
  admits = λ p. record {
    order_inserted = λ o os fs es same free h. any_append_left (has_intent_id iid) os _ h;
  };
}

HasFill-IsStable : (key : String) → IsStable (HasFill key)
HasFill-IsStable key = record {
  safe = record {
    order_saved = λ o os fs es h. h;
    fill_inserted = λ g os fs es free h. any_append_left (λ f. str_eq f.event_key key) fs _ h;
    event_inserted = λ e os fs es free h. h;
  };
  admits = λ p. record { order_inserted = λ o os fs es same free h. h };
}

HasEvent-IsStable : (key : String) → IsStable (HasEvent key)
HasEvent-IsStable key = record {
  safe = record {
    order_saved = λ o os fs es h. h;
    fill_inserted = λ g os fs es free h. h;
    event_inserted = λ e os fs es free h. any_append_left (λ p. str_eq p.event_key key) es _ h;
  };
  admits = λ p. record { order_inserted = λ o os fs es same free h. h };
}

any_mono :
    {A : Type 0} (p q : A → Bool) (xs : List A)
    → ((a : A) → p a ≡ true → q a ≡ true)
    → any p xs ≡ true
    → any q xs ≡ true
unfolding any
any_mono p q [] implies h = h
any_mono p q (x ∷ xs) implies h = ground (arith, implies x, any_mono p q xs implies)

-- A fill whose event key is there is not stored again.
insert_fill-known :
    (f : Fill) (w : World)
    → any (λ g. str_eq g.event_key f.event_key) w.db.fills ≡ true
    → insert_fill f w ≡ (ok none, w)
unfolding insert_fill insert_row transaction same_execution
insert_fill-known f w known =
    rw
      (any_mono (λ g. str_eq g.event_key f.event_key) (same_execution f) w.db.fills
        (λ g h. ground (arith, h)) known)
      refl

mark_event_processed-known :
    (key source kind : String) (w : World)
    → any (λ p. str_eq p.event_key key) w.db.processed_events ≡ true
    → mark_event_processed key source kind w ≡ (ok false, w)
unfolding mark_event_processed insert_event transaction
mark_event_processed-known key source kind w known = rw known refl

module _ (cfg : Config) (py : Platform) (ops : List Operation) (w : World) where
  abbrev later : World
  later = perform_all cfg py ops w

  -- An intent that has an order is never submitted again: whatever was done since, `submit_intent`
  -- of an intent with that id returns an order, sends no request and changes nothing.
  pub submit_intent_once :
      (x : Executor) (i : OrderIntent) (rules : SymbolRules)
      → is_some (get_order_by_intent i.client_intent_id w.db) ≡ true
      → (is_some (get_order_by_intent i.client_intent_id later.db) ≡ true)
        × (submit_intent x cfg py i rules later
            ≡ (ok (get_order_by_intent i.client_intent_id later.db), later))
  unfolding submit_intent submit_once ◌>>=◌ get_order_by_intent
  submit_intent_once x i rules before =
      let kept : is_some (get_order_by_intent i.client_intent_id later.db) ≡ true =
        is_some-find (has_intent_id i.client_intent_id) later.db.orders
        ∙ perform_all_keeps (HasIntent-IsStable i.client_intent_id) cfg py ops w
            (sym (is_some-find (has_intent_id i.client_intent_id) w.db.orders) ∙ before) in
      (
        kept,
        elim (Option-cases (get_order_by_intent i.client_intent_id later.db)) [
          | inl absent ↦ ground arith
          | inr (o, found) ↦ rw found refl
        ],
      )

  -- A fill whose event key is recorded is never recorded or accounted for again: whatever was done
  -- since, `ingest_fill` of an execution with that key returns False and changes nothing.
  pub ingest_fill_once :
      (x : Executor) (xf : ExchangeFill)
      → fill_exists xf.event_key w.db ≡ true
      → ingest_fill x cfg.bot_instance_id xf later ≡ (ok false, later)
  unfolding ingest_fill ingest_found account_if_new transaction ◌>>=◌ fill_exists fill_for
  ingest_fill_once x xf before = elim (Option-cases (order_of_fill x.exchange_name xf later.db)) [
    | inl unknown ↦ rw unknown refl
    | inr (o, found) ↦
        rw
          (
            found,
            insert_fill-known (fill_for xf later.now o) (record later { depth = later.depth + 1 })
                (perform_all_keeps (HasFill-IsStable xf.event_key) cfg py ops w before),
          )
          refl
  ]

  -- A stream event of a known order whose key is in `processed_events` is never applied again:
  -- whatever was done since, `handle` answers `duplicate` and changes nothing.
  pub handle_once :
      (x : Executor) (ev : NormalizedStreamEvent) (source : String) (r : ExchangeOrderReport)
      (f : Option ExchangeFill) (o : Order)
      → any (λ p. str_eq p.event_key ev.event_key) w.db.processed_events ≡ true
      → ev.kind ≡ EventKind.order r f
      → order_of_report x.exchange_name r later.db ≡ some o
      → handle x cfg py ev source later ≡ (ok (done Outcome.duplicate), later)
  unfolding handle handle_kind handle_order apply_event apply_new transaction try_except ◌>>=◌
  handle_once x ev source r f o before kind known =
      rw
        (
          kind,
          known,
          mark_event_processed-known ev.event_key source ev.event_type
              (record later { depth = later.depth + 1 })
              (perform_all_keeps (HasEvent-IsStable ev.event_key) cfg py ops w before),
        )
        refl
