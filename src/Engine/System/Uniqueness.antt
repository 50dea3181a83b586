-- ===== src/Engine/System/Uniqueness.antt =====
-- The UNIQUE constraints of engine/infrastructure/store.py, under the operations of the engine.
use cryptoaibot.Common.{
  String, ℕ, ◌≡◌, refl, Bool, true, ◌&&◌, Option, none, some, is_some, List, str_eq, opt_str_eq,
  eq_iff, arith, ◌∙◌,
}
use cryptoaibot.Common.Distinct.{
  all_distinct, get_elem?, all_distinct-append, all_distinct-update, all_distinct_places,
}
use cryptoaibot.Domain.Order.{Order}
use cryptoaibot.Domain.Position.{Fill}
use cryptoaibot.Store.Tables.{Database, ProcessedEvent, fresh}
use cryptoaibot.Store.Orders.{is_duplicate, inserted_row, saved_row, is_row}
use cryptoaibot.Store.Fills.{same_execution}
use cryptoaibot.Engine.Config.{Config, Platform}
use cryptoaibot.Engine.System.{Operation, perform_all}
use cryptoaibot.Engine.System.Run.{perform_all_keeps}
use cryptoaibot.Engine.Keeps.Tables.{IsStable}
use cryptoaibot.Engine.Keeps.Rules.{Invariant}

str_eq_sym : (s t : String) → str_eq s t ≡ str_eq t s
str_eq_sym s t = ground (arith, eq_iff s t, eq_iff t s)

opt_str_eq_sym : (s t : Option String) → opt_str_eq s t ≡ opt_str_eq t s
opt_str_eq_sym none none = refl
opt_str_eq_sym none (some t) = refl
opt_str_eq_sym (some s) none = refl
opt_str_eq_sym (some s) (some t) = str_eq_sym s t

is_duplicate_sym : (a b : Order) → is_duplicate a b ≡ is_duplicate b a
unfolding is_duplicate
is_duplicate_sym a b =
    rw
      (
        str_eq_sym a.client_order_id b.client_order_id,
        str_eq_sym a.client_intent_id b.client_intent_id,
      )
      refl

same_execution_sym : (a b : Fill) → same_execution a b ≡ same_execution b a
unfolding same_execution
same_execution_sym a b = ground (
  arith,
  str_eq_sym a.event_key b.event_key,
  opt_str_eq_sym a.exchange_trade_id b.exchange_trade_id,
  opt_str_eq_none a.exchange_trade_id b.exchange_trade_id,
)
  where
    opt_str_eq_none :
        (s t : Option String) → (is_some s && opt_str_eq t s) ≡ (is_some t && opt_str_eq s t)
    opt_str_eq_none none none = refl
    opt_str_eq_none none (some t) = refl
    opt_str_eq_none (some s) none = refl
    opt_str_eq_none (some s) (some t) = str_eq_sym t s

abbrev has_key : ProcessedEvent → ProcessedEvent → Bool
has_key e p = str_eq p.event_key e.event_key

-- No two rows break a UNIQUE constraint.
unfoldable pub IsUnique : Invariant
IsUnique os fs es =
    (all_distinct is_duplicate os ≡ true)
    × (all_distinct same_execution fs ≡ true)
    × (all_distinct has_key es ≡ true)

IsUnique-IsStable : IsStable IsUnique
unfolding IsUnique is_duplicate inserted_row saved_row same_execution
IsUnique-IsStable = record {
  safe = record {
    order_saved = λ o os fs es (ho, hf, he). (
      all_distinct-update is_duplicate (is_row o) (saved_row o) os (λ a b. refl) (λ a b. refl) ∙ ho,
      hf,
      he,
    );
    fill_inserted = λ f os fs es free (ho, hf, he).
        (ho, all_distinct-append same_execution fs _ same_execution_sym free hf, he);
    event_inserted = λ e os fs es free (ho, hf, he). (
      ho,
      hf,
      all_distinct-append has_key es e (λ a b. str_eq_sym b.event_key a.event_key) free he,
    );
  };
  admits = λ p. record {
    order_inserted = λ o os fs es same free (ho, hf, he).
        (all_distinct-append is_duplicate os _ is_duplicate_sym free ho, hf, he);
  };
}

module _ (cfg : Config) (py : Platform) (ops : List Operation) (start : ℕ) where
  abbrev ledger : Database
  ledger = (perform_all cfg py ops (fresh start)).db

  ledger-IsUnique : IsUnique ledger.orders ledger.fills ledger.processed_events
  unfolding IsUnique all_distinct
  ledger-IsUnique = perform_all_keeps IsUnique-IsStable cfg py ops (fresh start) (refl, refl, refl)

  -- Whatever is done to a ledger that was empty, and whatever the exchange answers, two rows of
  -- `orders` with the same client intent id are the same row.
  pub one_order_per_intent :
      (i j : ℕ) (a b : Order)
      → get_elem? ledger.orders i ≡ some a
      → get_elem? ledger.orders j ≡ some b
      → a.client_intent_id ≡ b.client_intent_id
      → i ≡ j
  unfolding IsUnique is_duplicate
  one_order_per_intent i j a b hi hj same =
      all_distinct_places is_duplicate ledger.orders i j a b is_duplicate_sym ledger-IsUnique.0 hi
        hj (ground (arith, eq_iff b.client_intent_id a.client_intent_id, same))

  -- Whatever is done to a ledger that was empty, and whatever the exchange answers, two rows of
  -- `fills` of the same execution (the same event key, or the same order and exchange trade id) are
  -- the same row.
  pub one_fill_per_execution :
      (i j : ℕ) (f g : Fill)
      → get_elem? ledger.fills i ≡ some f
      → get_elem? ledger.fills j ≡ some g
      → same_execution f g ≡ true
      → i ≡ j
  unfolding IsUnique
  one_fill_per_execution i j f g hi hj same =
      all_distinct_places same_execution ledger.fills i j f g same_execution_sym ledger-IsUnique.1
        hi hj same
