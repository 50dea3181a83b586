-- ===== src/Engine/Keeps/Rules.antt =====
-- What an action keeps true of the orders, the fills and the processed events, whatever an executor
-- answers and wherever an exception comes: one rule for each way to build an action.
use cryptoaibot.Common.{
  ◌+◌, ◌≡◌, refl, Bool, true, false, Option, none, some, List, [], ◌∷◌, if◌then◌else◌, ◌==◌,
}
use cryptoaibot.Exec.{
  Result, ok, err, Error, pure, raise, lift, gets, or_raise, ◌>>=◌, continue, recover, try_except,
  when, for_each,
}
use cryptoaibot.Domain.Order.{Order}
use cryptoaibot.Domain.Position.{Fill}
use cryptoaibot.Store.Tables.{Database, World, Action, ProcessedEvent}
use cryptoaibot.Store.Transaction.{transaction, leave}
use cryptoaibot.Engine.Executor.{Call, request, put_back, Desk}

abbrev pub Invariant : Type 1
Invariant = List Order → List Fill → List ProcessedEvent → Type 0

abbrev pub Holds : Invariant → Database → Type 0
Holds Q d = Q d.orders d.fills d.processed_events

pub record Keeps (Q : Invariant) {A : Type 0} (m : Action A) : Type 0 where
  pub at : (w : World) → Holds Q w.db → Holds Q (m w).1.db

module _ (Q : Invariant) {A : Type 0} where
  leave_keeps :
      (w : World) (p : Result A × World) → Holds Q w.db → Holds Q p.1.db → Holds Q (leave w p).1.db
  leave_keeps w (ok a, w') before after = after
  leave_keeps w (err e, w') before after = choose (w.depth == 0)
    where
      choose : (b : Bool) → Holds Q (if b then w.db else w'.db)
      choose true = before
      choose false = after

  put_back_keeps : (w : World) (p : Result A × Desk) → Holds Q w.db → Holds Q (put_back w p).1.db
  put_back_keeps w (r, d) h = h

module _ {Q : Invariant} {A : Type 0} where
  pub Keeps-pure : (a : A) → Keeps Q (pure {S = World} a)
  unfolding pure
  Keeps-pure a = record { at = λ w h. h }

  pub Keeps-raise : (e : Error) → Keeps Q (raise {S = World} {A = A} e)
  unfolding raise
  Keeps-raise e = record { at = λ w h. h }

  pub Keeps-lift : (r : Result A) → Keeps Q (lift {S = World} r)
  unfolding lift
  Keeps-lift r = record { at = λ w h. h }

  pub Keeps-gets : (f : World → A) → Keeps Q (gets f)
  unfolding gets
  Keeps-gets f = record { at = λ w h. h }

  pub Keeps-or_raise : (o : Option A) (e : Error) → Keeps Q (or_raise {S = World} o e)
  unfolding or_raise
  Keeps-or_raise none e = record { at = λ w h. h }
  Keeps-or_raise (some a) e = record { at = λ w h. h }

  pub Keeps-if : (b : Bool) (m n : Action A) → Keeps Q m → Keeps Q n → Keeps Q (if b then m else n)
  Keeps-if true m n km kn = km
  Keeps-if false m n km kn = kn

  -- A transaction ends with what its body leaves, or with what was there before.
  pub Keeps-transaction : (m : Action A) → Keeps Q m → Keeps Q (transaction m)
  unfolding transaction
  Keeps-transaction m k = record {
    at = λ w h.
        let inside = record w { depth = w.depth + 1 } in
        leave_keeps Q w (m inside) h (k.at inside h);
  }

  recover-Keeps :
      (handler : Error → Action A) (p : Result A × World)
      → ((e : Error) → Keeps Q (handler e))
      → Holds Q p.1.db
      → Holds Q (recover handler p).1.db
  recover-Keeps handler (ok a, w) k h = h
  recover-Keeps handler (err e, w) k h = (k e).at w h

  pub Keeps-try_except :
      (m : Action A) (handler : Error → Action A)
      → Keeps Q m
      → ((e : Error) → Keeps Q (handler e))
      → Keeps Q (try_except m handler)
  unfolding try_except
  Keeps-try_except m handler km kh = record {
    at = λ w h. recover-Keeps handler (m w) kh (km.at w h);
  }

  -- A request to the exchange changes no table but `kv`.
  pub Keeps-request : (c : Call A) → Keeps Q (request c)
  unfolding request
  Keeps-request c = record {
    at = λ w h. put_back_keeps Q w (c w.now (record { kv = w.db.kv; requests = w.requests })) h;
  }

module _ {Q : Invariant} {A B : Type 0} where
  continue-Keeps :
      (f : A → Action B) (p : Result A × World)
      → ((a : A) → Keeps Q (f a))
      → Holds Q p.1.db
      → Holds Q (continue f p).1.db
  continue-Keeps f (ok a, w) k h = (k a).at w h
  continue-Keeps f (err e, w) k h = h

  pub Keeps-bind :
      (m : Action A) (f : A → Action B) → Keeps Q m → ((a : A) → Keeps Q (f a)) → Keeps Q (m >>= f)
  unfolding ◌>>=◌
  Keeps-bind m f km kf = record { at = λ w h. continue-Keeps f (m w) kf (km.at w h) }

  lift-Keeps :
      (r : Result A) (f : A → Action B) (w : World)
      → ((a : A) → r ≡ ok a → Keeps Q (f a))
      → Holds Q w.db
      → Holds Q (continue f (r, w)).1.db
  lift-Keeps (ok a) f w k h = (k a refl).at w h
  lift-Keeps (err e) f w k h = h

  -- What follows a result may use that it is the result.
  pub Keeps-lift-bind :
      (r : Result A) (f : A → Action B)
      → ((a : A) → r ≡ ok a → Keeps Q (f a))
      → Keeps Q (lift r >>= f)
  unfolding ◌>>=◌ lift
  Keeps-lift-bind r f k = record { at = λ w h. lift-Keeps r f w k h }

  -- What follows a reading may use where it comes from.
  pub Keeps-gets-bind :
      (g : World → A) (f : A → Action B)
      → ((w : World) → Keeps Q (f (g w)))
      → Keeps Q (gets g >>= f)
  unfolding ◌>>=◌
  Keeps-gets-bind g f k = record { at = λ w h. (k w).at w h }

module _ {Q : Invariant} where
  pub Keeps-when : (b : Bool) (m : Action (Unit {0})) → Keeps Q m → Keeps Q (when b m)
  unfolding when
  Keeps-when true m k = record { at = k.at }
  Keeps-when false m k = record { at = λ w h. h }

  pub Keeps-for_each :
      {A : Type 0} (f : A → Action (Unit {0})) (xs : List A)
      → ((a : A) → Keeps Q (f a))
      → Keeps Q (for_each f xs)
  unfolding for_each
  Keeps-for_each f [] k = Keeps-pure tt
  Keeps-for_each f (x ∷ xs) k =
      Keeps-bind (f x) (λ _. for_each f xs) (k x) (λ _. Keeps-for_each f xs k)

pub ruleset keeps_rules = (
  Keeps-pure, Keeps-raise, Keeps-lift, Keeps-gets, Keeps-or_raise, Keeps-if, Keeps-transaction,
  Keeps-try_except, Keeps-request, Keeps-bind, Keeps-when, Keeps-for_each,
)
