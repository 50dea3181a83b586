-- ===== src/Exec.antt =====
-- Python's exceptions as values, and the state-and-exception monad of the engine's methods. What was
-- written before a raise stays written unless a transaction rolls it back (Store/Transaction.antt).
use cryptoaibot.Common.{◌≡◌, refl, ap, String, Bool, true, false, Option, none, some, List, [], ◌∷◌}

-- The exceptions that the modelled code raises or catches, with `str(exc)`.
pub data Error : Type 0 where
  illegal_transition : String → Error
  order_conflict : String → Error
  concurrent_modification : String → Error
  integrity_error : String → Error
  unknown_status : String → Error
  value_error : String → Error
  attribute_error : String → Error
  runtime_error : String → Error
  -- an HTTP 400, 409 or 422 of the control plane, and every other failure to reach it
  control_plane_rejected : String → Error
  control_plane_unavailable : String → Error
  -- the exchange has no such order
  order_not_found : String → Error
  -- whatever else an exchange client or a notifier raises
  external : String → Error

abbrev pub message : Error → String
message (illegal_transition s) = s
message (order_conflict s) = s
message (concurrent_modification s) = s
message (integrity_error s) = s
message (unknown_status s) = s
message (value_error s) = s
message (attribute_error s) = s
message (runtime_error s) = s
message (control_plane_rejected s) = s
message (control_plane_unavailable s) = s
message (order_not_found s) = s
message (external s) = s

pub data Result {ℓ} (A : Type ℓ) : Type ℓ where
  ok : A → Result A
  err : Error → Result A

abbrev pub bind_result {ℓ κ} : {A : Type ℓ} {B : Type κ} → Result A → (A → Result B) → Result B
bind_result (ok a) f = f a
bind_result (err e) f = err e

abbrev pub is_err {ℓ} : {A : Type ℓ} → Result A → Bool
is_err (ok a) = false
is_err (err e) = true

-- Inversion of a successful chain.
pub bind_result-eq-ok {ℓ κ} :
    {A : Type ℓ} {B : Type κ} (m : Result A) (f : A → Result B) {b : B}
    → bind_result m f ≡ ok b
    → (a : A) × (m ≡ ok a) × (f a ≡ ok b)
bind_result-eq-ok (ok a) f h = (a, refl, h)
bind_result-eq-ok (err e) f h = cc

pub ok-injective {ℓ} : {A : Type ℓ} {a b : A} → ok a ≡ ok b → a ≡ b
ok-injective h = cc

abbrev pub Exec : Type 0 → Type 0 → Type 0
Exec S A = S → Result A × S

-- The operations stay shut, so that a rule for each of them proves a property of a `do` block;
-- opening `◌>>=◌` opens them all.
module _ {S : Type 0} {A : Type 0} where
  unfoldable pub pure : A → Exec S A
  pure a s = (ok a, s)

  pub pure-eq-ok : (a : A) (s : S) {b : A} → (pure a s).0 ≡ ok b → a ≡ b
  unfolding pure
  pure-eq-ok a s h = ok-injective h

  unfoldable pub raise : Error → Exec S A
  raise e s = (err e, s)

  unfoldable pub lift : Result A → Exec S A
  lift r s = (r, s)

  unfoldable pub gets : (S → A) → Exec S A
  gets f s = (ok (f s), s)

  unfoldable pub or_raise : Option A → Error → Exec S A
  or_raise none e s = (err e, s)
  or_raise (some a) e s = (ok a, s)

module _ {S A B : Type 0} where
  abbrev pub continue : (A → Exec S B) → Result A × S → Result B × S
  continue f (ok a, s) = f a s
  continue f (err e, s) = (err e, s)

  infixl 5 ◌>>=◌ ◌>>◌
  unfoldable pub ◌>>=◌ : Exec S A → (A → Exec S B) → Exec S B
  unfolding pure raise lift gets or_raise
  ◌>>=◌ m f s = continue f (m s)

  abbrev pub ◌>>◌ : Exec S A → Exec S B → Exec S B
  m >> n = m >>= λ _. n

  -- Inversion of a successful chain of actions.
  continue-eq-ok :
      (f : A → Exec S B) (p : Result A × S) {b : B}
      → (continue f p).0 ≡ ok b
      → (a : A) × (p.0 ≡ ok a) × ((f a p.1).0 ≡ ok b)
  continue-eq-ok f (ok a, s) h = (a, refl, h)
  continue-eq-ok f (err e, s) h = cc

  pub bind-eq-ok :
      (m : Exec S A) (f : A → Exec S B) (s : S) {b : B}
      → ((m >>= f) s).0 ≡ ok b
      → (a : A) × ((m s).0 ≡ ok a) × ((f a (m s).1).0 ≡ ok b)
  unfolding ◌>>=◌
  bind-eq-ok m f s h = continue-eq-ok f (m s) h

  continue-ok : (f : A → Exec S B) (p : Result A × S) {a : A} → p.0 ≡ ok a → continue f p ≡ f a p.1
  continue-ok f (ok a, s) h = ap (λ x. f x s) (ok-injective h)
  continue-ok f (err e, s) h = cc

  pub bind-ok :
      (m : Exec S A) (f : A → Exec S B) (s : S) {a : A} → (m s).0 ≡ ok a → (m >>= f) s ≡ f a (m s).1
  unfolding ◌>>=◌
  bind-ok m f s h = continue-ok f (m s) h

module _ {S A : Type 0} where
  abbrev pub recover : (Error → Exec S A) → Result A × S → Result A × S
  recover h (ok a, s) = (ok a, s)
  recover h (err e, s) = h e s

  -- `try: m except Exception as e: handler(e)`
  unfoldable pub try_except : Exec S A → (Error → Exec S A) → Exec S A
  try_except m h s = recover h (m s)

unfoldable pub when : {S : Type 0} → Bool → Exec S (Unit {0}) → Exec S (Unit {0})
when true m s = m s
when false m s = (ok tt, s)

-- `for x in xs: body(x)`
unfoldable pub for_each : {S A : Type 0} → (A → Exec S (Unit {0})) → List A → Exec S (Unit {0})
for_each f [] = pure tt
for_each f (x ∷ xs) = f x >> for_each f xs
