-- ===== src/Engine/Worker/Schedule.antt =====
-- workers/reconciliation_worker.py: when the loop of `_periodic` reconciles.
use native.Mathlib.Nat.{mod-add-mod, mod-lt, mod-le, mod-eq_of_lt, mod-eq-sub-mod}
use cryptoaibot.Common.{
  String, ◌≡◌, refl, subst, sym, ◌∙◌, ap, ◌⊎◌, inl, inr, ℕ, zero, suc, ◌+◌, ◌-◌, ◌*◌, ◌%◌, ◌<◌, ◌≤◌,
  Bool, true, false, not, ◌||◌, List, [], ◌∷◌, ◌++◌, length, any, leb, leb→le, lt→ltb, arith,
  Bool-cases, if◌then◌else◌,
}
use cryptoaibot.Exec.{Result, ok, pure, lift, bind-eq-ok, bind-ok, ok-injective, pure-eq-ok}
use cryptoaibot.Store.Tables.{World, Action}
use cryptoaibot.Engine.Config.{Config, Platform}
use cryptoaibot.Engine.Dispatch.{Outside}
use cryptoaibot.Engine.Executor.{Executor}
use cryptoaibot.Engine.Recon.Service.{ReconResult, touch}
use cryptoaibot.Engine.Worker.Periodic.{
  Meanwhile, Loop, touch_seconds, slept, is_due, reconcile, polled, reconcile_if,
  reconcile_when_due, periodic, turns,
}

reaches : (a b : ℕ) → (a ≤ b) ⊎ (b < a)
reaches a b = elim (Bool-cases (leb a b)) [
  | inl h ↦ inl (leb→le a b h)
  | inr h ↦ inr (ground (arith, h))
]

-- The remainder after one more turn.
next_remainder :
    (interval e : ℕ)
    → 0 < interval
    → ((e + 15) % interval < 15) ⊎ ((e + 15) % interval ≡ e % interval + 15)
next_remainder interval e h = elim (reaches interval (e % interval + 15)) [
  | inl big ↦
      let same = sym (mod-add-mod e interval 15) ∙ mod-eq-sub-mod big in
      let below = mod-le (e % interval + 15 - interval) interval in
      let rest = mod-lt e h in inl (omega arith)
  | inr small ↦ inr (sym (mod-add-mod e interval 15) ∙ mod-eq_of_lt small)
]

nothing_below : ¬ (0 < 0)
nothing_below = omega arith

due_below : (interval e : ℕ) → 0 < interval → e % interval < 15 → is_due e interval ≡ ok true
unfolding is_due
due_below zero e h below = absurd (nothing_below h)
due_below (suc i) e h below = ap ok (lt→ltb (e % suc i) 15 below)

none_left : {r interval : ℕ} → r < interval → interval ≤ r + 0 * 15 → ⊥
none_left below enough = omega arith

room :
    (interval next e n : ℕ)
    → next ≡ e + 15
    → (e + 15) % interval ≡ e % interval + 15
    → interval ≤ e % interval + suc n * 15
    → interval ≤ next % interval + n * 15
room interval next e n same more enough =
    subst (λ m. interval ≤ m % interval + n * 15) (sym same) (omega arith)

connected_here : (b rest : Bool) → (not b || rest) ≡ false → (b ≡ true) × (rest ≡ false)
connected_here true rest h = (refl, h)
connected_here false rest h = cc

lifted : {A : Type 0} (r : Result A) (w : World) {a : A} → (lift r w).0 ≡ ok a → r ≡ ok a
unfolding lift
lifted r w h = h

taken :
    (b : Bool) (m : Action (Unit {0})) (w : World) {u : Unit {0}}
    → b ≡ true
    → ((if b then m else pure tt) w).0 ≡ ok u
    → (m w).0 ≡ ok u
taken true m w is h = h
taken false m w is h = cc

module _ (x : Executor) (cfg : Config) (py : Platform) (out : Outside) (interval max_attempts : ℕ)
    (owner : String) where
  -- The ledger that a turn's test of the interval meets.
  abbrev pub met : Loop → Meanwhile → World → World
  met l g w =
      (polled x cfg py out interval max_attempts owner (slept l) g
        (touch cfg.bot_instance_id w).1).1

  -- A turn of the loop that reconciled, in the ledger that the turns before it, its touch and its poll left.
  pub record Reconciled (l : Loop) (gs : List Meanwhile) (w : World) : Type 0 where
    pub before : List Meanwhile
    pub here : Meanwhile
    pub after : List Meanwhile
    pub loop : Loop
    pub result : ReconResult
    pub split : gs ≡ before ++ here ∷ after
    pub reached : (turns x cfg py out interval max_attempts owner l before w).0 ≡ ok loop
    pub ran :
        (reconcile x cfg py out here.key "periodic" false here.connected_after
          (met loop here (turns x cfg py out interval max_attempts owner l before w).1)).0
        ≡ ok result

  turn_lem :
      (l next : Loop) (g : Meanwhile) (w : World)
      → (periodic x cfg py out interval max_attempts owner l g w).0 ≡ ok next
      → (next.elapsed ≡ l.elapsed + 15)
        × (u : Unit {0}) × ((reconcile_when_due x cfg py out interval max_attempts owner
              (l.elapsed + 15)
              g
              (met l g w)).0
            ≡ ok u)
  unfolding periodic
  turn_lem l next g w h =
      let (t, ht, h1) = bind-eq-ok _ _ w h in
      let (ack, hack, h2) = bind-eq-ok _ _ _ h1 in
      let (u, hu, h3) = bind-eq-ok _ _ _ h2 in
      let (v, hv, h4) = bind-eq-ok _ _ _ h3 in
      (sym (ap (λ a. a.elapsed) (pure-eq-ok _ _ h4)), u, hu)

  due_runs :
      (elapsed : ℕ) (g : Meanwhile) (w : World) (u : Unit {0})
      → g.connected ≡ true
      → is_due elapsed interval ≡ ok true
      → (reconcile_when_due x cfg py out interval max_attempts owner elapsed g w).0 ≡ ok u
      → (r : ReconResult) × ((reconcile x cfg py out g.key "periodic" false g.connected_after w).0
          ≡ ok r)
  unfolding reconcile_when_due reconcile_if lift
  due_runs elapsed g w u online due h =
      let inside = taken g.connected _ w online h in
      let (b, hb, h1) = bind-eq-ok _ _ w inside in
      let (r, hr, h2) =
        bind-eq-ok _ _ _ (taken b _ _ (ok-injective (sym (lifted _ w hb) ∙ due)) h1) in
      (r, hr)

  at_head :
      (l next : Loop) (g : Meanwhile) (gs : List Meanwhile) (w : World)
      → (periodic x cfg py out interval max_attempts owner l g w).0 ≡ ok next
      → g.connected ≡ true
      → is_due (l.elapsed + 15) interval ≡ ok true
      → Reconciled l (g ∷ gs) w
  unfolding turns pure
  at_head l next g gs w h online due =
      let (_, u, hu) = turn_lem l next g w h in
      let (r, hr) = due_runs (l.elapsed + 15) g (met l g w) u online due hu in
      record {
        before = [];
        here = g;
        after = gs;
        loop = l;
        result = r;
        split = refl;
        reached = refl;
        ran = hr;
      }

  in_tail :
      (l next : Loop) (g : Meanwhile) (gs : List Meanwhile) (w : World)
      → (periodic x cfg py out interval max_attempts owner l g w).0 ≡ ok next
      → Reconciled next gs (periodic x cfg py out interval max_attempts owner l g w).1
      → Reconciled l (g ∷ gs) w
  unfolding turns
  in_tail l next g gs w h found =
      let on = sym (
        bind-ok (periodic x cfg py out interval max_attempts owner l g)
          (λ m. turns x cfg py out interval max_attempts owner m found.before) w h) in
      record {
        before = g ∷ found.before;
        here = found.here;
        after = found.after;
        loop = found.loop;
        result = found.result;
        split = ap (λ ys. g ∷ ys) found.split;
        reached = subst (λ p. p.0 ≡ ok found.loop) on found.reached;
        ran =
            subst
              (λ p.
                (reconcile x cfg py out found.here.key "periodic" false found.here.connected_after
                  (met found.loop found.here p.1)).0
                ≡ ok found.result)
              on found.ran;
      }

  one_due :
      (l last : Loop) (gs : List Meanwhile) (w : World)
      → 0 < interval
      → interval ≤ l.elapsed % interval + length gs * 15
      → any (λ g. not g.connected) gs ≡ false
      → (turns x cfg py out interval max_attempts owner l gs w).0 ≡ ok last
      → Reconciled l gs w
  unfolding turns any
  one_due l last [] w h enough online ran = absurd (none_left (mod-lt l.elapsed h) enough)
  one_due l last (g ∷ gs) w h enough online ran =
      let (next, hn, hrest) = bind-eq-ok _ _ w ran in
      let (he, _, _) = turn_lem l next g w hn in
      let here = connected_here g.connected _ online in
      elim (next_remainder interval l.elapsed h) [
        | inl due ↦ at_head l next g gs w hn here.0 (due_below interval (l.elapsed + 15) h due)
        | inr more ↦ in_tail l next g gs w hn (
            one_due next last gs (periodic x cfg py out interval max_attempts owner l g w).1 h
              (room interval next.elapsed l.elapsed (length gs) he more enough) here.1 hrest)
      ]

  -- A worker that stays connected, whose turns end without an exception, reconciles within
  -- RECONCILE_INTERVAL_SECONDS, which is not 0, rounded up to turns: among any turns in a row that span
  -- the interval, wherever the counter stands, there is one whose reconciliation runs in the ledger that
  -- the turns before it and its own touch and poll left, and ends without an exception.
  pub turns_reconcile :
      (l last : Loop) (gs : List Meanwhile) (w : World)
      → 0 < interval
      → interval ≤ length gs * touch_seconds
      → any (λ g. not g.connected) gs ≡ false
      → (turns x cfg py out interval max_attempts owner l gs w).0 ≡ ok last
      → Reconciled l gs w
  turns_reconcile l last gs w h enough online ran = one_due l last gs w h (omega arith) online ran
