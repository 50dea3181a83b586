-- ===== src/Engine/Recon/Verdict.antt =====
-- engine/application/reconciliation_service.py: the verdict and the state that a run leaves.
use cryptoaibot.Common.{
  String, ℕ, ◌≡◌, refl, ap, ◌∙◌, subst, ◌↔◌, ◌<>◌, Bool, true, false, not, ◌&&◌, some, List, [],
  ◌∷◌, str_eq, str_eq_refl, find, find_holds, eq_iff, Option-cases, any, if◌then◌else◌, Bool-cases,
  inl, inr, arith,
}
use cryptoaibot.Exec.{
  Result, ok, err, ok-injective, message, continue, pure, gets, when, ◌>>=◌, ◌>>◌,
}
use cryptoaibot.Domain.Enums.{
  ReconciliationStatus, healthy, degraded, MismatchSeverity, critical, is_halted, is_healthy,
}
use cryptoaibot.Domain.Recon.{ReconciliationState}
use cryptoaibot.Store.Tables.{World, Action, Kind, Payload}
use cryptoaibot.Store.Transaction.{transaction}
use cryptoaibot.Store.Recon.{get_recon_state, save_recon_state, write_state, upsert_state}
use cryptoaibot.Store.Outbox.{enqueue, insert_message, has_idempotency_key}
use cryptoaibot.Engine.Config.{Config, Platform}
use cryptoaibot.Engine.Messages.{enqueue_event}
use cryptoaibot.Engine.Executor.{Executor}
use cryptoaibot.Engine.Ids.{take_chars}
use cryptoaibot.Engine.Recon.Checks.{Findings, Checked, completed, aborted}
use cryptoaibot.Engine.Recon.Service.{
  ReconResult, criticals, is_nonempty, verdict, set_state, conclude, run,
}

-- The verdict is HEALTHY exactly when no critical mismatch is open, no ambiguous order is pending,
-- and the bot was not HALTED before, or the operator acknowledges it.
pub verdict_healthy_iff :
    (fs : Findings) (previous : ReconciliationState) (ack : Bool)
    → ((verdict fs previous ack).0 ≡ healthy) ↔ (
        (is_nonempty (criticals fs.mismatches) ≡ false)
        × (fs.pending_ambiguous ≡ 0)
        × ((is_halted previous.status && not ack) ≡ false))
unfolding verdict
verdict_healthy_iff fs previous ack = ground arith

-- Actions that leave `reconciliation_state` alone.
abbrev LeavesState : {A : Type 0} → Action A → Type 0
LeavesState m = (w : World) → (m w).1.db.reconciliation_state ≡ w.db.reconciliation_state

module _ {A B : Type 0} where
  continue_leaves :
      (f : A → Action B) (p : Result A × World)
      → ((a : A) → LeavesState (f a))
      → (continue f p).1.db.reconciliation_state ≡ p.1.db.reconciliation_state
  continue_leaves f (ok a, w) k = k a w
  continue_leaves f (err e, w) k = refl

  bind_leaves :
      (m : Action A) (f : A → Action B)
      → LeavesState m
      → ((a : A) → LeavesState (f a))
      → LeavesState (m >>= f)
  unfolding ◌>>=◌
  bind_leaves m f km kf w = continue_leaves f (m w) kf ∙ km w

enqueue_leaves : (kind : Kind) (key : String) (p : Payload) → LeavesState (enqueue kind key p)
unfolding enqueue insert_message transaction
enqueue_leaves kind key p w = elim (Bool-cases (any (has_idempotency_key key) w.db.outbox)) [
  | inl known ↦ rw known refl
  | inr new ↦ rw new refl
]

when_leaves : (b : Bool) (m : Action (Unit {0})) → LeavesState m → LeavesState (when b m)
unfolding when
when_leaves true m k w = k w
when_leaves false m k w = refl

gets_leaves : {A : Type 0} (f : World → A) → LeavesState (gets f)
unfolding gets
gets_leaves f w = refl

pure_leaves : {A : Type 0} (a : A) → LeavesState (pure a)
unfolding pure
pure_leaves a w = refl

enqueue_event_leaves :
    (bot t m : String) (s : MismatchSeverity) (key : String) (alert : Bool)
    → LeavesState (enqueue_event bot t m s key alert)
unfolding enqueue_event
enqueue_event_leaves bot t m s key alert = bind_leaves _ _ (gets_leaves _) λ now.
    bind_leaves _ _ (enqueue_leaves _ key _)
      λ b. when_leaves alert _ (bind_leaves _ _ (enqueue_leaves _ _ _) λ c. pure_leaves tt)

pub find-upsert :
    (st : ReconciliationState) (ts : List ReconciliationState)
    → find (λ t. str_eq t.bot_instance_id st.bot_instance_id) (upsert_state st ts) ≡ some st
unfolding find upsert_state
find-upsert st [] = rw (str_eq_refl st.bot_instance_id) refl
find-upsert st (t ∷ ts) = elim (Bool-cases (str_eq t.bot_instance_id st.bot_instance_id)) [
  | inl same ↦ rw (same, str_eq_refl st.bot_instance_id) refl
  | inr other ↦ rw (other, other, find-upsert st ts) refl
]

pub get_recon_state-bot :
    (bot : String) (w : World) → (get_recon_state bot w.db).bot_instance_id ≡ bot
unfolding get_recon_state
get_recon_state-bot bot w =
    elim (Option-cases (find (λ t. str_eq t.bot_instance_id bot) w.db.reconciliation_state)) [
      | inl none' ↦ rw none' refl
      | inr (st, found) ↦ rw found (
          (eq_iff st.bot_instance_id bot).0
            (find_holds (λ t. str_eq t.bot_instance_id bot) _ st found))
    ]

-- `set_state` stores the status that it is given.
pub set_state_lem :
    (bot : String) (s : ReconciliationStatus) (m : String) (b : Bool) (w : World)
    → (get_recon_state bot (set_state bot s m b w).1.db).status ≡ s
unfolding set_state save_recon_state write_state transaction ◌>>=◌ get_recon_state
set_state_lem bot s m b w =
    rw
      (subst
        (λ k.
          find (λ t. str_eq t.bot_instance_id k)
            (upsert_state (stamped w) w.db.reconciliation_state)
          ≡ some (stamped w))
        (get_recon_state-bot bot w) (find-upsert (stamped w) w.db.reconciliation_state))
      refl
  where
    stamped : World → ReconciliationState
    stamped v = record (get_recon_state bot v.db) {
      status = s;
      reason = m;
      updated_at = some v.now;
      last_success_at = if b then some v.now else (get_recon_state bot v.db).last_success_at;
    }

-- What holds after each action that may come last holds after a chain of them that returns.
continue_ends :
    {A B : Type 0} (f : A → Action B) (P : B → World → Type 0) (p : Result A × World)
    → ((a : A) (w : World) (b : B) → (f a w).0 ≡ ok b → P b (f a w).1)
    → (b : B) → (continue f p).0 ≡ ok b
    → P b (continue f p).1
continue_ends f P (ok a, w) k b h = k a w b h
continue_ends f P (err e, w) k b h = cc h

bind_ends :
    {A B : Type 0} (m : Action A) (f : A → Action B) (P : B → World → Type 0)
    → ((a : A) (w : World) (b : B) → (f a w).0 ≡ ok b → P b (f a w).1)
    → (w : World) (b : B) → ((m >>= f) w).0 ≡ ok b
    → P b ((m >>= f) w).1
unfolding ◌>>=◌
bind_ends m f P k w b h = continue_ends f P (m w) k b h

-- The stored state of the bot has the result's status.
abbrev Stored : String → ReconResult → World → Type 0
Stored bot r w = (get_recon_state bot w.db).status ≡ r.status

Stored-before :
    (bot : String) (m : Action (Unit {0})) (result : ReconResult) (w : World)
    → LeavesState m
    → Stored bot result w
    → (r : ReconResult) → ((m >>= λ _. pure result) w).0 ≡ ok r
    → Stored bot r ((m >>= λ _. pure result) w).1
unfolding ◌>>=◌ get_recon_state
Stored-before bot m result w leaves stored r h = by_case (m w) (leaves w) h
  where
    by_case :
        (p : Result (Unit {0}) × World)
        → p.1.db.reconciliation_state ≡ w.db.reconciliation_state
        → (continue (λ _. pure result) p).0 ≡ ok r
        → Stored bot r (continue (λ _. pure result) p).1
    by_case (err e, v) same h = cc h
    by_case (ok a, v) same h = rw same (stored ∙ ap (λ q. q.status) (ok-injective h))

-- `set_state`, then at most messages, then the result with the status that was set.
set_then-Stored :
    (bot why : String) (b : Bool) (m : Action (Unit {0})) (result : ReconResult)
    → LeavesState m
    → (w : World) (r : ReconResult)
    → ((set_state bot result.status why b >> (m >> pure result)) w).0 ≡ ok r
    → Stored bot r ((set_state bot result.status why b >> (m >> pure result)) w).1
unfolding set_state save_recon_state write_state transaction ◌>>=◌
set_then-Stored bot why b m result leaves w r h =
    Stored-before bot m result (set_state bot result.status why b w).1 leaves
      (set_state_lem bot result.status why b w) r h

set_last-Stored :
    (bot why : String) (b : Bool) (result : ReconResult) (w : World) (r : ReconResult)
    → ((set_state bot result.status why b >> pure result) w).0 ≡ ok r
    → Stored bot r ((set_state bot result.status why b >> pure result) w).1
unfolding set_state save_recon_state write_state transaction ◌>>=◌
set_last-Stored bot why b result w r h =
    set_state_lem bot result.status why b w ∙ ap (λ q. q.status) (ok-injective h)

module _ (x : Executor) (cfg : Config) (py : Platform) where
  pub conclude_stores :
      (key why : String) (t : ℕ) (st : ReconciliationState) (ack : Bool) (c : Checked) (w : World)
      (r : ReconResult)
      → (conclude x cfg py key why t st ack c w).0 ≡ ok r
      → Stored cfg.bot_instance_id r (conclude x cfg py key why t st ack c w).1
  unfolding conclude
  conclude_stores key why t st ack (aborted fs e) w r h =
      bind_ends _ _ (Stored cfg.bot_instance_id)
        (λ u. set_last-Stored cfg.bot_instance_id _ false (record {
          status = degraded;
          reason =
              "reconciliation failed: " <> py.type_name e <> ": " <> take_chars 200 (message e);
          mismatches = fs.mismatches;
        }))
        w r h
  conclude_stores key why t st ack (completed fs) w r h =
      let v = verdict fs st ack in
      bind_ends _ _ (Stored cfg.bot_instance_id)
        (λ u.
          set_then-Stored cfg.bot_instance_id v.1 (is_healthy v.0)
            (when (is_halted v.0 && is_nonempty (criticals fs.mismatches)) (
              enqueue_event cfg.bot_instance_id "RECONCILIATION_HALTED" v.1 critical
                ("halt:" <> key) true))
            (record { status = v.0; reason = v.1; mismatches = fs.mismatches })
            (when_leaves _ _ (enqueue_event_leaves _ _ _ _ _ _)))
        w r h

  -- A reconciliation that returns has left its verdict: the stored state of the bot has the status
  -- that `run` returns, whatever the checks did and even where they were ended by an exception.
  pub run_stores_verdict :
      (key why : String) (ack : Bool) (w : World) (r : ReconResult)
      → (run x cfg py key why ack w).0 ≡ ok r
      → (get_recon_state cfg.bot_instance_id (run x cfg py key why ack w).1.db).status ≡ r.status
  unfolding run
  run_stores_verdict key why ack w r h =
      bind_ends _ _ (Stored cfg.bot_instance_id)
        (λ started. bind_ends _ _ (Stored cfg.bot_instance_id) (λ previous.
          bind_ends _ _ (Stored cfg.bot_instance_id) (λ saved.
            bind_ends _ _ (Stored cfg.bot_instance_id)
              (λ c. conclude_stores key why started previous ack c))))
        w r h
