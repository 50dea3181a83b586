-- ===== src/Engine/Worker/Trust.antt =====
-- When the state that the reconciliation worker stores may be trusted.
use cryptoaibot.Common.{
  String, ◌≡◌, refl, ◌∙◌, ap, subst, Bool, true, false, not, ◌&&◌, ◌||◌, Option, none, some,
  Bool-cases, inl, inr, if◌then◌else◌, find, str_eq, arith,
}
use cryptoaibot.Exec.{pure, ◌>>=◌}
use cryptoaibot.Domain.Enums.{
  ReconciliationStatus, connecting, reconciling, degraded, halted, is_halted, is_healthy,
}
use cryptoaibot.Domain.Recon.{ReconciliationState}
use cryptoaibot.Store.Tables.{World}
use cryptoaibot.Store.Recon.{get_recon_state, save_recon_state, write_state, upsert_state}
use cryptoaibot.Store.Transaction.{transaction}
use cryptoaibot.Engine.Config.{Config, Platform}
use cryptoaibot.Engine.Executor.{Executor}
use cryptoaibot.Engine.Recon.Service.{ReconResult}
use cryptoaibot.Engine.Recon.Verdict.{
  find-upsert, get_recon_state-bot, set_state_lem, conclude_stores,
}
use cryptoaibot.Engine.Worker.{
  Worker, Step, Steps, set_down, on_connecting, on_disconnected, on_subscribed, note_event,
  note_ack, check_result, IsUndisturbed, AllUndisturbed,
}

abbrev status_in : String → World → ReconciliationStatus
status_in bot w = (get_recon_state bot w.db).status

-- A state that is saved is the stored one.
get_recon_state-save :
    (bot : String) (st : ReconciliationState) (w : World)
    → st.bot_instance_id ≡ bot
    → (get_recon_state bot (save_recon_state st w).1.db).status ≡ st.status
unfolding save_recon_state write_state transaction get_recon_state
get_recon_state-save bot st w named =
    rw
      (subst
        (λ k.
          find (λ t. str_eq t.bot_instance_id k)
            (upsert_state (record st { updated_at = some w.now }) w.db.reconciliation_state)
          ≡ some (record st { updated_at = some w.now }))
        named (find-upsert (record st { updated_at = some w.now }) w.db.reconciliation_state))
      refl

module _ (bot : String) where
  set_down_lem :
      (s : ReconciliationStatus) (why : String) (w : World)
      → status_in bot (set_down bot s why w).1 ≡ s
  unfolding set_down ◌>>=◌ save_recon_state write_state transaction
  set_down_lem s why w =
      get_recon_state-save bot
        (record (get_recon_state bot w.db) { status = s; reason = why; ws_connected = false }) w
        (get_recon_state-bot bot w)

  on_subscribed_lem : (w : World) → status_in bot (on_subscribed bot w).1 ≡ status_in bot w
  unfolding on_subscribed ◌>>=◌ save_recon_state write_state transaction
  on_subscribed_lem w =
      get_recon_state-save bot (record (get_recon_state bot w.db) { ws_connected = true }) w
        (get_recon_state-bot bot w)

  note_event_lem : (w : World) → status_in bot (note_event bot w).1 ≡ status_in bot w
  unfolding note_event ◌>>=◌ save_recon_state write_state transaction
  note_event_lem w =
      get_recon_state-save bot (record (get_recon_state bot w.db) { last_ws_event_at = some w.now })
        w (get_recon_state-bot bot w)

  note_ack_lem : (ack : String) (w : World) → status_in bot (note_ack bot ack w).1 ≡ status_in bot w
  unfolding note_ack ◌>>=◌ save_recon_state write_state transaction
  note_ack_lem ack w =
      get_recon_state-save bot (record (get_recon_state bot w.db) { last_ack_token = some ack }) w
        (get_recon_state-bot bot w)

  on_connecting_lem :
      (detail : String) (w : World)
      → status_in bot (on_connecting bot detail w).1
        ≡ (if is_halted (status_in bot w) then status_in bot w else connecting)
  unfolding on_connecting ◌>>=◌
  on_connecting_lem detail w = elim (Bool-cases (is_halted (status_in bot w))) [
    | inl stopped ↦ rw stopped refl
    | inr going ↦ rw going (set_down_lem connecting detail w)
  ]

  on_disconnected_lem :
      (detail : String) (w : World)
      → status_in bot (on_disconnected bot detail w).1
        ≡ (if is_halted (status_in bot w) then halted else degraded)
  unfolding on_disconnected ◌>>=◌
  on_disconnected_lem detail w = elim (Bool-cases (is_halted (status_in bot w))) [
    | inl stopped ↦ rw stopped (set_down_lem halted _ w)
    | inr going ↦ rw going (set_down_lem degraded _ w)
  ]

  check_result_lem :
      (connected : Bool) (r : ReconResult) (w : World)
      → status_in bot (check_result bot connected r w).1
        ≡ (if not connected && is_healthy r.status then degraded else status_in bot w)
  unfolding check_result pure
  check_result_lem connected r w = elim (Bool-cases (not connected && is_healthy r.status)) [
    | inl dropped ↦ rw dropped (set_down_lem degraded _ w)
    | inr fine ↦ rw fine refl
  ]

-- The result that is still to be checked is HEALTHY.
abbrev pub is_suspect : Option ReconResult → Bool
is_suspect none = false
is_suspect (some r) = is_healthy r.status

unfoldable pub is_guarded : String → Worker → Bool
is_guarded bot s =
    s.connected || (not (is_healthy (status_in bot s.world)) || is_suspect s.unchecked)

guarded_if :
    (s : ReconciliationStatus) (b : Bool)
    → (not (is_healthy (if is_halted s then s else connecting)) || b) ≡ true
guarded_if s b = ground arith

guarded_lost :
    (s : ReconciliationStatus) (b : Bool)
    → (not (is_healthy (if is_halted s then halted else degraded)) || b) ≡ true
guarded_lost s b = ground arith

guarded_begun :
    (connected suspect : Bool) → (connected || (not (is_healthy reconciling) || suspect)) ≡ true
guarded_begun connected suspect = ground arith

guarded_run :
    (connected : Bool) (s : ReconciliationStatus)
    → (connected || (not (is_healthy s) || is_healthy s)) ≡ true
guarded_run connected s = ground arith

guarded_checked :
    (connected : Bool) (verdict stored : ReconciliationStatus)
    → (connected || (not (is_healthy stored) || is_healthy verdict)) ≡ true
    → (connected
        || (not (is_healthy (if not connected && is_healthy verdict then degraded else stored))
            || false))
      ≡ true
guarded_checked connected verdict stored h = ground (arith, h)

status_elsewhere :
    (bot : String) (w v : World)
    → w.db.reconciliation_state ≡ v.db.reconciliation_state
    → status_in bot w ≡ status_in bot v
unfolding get_recon_state
status_elsewhere bot w v same = rw same refl

guarded_down :
    (b u : Bool) (s : ReconciliationStatus)
    → (b || (not (is_healthy s) || u)) ≡ true
    → b ≡ false
    → u ≡ false
    → is_healthy s ≡ false
guarded_down b u s h down clear = ground (arith, h, down, clear)

module _ (x : Executor) (cfg : Config) (py : Platform) where
  abbrev status_of : Worker → ReconciliationStatus
  status_of s = status_in cfg.bot_instance_id s.world

  step-guarded :
      (s t : Worker) (step : Step x cfg py s t)
      → is_guarded cfg.bot_instance_id s ≡ true
      → IsUndisturbed x cfg py s t step
      → is_guarded cfg.bot_instance_id t ≡ true
  unfolding is_guarded
  step-guarded _ _ (Step.connection_opened s detail) h fair =
      rw (on_connecting_lem cfg.bot_instance_id detail s.world) (guarded_if _ _)
  step-guarded _ _ (Step.connection_lost s detail) h fair =
      rw (on_disconnected_lem cfg.bot_instance_id detail s.world) (guarded_lost _ _)
  step-guarded _ _ (Step.subscribed s) h fair = refl
  step-guarded _ _ (Step.run_begun s why idle clear) h fair =
      rw (set_state_lem cfg.bot_instance_id reconciling _ false s.world)
        (guarded_begun s.connected (is_suspect s.unchecked))
  step-guarded _ _ (Step.run_ended s previous key why t ack c r held returned) h fair =
      rw (conclude_stores x cfg py key why t previous ack c s.world r returned)
        (guarded_run s.connected r.status)
  step-guarded _ _ (Step.checked s r held) h fair =
      rw (check_result_lem cfg.bot_instance_id s.connected r s.world) (
        guarded_checked s.connected r.status (status_of s) (
          subst (λ u. (s.connected || (not (is_healthy (status_of s)) || is_suspect u)) ≡ true) held
            h))
  step-guarded _ _ (Step.touch_read s idle) h fair = h
  step-guarded _ _ (Step.touch_saved s w held) h fair =
      rw
        (get_recon_state-save cfg.bot_instance_id (get_recon_state cfg.bot_instance_id w.db) s.world
            (get_recon_state-bot cfg.bot_instance_id w)
          ∙ fair)
        h
  step-guarded _ _ (Step.event_seen s) h fair = rw (note_event_lem cfg.bot_instance_id s.world) h
  step-guarded _ _ (Step.acknowledged s ack) h fair =
      rw (note_ack_lem cfg.bot_instance_id ack s.world) h
  step-guarded _ _ (Step.elsewhere s w same) h fair =
      rw (status_elsewhere cfg.bot_instance_id w s.world same) h

  Steps-guarded :
      (s t : Worker) (steps : Steps x cfg py s t)
      → is_guarded cfg.bot_instance_id s ≡ true
      → AllUndisturbed x cfg py s t steps
      → is_guarded cfg.bot_instance_id t ≡ true
  Steps-guarded _ _ (Steps.stay s) h fair = h
  Steps-guarded _ _ (Steps.then_step s t u before last) h fair =
      step-guarded t u last (Steps-guarded s t before h fair.0) fair.1

  -- From a worker that begins disconnected and not HEALTHY, whatever order the tasks take their steps in:
  -- where no touch saves a status that was overwritten since it read it, when the stream is down and no
  -- reconciliation waits for its check, the stored state of the bot is not HEALTHY, so no entry is
  -- allowed.
  pub never_healthy_offline :
      (s t : Worker) (steps : Steps x cfg py s t)
      → AllUndisturbed x cfg py s t steps
      → s.connected ≡ false
      → is_healthy (get_recon_state cfg.bot_instance_id s.world.db).status ≡ false
      → t.connected ≡ false
      → t.unchecked ≡ none
      → is_healthy (get_recon_state cfg.bot_instance_id t.world.db).status ≡ false
  unfolding is_guarded
  never_healthy_offline s t steps fair offline unhealthy down clear =
      guarded_down t.connected (is_suspect t.unchecked) (status_of t)
        (Steps-guarded s t steps (rw (offline, unhealthy) refl) fair) down (ap is_suspect clear)

  -- A touch can undo a dropped stream: from every worker that is HEALTHY, with no run to be checked and
  -- no touch under way, there are steps (the touch reads, the stream is lost, the touch saves) to a
  -- worker that is disconnected, waits for no check, and is HEALTHY.
  pub touch_restores :
      (s : Worker) (detail : String)
      → is_healthy (get_recon_state cfg.bot_instance_id s.world.db).status ≡ true
      → s.unchecked ≡ none
      → s.touching ≡ none
      → (t : Worker) × Steps x cfg py s t
        × (t.connected ≡ false)
        × (t.unchecked ≡ none)
        × (is_healthy (get_recon_state cfg.bot_instance_id t.world.db).status ≡ true)
  touch_restores s detail well clear idle =
      let reading : Worker = record s { touching = some s.world } in
      let lost : Worker = record reading {
        connected = false;
        world = (on_disconnected cfg.bot_instance_id detail s.world).1;
      } in
      let saved : Worker = record lost {
        touching = none;
        world = (save_recon_state (get_recon_state cfg.bot_instance_id s.world.db) lost.world).1;
      } in
      (
        saved,
        Steps.then_step s lost saved
            (Steps.then_step s reading lost
              (Steps.then_step s s reading (Steps.stay s) (Step.touch_read s idle))
              (Step.connection_lost reading detail))
            (Step.touch_saved lost s.world refl),
        refl,
        clear,
        ap is_healthy (
              get_recon_state-save cfg.bot_instance_id
                (get_recon_state cfg.bot_instance_id s.world.db) lost.world
                (get_recon_state-bot cfg.bot_instance_id s.world))
            ∙ well,
      )
