-- ===== src/Engine/Worker.antt =====
-- workers/reconciliation_worker.py: the callbacks of the user-data stream, and what is done around a
-- reconciliation. The tasks of the event loop and their threads are interleaved as steps: a touch is two,
-- its read and its save; a run is its start, its end and the check after it, which waits for the run's
-- thread. A callback is one step, though a run's thread may write between its read and its save.
use cryptoaibot.Common.{
  String, ◌<>◌, ◌≡◌, ℕ, Bool, true, false, not, ◌&&◌, Option, none, some, if◌then◌else◌,
}
use cryptoaibot.Exec.{ok, pure, gets, when, ◌>>=◌, ◌>>◌}
use cryptoaibot.Domain.Enums.{
  ReconciliationStatus, connecting, reconciling, degraded, halted, is_halted, is_healthy,
}
use cryptoaibot.Domain.Recon.{ReconciliationState}
use cryptoaibot.Store.Tables.{World, Action}
use cryptoaibot.Store.Recon.{get_recon_state, save_recon_state}
use cryptoaibot.Engine.Config.{Config, Platform}
use cryptoaibot.Engine.Executor.{Executor}
use cryptoaibot.Engine.Recon.Checks.{Checked}
use cryptoaibot.Engine.Recon.Service.{ReconResult, set_state, conclude}
pub mod Periodic
pub mod Schedule
pub mod Trust

module _ (bot : String) where
  abbrev current : Action ReconciliationState
  current = gets (λ w. get_recon_state bot w.db)

  -- `set_state(status, reason, ws_connected=False)`
  unfoldable pub set_down : ReconciliationStatus → String → Action (Unit {0})
  set_down status reason = do
    st ← current
    save_recon_state (record st { status = status; reason = reason; ws_connected = false })
    pure tt

  -- CONNECTING, also at the start of `run`
  unfoldable pub on_connecting : String → Action (Unit {0})
  on_connecting detail = do
    st ← current
    if is_halted st.status then pure tt else set_down connecting detail

  unfoldable pub on_disconnected : String → Action (Unit {0})
  on_disconnected detail = do
    st ← current
    if is_halted st.status
        then set_down halted st.reason
        else set_down degraded ("websocket down: " <> detail)

  -- SUBSCRIBED, before the reconciliation that follows it
  unfoldable pub on_subscribed : Action (Unit {0})
  on_subscribed = do st ← current; save_recon_state (record st { ws_connected = true }); pure tt

  -- The end of `on_event`.
  unfoldable pub note_event : Action (Unit {0})
  note_event = do
    st ← current
    now ← gets (λ w. w.now)
    save_recon_state (record st { last_ws_event_at = some now })
    pure tt

  -- What follows an acknowledged reconciliation.
  unfoldable pub note_ack : String → Action (Unit {0})
  note_ack ack = do
    st ← current
    save_recon_state (record st { last_ack_token = some ack })
    pure tt

  -- The end of `reconcile`: the stream may have dropped while it ran.
  unfoldable pub check_result : Bool → ReconResult → Action (Unit {0})
  check_result connected result =
      if not connected && is_healthy result.status
      then set_down degraded "reconciled but websocket not connected"
      else pure tt

-- Whether the stream is connected; the state before the run that is under way; a result whose check is
-- still to come; the ledger that a touch has read; the ledger.
pub record Worker : Type 0 where
  pub connected : Bool
  pub running : Option ReconciliationState
  pub unchecked : Option ReconResult
  pub touching : Option World
  pub world : World

module _ (x : Executor) (cfg : Config) (py : Platform) where
  pub data Step : Worker → Worker → Type 0 where
    connection_opened :
        (s : Worker) (detail : String)
        → Step s (record s {
          connected = false;
          world = (on_connecting cfg.bot_instance_id detail s.world).1;
        })
    connection_lost :
        (s : Worker) (detail : String)
        → Step s (record s {
          connected = false;
          world = (on_disconnected cfg.bot_instance_id detail s.world).1;
        })
    subscribed :
        (s : Worker)
        → Step s
            (record s { connected = true; world = (on_subscribed cfg.bot_instance_id s.world).1 })
    -- under the lock: one run at a time, up to its check
    run_begun :
        (s : Worker) (why : String)
        → s.running ≡ none
        → s.unchecked ≡ none
        → Step s (record s {
          running = some (get_recon_state cfg.bot_instance_id s.world.db);
          world =
              (set_state cfg.bot_instance_id reconciling
                ("reconciling (" <> why <> ")")
                false
                s.world).1;
        })
    -- whatever its checks came to; what they write is `elsewhere`
    run_ended :
        (s : Worker) (previous : ReconciliationState) (key why : String) (started : ℕ) (ack : Bool)
        (c : Checked) (r : ReconResult)
        → s.running ≡ some previous
        → (conclude x cfg py key why started previous ack c s.world).0 ≡ ok r
        → Step s (record s {
          running = none;
          unchecked = some r;
          world = (conclude x cfg py key why started previous ack c s.world).1;
        })
    checked :
        (s : Worker) (r : ReconResult)
        → s.unchecked ≡ some r
        → Step s (record s {
          unchecked = none;
          world = (check_result cfg.bot_instance_id s.connected r s.world).1;
        })
    -- `touch` in its thread: two transactions
    touch_read : (s : Worker) → s.touching ≡ none → Step s (record s { touching = some s.world })
    touch_saved :
        (s : Worker) (w : World)
        → s.touching ≡ some w
        → Step s (record s {
          touching = none;
          world = (save_recon_state (get_recon_state cfg.bot_instance_id w.db) s.world).1;
        })
    event_seen :
        (s : Worker) → Step s (record s { world = (note_event cfg.bot_instance_id s.world).1 })
    acknowledged :
        (s : Worker) (ack : String)
        → Step s (record s { world = (note_ack cfg.bot_instance_id ack s.world).1 })
    -- a run's checks, the ingestion of an event, the delivery of messages, the other processes
    elsewhere :
        (s : Worker) (w : World)
        → w.db.reconciliation_state ≡ s.world.db.reconciliation_state
        → Step s (record s { world = w })

  pub data Steps : Worker → Worker → Type 0 where
    stay : (s : Worker) → Steps s s
    then_step : (s t u : Worker) → Steps s t → Step t u → Steps s u

  -- No touch saves another status than the one that is stored: none changed since it read.
  abbrev pub IsUndisturbed : (s t : Worker) → Step s t → Type 0
  IsUndisturbed _ _ (touch_saved s w held) =
      (get_recon_state cfg.bot_instance_id w.db).status
      ≡ (get_recon_state cfg.bot_instance_id s.world.db).status
  IsUndisturbed _ _ _ = Unit {0}

  abbrev pub AllUndisturbed : (s t : Worker) → Steps s t → Type 0
  AllUndisturbed _ _ (stay s) = Unit {0}
  AllUndisturbed _ _ (then_step s t u before last) =
      AllUndisturbed s t before × IsUndisturbed t u last
