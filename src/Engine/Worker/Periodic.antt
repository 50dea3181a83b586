-- ===== src/Engine/Worker/Periodic.antt =====
-- workers/reconciliation_worker.py: `_periodic`, turn by turn, and `reconcile`. What the other tasks
-- store while a turn waits is left out of it; the heartbeat, which stores nothing, is not modelled.
use cryptoaibot.Common.{
  String, ℕ, zero, ◌+◌, ◌%◌, Bool, true, false, not, ◌&&◌, Option, none, some, List, [], ◌∷◌, ltb,
  ◌==◌, truthy, opt_str_eq, if◌then◌else◌,
}
use cryptoaibot.Exec.{Result, ok, err, external, pure, lift, ◌>>=◌, ◌>>◌}
use cryptoaibot.Store.Tables.{Action}
use cryptoaibot.Engine.Config.{Config, Platform}
use cryptoaibot.Engine.Dispatch.{Outside, flush}
use cryptoaibot.Engine.Executor.{Executor}
use cryptoaibot.Engine.Process.{survive}
use cryptoaibot.Engine.Recon.Service.{ReconResult, run, touch}
use cryptoaibot.Engine.Trading.Decisions.{Control}
use cryptoaibot.Engine.Worker.{check_result, note_ack}

abbrev pub touch_seconds : ℕ
touch_seconds = 15

abbrev pub control_poll_seconds : ℕ
control_poll_seconds = 30

-- What a turn meets: the answer of the control plane, the keys of its reconciliations, and
-- `self.connected` each time that it is read.
pub record Meanwhile : Type 0 where
  pub control : Result Control
  pub ack_key : String
  pub key : String
  pub connected_after_ack : Bool
  pub connected : Bool
  pub connected_after : Bool

-- The locals of the loop.
pub record Loop : Type 0 where
  pub elapsed : ℕ
  pub last_ack : Option String

abbrev pub slept : Loop → Loop
slept l = record l { elapsed = l.elapsed + touch_seconds }

-- `elapsed % RECONCILE_INTERVAL_SECONDS < TOUCH_SECONDS`
unfoldable pub is_due : ℕ → ℕ → Result Bool
is_due elapsed zero = err (external "integer modulo by zero")
is_due elapsed interval = ok (ltb (elapsed % interval) touch_seconds)

-- `ack and ack != last_ack`
unfoldable pub is_new_ack : Option String → Option String → Bool
is_new_ack ack last_ack = truthy ack && not (opt_str_eq ack last_ack)

-- The value of `last_ack` after the control plane was asked.
unfoldable pub ack_after : Option String → Result Control → Option String
ack_after last_ack (err e) = last_ack
ack_after last_ack (ok c) =
    if is_new_ack c.reconciliation_ack_token last_ack then c.reconciliation_ack_token else last_ack

module _ (x : Executor) (cfg : Config) (py : Platform) (out : Outside) where
  unfoldable pub reconcile : String → String → Bool → Bool → Action ReconResult
  reconcile key reason operator_ack connected_after = do
    result ← run x cfg py key reason operator_ack
    check_result cfg.bot_instance_id connected_after result
    pure result

  unfoldable pub acknowledge : Option String → Meanwhile → Action (Unit {0})
  acknowledge none given = pure tt
  acknowledge (some ack) given = do
    reconcile given.ack_key "operator acknowledgement" true given.connected_after_ack
    note_ack cfg.bot_instance_id ack

  unfoldable pub poll : Option String → Meanwhile → Action (Unit {0})
  poll last_ack given = do
    control ← lift given.control
    if is_new_ack control.reconciliation_ack_token last_ack
        then acknowledge control.reconciliation_ack_token given
        else pure tt

  module _ (interval max_attempts : ℕ) (owner : String) where
    unfoldable pub polled : Loop → Meanwhile → Action (Option String)
    polled l given =
        if (l.elapsed % control_poll_seconds) == 0
        then (do survive (poll l.last_ack given); pure (ack_after l.last_ack given.control))
        else pure l.last_ack

    unfoldable pub reconcile_if : Bool → Meanwhile → Action (Unit {0})
    reconcile_if due given =
        if due
        then (do reconcile given.key "periodic" false given.connected_after; pure tt)
        else pure tt

    unfoldable pub reconcile_when_due : ℕ → Meanwhile → Action (Unit {0})
    reconcile_when_due elapsed given =
        if given.connected
        then (do due ← lift (is_due elapsed interval); reconcile_if due given)
        else pure tt

    -- The body of the loop, after its sleep.
    unfoldable pub periodic : Loop → Meanwhile → Action Loop
    periodic l given = do
      touch cfg.bot_instance_id
      ack ← polled (slept l) given
      reconcile_when_due (l.elapsed + touch_seconds) given
      survive (flush out max_attempts owner 200)
      pure (record (slept l) { last_ack = ack })

    -- An exception ends the loop.
    unfoldable pub turns : Loop → List Meanwhile → Action Loop
    turns l [] = pure l
    turns l (given ∷ rest) = do next ← periodic l given; turns next rest
