-- ===== src/Engine/Dispatch.antt =====
-- engine/application/outbox.py: `OutboxDispatcher.flush`. What the control plane and the notifier
-- answer to a message, and how long they take (microseconds), is the parameter `deliver`: it may depend
-- on the message and on the number of deliveries before it.
use cryptoaibot.Common.{
  String, ℕ, suc, ◌+◌, ◌*◌, ◌^◌, ◌≤◌, min, Bool, true, false, Option, none, some, List, [], ◌∷◌,
  leb, if◌then◌else◌,
}
use cryptoaibot.Exec.{
  Result, ok, err, Error, control_plane_rejected, value_error, message, pure, gets, ◌>>=◌, ◌>>◌,
}
use cryptoaibot.Domain.Recon.{microseconds_per_second}
use cryptoaibot.Store.Tables.{World, Action, Kind, OutboxRow}
use cryptoaibot.Store.Outbox.{pending_outbox, mark_outbox_sent, mark_outbox_failed}
use cryptoaibot.Store.Leases.{acquire_lease}
pub mod Delivery
pub mod Progress

abbrev pub lease_name : String
lease_name = "outbox-dispatch"

abbrev pub lease_ttl_seconds : ℕ
lease_ttl_seconds = 60

-- `kind in CP_KINDS`
abbrev pub is_control_plane : Kind → Bool
is_control_plane Kind.telegram = false
is_control_plane Kind.other = false
is_control_plane _ = true

-- min(600, 2 ** min(attempts, 9)) seconds
unfoldable pub delay : ℕ → ℕ
delay attempts = min 600 (2 ^ min attempts 9)

pub record Outside : Type 0 where
  pub has_notifier : Bool
  pub deliver : OutboxRow → ℕ → Result (Unit {0}) × ℕ

module _ (out : Outside) (max_attempts : ℕ) (owner : String) where
  unfoldable pub carry_out : OutboxRow → World → Result (Result (Unit {0})) × World
  carry_out row w =
      let (r, took) = out.deliver row w.requests in
      (ok r, record w { requests = w.requests + 1; now = w.now + took })

  -- The `try` block: an exception is its value.
  unfoldable pub attempt_kind : Kind → OutboxRow → Action (Result (Unit {0}))
  attempt_kind Kind.telegram row = if out.has_notifier then carry_out row else pure (ok tt)
  attempt_kind Kind.other row = pure (err (value_error "unknown outbox kind"))
  attempt_kind _ row = carry_out row

  -- What follows the attempt: sent, dead-lettered, or to be tried again; `rest` is the loop's rest.
  unfoldable pub settle : OutboxRow → ℕ → (ℕ → Action ℕ) → Result (Unit {0}) → Action ℕ
  settle row sent rest (ok _) = do mark_outbox_sent row.id; rest (sent + 1)
  settle row sent rest (err (control_plane_rejected m)) = do
    now ← gets (λ w. w.now)
    mark_outbox_failed row.id m now true
    rest sent
  settle row sent rest (err e) = do
    now ← gets (λ w. w.now)
    let attempts = row.attempts + 1
    mark_outbox_failed row.id (message e) (now + delay attempts * microseconds_per_second)
        (leb max_attempts attempts)
    if is_control_plane row.kind then pure sent else rest sent

  -- One row: the lease is renewed before it, and a lost lease ends the flush.
  unfoldable pub deliver_row : OutboxRow → ℕ → (ℕ → Action ℕ) → Bool → Action ℕ
  deliver_row row sent rest false = pure sent
  deliver_row row sent rest true = do
    answer ← attempt_kind row.kind row
    settle row sent rest answer

  unfoldable pub flush_rows : List OutboxRow → ℕ → Action ℕ
  flush_rows [] sent = pure sent
  flush_rows (row ∷ rows) sent = do
    held ← acquire_lease lease_name owner lease_ttl_seconds
    deliver_row row sent (flush_rows rows) held

  unfoldable pub flush_held : ℕ → Bool → Action ℕ
  flush_held limit false = pure 0
  flush_held limit true = do rows ← gets (λ w. pending_outbox w.now limit w.db); flush_rows rows 0

  -- `flush`: the number of messages sent
  unfoldable pub flush : ℕ → Action ℕ
  flush limit = do held ← acquire_lease lease_name owner lease_ttl_seconds; flush_held limit held
