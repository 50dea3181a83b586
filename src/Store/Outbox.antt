-- ===== src/Store/Outbox.antt =====
-- engine/infrastructure/store.py: `outbox`.
use cryptoaibot.Common.{
  String, ℕ, ◌+◌, Bool, true, false, ◌&&◌, none, some, List, [], ◌∷◌, ◌++◌, leb, ◌==◌, str_eq,
  if◌then◌else◌, length, any, select, update, take,
}
use cryptoaibot.Exec.{ok}
use cryptoaibot.Store.Tables.{Database, Action, Kind, Payload, OutboxStatus, OutboxRow}
use cryptoaibot.Store.Transaction.{transaction}

unfoldable pub has_idempotency_key : String → OutboxRow → Bool
has_idempotency_key key r = str_eq r.idempotency_key key

unfoldable pub insert_message : Kind → String → Payload → Action Bool
insert_message kind key payload w =
    let d = w.db in
    let row : OutboxRow = record {
      id = length d.outbox + 1;
      kind = kind;
      idempotency_key = key;
      payload = payload;
      status = OutboxStatus.pending;
      attempts = 0;
      next_attempt_at = w.now;
      last_error = none;
      sent_at = none;
    } in
    if any (has_idempotency_key key) d.outbox
    then (ok false, w)
    else (ok true, record w { db = record d { outbox = d.outbox ++ row ∷ [] } })

-- `enqueue`: at most one message for a key.
unfoldable pub enqueue : Kind → String → Payload → Action Bool
enqueue kind key payload = transaction (insert_message kind key payload)

abbrev pub is_pending : OutboxStatus → Bool
is_pending OutboxStatus.pending = true
is_pending _ = false

-- `pending_outbox`: what is due, oldest first.
unfoldable pub pending_outbox : ℕ → ℕ → Database → List OutboxRow
pending_outbox now limit d =
    take limit (select (λ r. is_pending r.status && leb r.next_attempt_at now) d.outbox)

set_sent : ℕ → OutboxRow → OutboxRow
set_sent now r = record r { status = OutboxStatus.sent; sent_at = some now }

unfoldable pub mark_outbox_sent : ℕ → Action (Unit {0})
unfolding set_sent
mark_outbox_sent id = transaction (λ w. (
  ok tt,
  record w { db = record w.db { outbox = update (λ r. r.id == id) (set_sent w.now) w.db.outbox } },
))

set_failed : String → ℕ → Bool → OutboxRow → OutboxRow
set_failed error next dead r = record r {
  attempts = r.attempts + 1;
  last_error = some error;
  next_attempt_at = next;
  status = if dead then OutboxStatus.dead else OutboxStatus.pending;
}

-- `error[:500]` is not cut here: `last_error` is only shown.
unfoldable pub mark_outbox_failed : ℕ → String → ℕ → Bool → Action (Unit {0})
unfolding set_failed
mark_outbox_failed id error next dead = transaction (λ w. (
  ok tt,
  record w {
    db = record w.db { outbox = update (λ r. r.id == id) (set_failed error next dead) w.db.outbox };
  },
))

unfoldable pub outbox_backlog : Database → ℕ
outbox_backlog d = length (select (λ r. is_pending r.status) d.outbox)
