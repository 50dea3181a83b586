-- ===== src/Engine/Dispatch/Progress.antt =====
-- engine/application/outbox.py: a flush comes to its end.
use cryptoaibot.Common.{
  String, ◌≡◌, refl, ℕ, ◌+◌, ◌*◌, ◌≤◌, Bool, true, false, List, [], ◌∷◌, arith, length,
  length-take-le, select, ◌&&◌, Bool-cases, inl, inr, leb,
}
use cryptoaibot.Exec.{Result, ok, err, control_plane_rejected, pure, ◌>>=◌, continue, message}
use cryptoaibot.Domain.Recon.{microseconds_per_second}
use cryptoaibot.Store.Tables.{World, Action, Kind, OutboxRow}
use cryptoaibot.Store.Outbox.{is_pending, pending_outbox, mark_outbox_sent, mark_outbox_failed}
use cryptoaibot.Store.Leases.{acquire_lease, take_lease, is_held_by_other, get_lease}
use cryptoaibot.Store.Transaction.{transaction}
use cryptoaibot.Engine.Dispatch.{
  Outside, lease_name, lease_ttl_seconds, carry_out, attempt_kind, settle, deliver_row, flush_rows,
  flush_held, flush, is_control_plane, delay,
}

-- The action returns at most `sent + k`, and makes at most `k` deliveries.
abbrev Returns : ℕ → ℕ → Action ℕ → Type 0
Returns sent k m =
    (w : World) → (n : ℕ) × ((m w).0 ≡ ok n) × (n ≤ sent + k) × ((m w).1.requests ≤ w.requests + k)

Returns-pure : (sent k : ℕ) → Returns sent k (pure sent)
unfolding pure
Returns-pure sent k w = (sent, refl, omega arith, omega arith)

acquire_lease-ok :
    (name owner : String) (ttl : ℕ) (w : World)
    → (b : Bool) × ((acquire_lease name owner ttl w).0 ≡ ok b)
      × ((acquire_lease name owner ttl w).1.requests ≡ w.requests)
unfolding acquire_lease take_lease transaction
acquire_lease-ok name owner ttl w =
    elim (Bool-cases (is_held_by_other (get_lease name w.db.leases) owner w.now)) [
      | inl held ↦ rw held (false, refl, refl)
      | inr free ↦ rw free (true, refl, refl)
    ]

module _ (out : Outside) (max_attempts : ℕ) (owner : String) where
  -- An attempt is an answer, and at most one delivery.
  attempt_kind-ok :
      (k : Kind) (row : OutboxRow) (w : World)
      → (r : Result (Unit {0})) × ((attempt_kind out max_attempts owner k row w).0 ≡ ok r)
        × ((attempt_kind out max_attempts owner k row w).1.requests ≤ w.requests + 1)
  unfolding attempt_kind carry_out pure
  attempt_kind-ok Kind.telegram row w = elim (Bool-cases out.has_notifier) [
    | inl there ↦ rw there ((out.deliver row w.requests).0, refl, omega arith)
    | inr missing ↦ rw missing (ok tt, refl, omega arith)
  ]
  attempt_kind-ok Kind.other row w = (err _, refl, omega arith)
  attempt_kind-ok Kind.signals row w = ((out.deliver row w.requests).0, refl, omega arith)
  attempt_kind-ok Kind.orders row w = ((out.deliver row w.requests).0, refl, omega arith)
  attempt_kind-ok Kind.fills row w = ((out.deliver row w.requests).0, refl, omega arith)
  attempt_kind-ok Kind.reconciliation row w = ((out.deliver row w.requests).0, refl, omega arith)
  attempt_kind-ok Kind.events row w = ((out.deliver row w.requests).0, refl, omega arith)
  attempt_kind-ok Kind.positions row w = ((out.deliver row w.requests).0, refl, omega arith)

  settle-Returns :
      (row : OutboxRow) (sent k : ℕ) (rest : ℕ → Action ℕ) (r : Result (Unit {0})) (w : World)
      → ((s : ℕ) → Returns s k (rest s))
      → (n : ℕ) × ((settle out max_attempts owner row sent rest r w).0 ≡ ok n)
        × (n ≤ sent + 1 + k)
        × ((settle out max_attempts owner row sent rest r w).1.requests ≤ w.requests + k)
  unfolding settle ◌>>=◌ mark_outbox_sent mark_outbox_failed transaction
  settle-Returns row sent k rest (ok u) w h =
      let (n, returned, few, asked) = h (sent + 1) (mark_outbox_sent row.id w).1 in
      (n, returned, omega (arith, few), asked)
  settle-Returns row sent k rest (err (control_plane_rejected m)) w h =
      let (n, returned, few, asked) = h sent (mark_outbox_failed row.id m w.now true w).1 in
      (n, returned, omega (arith, few), asked)
  settle-Returns row sent k rest (err e) w h = elim (Bool-cases (is_control_plane row.kind)) [
    | inl stops ↦ rw stops (sent, refl, omega arith, omega arith)
    | inr goes_on ↦
        let (n, returned, few, asked) =
          h sent
            (mark_outbox_failed row.id (message e)
              (w.now + delay (row.attempts + 1) * microseconds_per_second)
              (leb max_attempts (row.attempts + 1)) w).1 in
        rw goes_on (n, returned, omega (arith, few), asked)
  ]

  deliver_row-Returns :
      (row : OutboxRow) (sent k : ℕ) (rest : ℕ → Action ℕ) (held : Bool) (w : World)
      → ((s : ℕ) → Returns s k (rest s))
      → (n : ℕ) × ((deliver_row out max_attempts owner row sent rest held w).0 ≡ ok n)
        × (n ≤ sent + (1 + k))
        × ((deliver_row out max_attempts owner row sent rest held w).1.requests
            ≤ w.requests + (1 + k))
  unfolding deliver_row ◌>>=◌
  deliver_row-Returns row sent k rest false w h = Returns-pure sent (1 + k) w
  deliver_row-Returns row sent k rest true w h =
      after_attempt (attempt_kind out max_attempts owner row.kind row w)
        (attempt_kind-ok row.kind row w)
    where
      after_attempt :
          (p : Result (Result (Unit {0})) × World)
          → (r : Result (Unit {0})) × (p.0 ≡ ok r) × (p.1.requests ≤ w.requests + 1)
          → (n : ℕ) × ((continue (settle out max_attempts owner row sent rest) p).0 ≡ ok n)
            × (n ≤ sent + (1 + k))
            × ((continue (settle out max_attempts owner row sent rest) p).1.requests
                ≤ w.requests + (1 + k))
      after_attempt (ok r, v) (r', returned, once) =
          let (n, ends, few, asked) = settle-Returns row sent k rest r v h in
          (n, ends, omega (arith, few), omega (arith, asked, once))
      after_attempt (err e, v) (r', returned, once) = cc returned

  -- After the lease is renewed, or lost.
  after_lease :
      (row : OutboxRow) (sent k requests : ℕ) (rest : ℕ → Action ℕ) (p : Result Bool × World)
      → (b : Bool) × (p.0 ≡ ok b) × (p.1.requests ≡ requests)
      → ((s : ℕ) → Returns s k (rest s))
      → (n : ℕ) × ((continue (deliver_row out max_attempts owner row sent rest) p).0 ≡ ok n)
        × (n ≤ sent + (1 + k))
        × ((continue (deliver_row out max_attempts owner row sent rest) p).1.requests
            ≤ requests + (1 + k))
  after_lease row sent k requests rest (ok held, v) (b, returned, same) h =
      let (n, ends, few, asked) = deliver_row-Returns row sent k rest held v h in
      (n, ends, few, omega (arith, asked, same))
  after_lease row sent k requests rest (err e, v) (b, returned, same) h = cc returned

  flush_rows-Returns :
      (rows : List OutboxRow) (sent : ℕ)
      → Returns sent (length rows) (flush_rows out max_attempts owner rows sent)
  unfolding flush_rows ◌>>=◌
  flush_rows-Returns [] sent w = Returns-pure sent 0 w
  flush_rows-Returns (row ∷ rows) sent w =
      let (n, ends, few, asked) =
        after_lease row sent (length rows) w.requests (flush_rows out max_attempts owner rows)
          (acquire_lease lease_name owner lease_ttl_seconds w)
          (acquire_lease-ok lease_name owner lease_ttl_seconds w)
          (λ s. flush_rows-Returns rows s) in
      (n, ends, omega (arith, few), omega (arith, asked))

  after_first_lease :
      (limit requests : ℕ) (p : Result Bool × World)
      → (b : Bool) × (p.0 ≡ ok b) × (p.1.requests ≡ requests)
      → (n : ℕ) × ((continue (flush_held out max_attempts owner limit) p).0 ≡ ok n)
        × (n ≤ limit)
        × ((continue (flush_held out max_attempts owner limit) p).1.requests ≤ requests + limit)
  unfolding flush_held ◌>>=◌ pending_outbox
  after_first_lease limit requests (ok false, v) (b, returned, same) =
      (0, refl, omega arith, omega (arith, same))
  after_first_lease limit requests (ok true, v) (b, returned, same) =
      let (n, ends, few, asked) = flush_rows-Returns (pending_outbox v.now limit v.db) 0 v in
      let short =
        length-take-le limit
          (select (λ r. is_pending r.status && leb r.next_attempt_at v.now) v.db.outbox) in
      (n, ends, omega (arith, few, short), omega (arith, asked, same, short))
  after_first_lease limit requests (err e, v) (b, returned, same) = cc returned

  -- A flush ends without an exception, whatever the control plane and the notifier answer or raise, and
  -- however long they take: it returns a count of at most `limit` messages sent, after at most
  -- `limit` deliveries.
  pub flush_returns :
      (limit : ℕ) (w : World)
      → (n : ℕ) × ((flush out max_attempts owner limit w).0 ≡ ok n)
        × (n ≤ limit)
        × ((flush out max_attempts owner limit w).1.requests ≤ w.requests + limit)
  unfolding flush ◌>>=◌
  flush_returns limit w =
      after_first_lease limit w.requests (acquire_lease lease_name owner lease_ttl_seconds w)
        (acquire_lease-ok lease_name owner lease_ttl_seconds w)
