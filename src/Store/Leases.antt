-- ===== src/Store/Leases.antt =====
-- engine/infrastructure/store.py: `leases`. One owner at a time, until the lease runs out.
use cryptoaibot.Common.{
  String, ℕ, ◌+◌, ◌*◌, ◌<◌, ◌≡◌, Bool, true, false, not, ◌&&◌, Option, none, some, List, [], ◌∷◌,
  ltb, str_eq, if◌then◌else◌, find, select, arith,
}
use cryptoaibot.Exec.{Result, ok, Error}
use cryptoaibot.Domain.Recon.{microseconds_per_second}
use cryptoaibot.Store.Tables.{Database, Lease, Action, World}
use cryptoaibot.Store.Transaction.{transaction}
pub mod Exclusion

unfoldable pub get_lease : String → List Lease → Option Lease
get_lease name ls = find (λ l. str_eq l.name name) ls

unfoldable pub upsert_lease : Lease → List Lease → List Lease
upsert_lease l [] = l ∷ []
upsert_lease l (m ∷ ms) = if str_eq m.name l.name then l ∷ ms else m ∷ upsert_lease l ms

-- Another owner's lease that has not run out.
abbrev pub is_held_by_other : Option Lease → String → ℕ → Bool
is_held_by_other none owner now = false
is_held_by_other (some l) owner now = not (str_eq l.owner owner) && ltb now l.expires_at

unfoldable pub take_lease : String → String → ℕ → Action Bool
take_lease name owner ttl w =
    let l : Lease = record {
      name = name;
      owner = owner;
      expires_at = w.now + ttl * microseconds_per_second;
    } in
    if is_held_by_other (get_lease name w.db.leases) owner w.now
    then (ok false, w)
    else (ok true, record w { db = record w.db { leases = upsert_lease l w.db.leases } })

unfoldable pub acquire_lease : String → String → ℕ → Action Bool
acquire_lease name owner ttl = transaction (take_lease name owner ttl)

unfoldable pub release_lease : String → String → Action (Unit {0})
release_lease name owner = transaction (λ w. (
  ok tt,
  record w {
    db = record w.db {
      leases = select (λ l. not (str_eq l.name name && str_eq l.owner owner)) w.db.leases;
    };
  },
))
