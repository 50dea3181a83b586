-- ===== src/Store/Leases/Exclusion.antt =====
-- engine/infrastructure/store.py, `acquire_lease`: two owners that ask for one lease.
use cryptoaibot.Common.{
  String, ℕ, ◌+◌, ◌*◌, ◌<◌, ◌≡◌, refl, ap, true, false, some, List, [], ◌∷◌, lt→ltb, str_eq,
  str_eq_refl, find, Bool-cases, inl, inr, arith,
}
use cryptoaibot.Exec.{ok}
use cryptoaibot.Domain.Recon.{microseconds_per_second}
use cryptoaibot.Store.Tables.{World, Lease}
use cryptoaibot.Store.Transaction.{transaction}
use cryptoaibot.Store.Leases.{get_lease, upsert_lease, acquire_lease, take_lease, is_held_by_other}

get_lease-upsert : (l : Lease) (ls : List Lease) → get_lease l.name (upsert_lease l ls) ≡ some l
unfolding get_lease upsert_lease find
get_lease-upsert l [] = rw (str_eq_refl l.name) refl
get_lease-upsert l (m ∷ ms) = elim (Bool-cases (str_eq m.name l.name)) [
  | inl same ↦ rw (same, str_eq_refl l.name) refl
  | inr other ↦ rw (other, other, get_lease-upsert l ms) refl
]

-- The row of a lease that was just acquired.
acquired_lease :
    (name owner : String) (ttl : ℕ) (w : World)
    → (acquire_lease name owner ttl w).0 ≡ ok true
    → get_lease name (acquire_lease name owner ttl w).1.db.leases
      ≡ some (record {
        name = name;
        owner = owner;
        expires_at = w.now + ttl * microseconds_per_second;
      })
unfolding acquire_lease take_lease transaction
acquired_lease name owner ttl w acquired =
    elim (Bool-cases (is_held_by_other (get_lease name w.db.leases) owner w.now)) [
      | inl held ↦ ground (arith, held, acquired)
      | inr free ↦ rw free (
          get_lease-upsert
            (record {
              name = name;
              owner = owner;
              expires_at = w.now + ttl * microseconds_per_second;
            })
            w.db.leases)
    ]

-- Once an owner has acquired a lease, another owner that asks before it runs out is refused, and
-- changes nothing, whatever the clock says and whatever happened to the other tables in between.
pub acquire_lease_excludes :
    (name owner other : String) (ttl ttl' : ℕ) (w v : World)
    → (acquire_lease name owner ttl w).0 ≡ ok true
    → v.db.leases ≡ (acquire_lease name owner ttl w).1.db.leases
    → str_eq owner other ≡ false
    → v.now < w.now + ttl * microseconds_per_second
    → acquire_lease name other ttl' v ≡ (ok false, v)
unfolding acquire_lease take_lease transaction
acquire_lease_excludes name owner other ttl ttl' w v acquired same different early =
    rw
      (
        ap (get_lease name) same,
        acquired_lease name owner ttl w acquired,
        different,
        lt→ltb v.now (w.now + ttl * microseconds_per_second) early,
      )
      refl
